-- ===== src/System.antt =====
-- What the handlers of the master process share: the answers of the operating system and of the
-- clocks, which come from outside and are looked up by the number of the call, and the log of the
-- calls that the handlers make on other actors, newest first. The crates behind those calls (actix,
-- nix) are not modelled: a call is recorded and has no other effect.
use fectl.Prelude.{ℕ, suc, String, Bool, List, ◌∷◌}
use fectl.Process.Error.{ProcessError}
use fectl.Service.Status.{StartStatus, ReloadStatus}

-- An `i32` by its bit pattern, a number below 2^32.
abbrev pub Pid : Type 0
Pid = ℕ

-- `Pid::from_raw(-1)`
abbrev pub no_pid : Pid
no_pid = 4294967295

-- The address of an actor.
abbrev pub Addr : Type 0
Addr = ℕ

-- `Result<A, io::Error>`, the error by its text.
pub data Io {ℓ} (A : Type ℓ) : Type ℓ where
  ok : A → Io A
  err : String → Io A

-- The messages that a process actor takes from a worker.
pub data ProcessRequest : Type 0 where
  stop_process start_process pause_process resume_process : ProcessRequest
  quit_process : Bool → ProcessRequest

-- `set_*` answers all who wait for a condition; `run_later` handles a failure so many seconds later.
pub data Call : Type 0 where
  close : ℕ → Call
  create_process : Addr → ℕ → Pid → Call
  send_process : Addr → ProcessRequest → Call
  process_failed : Addr → ℕ → Pid → ProcessError → Call
  set_start : ℕ → StartStatus → Call
  set_reload : ℕ → ReloadStatus → Call
  set_stop : ℕ → Call
  run_later : ℕ → ℕ → Pid → ProcessError → Call

-- Instants in nanoseconds, the time of day in whole seconds since the epoch.
pub record Outside : Type 0 where
  pub pipe : ℕ → Io (ℕ × ℕ)
  pub fork : ℕ → Io Pid
  pub instant : ℕ → ℕ
  pub unix_secs : ℕ → ℕ
  pub format_pid : Pid → String
  pub format_number : ℕ → String

-- `asked` counts the questions to the outside; actors and conditions are numbered.
pub record Os : Type 0 where
  pub outside : Outside
  pub asked : ℕ
  pub next_addr : Addr
  pub next_condition : ℕ
  pub calls : List Call

unfoldable pub ask : Os → Os
ask os = record os { asked = suc os.asked }

unfoldable pub log : Call → Os → Os
log c os = record os { calls = c ∷ os.calls }
