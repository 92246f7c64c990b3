-- ===== src/Worker/Restarts.antt =====
-- How often a worker that does not come up is started again.
use fectl.Prelude.{
  ◌+◌, ◌≤◌, ◌<◌, ◌≡◌, ◌≢◌, arith, All, Bool, true, false, List, [], ◌∷◌, ==_self, length,
}
use fectl.Event.{Reason}
use fectl.Process.Error.{ProcessError}
use fectl.System.{Pid, Os, ask}
use fectl.Worker.{Worker, WorkerState, note, send, start}
use fectl.Worker.Exits.{exited, starting_exited, count_restart}

abbrev pub is_starting : WorkerState → Bool
is_starting (WorkerState.starting p) = true
is_starting _ = false

abbrev starting_pid : WorkerState → Pid
starting_pid (WorkerState.starting p) = p.pid
starting_pid _ = 0

-- The process that the worker is starting is reported gone.
unfoldable pub crash : ProcessError → Worker → Os → Worker × Os
crash e w os = exited (starting_pid w.state) e w os

-- One process after the other is reported gone, each for a reason of its own.
unfoldable pub crashes : List ProcessError → Worker → Os → Worker × Os
crashes [] w os = (w, os)
crashes (e ∷ es) w os = let (w', os') = crash e w os in crashes es w' os'

-- The errors of the deaths that count: all but exit code 0.
abbrev pub IsCounted : ProcessError → Type 0
IsCounted e = e ≢ ProcessError.exit_code 0

crash_retries :
    (e : ProcessError) (w : Worker) (os : Os)
    → e ≢ ProcessError.exit_code 0
    → is_starting w.state ≡ true
    → w.cfg.restarts < 65536
    → w.restarts + 1 < w.cfg.restarts
    → let w' = (crash e w os).0 in
      (is_starting w'.state ≡ true) × (w'.restarts ≡ w.restarts + 1) × (w'.cfg ≡ w.cfg)
unfolding crash exited starting_exited count_restart note send start ask
crash_retries e w os h s b l = ground (arith, ==_self (starting_pid w.state))

crash_fails :
    (e : ProcessError) (w : Worker) (os : Os)
    → e ≢ ProcessError.exit_code 0
    → is_starting w.state ≡ true
    → w.restarts + 1 < 65536
    → w.cfg.restarts ≤ w.restarts + 1
    → (crash e w os).0.state ≡ WorkerState.failed
unfolding crash exited starting_exited count_restart note send start ask
crash_fails e w os h s b l = ground (arith, ==_self (starting_pid w.state))

-- While fewer than `restarts` failures are counted, the worker goes on starting.
pub crashes_retry :
    (es : List ProcessError) (w : Worker) (os : Os)
    → All IsCounted es
    → is_starting w.state ≡ true
    → w.cfg.restarts < 65536
    → w.restarts + length es < w.cfg.restarts
    → let w' = (crashes es w os).0 in
      (is_starting w'.state ≡ true) × (w'.restarts ≡ w.restarts + length es) × (w'.cfg ≡ w.cfg)
unfolding crashes
crashes_retry [] w os h s b l = ground arith
crashes_retry (e ∷ es) w os h s b l =
    let (w', os') = crash e w os in
    ground (arith, crash_retries e w os h.0, crashes_retry es w' os' h.1)

-- Once failed, a worker that is started from the console is given a single attempt: the count of
-- failures, which has reached `restarts`, is not reset by a start, and so the next failure, other
-- than exit code 0, marks the worker as failed again. The count fits its `u16`.
pub start_after_failure :
    (r : Reason) (e : ProcessError) (w : Worker) (os : Os)
    → e ≢ ProcessError.exit_code 0
    → w.state ≡ WorkerState.failed
    → w.cfg.restarts ≤ w.restarts
    → w.restarts + 1 < 65536
    → let (w', os') = start r w os in
      (is_starting w'.state ≡ true) × ((crash e w' os').0.state ≡ WorkerState.failed)
unfolding start note
start_after_failure r e w os h s l b =
    let (w', os') = start r w os in ground (arith, crash_fails e w' os')
