-- ===== src/Startup/HostCalls.antt =====
-- What a master finds on its host when it starts, and what it does there.
use fectl.Prelude.{ℕ, String, Option, List}
use fectl.Master.{MasterResponse}
use fectl.Probe.{Connection}
use fectl.Steps.{Action}
use fectl.System.{Io}

-- Of `bind` of the socket file.
pub data Binding : Type 0 where
  bound permission_denied addr_in_use : Binding
  other_error : String → Binding

-- The system calls, by their answers: `none` is a call that goes through, `some` its error. `bind`
-- is asked for the local address once a round. `setgid` is asked by a process that has switched to
-- the user given first, if to any. `write_pid` creates the file and writes the number of the process.
pub record Host : Type 0 where
  pub chdir : String → Option String
  pub bind : ℕ → Option String
  pub bind_socket : Binding
  pub connection : Connection
  pub from_slice : List ℕ → Option MasterResponse
  pub bind_socket_again : Option String
  pub write_pid : String → Option String
  pub setuid : ℕ → Option String
  pub setgid : Option ℕ → ℕ → Option String
  pub daemon : Option String
  pub open_append : String → Io ℕ
  pub from_std : Option String

-- What has gone through. `locked` is the local address, `started` are the actors of the master.
pub data Effect : Type 0 where
  locked listening socket_removed daemonized started : Effect
  slept closed masked became_user became_group : ℕ → Effect
  entered pid_saved : String → Effect
  redirected : ℕ → ℕ → Effect

-- `return false`, and a start that has not returned.
pub data Refusal : Type 0 where
  returned waiting : Refusal

-- A step of the start.
abbrev pub Start : Type 0 → Type 0
Start A = Action Effect Refusal A
