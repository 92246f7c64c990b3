-- ===== src/Exec/Child.antt =====
-- What the forked child finds around it, what it does there, and how its steps follow one another.
use fectl.Prelude.{ℕ, Bool, List, String, Option}
use fectl.Protocol.{WorkerCommand, WorkerMessage}
use fectl.Steps.{Action, stop}
use fectl.System.{Io}

-- The system calls, by their answers, and JSON. `none` is a call that goes through, `some` its
-- error. `input` is all that the master writes until it closes the pipe. `setgid` is asked by a
-- process that has switched to the user given first, if to any.
pub record Surroundings : Type 0 where
  pub to_string : WorkerMessage → List ℕ
  pub from_slice : List ℕ → Option WorkerCommand
  pub write_all : ℕ → List ℕ → Option String
  pub input : List ℕ
  pub chdir : String → Option String
  pub setuid : ℕ → Option String
  pub setgid : Option ℕ → ℕ → Option String
  pub is_file : String → Bool
  pub paths : Option (List String)
  pub open_append : String → Io ℕ
  pub vars : List (String × String)
  pub has_nul : String → Bool
  pub format_number : ℕ → String
  pub execve : String → List String → List String → Option String

-- What has gone through: `sent` is a message written to a descriptor, `redirected` a `dup2`.
pub data Effect : Type 0 where
  sent : ℕ → WorkerMessage → Effect
  entered : String → Effect
  became_user became_group : ℕ → Effect
  redirected : ℕ → ℕ → Effect

-- `exited` is `process::exit`, `panicked` a failed `unwrap`.
pub data Exit : Type 0 where
  exited : ℕ → Exit
  panicked : Exit

-- A step of the child.
abbrev pub ChildAction : Type 0 → Type 0
ChildAction A = Action Effect Exit A

abbrev pub exit : {A : Type 0} → ℕ → ChildAction A
exit code = stop (exited code)
