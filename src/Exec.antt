-- ===== src/Exec.antt =====
-- src/exec.rs: what a forked child does until it becomes the worker. Each step returns how it ended
-- and what has been done so far.
pub mod Becomes
pub mod Child
pub mod Configured
pub mod Environment
pub mod Exits
pub mod Reports
use Prim.Native.String.{◌++◌}
use mathlib.Core.List.{◌++◌ as ◌++ₗ◌}
use fectl.Prelude.{
  ℕ, String, Bool, true, false, ◌||◌, Option, none, some, List, [], ◌∷◌, leb, length, take, drop,
  if◌then◌else◌,
}
use fectl.Config.{ServiceConfig}
use fectl.Process.Error.{worker_init_failed, worker_boot_failed}
use fectl.Protocol.{WorkerCommand, WorkerMessage}
use fectl.System.{Io}
use fectl.Transport.{encode, read_u16}
use fectl.Utils.{split_whitespace, find_path, get_env_vars}
use fectl.Steps.{ok, ended, pure, perform, ◌>>=◌, ◌>>◌}
use Child.{Surroundings, Effect, ChildAction, panicked, exit}

-- The worker to be: its path, its arguments and its environment.
pub record Program : Type 0 where
  pub path : String
  pub args : List String
  pub env : List String

module _ (m : Surroundings) where
  unfoldable pub send_msg : ℕ → WorkerMessage → ChildAction (Unit {0})
  send_msg fd msg = elim (m.write_all fd (encode m.to_string msg [])) [
    | none ↦ perform (Effect.sent fd msg)
    | some err ↦ exit worker_init_failed
  ]

  -- The configuration is at fault: the message goes to descriptor `fd`.
  unfoldable pub refuse : {A : Type 0} → ℕ → String → ChildAction A
  unfolding send_msg
  refuse fd text = do send_msg fd (WorkerMessage.cfgerror text); exit worker_init_failed

  -- `read_exact`
  unfoldable pub read_exact : ℕ → List ℕ → Option (List ℕ × List ℕ)
  read_exact n input = if leb n (length input) then some (take n input, drop n input) else none

  unfoldable pub is_prepare : Option WorkerCommand → Bool
  is_prepare (some WorkerCommand.prepare) = true
  is_prepare _ = false

  unfoldable pub read_body : ℕ → List ℕ → ChildAction (Unit {0})
  unfolding read_exact is_prepare
  read_body size input = elim (read_exact size input) [
    | none ↦ exit worker_init_failed
    | some (buffer, rest) ↦
        if is_prepare (m.from_slice buffer) then pure tt else exit worker_init_failed
  ]

  unfoldable pub read_response : ChildAction (Unit {0})
  unfolding read_exact read_body
  read_response = elim (read_exact 2 m.input) [
    | none ↦ exit worker_init_failed
    | some (buffer, rest) ↦ read_body (read_u16 buffer) rest
  ]

  unfoldable pub change_dir : ℕ → Option String → ChildAction (Unit {0})
  unfolding refuse
  change_dir fd none = pure tt
  change_dir fd (some dir) = elim (m.chdir dir) [
    | none ↦ perform (Effect.entered dir)
    | some err ↦ refuse fd ("Can not change directory to " ++ dir)
  ]

  unfoldable pub set_uid : ℕ → Option ℕ → ChildAction (Unit {0})
  unfolding refuse
  set_uid fd none = pure tt
  set_uid fd (some uid) = elim (m.setuid uid) [
    | none ↦ perform (Effect.became_user uid)
    | some err ↦ refuse fd ("Can not set worker uid, err: " ++ err)
  ]

  -- `user` is the user that the process has switched to.
  unfoldable pub set_gid : ℕ → Option ℕ → Option ℕ → ChildAction (Unit {0})
  unfolding refuse
  set_gid fd user none = pure tt
  set_gid fd user (some gid) = elim (m.setgid user gid) [
    | none ↦ perform (Effect.became_group gid)
    | some err ↦ refuse fd ("Can not set worker gid, err: " ++ err)
  ]

  unfoldable pub any_nul : List String → Bool
  any_nul [] = false
  any_nul (s ∷ ss) = m.has_nul s || any_nul ss

  -- `CString::new(..).unwrap()` of several texts, or of one.
  unfoldable pub c_strings : List String → ChildAction (List String)
  unfolding any_nul
  c_strings ss es = if any_nul ss then (ended panicked, es) else (ok ss, es)

  unfoldable pub command_args : ℕ → List String → ChildAction (String × List String)
  unfolding refuse c_strings
  command_args fd [] = refuse fd "Can not find executable"
  command_args fd (name ∷ rest) = elim (find_path m.is_file m.paths name) [
    | none ↦ refuse fd ("Can not find executable: " ++ name)
    | some path ↦ do args ← c_strings (path ∷ rest); pure (path, args)
  ]

  -- `target` is the descriptor of the standard stream that `what` names.
  unfoldable pub redirect : ℕ → String → ℕ → Option String → ChildAction (Unit {0})
  unfolding refuse
  redirect fd what target none = pure tt
  redirect fd what target (some file) = elim (m.open_append file) [
    | Io.ok opened ↦ perform (Effect.redirected opened target)
    | Io.err err ↦ refuse fd ("Can open " ++ what ++ " file " ++ file ++ ": " ++ err)
  ]

  unfoldable pub worker_env : ℕ → ServiceConfig → ℕ → ℕ → List String
  worker_env idx cfg read write =
      get_env_vars true m.vars
      ++ₗ ("FECTL_FD=" ++ m.format_number read ++ ":" ++ m.format_number write)
        ∷ ("FECTL_SRV_NAME=" ++ cfg.name)
        ∷ ("FECTL_PROC_IDX=" ++ m.format_number idx)
        ∷ []

  -- The process becomes the program, or `execve` fails.
  unfoldable pub exec : Program → ChildAction Program
  exec p = elim (m.execve p.path p.args p.env) [
    | none ↦ pure p
    | some err ↦ exit worker_boot_failed
  ]

  -- All errors of the configuration are sent to `read`: in the code, the second binding of `file`
  -- hides the first one.
  unfoldable pub exec_worker : ℕ → ServiceConfig → ℕ → ℕ → ChildAction Program
  exec_worker idx cfg read write = do
    send_msg write WorkerMessage.forked
    read_response
    change_dir read cfg.directory
    set_uid read cfg.uid
    set_gid read cfg.uid cfg.gid
    (path, args) ← command_args read (split_whitespace cfg.command)
    redirect read "stdout" 1 cfg.stdout
    redirect read "stderr" 2 cfg.stderr
    env ← c_strings (worker_env idx cfg read write)
    exec (record { path = path; args = args; env = env })
