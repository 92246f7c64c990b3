-- ===== src/Exec/Becomes.antt =====
-- A child becomes the worker where the system lets it.
use Prim.Native.String.{String}
use mathlib.Core.List.{◌++◌ as ◌++ₗ◌}
use fectl.Prelude.{
  All, take-length, ◌+◌, ◌*◌, ◌/◌, ◌%◌, ℕ, ◌≡◌, ◌<◌, ◌∙◌, refl, arith, String, false, Option, none,
  some, List, [], ◌∷◌, length,
}
use fectl.Config.{ServiceConfig}
use fectl.Exec.{
  Program, any_nul, c_strings, change_dir, command_args, exec, exec_worker, is_prepare, read_body,
  read_exact, read_response, redirect, send_msg, set_gid, set_uid, worker_env,
}
use fectl.Exec.Child.{
  ChildAction, Effect, Exit, Surroundings, became_group, became_user, entered, sent,
}
use fectl.Exec.Configured.{effects, plan, redirection}
use fectl.Exec.Environment.{environment, worker_env-environment}
use fectl.Protocol.{WorkerCommand, WorkerMessage}
use fectl.Steps.{Result, and_then, ok}
use fectl.System.{Io}
use fectl.Transport.{encode, put_u16_be, read_u16}
use fectl.Utils.{find_path, split_whitespace}

-- Every call of the system goes through, and the master answers the greeting by `prepare`, in the
-- frame that its codec makes.
pub record IsWilling (m : Surroundings) (print : WorkerCommand → List ℕ) : Type 0 where
  pub writes : (fd : ℕ) (text : List ℕ) → m.write_all fd text ≡ none
  pub answer : m.input ≡ encode print WorkerCommand.prepare []
  pub parses : m.from_slice (print WorkerCommand.prepare) ≡ some WorkerCommand.prepare
  pub short : length (print WorkerCommand.prepare) < 65536
  pub enters : (dir : String) → m.chdir dir ≡ none
  pub users : (uid : ℕ) → m.setuid uid ≡ none
  pub groups : (user : Option ℕ) (gid : ℕ) → m.setgid user gid ≡ none
  pub opens : (file : String) → (fd : ℕ) × (m.open_append file ≡ Io.ok fd)
  pub executes : (path : String) (args env : List String) → m.execve path args env ≡ none

-- No text has a null byte.
abbrev pub IsClean : Surroundings → List String → Type 0
IsClean m ss = All (λ s. m.has_nul s ≡ false) ss

then_ok :
    {A B : Type 0} (r : Result Exit A × List Effect) (f : A → ChildAction B) (a : A)
    (es : List Effect) (q : Result Exit B × List Effect)
    → r ≡ (ok a, es)
    → f a es ≡ q
    → and_then r f ≡ q
then_ok r f a es q e h = rw e h

module _ (m : Surroundings) (print : WorkerCommand → List ℕ) (w : IsWilling m print) where
  send_msg_ok :
      (fd : ℕ) (msg : WorkerMessage) (es : List Effect)
      → send_msg m fd msg es ≡ (ok tt, sent fd msg ∷ es)
  unfolding send_msg
  send_msg_ok fd msg es = grind (arith, w.writes fd)

  change_dir_ok :
      (fd : ℕ) (dir : Option String) (es : List Effect)
      → change_dir m fd dir es ≡ (ok tt, effects entered dir ++ₗ es)
  unfolding change_dir
  change_dir_ok fd none es = refl
  change_dir_ok fd (some dir) es = grind (arith, w.enters dir)

  set_uid_ok :
      (fd : ℕ) (uid : Option ℕ) (es : List Effect)
      → set_uid m fd uid es ≡ (ok tt, effects became_user uid ++ₗ es)
  unfolding set_uid
  set_uid_ok fd none es = refl
  set_uid_ok fd (some uid) es = grind (arith, w.users uid)

  set_gid_ok :
      (fd : ℕ) (user gid : Option ℕ) (es : List Effect)
      → set_gid m fd user gid es ≡ (ok tt, effects became_group gid ++ₗ es)
  unfolding set_gid
  set_gid_ok fd user none es = refl
  set_gid_ok fd user (some gid) es = grind (arith, w.groups user gid)

  redirect_ok :
      (fd : ℕ) (what : String) (target : ℕ) (file : Option String) (es : List Effect)
      → redirect m fd what target file es ≡ (ok tt, redirection m target file ++ₗ es)
  unfolding redirect
  redirect_ok fd what target none es = refl
  redirect_ok fd what target (some file) es = grind (arith, (w.opens file).1)

  any_nul-false : (ss : List String) → IsClean m ss → any_nul m ss ≡ false
  unfolding any_nul
  any_nul-false [] h = refl
  any_nul-false (s ∷ ss) h = rw h.0 (any_nul-false ss h.1)

  c_strings_ok :
      (ss : List String) (es : List Effect) → IsClean m ss → c_strings m ss es ≡ (ok ss, es)
  unfolding c_strings
  c_strings_ok ss es h = grind (arith, any_nul-false ss h)

  command_args_ok :
      (fd : ℕ) (words : List String) (name : String) (rest : List String) (path : String)
      (es : List Effect)
      → words ≡ name ∷ rest
      → find_path m.is_file m.paths name ≡ some path
      → IsClean m (path ∷ rest)
      → command_args m fd words es ≡ (ok (path, path ∷ rest), es)
  unfolding command_args
  command_args_ok fd words name rest path es e h clean =
      grind (arith, e, h, c_strings_ok (path ∷ rest) es clean)

  abbrev prepare : List ℕ
  prepare = print WorkerCommand.prepare

  read_body_ok : (es : List Effect) → read_body m (length prepare) prepare es ≡ (ok tt, es)
  unfolding read_body read_exact is_prepare
  read_body_ok es = grind (arith, take-length prepare, w.parses)

  input_prepare : m.input ≡ length prepare / 256 ∷ length prepare % 256 ∷ prepare
  unfolding encode put_u16_be
  input_prepare =
      let whole : length prepare % 65536 ≡ length prepare = omega (arith, w.short) in
      w.answer ∙ rw whole refl

  read_response_ok : (es : List Effect) → read_response m es ≡ (ok tt, es)
  unfolding read_response read_exact read_u16
  read_response_ok es =
      let size : length prepare / 256 * 256 + length prepare % 256 ≡ length prepare = omega arith in
      grind (arith, input_prepare, size, read_body_ok es)

  env_ok :
      (idx : ℕ) (cfg : ServiceConfig) (read write : ℕ) (es : List Effect)
      → IsClean m (environment m idx cfg read write)
      → c_strings m (worker_env m idx cfg read write) es
        ≡ (ok (environment m idx cfg read write), es)
  env_ok idx cfg read write es clean =
      rw (worker_env-environment m idx cfg read write)
        (c_strings_ok (environment m idx cfg read write) es clean)

  exec_ok : (p : Program) (es : List Effect) → exec m p es ≡ (ok p, es)
  unfolding exec
  exec_ok p es = grind (arith, w.executes p.path p.args p.env)

  -- Where every call of the system goes through, the master answers by `prepare`, the executable is
  -- found at `path`, and no null byte stands in its path, in its arguments or in its environment, the
  -- child becomes the worker: the program at `path`, with the words of the configured command as its
  -- arguments, the first one replaced by `path`, and with the variables that the child passes on and
  -- `FECTL_FD`, which holds the descriptors to read from and to write to, `FECTL_SRV_NAME` and
  -- `FECTL_PROC_IDX` as its environment, after all that the configuration says has been done in its
  -- order.
  pub exec_worker_becomes :
      (idx : ℕ) (cfg : ServiceConfig) (read write : ℕ) (name path : String) (rest : List String)
      → split_whitespace cfg.command ≡ name ∷ rest
      → find_path m.is_file m.paths name ≡ some path
      → IsClean m (path ∷ rest)
      → IsClean m (environment m idx cfg read write)
      → exec_worker m idx cfg read write [] ≡ (
        ok (record { path = path; args = path ∷ rest; env = environment m idx cfg read write }),
        plan m cfg write,
      )
  unfolding exec_worker
  exec_worker_becomes idx cfg read write name path rest words found clean passes =
      then_ok _ _ _ _ _ (send_msg_ok write WorkerMessage.forked []) (
        then_ok _ _ _ _ _ (read_response_ok _) (
          then_ok _ _ _ _ _ (change_dir_ok read cfg.directory _) (
            then_ok _ _ _ _ _ (set_uid_ok read cfg.uid _) (
              then_ok _ _ _ _ _ (set_gid_ok read cfg.uid cfg.gid _) (
                then_ok _ _ _ _ _
                  (command_args_ok read (split_whitespace cfg.command) name rest path _ words found
                    clean)
                  (then_ok _ _ _ _ _ (redirect_ok read "stdout" 1 cfg.stdout _) (
                    then_ok _ _ _ _ _ (redirect_ok read "stderr" 2 cfg.stderr _)
                      (then_ok _ _ _ _ _ (env_ok idx cfg read write _ passes) (exec_ok _ _)))))))))
