-- ===== src/Exec/Configured.antt =====
-- A child that becomes the worker has done all that the configuration says, in its order.
use fectl.Prelude.{ℕ, ◌≡◌, ◌⊎◌, inl, refl, arith, String, Option, none, some, List, [], ◌∷◌, ◌++◌}
use fectl.Config.{ServiceConfig}
use fectl.Process.Error.{worker_init_failed, worker_boot_failed}
use fectl.Protocol.{WorkerMessage}
use fectl.System.{Io}
use fectl.Utils.{split_whitespace}
use fectl.Exec.{
  Program, c_strings, change_dir, command_args, exec, exec_worker, read_body, read_exact,
  read_response, redirect, send_msg, set_gid, set_uid, worker_env,
}
use fectl.Exec.Child.{
  Surroundings, Effect, Exit, ChildAction, exited, panicked, sent, entered, became_user,
  became_group, redirected,
}
use fectl.Steps.{Result, and_then}
use fectl.Steps.Ends.{Ends, Ends-and_then, Ends-weaken}

-- What a setting brings about.
abbrev pub effects : {A : Type 0} → (A → Effect) → Option A → List Effect
effects f none = []
effects f (some a) = f a ∷ []

module _ (m : Surroundings) where
  abbrev pub opened : Io ℕ → ℕ → List Effect
  opened (Io.ok fd) target = redirected fd target ∷ []
  opened (Io.err e) target = []

  abbrev pub redirection : ℕ → Option String → List Effect
  redirection target none = []
  redirection target (some file) = opened (m.open_append file) target

  -- The plan of a worker: the newest effect stands first.
  abbrev pub plan : ServiceConfig → ℕ → List Effect
  plan cfg write =
      redirection 2 cfg.stderr
      ++ (redirection 1 cfg.stdout
          ++ (effects became_group cfg.gid
              ++ (effects became_user cfg.uid
                  ++ (effects entered cfg.directory ++ (sent write WorkerMessage.forked ∷ [])))))

  -- A panic is no concern of these conditions.
  abbrev Init : Exit → List Effect → Type 0
  Init (exited code) es = code ≡ worker_init_failed
  Init panicked es = Unit

  send_msg-Ends :
      (fd : ℕ) (msg : WorkerMessage) (es : List Effect)
      → Ends (λ u es'. es' ≡ sent fd msg ∷ es) Init (send_msg m fd msg es)
  unfolding send_msg
  send_msg-Ends fd msg es = ground arith

  read_response-Ends : (es : List Effect) → Ends (λ u es'. es' ≡ es) Init (read_response m es)
  unfolding read_response read_body read_exact
  read_response-Ends es = ground arith

  change_dir-Ends :
      (fd : ℕ) (dir : Option String) (es : List Effect)
      → Ends (λ u es'. es' ≡ effects entered dir ++ es) Init (change_dir m fd dir es)
  unfolding change_dir
  change_dir-Ends fd dir es = ground (arith)

  set_uid-Ends :
      (fd : ℕ) (uid : Option ℕ) (es : List Effect)
      → Ends (λ u es'. es' ≡ effects became_user uid ++ es) Init (set_uid m fd uid es)
  unfolding set_uid
  set_uid-Ends fd uid es = ground arith

  set_gid-Ends :
      (fd : ℕ) (user gid : Option ℕ) (es : List Effect)
      → Ends (λ u es'. es' ≡ effects became_group gid ++ es) Init (set_gid m fd user gid es)
  unfolding set_gid
  set_gid-Ends fd user gid es = ground arith

  command_args-Ends :
      (fd : ℕ) (words : List String) (es : List Effect)
      → Ends (λ u es'. es' ≡ es) Init (command_args m fd words es)
  unfolding command_args
  command_args-Ends fd words es = ground arith

  redirect-Ends :
      (fd : ℕ) (what : String) (target : ℕ) (file : Option String) (es : List Effect)
      → Ends (λ u es'. es' ≡ redirection target file ++ es) Init (redirect m fd what target file es)
  unfolding redirect
  redirect-Ends fd what target file es = ground arith

  c_strings-Ends :
      (ss : List String) (es : List Effect) → Ends (λ u es'. es' ≡ es) Init (c_strings m ss es)
  unfolding c_strings
  c_strings-Ends ss es = ground arith

  -- Exit code 99 before the end of the plan, and 100 after it.
  abbrev pub Fails : ServiceConfig → ℕ → Exit → List Effect → Type 0
  Fails cfg write (exited code) es =
      (code ≡ worker_init_failed) ⊎ ((code ≡ worker_boot_failed) × (es ≡ plan cfg write))
  Fails cfg write panicked es = Unit

  Init-Fails :
      (cfg : ServiceConfig) (write : ℕ) (x : Exit) (es : List Effect)
      → Init x es
      → Fails cfg write x es
  Init-Fails cfg write (exited code) es h = inl h
  Init-Fails cfg write panicked es h = tt

  exec-Ends :
      (cfg : ServiceConfig) (write : ℕ) (p : Program) (es : List Effect)
      → es ≡ plan cfg write
      → Ends (λ p' es'. es' ≡ plan cfg write) (Fails cfg write) (exec m p es)
  unfolding exec
  exec-Ends cfg write p es h = ground arith

  -- The postcondition of a child.
  abbrev pub Post : ServiceConfig → ℕ → Result Exit Program × List Effect → Type 0
  Post cfg write r = Ends (λ p es. es ≡ plan cfg write) (Fails cfg write) r

  -- A step of the setup, and the steps after it from the effects that it ends with.
  after :
      {A : Type 0} (cfg : ServiceConfig) (write : ℕ) (r : Result Exit A × List Effect)
      (f : A → ChildAction Program) (es : List Effect)
      → Ends (λ a es'. es' ≡ es) Init r
      → ((a : A) → Post cfg write (f a es))
      → Post cfg write (and_then r f)
  after cfg write r f es h k =
      Ends-and_then (λ a es'. es' ≡ es) (λ p es'. es' ≡ plan cfg write) (Fails cfg write) f
        (λ a es' e. rw e (k a)) r
        (Ends-weaken (λ a es'. es' ≡ es) (λ a es'. es' ≡ es) Init (Fails cfg write) r (λ a es' e. e)
          (Init-Fails cfg write) h)

  -- A child becomes the worker only after all that its configuration says has been done, in the order
  -- greeting, directory, user, group, stdout, stderr; it exits with 100 only after the same, and with
  -- 99 otherwise, whatever the system calls answer. Of a child that panics nothing is said.
  pub exec_worker-Ends :
      (idx : ℕ) (cfg : ServiceConfig) (read write : ℕ)
      → Post cfg write (exec_worker m idx cfg read write [])
  unfolding exec_worker
  exec_worker-Ends idx cfg read write =
      after cfg write _ _ _ (send_msg-Ends write WorkerMessage.forked []) λ u₁.
        after cfg write _ _ _ (read_response-Ends _) λ u₂.
          after cfg write _ _ _ (change_dir-Ends read cfg.directory _) λ u₃.
            after cfg write _ _ _ (set_uid-Ends read cfg.uid _) λ u₄.
              after cfg write _ _ _ (set_gid-Ends read cfg.uid cfg.gid _) λ u₅.
                after cfg write _ _ _ (command_args-Ends read (split_whitespace cfg.command) _)
                  λ u₆. after cfg write _ _ _ (redirect-Ends read "stdout" 1 cfg.stdout _) λ u₇.
                    after cfg write _ _ _ (redirect-Ends read "stderr" 2 cfg.stderr _) λ u₈.
                      after cfg write _ _ _ (c_strings-Ends (worker_env m idx cfg read write) _)
                        λ env. exec-Ends cfg write _ _ refl
