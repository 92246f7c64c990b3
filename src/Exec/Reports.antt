-- ===== src/Exec/Reports.antt =====
-- What the master is told by a child, and the order of the user and the group.
use fectl.Prelude.{
  ℕ, ◌≡◌, ◌≢◌, ◌⊎◌, ◌∙◌, arith, String, Option, none, some, List, [], ◌∷◌, ◌==◌, ==_self,
  if◌then◌else◌,
}
use fectl.Config.{ServiceConfig}
use fectl.Process.Error.{worker_init_failed}
use fectl.Protocol.{WorkerMessage}
use fectl.Utils.{split_whitespace}
use fectl.Exec.{
  Program, c_strings, change_dir, command_args, exec, exec_worker, read_body, read_response,
  redirect, send_msg, set_gid, set_uid, worker_env,
}
use fectl.Exec.Child.{Surroundings, Effect, Exit, ChildAction, exited, sent}
use fectl.Steps.{Result, and_then, ok, ended}
use fectl.Steps.Ends.{Ends, Ends-weaken}

-- The messages that have been written to descriptor `fd`, newest first.
unfoldable pub delivered : ℕ → List Effect → List WorkerMessage
delivered fd [] = []
delivered fd (sent d msg ∷ es) = if d == fd then msg ∷ delivered fd es else delivered fd es
delivered fd (e ∷ es) = delivered fd es

-- What is known of the effects holds however the step ends.
abbrev pub Always : {A : Type 0} → (List Effect → Type 0) → Result Exit A × List Effect → Type 0
Always P r = Ends (λ a es. P es) (λ x es. P es) r

weaken :
    {A : Type 0} {P Q : List Effect → Type 0} (r : Result Exit A × List Effect)
    → ((es : List Effect) → P es → Q es)
    → Always P r
    → Always Q r
weaken {P = P} {Q = Q} r f h =
    Ends-weaken (λ a es. P es) (λ a es. Q es) (λ x es. P es) (λ x es. Q es) r (λ a. f) (λ x. f) h

-- Nothing but the greeting is in `fd`.
abbrev pub Greeting : ℕ → List Effect → Type 0
Greeting fd es = (delivered fd es ≡ []) ⊎ (delivered fd es ≡ WorkerMessage.forked ∷ [])

module _ (m : Surroundings) (read write : ℕ) (differ : read ≢ write) where
  -- The step has written nothing to `write`.
  abbrev Quiet : {A : Type 0} → List Effect → Result Exit A × List Effect → Type 0
  Quiet es r = Always (λ es'. delivered write es' ≡ delivered write es) r

  Quiet-and_then :
      {A B : Type 0} (es : List Effect) (r : Result Exit A × List Effect) (f : A → ChildAction B)
      → Quiet es r
      → ((a : A) (es' : List Effect) → Quiet es' (f a es'))
      → Quiet es (and_then r f)
  Quiet-and_then es (ok a, es') f h k = weaken (f a es') (λ es'' e. e ∙ h) (k a es')
  Quiet-and_then es (ended x, es') f h k = h

  change_dir-Quiet : (dir : Option String) (es : List Effect) → Quiet es (change_dir m read dir es)
  unfolding change_dir delivered
  change_dir-Quiet dir es = ground arith

  set_uid-Quiet : (uid : Option ℕ) (es : List Effect) → Quiet es (set_uid m read uid es)
  unfolding set_uid delivered
  set_uid-Quiet uid es = ground arith

  set_gid-Quiet : (user gid : Option ℕ) (es : List Effect) → Quiet es (set_gid m read user gid es)
  unfolding set_gid delivered
  set_gid-Quiet user gid es = ground arith

  command_args-Quiet :
      (words : List String) (es : List Effect) → Quiet es (command_args m read words es)
  unfolding command_args delivered
  command_args-Quiet words es = ground arith

  redirect-Quiet :
      (what : String) (target : ℕ) (file : Option String) (es : List Effect)
      → Quiet es (redirect m read what target file es)
  unfolding redirect delivered
  redirect-Quiet what target file es = ground arith

  read_response-Quiet : (es : List Effect) → Quiet es (read_response m es)
  unfolding read_response read_body
  read_response-Quiet es = ground arith

  c_strings-Quiet : (ss : List String) (es : List Effect) → Quiet es (c_strings m ss es)
  unfolding c_strings
  c_strings-Quiet ss es = ground arith

  exec-Quiet : (p : Program) (es : List Effect) → Quiet es (exec m p es)
  unfolding exec
  exec-Quiet p es = ground arith

  greeted :
      {A B : Type 0} (r : Result Exit A × List Effect) (f : A → ChildAction B)
      → Always (Greeting write) r
      → ((a : A) (es : List Effect) → Quiet es (f a es))
      → Always (Greeting write) (and_then r f)
  greeted (ok a, es) f h k = weaken (f a es) (λ es' e. rw e h) (k a es)
  greeted (ended x, es) f h k = h

  send_msg-Greeting : Always (Greeting write) (send_msg m write WorkerMessage.forked [])
  unfolding send_msg delivered
  send_msg-Greeting = ground (arith, ==_self write)

  -- The defect: whatever is wrong with the configuration of a worker, no message about it is written
  -- to the pipe to the master, at most the greeting `forked` is. The two descriptors differ.
  pub exec_worker_reports :
      (idx : ℕ) (cfg : ServiceConfig)
      → Always (Greeting write) (exec_worker m idx cfg read write [])
  unfolding exec_worker
  exec_worker_reports idx cfg = greeted _ _ send_msg-Greeting λ u₁ es₁.
      Quiet-and_then es₁ _ _ (read_response-Quiet _) λ u₂ es₂.
        Quiet-and_then es₂ _ _ (change_dir-Quiet cfg.directory _) λ u₃ es₃.
          Quiet-and_then es₃ _ _ (set_uid-Quiet cfg.uid _) λ u₄ es₄.
            Quiet-and_then es₄ _ _ (set_gid-Quiet cfg.uid cfg.gid _) λ u₅ es₅.
              Quiet-and_then es₅ _ _ (command_args-Quiet (split_whitespace cfg.command) _) λ u₆ es₆.
                Quiet-and_then es₆ _ _ (redirect-Quiet "stdout" 1 cfg.stdout _) λ u₇ es₇.
                  Quiet-and_then es₇ _ _ (redirect-Quiet "stderr" 2 cfg.stderr _) λ u₈ es₈.
                    Quiet-and_then es₈ _ _ (c_strings-Quiet (worker_env m idx cfg read write) _)
                      λ env es₉. exec-Quiet _ es₉

-- The defect: a child with a user and a group to switch to gives up its user first. Where a process of
-- that user may not switch to the group, the child exits as a failed start, and the worker never runs.
pub uid_before_gid :
    (m : Surroundings) (idx uid gid : ℕ) (cfg : ServiceConfig) (read write : ℕ)
    → cfg.uid ≡ some uid
    → cfg.gid ≡ some gid
    → m.setgid (some uid) gid ≢ none
    → (exec_worker m idx cfg read write []).0 ≡ ended (exited worker_init_failed)
unfolding exec_worker send_msg read_response change_dir set_uid set_gid
uid_before_gid m idx uid gid cfg read write u g h = ground arith
