-- ===== src/Startup/Plan.antt =====
-- A master that starts has done all that its configuration says, in order, and holds its host.
use fectl.Prelude.{
  ap, ◌∙◌, ℕ, ◌≤◌, ◌≡◌, ◌⊎◌, inl, inr, refl, arith, String, false, Option, none, some, List, [],
  ◌∷◌, ◌++◌, if◌then◌else◌,
}
use fectl.Config.{MasterConfig}
use fectl.Steps.{Action, Result, and_then, ◌>>◌}
use fectl.Steps.Ends.{Ends, Ends-and_then, Ends-weaken}
use fectl.System.{Io}
use fectl.Startup.Turns.{Held, Unstarted, bind_host-Ends, has_started, waits, waits-Unstarted}
use fectl.Startup.{
  attempt, bind_socket, daemonize, rebind, redirect, save_pid, set_gid, set_uid, start,
}
use fectl.Startup.HostCalls.{
  Effect, Host, Refusal, Start, became_group, became_user, closed, daemonized, entered, listening,
  locked, masked, pid_saved, redirected, socket_removed, started,
}

abbrev pub effects : {A : Type 0} → (A → Effect) → Option A → List Effect
effects f none = []
effects f (some a) = f a ∷ []

module _ (host : Host) where
  abbrev pub opened : Io ℕ → ℕ → List Effect
  opened (Io.ok fd) target = redirected fd target ∷ []
  opened (Io.err e) target = []

  abbrev pub redirection : ℕ → Option String → List Effect
  redirection target none = []
  redirection target (some path) = opened (host.open_append path) target

  abbrev pub background : MasterConfig → List Effect
  background cfg =
      if cfg.daemon
      then masked 18
        ∷ (redirection 2 cfg.stderr ++ (redirection 1 cfg.stdout ++ (closed 0 ∷ daemonized ∷ [])))
      else []

  -- What is done, the newest first, once the socket is bound.
  abbrev pub settled : MasterConfig → List Effect → List Effect
  settled cfg es =
      background cfg
      ++ (effects became_group cfg.gid
          ++ (effects became_user cfg.uid ++ (effects pid_saved cfg.pid ++ es)))

  -- The local address is held after at most 8 rounds, and then the socket, which a master that is gone
  -- may have left behind.
  abbrev pub IsOwner : MasterConfig → List Effect → Type 0
  IsOwner cfg es =
      (n : ℕ) × (n ≤ 8)
      × let base = locked ∷ (waits n ++ (entered cfg.directory ∷ [])) in
        (es ≡ listening ∷ base) ⊎ (es ≡ listening ∷ socket_removed ∷ base)

  abbrev pub IsPlan : MasterConfig → List Effect → Type 0
  IsPlan cfg es = (es₀ : List Effect) × IsOwner cfg es₀ × (es ≡ started ∷ settled cfg es₀)

  attempt-Ends :
      (answer : Option String) (e : Effect) (es : List Effect)
      → has_started es ≡ false
      → Ends (λ u es'. es' ≡ e ∷ es) Unstarted (attempt host answer e es)
  unfolding attempt
  attempt-Ends answer e es h = ground arith

  bind_socket-Ends :
      (es : List Effect)
      → has_started es ≡ false
      → Ends
          (λ u es'. (es' ≡ listening ∷ es) ⊎ (es' ≡ listening ∷ socket_removed ∷ es))
          Unstarted
          (bind_socket host es)
  unfolding bind_socket rebind has_started
  bind_socket-Ends es h = ground arith

  save_pid-Ends :
      (path : Option String) (es : List Effect)
      → has_started es ≡ false
      → Ends (λ u es'. es' ≡ effects pid_saved path ++ es) Unstarted (save_pid host path es)
  unfolding save_pid attempt
  save_pid-Ends path es h = ground arith

  set_uid-Ends :
      (uid : Option ℕ) (es : List Effect)
      → has_started es ≡ false
      → Ends (λ u es'. es' ≡ effects became_user uid ++ es) Unstarted (set_uid host uid es)
  unfolding set_uid attempt
  set_uid-Ends uid es h = ground arith

  set_gid-Ends :
      (user gid : Option ℕ) (es : List Effect)
      → has_started es ≡ false
      → Ends (λ u es'. es' ≡ effects became_group gid ++ es) Unstarted (set_gid host user gid es)
  unfolding set_gid attempt
  set_gid-Ends user gid es h = ground arith

  daemonize-Ends :
      (cfg : MasterConfig) (es : List Effect)
      → has_started es ≡ false
      → Ends (λ u es'. es' ≡ background cfg ++ es) Unstarted (daemonize host cfg es)
  unfolding daemonize attempt redirect
  daemonize-Ends cfg es h = ground arith

  module _ (cfg : MasterConfig) where
    -- The steps once the socket is bound.
    settle : Start (Unit {0})
    settle = do
      save_pid host cfg.pid
      set_uid host cfg.uid
      set_gid host cfg.uid cfg.gid
      daemonize host cfg
      attempt host host.from_std started

    -- A step that adds effects, none of which is `started`, and the steps after it.
    after :
        {A B : Type 0} (Q : B → List Effect → Type 0) (r : Result Refusal A × List Effect)
        (f : A → Action Effect Refusal B) (es : List Effect)
        → Ends (λ a es'. es' ≡ es) Unstarted r
        → ((a : A) → Ends Q Unstarted (f a es))
        → Ends Q Unstarted (and_then r f)
    after Q r f es h k = Ends-and_then (λ a es'. es' ≡ es) Q Unstarted f (λ a es' e. rw e (k a)) r h

    settle-Ends :
        (es : List Effect)
        → has_started es ≡ false
        → Ends (λ u es'. es' ≡ started ∷ settled cfg es) Unstarted (settle es)
    unfolding settle has_started
    settle-Ends es h =
        let pid = effects pid_saved cfg.pid ++ es in
        let user = effects became_user cfg.uid ++ pid in
        let group = effects became_group cfg.gid ++ user in
        let back = background cfg ++ group in
        let h₁ : has_started pid ≡ false = ground arith in
        let h₂ : has_started user ≡ false = ground arith in
        let h₃ : has_started group ≡ false = ground arith in
        let h₄ : has_started back ≡ false = ground arith in
        let Q = λ (u : Unit {0}) (es' : List Effect). es' ≡ started ∷ back in
        after Q _ _ pid (save_pid-Ends cfg.pid es h) λ u₁.
          after Q _ _ user (set_uid-Ends cfg.uid pid h₁) λ u₂.
            after Q _ _ group (set_gid-Ends cfg.uid cfg.gid user h₂) λ u₃.
              after Q _ _ back (daemonize-Ends cfg group h₃)
                λ u₄. attempt-Ends host.from_std started back h₄

    abbrev Sockets : List Effect → List Effect → Type 0
    Sockets es₁ es₂ = (es₂ ≡ listening ∷ es₁) ⊎ (es₂ ≡ listening ∷ socket_removed ∷ es₁)

    owner :
        (u : Unit {0}) (es₁ es₂ : List Effect)
        → Held host 0 (entered cfg.directory ∷ []) u es₁
        → Sockets es₁ es₂
        → IsOwner cfg es₂
    owner u es₁ es₂ (n, below, held) (inl e) =
        (n, omega arith, inl (e ∙ ap (λ t. listening ∷ t) held))
    owner u es₁ es₂ (n, below, held) (inr e) =
        (n, omega arith, inr (e ∙ ap (λ t. listening ∷ socket_removed ∷ t) held))

    finish :
        (es : List Effect)
        → has_started es ≡ false
        → IsOwner cfg es
        → Ends (λ u es'. IsPlan cfg es') Unstarted (settle es)
    finish es h o =
        Ends-weaken (λ u es'. es' ≡ started ∷ settled cfg es) (λ u es'. IsPlan cfg es') Unstarted
          Unstarted (settle es) (λ u es' e. (es, o, e)) (λ x es' e. e) (settle-Ends es h)

    pub start-Ends : Ends (λ u es. IsPlan cfg es) Unstarted (start host cfg [])
    unfolding start has_started settle
    start-Ends =
        let base = entered cfg.directory ∷ [] in
        let Q = λ (u : Unit {0}) (es : List Effect). IsPlan cfg es in
        after Q _ _ base (attempt-Ends (host.chdir cfg.directory) (entered cfg.directory) [] refl)
          λ u₁.
            Ends-and_then (Held host 0 base) Q Unstarted _
              (λ u₂ es₁ held.
                let h₁ : has_started es₁ ≡ false = rw held.2 (waits-Unstarted held.0 base refl) in
                Ends-and_then (λ u es₂. Sockets es₁ es₂) Q Unstarted _
                  (λ u₃ es₂ sockets.
                    finish es₂ (ground (arith, h₁, sockets)) (owner u₂ es₁ es₂ held sockets))
                  _ (bind_socket-Ends es₁ h₁))
              _ (bind_host-Ends host 10 0 base refl (omega arith) refl)
