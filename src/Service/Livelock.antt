-- ===== src/Service/Livelock.antt =====
-- A start or a reload in which one worker fails while another one is not done yet.
use fectl.Prelude.{
  ℕ, ◌≡◌, ◌∙◌, sym, subst, inl, inr, refl, arith, true, Option, none, some, List, [], ◌∷◌,
  Option-cases,
}
use fectl.Process.Error.{ProcessError}
use fectl.Protocol.{WorkerMessage}
use fectl.System.{Os}
use fectl.Worker.{Worker, is_failed}
use fectl.Service.{
  FeService, ServiceState, Load, settle, update, update_in, at_worker, at_worker_then_update,
  for_each, stop_unfinished, process_message, process_failed, failure_due, process_loaded,
  process_exited,
}
use fectl.Service.Check.{any_busy, any_failed, check_loading_workers-load}
use fectl.Service.Loops.{Any, Ends, Ends-map, for_each-Any, at_worker-Any}
use fectl.Service.Phases.{
  IsWinding, IsDead, IsBusy, IsUnfinished, exited-IsWinding, loaded-IsWinding, message-IsWinding,
  exited-IsDead, loaded-IsDead, message-IsDead, stop_unfinished-IsWinding, stop_unfinished-IsDead,
  check_loading_workers-IsUnfinished, check_loading_workers-IsDead, IsBusy-of_IsWinding,
}
use fectl.Service.Requests.{Signal, deliver, deliver_all}

any_failed_of_IsDead : (ws : List Worker) → Any IsDead ws → any_failed ws ≡ true
unfolding any_failed is_failed
any_failed_of_IsDead [] h = absurd h
any_failed_of_IsDead (w ∷ ws) (inl h) = ground arith
any_failed_of_IsDead (w ∷ ws) (inr h) = ground (arith, any_failed_of_IsDead ws h)

any_busy_of_IsBusy : (ws : List Worker) → Any IsBusy ws → any_busy true ws ≡ true
unfolding any_busy
any_busy_of_IsBusy [] h = absurd h
any_busy_of_IsBusy (w ∷ ws) (inl h) = ground arith
any_busy_of_IsBusy (w ∷ ws) (inr h) = ground (arith, any_busy_of_IsBusy ws h)

-- A start or a reload goes on.
abbrev pub IsPending : ServiceState → Type 0
IsPending (ServiceState.starting c) = Unit
IsPending (ServiceState.reloading c) = Unit
IsPending _ = ⊥

-- Still in state `t`, with a failed worker and one that winds down.
record IsDoomed (t : ServiceState) (s : FeService) : Type 0 where
  pending : s.state ≡ t
  dead : Any IsDead s.workers
  winding : Any IsWinding s.workers

settle-IsDoomed :
    (t : ServiceState) (f g : Os) (s : FeService) (l : Load) (ws : List Worker) (os : Os)
    → l.failed ≡ true
    → l.in_process ≡ true
    → Any IsDead ws
    → Any IsUnfinished ws
    → IsDoomed t (settle t f g s l ws os).0
unfolding settle
settle-IsDoomed t f g s l ws os e i d u =
    rw (e, i)
      (record {
        pending = refl;
        dead = for_each-Any IsDead IsDead stop_unfinished stop_unfinished-IsDead ws os d;
        winding =
            for_each-Any IsUnfinished IsWinding stop_unfinished stop_unfinished-IsWinding ws os u;
      })

update_in-IsDoomed :
    (t : ServiceState) (s : FeService) (os : Os)
    → IsPending t
    → Any IsDead s.workers
    → Any IsBusy s.workers
    → IsDoomed t (update_in t s os).0
unfolding update_in
update_in-IsDoomed (ServiceState.starting c) s os k d b =
    let load = check_loading_workers-load true s.workers os in
    settle-IsDoomed _ _ _ s _ _ _ (load.0 ∙ any_failed_of_IsDead s.workers d)
      (load.1 ∙ any_busy_of_IsBusy s.workers b) (check_loading_workers-IsDead true s.workers os d)
      (check_loading_workers-IsUnfinished s.workers os b)
update_in-IsDoomed (ServiceState.reloading c) s os k d b =
    let load = check_loading_workers-load true s.workers os in
    settle-IsDoomed _ _ _ s _ _ _ (load.0 ∙ any_failed_of_IsDead s.workers d)
      (load.1 ∙ any_busy_of_IsBusy s.workers b) (check_loading_workers-IsDead true s.workers os d)
      (check_loading_workers-IsUnfinished s.workers os b)
update_in-IsDoomed ServiceState.running s os k d b = absurd k
update_in-IsDoomed ServiceState.failed s os k d b = absurd k
update_in-IsDoomed ServiceState.stopped s os k d b = absurd k
update_in-IsDoomed (ServiceState.stopping c) s os k d b = absurd k

update-IsDoomed :
    (t : ServiceState) (s : FeService) (os : Os)
    → IsPending t
    → s.state ≡ t
    → Any IsDead s.workers
    → Any IsBusy s.workers
    → IsDoomed t (update s os).0
unfolding update
update-IsDoomed t s os k e d b =
    subst (λ u. IsDoomed t (update_in u s os).0) (sym e) (update_in-IsDoomed t s os k d b)

Any-map {ℓ} :
    {A : Type ℓ} (P Q : A → Type 0) (xs : List A) → ((x : A) → P x → Q x) → Any P xs → Any Q xs
Any-map P Q [] f h = h
Any-map P Q (x ∷ xs) f (inl h) = inl (f x h)
Any-map P Q (x ∷ xs) f (inr h) = inr (Any-map P Q xs f h)

Ends-both {ℓ} :
    {A : Type ℓ} (P Q : A → Type 0) (o : Option A) → Ends P o → Ends Q o → Ends (λ a. P a × Q a) o
Ends-both P Q none h k = tt
Ends-both P Q (some a) h k = (h, k)

-- A method of a worker that keeps failed workers failed and winding ones winding.
module _ (f : Worker → Os → Worker × Os)
    (dead : (w : Worker) (os : Os) → IsDead w → IsDead (f w os).0)
    (winding : (w : Worker) (os : Os) → IsWinding w → IsWinding (f w os).0) (t : ServiceState)
    (pending : IsPending t) where
  After : (s : FeService) (r : List Worker × Os) → Type 0
  After s r = Any IsDead r.0 × Any IsWinding r.0

  updated :
      (s : FeService) (r : List Worker × Os)
      → s.state ≡ t
      → After s r
      → IsDoomed t (update (record s { workers = r.0 }) r.1).0
  unfolding After
  updated s r e h =
      update-IsDoomed t (record s { workers = r.0 }) r.1 pending e h.0
        (Any-map IsWinding IsBusy r.0 IsBusy-of_IsWinding h.1)

  at_worker_then_update-IsDoomed :
      (i : ℕ) (s : FeService) (os : Os)
      → IsDoomed t s
      → Ends (λ r. IsDoomed t r.0) (at_worker_then_update i f s os)
  unfolding at_worker_then_update After
  at_worker_then_update-IsDoomed i s os h =
      Ends-map (After s) (λ r. IsDoomed t r.0) (λ r. update (record s { workers = r.0 }) r.1)
        (at_worker i f s.workers os) (λ r k. updated s r h.pending k)
        (Ends-both (λ r. Any IsDead r.0) (λ r. Any IsWinding r.0) (at_worker i f s.workers os)
          (at_worker-Any IsDead f dead i s.workers os h.dead)
          (at_worker-Any IsWinding f winding i s.workers os h.winding))

  for_each_then_update-IsDoomed :
      (s : FeService) (os : Os)
      → IsDoomed t s
      → let (ws, os') = for_each f s.workers os in
        IsDoomed t (update (record s { workers = ws }) os').0
  unfolding After
  for_each_then_update-IsDoomed s os h = updated s (for_each f s.workers os) h.pending (
    for_each-Any IsDead IsDead f dead s.workers os h.dead,
    for_each-Any IsWinding IsWinding f winding s.workers os h.winding,
  )

deliver-IsDoomed :
    (t : ServiceState) (g : Signal) (s : FeService) (os : Os)
    → IsPending t
    → IsDoomed t s
    → Ends (λ r. IsDoomed t r.0) (deliver g s os)
unfolding deliver process_message process_failed failure_due process_loaded process_exited
deliver-IsDoomed t (Signal.message i pid m) s os k h =
    at_worker_then_update-IsDoomed _ (message-IsDead pid ProcessError.heartbeat m)
      (message-IsWinding pid ProcessError.heartbeat m) t k i s os h
deliver-IsDoomed t (Signal.failed i pid e) s os k h = h
deliver-IsDoomed t (Signal.failure_due i pid e) s os k h =
    at_worker_then_update-IsDoomed _ (exited-IsDead pid e WorkerMessage.hb)
      (exited-IsWinding pid e WorkerMessage.hb) t k i s os h
deliver-IsDoomed t (Signal.loaded i pid) s os k h =
    at_worker_then_update-IsDoomed _ (loaded-IsDead pid ProcessError.heartbeat WorkerMessage.hb)
      (loaded-IsWinding pid ProcessError.heartbeat WorkerMessage.hb) t k i s os h
deliver-IsDoomed t (Signal.exited pid e) s os k h =
    for_each_then_update-IsDoomed _ (exited-IsDead pid e WorkerMessage.hb)
      (exited-IsWinding pid e WorkerMessage.hb) t k s os h

deliver_all-IsDoomed :
    (t : ServiceState) (gs : List Signal) (s : FeService) (os : Os)
    → IsPending t
    → IsDoomed t s
    → Ends (λ r. r.0.state ≡ t) (deliver_all gs s os)
unfolding deliver_all
deliver_all-IsDoomed t [] s os k h = h.pending
deliver_all-IsDoomed t (g ∷ gs) s os k h = elim (Option-cases (deliver g s os)) [
  | inl e ↦ rw (e, deliver_all) tt
  | inr (r, e) ↦
      rw (e, deliver_all)
        (deliver_all-IsDoomed t gs r.0 r.1 k (rw e at (deliver-IsDoomed t g s os k h)))
]

-- The defect: if at an update of a starting or reloading service one worker has failed while
-- another one is neither failed nor running, or is stopped, then the start or reload never ends.
-- Whatever the processes bring about from then on, the service keeps its state.
pub failure_never_announced :
    (t : ServiceState) (gs : List Signal) (s : FeService) (os : Os)
    → IsPending t
    → s.state ≡ t
    → Any IsDead s.workers
    → Any IsBusy s.workers
    → let (s', os') = update s os in Ends (λ r. r.0.state ≡ t) (deliver_all gs s' os')
failure_never_announced t gs s os k e d b =
    let (s', os') = update s os in
    deliver_all-IsDoomed t gs s' os' k (update-IsDoomed t s os k e d b)
