-- ===== src/Service/Panics.antt =====
-- The handlers of a service do not panic on the numbers of its own workers.
use fectl.Prelude.{
  ℕ, zero, suc, ◌<◌, ◌≡◌, ◌∙◌, refl, ap, arith, Bool, Option, none, some, List, [], ◌∷◌, length,
  All, Option-cases, inl, inr,
}
use fectl.Config.{ServiceConfig}
use fectl.System.{Os, Addr}
use fectl.Worker.{Worker}
use fectl.Worker
use fectl.Service.{
  FeService, ServiceState, Load, check_worker, check_from, check_loading_workers, settle, update,
  update_in, for_each, at_worker, at_worker_then_update, create, make_workers, started,
  process_message, process_failed, failure_due, process_loaded, process_exited, fresh,
}
use fectl.Service.Commands
use fectl.Service.Requests.{Signal, Request, deliver, handle, handle_all}

for_each-length :
    (f : Worker → Os → Worker × Os) (ws : List Worker) (os : Os)
    → length (for_each f ws os).0 ≡ length ws
unfolding for_each
for_each-length f [] os = refl
for_each-length f (w ∷ ws) os = ground (arith, for_each-length f ws (f w os).1)

check_from-length :
    (b : Bool) (l : Load) (ws : List Worker) (os : Os) → length (check_from b l ws os).1 ≡ length ws
unfolding check_from
check_from-length b l [] os = refl
check_from-length b l (w ∷ ws) os =
    let (l', w', os') = check_worker b l w os in ground (arith, check_from-length b l' ws os')

update_in-length :
    (t : ServiceState) (s : FeService) (os : Os)
    → length (update_in t s os).0.workers ≡ length s.workers
unfolding update_in settle check_loading_workers
update_in-length t s os = grind (arith, for_each-length, check_from-length)

update-length : (s : FeService) (os : Os) → length (update s os).0.workers ≡ length s.workers
unfolding update
update-length s os = update_in-length s.state s os

-- A result, with so many workers.
abbrev pub Returns : ℕ → Option (FeService × Os) → Type 0
Returns n none = ⊥
Returns n (some (s, os)) = length s.workers ≡ n

abbrev Kept : ℕ → Option (List Worker × Os) → Type 0
Kept n none = ⊥
Kept n (some (ws, os)) = length ws ≡ n

at_worker-Kept :
    (i : ℕ) (f : Worker → Os → Worker × Os) (ws : List Worker) (os : Os)
    → i < length ws
    → Kept (length ws) (at_worker i f ws os)
unfolding at_worker
at_worker-Kept i f [] os h = absurd (omega (arith, h))
at_worker-Kept zero f (w ∷ ws) os h = refl
at_worker-Kept (suc i) f (w ∷ ws) os h =
    let rest = at_worker-Kept i f ws os (omega (arith, h)) in
    elim (Option-cases (at_worker i f ws os)) [
      | inl e ↦ absurd (rw e at rest)
      | inr (r, e) ↦ rw e (ap suc (rw e at rest))
    ]

at_worker_then_update-Returns :
    (i : ℕ) (f : Worker → Os → Worker × Os) (s : FeService) (os : Os)
    → i < length s.workers
    → Returns (length s.workers) (at_worker_then_update i f s os)
unfolding at_worker_then_update
at_worker_then_update-Returns i f s os h =
    let rest = at_worker-Kept i f s.workers os h in
    elim (Option-cases (at_worker i f s.workers os)) [
      | inl e ↦ absurd (rw e at rest)
      | inr (r, e) ↦ rw e (update-length (record s { workers = r.0 }) r.1 ∙ (rw e at rest))
    ]

-- Is the worker of the message one of the first `n`?
abbrev pub InRange : ℕ → Request → Type 0
InRange n (Request.signal (Signal.message i pid m)) = i < n
InRange n (Request.signal (Signal.failure_due i pid e)) = i < n
InRange n (Request.signal (Signal.loaded i pid)) = i < n
InRange n _ = Unit

handle-Returns :
    (r : Request) (s : FeService) (os : Os)
    → InRange (length s.workers) r
    → Returns (length s.workers) (handle r s os)
unfolding handle deliver process_message process_failed failure_due process_loaded process_exited
    Commands.start Commands.pause Commands.resume Commands.reload Commands.stop
    Commands.stop_workers fresh
handle-Returns (Request.signal (Signal.message i pid m)) s os h =
    at_worker_then_update-Returns i _ s os h
handle-Returns (Request.signal (Signal.failure_due i pid e)) s os h =
    at_worker_then_update-Returns i _ s os h
handle-Returns (Request.signal (Signal.loaded i pid)) s os h =
    at_worker_then_update-Returns i _ s os h
handle-Returns (Request.signal (Signal.failed i pid e)) s os h = refl
handle-Returns _ s os h = grind (arith, for_each-length, update-length)

pub handle_all-Returns :
    (n : ℕ) (rs : List Request) (s : FeService) (os : Os)
    → length s.workers ≡ n
    → All (InRange n) rs
    → Returns n (handle_all rs s os)
unfolding handle_all
handle_all-Returns n [] s os l h = l
handle_all-Returns n (r ∷ rs) s os l h =
    let one = handle-Returns r s os (rw l h.0) in
    elim (Option-cases (handle r s os)) [
      | inl e ↦ absurd (rw e at one)
      | inr (x, e) ↦ rw (e, handle_all) (handle_all-Returns n rs x.0 x.1 ((rw e at one) ∙ l) h.1)
    ]

make_workers-length :
    (n idx : ℕ) (cfg : ServiceConfig) (addr : Addr) (os : Os)
    → length (make_workers n idx cfg addr os).0 ≡ n
unfolding make_workers
make_workers-length zero idx cfg addr os = refl
make_workers-length (suc n) idx cfg addr os =
    ap suc (make_workers-length n (suc idx) cfg addr (Worker.new idx cfg addr os).1)

pub create-length :
    (num : ℕ) (cfg : ServiceConfig) (addr : Addr) (os : Os)
    → let (s, os') = create num cfg addr os in length (started s os').0.workers ≡ num
unfolding create started fresh
create-length num cfg addr os =
    let (s, os') = create num cfg addr os in
    for_each-length _ s.workers os' ∙ make_workers-length num 0 cfg addr os
