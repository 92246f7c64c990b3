-- ===== src/Service/Waits.antt =====
-- What a service that stops waits for, and which conditions it has made.
use fectl.Prelude.{ℕ, ◌≡◌, ◌∙◌, refl, sym, arith, Bool, Bool-cases, inl, inr, true, false}
use fectl.Event.{Reason}
use fectl.Service.{
  FeService, ServiceState, at_worker, at_worker_then_update, check_loading_workers, failure_due,
  fresh, process_exited, process_failed, process_loaded, process_message, settle, update, update_in,
}
use fectl.Service.Check.{any_busy, check_loading_workers-load, check_loading_workers_watch}
use fectl.Service.Commands
use fectl.Service.Loops.{Ends, Ends-any, Ends-map}
use fectl.Service.Requests.{Request, Signal, deliver, handle}
use fectl.System.{Os}
use fectl.Worker.{Worker}

-- A service that stops waits for some worker.
abbrev pub Waits : ServiceState → FeService → Type 0
Waits (ServiceState.stopping c) s = any_busy false s.workers ≡ true
Waits _ s = Unit

abbrev pub IsWaiting : FeService → Type 0
IsWaiting s = Waits s.state s

update_in-IsWaiting :
    (t : ServiceState) (s : FeService) (os : Os) → s.state ≡ t → IsWaiting (update_in t s os).0
unfolding update_in settle
update_in-IsWaiting (ServiceState.stopping c) s os e =
    let same = check_loading_workers_watch s.workers os in
    let l = (check_loading_workers false s.workers os).0 in
    elim (Bool-cases l.in_process) [
      | inl busy ↦
          rw (busy, same.0, e) (sym (check_loading_workers-load false s.workers os).1 ∙ busy)
      | inr idle ↦ rw idle tt
    ]
update_in-IsWaiting (ServiceState.starting c) s os e = ground arith
update_in-IsWaiting (ServiceState.reloading c) s os e = ground arith
update_in-IsWaiting ServiceState.running s os e = rw e tt
update_in-IsWaiting ServiceState.failed s os e = rw e tt
update_in-IsWaiting ServiceState.stopped s os e = rw e tt

update-IsWaiting : (s : FeService) (os : Os) → IsWaiting (update s os).0
unfolding update
update-IsWaiting s os = update_in-IsWaiting s.state s os refl

at_worker-IsWaiting :
    (f : Worker → Os → Worker × Os) (i : ℕ) (s : FeService) (os : Os)
    → Ends (λ r. IsWaiting r.0) (at_worker_then_update i f s os)
unfolding at_worker_then_update
at_worker-IsWaiting f i s os =
    Ends-map (λ r. Unit {0}) (λ r. IsWaiting r.0) _ (at_worker i f s.workers os)
      (λ r u. update-IsWaiting (record s { workers = r.0 }) r.1)
      (Ends-any (at_worker i f s.workers os))

deliver-IsWaiting :
    (g : Signal) (s : FeService) (os : Os)
    → IsWaiting s
    → Ends (λ r. IsWaiting r.0) (deliver g s os)
unfolding deliver process_message process_failed failure_due process_loaded process_exited
deliver-IsWaiting (Signal.message i pid m) s os h = at_worker-IsWaiting _ i s os
deliver-IsWaiting (Signal.failed i pid e) s os h = h
deliver-IsWaiting (Signal.failure_due i pid e) s os h = at_worker-IsWaiting _ i s os
deliver-IsWaiting (Signal.loaded i pid) s os h = at_worker-IsWaiting _ i s os
deliver-IsWaiting (Signal.exited pid e) s os h = update-IsWaiting _ _

stop_workers-IsWaiting :
    (g : Bool) (r : Reason) (s : FeService) (os : Os) → IsWaiting (Commands.stop_workers g r s os).0
unfolding Commands.stop_workers
stop_workers-IsWaiting g r s os = update-IsWaiting _ _

start_in-IsWaiting :
    (t : ServiceState) (s : FeService) (os : Os)
    → IsWaiting s
    → IsWaiting (Commands.start_in t s os).1
unfolding Commands.start_in fresh
start_in-IsWaiting ServiceState.failed s os h = tt
start_in-IsWaiting ServiceState.stopped s os h = tt
start_in-IsWaiting _ s os h = h

reload_in-IsWaiting :
    (t : ServiceState) (b : Bool) (s : FeService) (os : Os)
    → IsWaiting s
    → IsWaiting (Commands.reload_in t b s os).1
unfolding Commands.reload_in fresh
reload_in-IsWaiting ServiceState.running b s os h = tt
reload_in-IsWaiting ServiceState.failed b s os h = tt
reload_in-IsWaiting ServiceState.stopped b s os h = tt
reload_in-IsWaiting _ b s os h = h

pause_in-IsWaiting :
    (t : ServiceState) (s : FeService) (os : Os)
    → s.state ≡ t
    → IsWaiting s
    → IsWaiting (Commands.pause_in t s os).1 × IsWaiting (Commands.resume_in t s os).1
unfolding Commands.pause_in Commands.resume_in
pause_in-IsWaiting ServiceState.running s os e h = (rw e tt, rw e tt)
pause_in-IsWaiting _ s os e h = (h, h)

stop_in-IsWaiting :
    (t : ServiceState) (g : Bool) (r : Reason) (s : FeService) (os : Os)
    → IsWaiting s
    → IsWaiting (Commands.stop_in t g r s os).1
unfolding Commands.stop_in
stop_in-IsWaiting ServiceState.running g r s os h = stop_workers-IsWaiting g r s os
stop_in-IsWaiting (ServiceState.starting c) g r s os h = stop_workers-IsWaiting g r s _
stop_in-IsWaiting (ServiceState.reloading c) g r s os h = stop_workers-IsWaiting g r s _
stop_in-IsWaiting _ g r s os h = h

-- Whatever a service handles: while it stops, some worker is not stopped yet.
pub handle-IsWaiting :
    (r : Request) (s : FeService) (os : Os)
    → IsWaiting s
    → Ends (λ x. IsWaiting x.0) (handle r s os)
unfolding handle Commands.start Commands.pause Commands.resume Commands.reload Commands.stop
handle-IsWaiting (Request.signal g) s os h = deliver-IsWaiting g s os h
handle-IsWaiting Request.start s os h = start_in-IsWaiting s.state s os h
handle-IsWaiting Request.pause s os h = (pause_in-IsWaiting s.state s os refl h).0
handle-IsWaiting Request.resume s os h = (pause_in-IsWaiting s.state s os refl h).1
handle-IsWaiting (Request.reload b) s os h = reload_in-IsWaiting s.state b s os h
handle-IsWaiting (Request.stop b r) s os h = stop_in-IsWaiting s.state b r s os h
