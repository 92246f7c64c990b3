-- ===== src/Service/Stopping.antt =====
-- A service that counts as stopped runs no worker.
use fectl.Prelude.{
  ℕ, ◌≡◌, refl, sym, ◌∙◌, arith, Bool, true, false, List, [], ◌∷◌, All, Bool-cases, Option-cases,
  inl, inr,
}
use fectl.Event.{Reason}
use fectl.Process.Error.{ProcessError}
use fectl.Protocol.{WorkerMessage}
use fectl.System.{Pid, Os}
use fectl.Worker.{Worker, is_failed, is_stopped, is_running}
use fectl.Worker
use fectl.Worker.Ending
use fectl.Worker.Exits
use fectl.Service.{
  FeService, ServiceState, update, update_in, check_loading_workers, at_worker,
  at_worker_then_update, for_each, fresh, process_message, process_failed, failure_due,
  process_loaded, process_exited,
}
use fectl.Service.Commands
use fectl.Service.Check.{any_busy, is_busy, check_loading_workers-load, check_loading_workers_watch}
use fectl.Service.Loops.{Ends, Ends-map, Ends-any, for_each-All, at_worker-All}
use fectl.Service.Phases.{
  IsWinding, IsStopped, exited-IsWinding, loaded-IsWinding, message-IsWinding, exited-IsStopped,
  loaded-IsStopped, message-IsStopped, stop-IsWinding, quit-IsWinding,
}
use fectl.Service.Requests.{Signal, Request, deliver, handle, handle_all}

-- While a service stops, every worker is stopped or waits for an exit; in the end all are stopped.
abbrev pub Agrees : ServiceState → List Worker → Type 0
Agrees ServiceState.stopped ws = All IsStopped ws
Agrees (ServiceState.stopping c) ws = All IsWinding ws
Agrees _ ws = Unit

abbrev pub IsConsistent : FeService → Type 0
IsConsistent s = Agrees s.state s.workers

All-IsStopped : (ws : List Worker) → any_busy false ws ≡ false → All IsWinding ws → All IsStopped ws
unfolding any_busy is_busy is_failed is_stopped is_running
All-IsStopped [] h k = tt
All-IsStopped (w ∷ ws) h k = (ground arith, All-IsStopped ws (ground arith) k.1)

update_in-IsConsistent :
    (t : ServiceState) (s : FeService) (os : Os)
    → s.state ≡ t
    → IsConsistent s
    → IsConsistent (update_in t s os).0
unfolding update_in
update_in-IsConsistent (ServiceState.starting c) s os e h = ground arith
update_in-IsConsistent (ServiceState.reloading c) s os e h = ground arith
update_in-IsConsistent (ServiceState.stopping c) s os e h =
    let same = check_loading_workers_watch s.workers os in
    let l = (check_loading_workers false s.workers os).0 in
    elim (Bool-cases l.in_process) [
      | inl busy ↦ rw (busy, same.0, e) (rw e at h)
      | inr idle ↦
          rw (idle, same.0)
            (All-IsStopped s.workers (sym (check_loading_workers-load false s.workers os).1 ∙ idle)
              (rw e at h))
    ]
update_in-IsConsistent _ s os e h = h

update-IsConsistent : (s : FeService) (os : Os) → IsConsistent s → IsConsistent (update s os).0
unfolding update
update-IsConsistent s os h = update_in-IsConsistent s.state s os refl h

-- A method of a worker that keeps stopped workers stopped and winding ones winding.
record Keeps (f : Worker → Os → Worker × Os) : Type 0 where
  winding : (w : Worker) (os : Os) → IsWinding w → IsWinding (f w os).0
  done : (w : Worker) (os : Os) → IsStopped w → IsStopped (f w os).0

module _ (f : Worker → Os → Worker × Os) (keeps : Keeps f) where
  for_each-Agrees :
      (t : ServiceState) (ws : List Worker) (os : Os) → Agrees t ws → Agrees t (for_each f ws os).0
  for_each-Agrees ServiceState.stopped ws os h =
      for_each-All IsStopped IsStopped f keeps.done ws os h
  for_each-Agrees (ServiceState.stopping c) ws os h =
      for_each-All IsWinding IsWinding f keeps.winding ws os h
  for_each-Agrees _ ws os h = h

  at_worker-Agrees :
      (t : ServiceState) (i : ℕ) (ws : List Worker) (os : Os)
      → Agrees t ws
      → Ends (λ r. Agrees t r.0) (at_worker i f ws os)
  at_worker-Agrees ServiceState.stopped i ws os h = at_worker-All IsStopped f keeps.done i ws os h
  at_worker-Agrees (ServiceState.stopping c) i ws os h =
      at_worker-All IsWinding f keeps.winding i ws os h
  at_worker-Agrees _ i ws os h = Ends-any (at_worker i f ws os)

  at_worker_then_update-IsConsistent :
      (i : ℕ) (s : FeService) (os : Os)
      → IsConsistent s
      → Ends (λ r. IsConsistent r.0) (at_worker_then_update i f s os)
  unfolding at_worker_then_update
  at_worker_then_update-IsConsistent i s os h =
      Ends-map (λ r. Agrees s.state r.0) (λ r. IsConsistent r.0)
        (λ r. update (record s { workers = r.0 }) r.1) (at_worker i f s.workers os)
        (λ r k. update-IsConsistent (record s { workers = r.0 }) r.1 k)
        (at_worker-Agrees s.state i s.workers os h)

exited-Keeps : (pid : Pid) (e : ProcessError) → Keeps (Exits.exited pid e)
exited-Keeps pid e = record {
  winding = exited-IsWinding pid e WorkerMessage.hb;
  done = exited-IsStopped pid e WorkerMessage.hb;
}

loaded-Keeps : (pid : Pid) → Keeps (Worker.loaded pid)
loaded-Keeps pid = record {
  winding = loaded-IsWinding pid ProcessError.heartbeat WorkerMessage.hb;
  done = loaded-IsStopped pid ProcessError.heartbeat WorkerMessage.hb;
}

message-Keeps : (pid : Pid) (m : WorkerMessage) → Keeps (Worker.message pid m)
message-Keeps pid m = record {
  winding = message-IsWinding pid ProcessError.heartbeat m;
  done = message-IsStopped pid ProcessError.heartbeat m;
}

deliver-IsConsistent :
    (g : Signal) (s : FeService) (os : Os)
    → IsConsistent s
    → Ends (λ r. IsConsistent r.0) (deliver g s os)
unfolding deliver process_message process_failed failure_due process_loaded process_exited
deliver-IsConsistent (Signal.message i pid m) s os h =
    at_worker_then_update-IsConsistent _ (message-Keeps pid m) i s os h
deliver-IsConsistent (Signal.failed i pid e) s os h = h
deliver-IsConsistent (Signal.failure_due i pid e) s os h =
    at_worker_then_update-IsConsistent _ (exited-Keeps pid e) i s os h
deliver-IsConsistent (Signal.loaded i pid) s os h =
    at_worker_then_update-IsConsistent _ (loaded-Keeps pid) i s os h
deliver-IsConsistent (Signal.exited pid e) s os h =
    update-IsConsistent _ _ (for_each-Agrees _ (exited-Keeps pid e) s.state s.workers os h)

any_worker : (ws : List Worker) → All (λ w. Unit {0}) ws
any_worker [] = tt
any_worker (w ∷ ws) = (tt, any_worker ws)

stop_workers-IsConsistent :
    (graceful : Bool) (r : Reason) (s : FeService) (os : Os)
    → IsConsistent (Commands.stop_workers graceful r s os).0
unfolding Commands.stop_workers fresh
stop_workers-IsConsistent true r s os = update-IsConsistent _ _ (
    for_each-All (λ w. Unit) IsWinding (Ending.stop r) (λ w o _. stop-IsWinding r w o) s.workers
      (fresh os).1 (any_worker s.workers))
stop_workers-IsConsistent false r s os = update-IsConsistent _ _ (
    for_each-All (λ w. Unit) IsWinding (Ending.quit r) (λ w o _. quit-IsWinding r w o) s.workers
      (fresh os).1 (any_worker s.workers))

start_in-IsConsistent :
    (t : ServiceState) (s : FeService) (os : Os)
    → s.state ≡ t
    → IsConsistent s
    → IsConsistent (Commands.start_in t s os).1
unfolding Commands.start_in fresh
start_in-IsConsistent ServiceState.running s os e h = h
start_in-IsConsistent ServiceState.failed s os e h = tt
start_in-IsConsistent ServiceState.stopped s os e h = tt
start_in-IsConsistent _ s os e h = h

reload_in-IsConsistent :
    (t : ServiceState) (b : Bool) (s : FeService) (os : Os)
    → IsConsistent s
    → IsConsistent (Commands.reload_in t b s os).1
unfolding Commands.reload_in fresh
reload_in-IsConsistent ServiceState.running b s os h = tt
reload_in-IsConsistent ServiceState.failed b s os h = tt
reload_in-IsConsistent ServiceState.stopped b s os h = tt
reload_in-IsConsistent _ b s os h = h

pause_in-IsConsistent :
    (t : ServiceState) (s : FeService) (os : Os)
    → s.state ≡ t
    → IsConsistent s
    → IsConsistent (Commands.pause_in t s os).1 × IsConsistent (Commands.resume_in t s os).1
unfolding Commands.pause_in Commands.resume_in
pause_in-IsConsistent ServiceState.running s os e h = (rw e tt, rw e tt)
pause_in-IsConsistent _ s os e h = (h, h)

stop_in-IsConsistent :
    (t : ServiceState) (graceful : Bool) (r : Reason) (s : FeService) (os : Os)
    → IsConsistent s
    → IsConsistent (Commands.stop_in t graceful r s os).1
unfolding Commands.stop_in
stop_in-IsConsistent ServiceState.running g r s os h = stop_workers-IsConsistent g r s os
stop_in-IsConsistent (ServiceState.starting c) g r s os h = stop_workers-IsConsistent g r s _
stop_in-IsConsistent (ServiceState.reloading c) g r s os h = stop_workers-IsConsistent g r s _
stop_in-IsConsistent _ g r s os h = h

pub handle-IsConsistent :
    (r : Request) (s : FeService) (os : Os)
    → IsConsistent s
    → Ends (λ x. IsConsistent x.0) (handle r s os)
unfolding handle Commands.start Commands.pause Commands.resume Commands.reload Commands.stop
handle-IsConsistent (Request.signal g) s os h = deliver-IsConsistent g s os h
handle-IsConsistent Request.start s os h = start_in-IsConsistent s.state s os refl h
handle-IsConsistent Request.pause s os h = (pause_in-IsConsistent s.state s os refl h).0
handle-IsConsistent Request.resume s os h = (pause_in-IsConsistent s.state s os refl h).1
handle-IsConsistent (Request.reload b) s os h = reload_in-IsConsistent s.state b s os h
handle-IsConsistent (Request.stop b r) s os h = stop_in-IsConsistent s.state b r s os h

-- After any messages that a service handles without a panic: if it counts as stopped, every worker
-- is stopped, and while it stops, every worker is stopped or waits for the exit of its process.
pub handle_all-IsConsistent :
    (rs : List Request) (s : FeService) (os : Os)
    → IsConsistent s
    → Ends (λ x. IsConsistent x.0) (handle_all rs s os)
unfolding handle_all
handle_all-IsConsistent [] s os h = h
handle_all-IsConsistent (r ∷ rs) s os h = elim (Option-cases (handle r s os)) [
  | inl e ↦ rw (e, handle_all) tt
  | inr (x, e) ↦
      rw (e, handle_all)
        (handle_all-IsConsistent rs x.0 x.1 (rw e at (handle-IsConsistent r s os h)))
]
