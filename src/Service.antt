-- ===== src/Service.antt =====
-- src/service.rs: a service and its workers. Each handler takes the service and the system, and
-- returns both; `none` is a panic, which only an index that is out of range brings about.
pub mod Status
pub mod Commands
pub mod Announce
pub mod Check
pub mod Conditions
pub mod Launch
pub mod Ledger
pub mod Lifecycle
pub mod Livelock
pub mod Loops
pub mod Made
pub mod Panics
pub mod Phases
pub mod Queries
pub mod Requests
pub mod Stopping
pub mod Success
pub mod Waits
use Prim.Native.String.{◌++◌}
use mathlib.Core.Option
use fectl.Prelude.{
  ℕ, zero, suc, ◌+◌, String, Bool, true, false, ◌||◌, Option, none, some, List, [], ◌∷◌, map,
  if◌then◌else◌,
}
use fectl.Config.{ServiceConfig}
use fectl.Event.{Event, Reason}
use fectl.Process.Error.{ProcessError}
use fectl.Protocol.{WorkerMessage}
use fectl.System.{Pid, Addr, Os, log, set_start, set_reload, set_stop, run_later}
use fectl.Worker.{Worker}
use fectl.Worker
use fectl.Worker.Ending
use fectl.Worker.Exits
use Status.{StartStatus, ReloadStatus, ServiceOperationError}

-- A condition is named by its number: who waits for it, waits for that number.
pub data ServiceState : Type 0 where
  running failed stopped : ServiceState
  starting reloading stopping : ℕ → ServiceState

unfoldable pub description : ServiceState → String
description ServiceState.running = "running"
description ServiceState.failed = "failed"
description ServiceState.stopped = "stopped"
description (ServiceState.starting c) = "starting"
description (ServiceState.reloading c) = "reloading"
description (ServiceState.stopping c) = "stopping"

unfoldable pub error : ServiceState → ServiceOperationError
error ServiceState.running = ServiceOperationError.running
error ServiceState.failed = ServiceOperationError.failed
error ServiceState.stopped = ServiceOperationError.stopped
error (ServiceState.starting c) = ServiceOperationError.starting
error (ServiceState.reloading c) = ServiceOperationError.reloading
error (ServiceState.stopping c) = ServiceOperationError.stopping

pub record FeService : Type 0 where
  pub name : String
  pub state : ServiceState
  pub paused : Bool
  pub workers : List Worker

-- `actix::Condition::default()`
unfoldable pub fresh : Os → ℕ × Os
fresh os = (os.next_condition, record os { next_condition = suc os.next_condition })

-- The loop of `FeService::start`: `n` more workers, the next one with number `idx`.
unfoldable pub make_workers : ℕ → ℕ → ServiceConfig → Addr → Os → List Worker × Os
make_workers zero idx cfg addr os = ([], os)
make_workers (suc n) idx cfg addr os =
    let (w, os') = Worker.new idx cfg addr os in
    let (ws, os'') = make_workers n (suc idx) cfg addr os' in (w ∷ ws, os'')

unfoldable pub create : ℕ → ServiceConfig → Addr → Os → FeService × Os
unfolding fresh
create num cfg addr os =
    let (workers, os') = make_workers num 0 cfg addr os in
    let (c, os'') = fresh os' in
    (
      record {
        name = cfg.name;
        state = ServiceState.starting c;
        paused = false;
        workers = workers;
      },
      os'',
    )

-- `for worker in &mut self.workers { .. }`
unfoldable pub for_each : (Worker → Os → Worker × Os) → List Worker → Os → List Worker × Os
for_each f [] os = ([], os)
for_each f (w ∷ ws) os =
    let (w', os') = f w os in let (ws', os'') = for_each f ws os' in (w' ∷ ws', os'')

-- The two flags of `check_loading_workers`.
pub record Load : Type 0 where
  pub failed : Bool
  pub in_process : Bool

unfoldable pub check_worker : Bool → Load → Worker → Os → Load × Worker × Os
check_worker restart_stopped l w os =
    if Worker.is_failed w
    then (record l { failed = true }, w, os)
    else if Worker.is_stopped w
    then (if restart_stopped
        then (let (w', os') = Worker.reload true Reason.none w os in
            (record l { in_process = true }, w', os'))
        else (l, w, os))
    else if Worker.is_running w
    then (l, w, os)
    else (record l { in_process = true }, w, os)

unfoldable pub check_from : Bool → Load → List Worker → Os → Load × List Worker × Os
check_from restart_stopped l [] os = (l, [], os)
check_from restart_stopped l (w ∷ ws) os =
    let (l', w', os') = check_worker restart_stopped l w os in
    let (l'', ws', os'') = check_from restart_stopped l' ws os' in (l'', w' ∷ ws', os'')

unfoldable pub check_loading_workers : Bool → List Worker → Os → Load × List Worker × Os
check_loading_workers restart_stopped ws os =
    check_from restart_stopped (record { failed = false; in_process = false }) ws os

-- The body of the loop that stops the others when a worker has failed.
unfoldable pub stop_unfinished : Worker → Os → Worker × Os
stop_unfinished w os =
    if Worker.is_stopped w || Worker.is_failed w
    then (w, os)
    else Ending.stop Reason.some_workers_failed w os

-- What `update` does after the check: `Starting` and `Reloading` differ in the answer that is set.
unfoldable pub settle :
    ServiceState → Os → Os → FeService → Load → List Worker → Os → FeService × Os
settle pending on_failure on_success s l ws os =
    if l.failed
    then (if l.in_process
        then (let (ws', os') = for_each stop_unfinished ws os in
            (record s { state = pending; workers = ws' }, os'))
        else (record s { state = ServiceState.failed; workers = ws }, on_failure))
    else if l.in_process
    then (record s { state = pending; workers = ws }, os)
    else (record s { state = ServiceState.running; workers = ws }, on_success)

unfoldable pub update_in : ServiceState → FeService → Os → FeService × Os
unfolding settle
update_in (ServiceState.starting c) s os =
    let (l, ws, os') = check_loading_workers true s.workers os in
    settle (ServiceState.starting c) (log (set_start c StartStatus.failed) os')
      (log (set_start c StartStatus.success) os') s l ws os'
update_in (ServiceState.reloading c) s os =
    let (l, ws, os') = check_loading_workers true s.workers os in
    settle (ServiceState.reloading c) (log (set_reload c ReloadStatus.failed) os')
      (log (set_reload c ReloadStatus.success) os') s l ws os'
update_in (ServiceState.stopping c) s os =
    let (l, ws, os') = check_loading_workers false s.workers os in
    if l.in_process
    then (record s { workers = ws }, os')
    else (record s { state = ServiceState.stopped; workers = ws }, log (set_stop c) os')
update_in _ s os = (s, os)

unfoldable pub update : FeService → Os → FeService × Os
unfolding update_in
update s os = update_in s.state s os

-- `FeService::message`, which nothing calls.
unfoldable pub message : Pid → WorkerMessage → FeService → Os → FeService × Os
message pid m s os =
    let (ws, os') = for_each (Worker.message pid m) s.workers os in (record s { workers = ws }, os')

-- `started` of the actor.
unfoldable pub started : FeService → Os → FeService × Os
started s os =
    let (ws, os') = for_each (Worker.start Reason.initial) s.workers os in
    (record s { workers = ws }, os')

-- `self.workers[i]` with a method; `none` is the panic.
unfoldable pub at_worker :
    ℕ → (Worker → Os → Worker × Os) → List Worker → Os → Option (List Worker × Os)
at_worker i f [] os = none
at_worker zero f (w ∷ ws) os = let (w', os') = f w os in some (w' ∷ ws, os')
at_worker (suc i) f (w ∷ ws) os = elim (at_worker i f ws os) [
  | none ↦ none
  | some (ws', os') ↦ some (w ∷ ws', os')
]

-- A method on one worker, then `update`.
unfoldable pub at_worker_then_update :
    ℕ → (Worker → Os → Worker × Os) → FeService → Os → Option (FeService × Os)
at_worker_then_update i f s os =
    Option.map (λ r. update (record s { workers = r.0 }) r.1) (at_worker i f s.workers os)

unfoldable pub process_message : ℕ → Pid → WorkerMessage → FeService → Os → Option (FeService × Os)
process_message i pid m s os = at_worker_then_update i (Worker.message pid m) s os

-- The handler puts the work off for five seconds, and `failure_due` is that work.
unfoldable pub process_failed : ℕ → Pid → ProcessError → FeService → Os → FeService × Os
process_failed i pid e s os = (s, log (run_later 5 i pid e) os)

unfoldable pub failure_due : ℕ → Pid → ProcessError → FeService → Os → Option (FeService × Os)
failure_due i pid e s os = at_worker_then_update i (Exits.exited pid e) s os

unfoldable pub process_loaded : ℕ → Pid → FeService → Os → Option (FeService × Os)
process_loaded i pid s os = at_worker_then_update i (Worker.loaded pid) s os

unfoldable pub process_exited : Pid → ProcessError → FeService → Os → FeService × Os
process_exited pid e s os =
    let (ws, os') = for_each (Exits.exited pid e) s.workers os in
    update (record s { workers = ws }) os'
