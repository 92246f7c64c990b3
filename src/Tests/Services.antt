-- ===== src/Tests/Services.antt =====
-- The theorems on services, on the command center and on the console client at concrete inputs.

use fectl.Prelude.{
  ℕ, ◌≤◌, ◌-◌, ◌≡◌, ◌↔◌, refl, arith, inl, inr, Bool, true, false, none, some, String, List, [],
  ◌∷◌, ◌++◌, All, length,
}
use fectl.Client.{ClientCommand, request, read_loop, response}
use fectl.Client.Misdirected.{misdirected_fails, named, written}
use fectl.Client.Waiting.{
  pongs, start_reply, start-running_hangs, stop_reply, stop_stopped_succeeds,
}
use fectl.Command.{
  CommandCenter, State, SignalType, WaitStatus, ask, send_stop, set_waiter, stop_system,
  handle_signal, handle_stop, new, route, started,
}
use fectl.Command
use fectl.Command.Requests.{Sent}
use fectl.Command.Shutdown.{answers, empty_never_exits, stop_exits}
use fectl.Event.{Reason}
use fectl.Master.{MasterResponse}
use fectl.Master.Dispatch.{Replies, handle}
use fectl.Process.Error.{ProcessError}
use fectl.Service.{FeService, ServiceState, create, started as service_started, update}
use fectl.Service.Announce.{IsUp, failed_refuses_stop, update_success}
use fectl.Service.Check.{is_busy}
use fectl.Service.Commands.{Response}
use fectl.Service.Commands
use fectl.Service.Livelock.{failure_never_announced}
use fectl.Service.Loops.{Ends}
use fectl.Service.Requests.{Request, Signal, deliver_all, handle_all}
use fectl.Service.Ledger.{IsBalanced}
use fectl.Service.Lifecycle.{Yields, IsSound, handle_all-IsSound, handle_all-answers}
use fectl.Service.Panics.{InRange}
use fectl.System.{Addr}
use fectl.Worker.{Worker, WorkerState, is_failed, is_running, is_stopped}
use fectl.Tests.{system, web, process, worker_in, service_in}

abbrev failed : Worker
failed = worker_in WorkerState.failed

abbrev running : Worker
running = worker_in (WorkerState.running (process 8 4))

abbrev starting : Worker
starting = worker_in (WorkerState.starting (process 7 3))

abbrev requests : List Request
requests =
    Request.signal (Signal.loaded 0 101)
    ∷ Request.stop true Reason.console_request
    ∷ Request.signal (Signal.exited 101 (ProcessError.exit_code 0))
    ∷ Request.signal (Signal.failure_due 1 104 ProcessError.boot_failed)
    ∷ Request.start
    ∷ []

requests-InRange : All (InRange 2) requests
requests-InRange = (omega arith, (tt, (tt, (omega arith, (tt, tt)))))

handle_all-IsSound_example :
    let (s₀, os₀) = create 2 web 1 system in
    let (s₁, os₁) = service_started s₀ os₀ in Yields (IsSound 2) (handle_all requests s₁ os₁)
handle_all-IsSound_example = handle_all-IsSound 2 web 1 system requests requests-InRange

handle_all-answers_example :
    let (s₀, os₀) = create 2 web 1 system in
    let (s₁, os₁) = service_started s₀ os₀ in
    Yields (λ r. (length r.0.workers ≡ 2) × IsBalanced 1 r) (handle_all requests s₁ os₁)
handle_all-answers_example =
    handle_all-answers 1 2 web 1 system requests refl (omega arith) requests-InRange

update_success_example :
    ((update (service_in (ServiceState.starting 5) (running ∷ [])) system).0.state
      ≡ ServiceState.running)
    ↔ All IsUp (running ∷ [])
update_success_example =
    update_success (ServiceState.starting 5) (service_in (ServiceState.starting 5) (running ∷ []))
      system tt refl

abbrev settled : FeService
settled = service_in (ServiceState.starting 5) (running ∷ failed ∷ [])

failed_refuses_stop_example :
    let (s, os) = update settled system in
    (s.state ≡ ServiceState.failed)
    × (s.workers ≡ settled.workers)
    × (Commands.stop true Reason.console_request s os ≡ (Response.reply tt, s, os))
failed_refuses_stop_example =
    failed_refuses_stop 5 true Reason.console_request settled system (inl refl) (refl, (refl, tt))
      (inr (inl refl))

starting_busy : is_busy true starting ≡ true
unfolding is_busy is_failed is_running is_stopped
starting_busy = refl

failure_never_announced_example :
    let (s, os) = update (service_in (ServiceState.starting 5) (starting ∷ failed ∷ [])) system in
    Ends
      (λ r. r.0.state ≡ ServiceState.starting 5)
      (deliver_all (Signal.exited 7 (ProcessError.signal 3) ∷ Signal.loaded 0 101 ∷ []) s os)
failure_never_announced_example =
    failure_never_announced (ServiceState.starting 5)
      (Signal.exited 7 (ProcessError.signal 3) ∷ Signal.loaded 0 101 ∷ [])
      (service_in (ServiceState.starting 5) (starting ∷ failed ∷ [])) system tt refl
      (inr (inl refl)) (inl starting_busy)

abbrev table : List (String × Addr)
table = ("web", 2) ∷ ("api", 3) ∷ []

abbrev center : CommandCenter
center = record (new) { state = State.running; services = table }

stop_exits_example :
    let (stopped, os) = Command.stop true center in
    let c = record stopped { stop_waiter = some 6 } in
    (os ≡ send_stop 2 true Reason.exit ∷ send_stop 3 true Reason.exit ∷ [])
    × (stopped.state ≡ State.stopping)
    × ((k : ℕ) → k ≤ 1 → answers k c ≡ some (record c { stopping = 2 - k }, []))
    × (answers 2 c
        ≡ some (record c { stopping = 0; stop_waiter = none }, set_waiter 6 ∷ stop_system ∷ []))
unfolding new
stop_exits_example = stop_exits true 1 center (some 6) (ground arith) refl refl

empty_never_exits_example :
    let (c₁, os₁) = handle_stop 6 new in
    let (c₂, os₂) = handle_signal SignalType.child (WaitStatus.exited 7 0 ∷ []) new in
    (os₁ ≡ []) × (c₁.0.services ≡ []) × (os₂ ≡ []) × (c₂.services ≡ [])
unfolding new
empty_never_exits_example =
    empty_never_exits 6 SignalType.child (WaitStatus.exited 7 0 ∷ []) new refl

abbrev on_version : String → Bool
on_version v = true

start-running_hangs_example :
    let (r, s, os) = Commands.start (service_in ServiceState.running (running ∷ [])) system in
    (s ≡ service_in ServiceState.running (running ∷ []))
    × (start_reply r ≡ response MasterResponse.error_service_running ∷ [])
    × (read_loop on_version
          (ClientCommand.start "web")
          (response MasterResponse.error_service_running ∷ pongs 100)
        ≡ none)
start-running_hangs_example =
    start-running_hangs on_version "web" 100 (service_in ServiceState.running (running ∷ [])) system
      refl

stop_stopped_succeeds_example :
    let (r, s, os) =
      Commands.stop true Reason.console_request
        (service_in ServiceState.failed (failed ∷ []))
        system in
    (s ≡ service_in ServiceState.failed (failed ∷ []))
    × (stop_reply r ≡ response MasterResponse.service_started ∷ [])
    × (read_loop on_version (ClientCommand.stop "web") (stop_reply r) ≡ some true)
stop_stopped_succeeds_example =
    stop_stopped_succeeds on_version "web" true (service_in ServiceState.failed (failed ∷ []))
      system (inr refl)

-- Services that cannot be reached.
abbrev silent : Replies
silent = record {
  condition = 6;
  stopped = 1;
  start = λ a. Sent.unreachable;
  stop = λ g a. Sent.unreachable;
  pause = λ a. Sent.unreachable;
  resume = λ a. Sent.unreachable;
  reload = λ g a. Sent.unreachable;
  status = λ a. Sent.unreachable;
  pids = λ a. Sent.unreachable;
}

misdirected_fails_example :
    read_loop on_version (ClientCommand.reload "db") (
      pongs 3
      ++ written (handle silent "1" "fectl" (request (ClientCommand.reload "db")) (some center)))
    ≡ some false
unfolding named new Command.get
misdirected_fails_example =
    misdirected_fails on_version (ClientCommand.reload "db") "db" 3 silent "1" "fectl" center refl
      (inr refl)
