-- ===== src/Tests/Fleets.antt =====
-- The theorems on the whole master at concrete inputs: a service with one worker, which is stopped
-- while it starts.
use fectl.Prelude.{◌≡◌, ◌≢◌, refl, arith, true, false, none, some, length, List, [], ◌∷◌, ◌++◌, All}
use fectl.Command.{CommandCenter, Order, State, exit, stop, stop_answered}
use fectl.Event
use fectl.Event.{Reason}
use fectl.Fleet.{
  Fleet, IsNew, IsStart, Member, Reach, Status, Step, accept_stop, is_answered, later, post, serve,
  start,
}
use fectl.Fleet.Counts.{has_exited}
use fectl.Fleet.Moves.{Move}
use fectl.Fleet.Shutdown.{IsSettled, exited-IsSettled}
use fectl.Fleet.Waiting.{stop_goes_on}
use fectl.Process.Error.{ProcessError}
use fectl.Worker.{WorkerState}
use fectl.Service.{ServiceState, create, process_exited, started}
use fectl.Service.Loops.{Any}
use fectl.Service.Requests.{Request, Signal, deliver, handle}
use fectl.System.{Os, close, create_process}
use fectl.Tests.{outside, process, service_in, web, worker_in}

abbrev empty : Os
empty = record { outside = outside; asked = 0; next_addr = 10; next_condition = 0; calls = [] }

-- The service as it comes out of `create` and `started`.
abbrev newborn : Member
newborn = record {
  addr = 1;
  service = service_in (ServiceState.starting 0) (
      record (worker_in (WorkerState.starting (process 103 10))) {
        events = record {
          max = 50;
          events =
              record {
                state = Event.State.starting;
                reason = Reason.initial;
                timestamp = 4;
                pid = some "pid";
              }
              ∷ [];
        };
      }
      ∷ []);
  os = record {
    outside = outside;
    asked = 5;
    next_addr = 11;
    next_condition = 1;
    calls = create_process 10 0 103 ∷ close 15 ∷ close 12 ∷ [];
  };
  status = Status.idle;
}

newborn-IsNew : IsNew newborn
unfolding create started fectl.Fleet.status_of fectl.Service.Commands.stop fectl.Fleet.stop_for
    fectl.Command.stop_services fectl.Fleet.is_set fectl.Service.update
    fectl.Service.Commands.stop_workers fectl.Service.check_loading_workers fectl.Service.check_from
    fectl.Service.for_each fectl.Service.make_workers fectl.Service.check_worker
    fectl.Worker.is_failed fectl.Worker.Ending.stop fectl.Worker.start fectl.Event.add
    fectl.Event.new fectl.Event.pop_front fectl.Process.Error.reason
    fectl.Process.Start.create_pipes fectl.Process.Start.fork fectl.Process.Start.start
    fectl.Service.Commands.stop_in fectl.Service.fresh fectl.Service.settle
    fectl.Service.stop_unfinished fectl.Service.update_in fectl.System.ask fectl.System.log
    fectl.Worker.Ending.quit fectl.Worker.Exits.count_restart fectl.Worker.Exits.exited
    fectl.Worker.Exits.exited_in fectl.Worker.Exits.new_exited fectl.Worker.Exits.old_exited
    fectl.Worker.Exits.replacement_exited fectl.Worker.Exits.running_exited
    fectl.Worker.Exits.starting_exited fectl.Worker.is_running fectl.Worker.is_stopped
    fectl.Worker.new fectl.Worker.note fectl.Worker.reload fectl.Worker.send
newborn-IsNew = (1, web, empty, (refl, refl, refl, refl))

abbrev running : Fleet
running = record {
  center = record {
    state = State.running;
    services = ("web", 1) ∷ [];
    stop_waiter = none;
    stopping = 0;
  };
  members = newborn ∷ [];
  orders = [];
}

running-IsStart : IsStart running
running-IsStart = ((newborn-IsNew, tt), refl, refl, refl, refl)

abbrev called : Member
called = post (stop true running.center).1 newborn

abbrev stopping : Fleet
stopping = record {
  center = (stop true running.center).0;
  members = called ∷ [];
  orders = (stop true running.center).1;
}

called_sent : called.status ≡ Status.sent true
unfolding post stop fectl.Fleet.stop_for fectl.Command.stop_services
called_sent = refl

abbrev asked : Member
asked = accept_stop true called

-- The process 103 of the worker is gone.
abbrev gone : Member
gone =
    let (s, os) = process_exited 103 (ProcessError.signal 15) asked.service asked.os in
    record asked { service = s; os = os }

gone_served : serve (Request.signal (Signal.exited 103 (ProcessError.signal 15))) asked ≡ some gone
unfolding serve handle deliver
gone_served = refl

gone_answered : is_answered gone ≡ true
unfolding is_answered accept_stop post stop process_exited fectl.Fleet.status_of
    fectl.Service.Commands.stop fectl.Fleet.stop_for fectl.Command.stop_services started create
    fectl.Fleet.is_set fectl.Service.update fectl.Service.Commands.stop_workers
    fectl.Service.check_loading_workers fectl.Service.check_from fectl.Service.for_each
    fectl.Service.make_workers fectl.Service.check_worker fectl.Worker.is_failed
    fectl.Worker.Ending.stop fectl.Worker.start fectl.Event.add fectl.Event.new
    fectl.Event.pop_front fectl.Process.Error.reason fectl.Process.Start.create_pipes
    fectl.Process.Start.fork fectl.Process.Start.start fectl.Service.Commands.stop_in
    fectl.Service.fresh fectl.Service.settle fectl.Service.stop_unfinished fectl.Service.update_in
    fectl.System.ask fectl.System.log fectl.Worker.Ending.quit fectl.Worker.Exits.count_restart
    fectl.Worker.Exits.exited fectl.Worker.Exits.exited_in fectl.Worker.Exits.new_exited
    fectl.Worker.Exits.old_exited fectl.Worker.Exits.replacement_exited
    fectl.Worker.Exits.running_exited fectl.Worker.Exits.starting_exited fectl.Worker.is_running
    fectl.Worker.is_stopped fectl.Worker.new fectl.Worker.note fectl.Worker.reload fectl.Worker.send
gone_answered = refl

abbrev at_end : CommandCenter × List Order
at_end = exit (record stopping.center { stopping = 0 })

last_answer : stop_answered stopping.center ≡ some at_end
unfolding stop_answered stop fectl.Command.stop_services
last_answer = refl

abbrev exited : Fleet
exited = record {
  center = at_end.0;
  members = record gone { status = Status.done } ∷ [];
  orders = stopping.orders ++ at_end.1;
}

exited-Reach : Reach exited
exited-Reach =
    later
      (later
        (later (later (start running running-IsStart) (Step.shutdown running true))
          (Step.accept stopping [] [] called true refl called_sent))
        (Step.signal (record stopping { members = asked ∷ [] }) [] [] asked gone
          (Signal.exited 103 (ProcessError.signal 15)) refl gone_served))
      (Step.answer (record stopping { members = gone ∷ [] }) [] [] gone at_end.0 at_end.1 refl
        gone_answered last_answer)

exited_orders : has_exited exited.orders ≡ true
unfolding has_exited stop exit fectl.Command.stop_services
exited_orders = refl

exited-IsSettled_example : All IsSettled exited.members
exited-IsSettled_example = exited-IsSettled exited exited-Reach exited_orders

-- The service has taken the stop, and its worker waits for the exit of process 103.
abbrev taken : Fleet
taken = record stopping { members = asked ∷ [] }

taken-Reach : Reach taken
taken-Reach =
    later (later (start running running-IsStart) (Step.shutdown running true))
      (Step.accept stopping [] [] called true refl called_sent)

taken_stops : taken.center.state ≡ State.stopping
unfolding stop fectl.Command.stop_services
taken_stops = refl

taken_runs : has_exited taken.orders ≡ false
unfolding has_exited stop fectl.Command.stop_services
taken_runs = refl

some_service : length taken.members ≢ 0
some_service = omega arith

stop_goes_on_example : Any (Move taken.center) taken.members
stop_goes_on_example = stop_goes_on taken taken-Reach taken_stops some_service taken_runs
