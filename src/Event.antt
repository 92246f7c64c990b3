-- ===== src/Event.antt =====
-- src/event.rs: the history of a worker. `Reason` and `State` are the enums of the file. A time in
-- whole seconds since the epoch is an argument of `Event.new`: the code reads it from the clock.
pub mod Bounds
pub mod History
use fectl.Prelude.{ℕ, String, List, [], ◌∷◌, ◌++◌, Option, leb, length, if◌then◌else◌}

pub data State : Type 0 where
  starting reloading restarting running stopping_old stopping failed stopped paused : State
  restart_failed reload_failed : State

-- `Signal(usize)` and `ExitCode(i8)`: the code is the byte, 0 to 255.
pub data Reason : Type 0 where
  none initial exit console_request worker_request some_workers_failed : Reason
  worker_error : String → Reason
  failed_to_start : Option String → Reason
  heartbeat_failed startup_timeout stop_timeout init_failed boot_failed : Reason
  signal exit_code : ℕ → Reason
  new_process_died restart_failed_starting_worker restart_failed_running_worker : Reason
  restore_aftre_failed reload_aftre_timeout : Reason

pub record Event : Type 0 where
  pub state : State
  pub reason : Reason
  pub timestamp : ℕ
  pub pid : Option String

-- `max` entries at most; the front of the `VecDeque` is the head of the list.
pub record Events : Type 0 where
  pub max : ℕ
  pub events : List Event

abbrev pub event : State → Reason → Option String → ℕ → Event
event state reason pid now = record { state = state; reason = reason; timestamp = now; pid = pid }

unfoldable pub new : ℕ → Events
new max = record { max = max; events = [] }

unfoldable pub pop_front : List Event → List Event
pop_front [] = []
pop_front (e ∷ es) = es

unfoldable pub add : Event → Events → Events
unfolding pop_front
add e es =
    let kept = if leb es.max (length es.events) then pop_front es.events else es.events in
    record es { events = kept ++ e ∷ [] }
