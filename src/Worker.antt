-- ===== src/Worker.antt =====
-- src/worker.rs: one worker of a service, a state machine over the processes that it runs. Every
-- method takes the worker and the system, and returns both. `std::mem::replace` of the state by
-- `Initial` while a method runs is the match on the old state: each branch sets the state again.
pub mod Custody
pub mod Ending
pub mod Exits
pub mod Foreign
pub mod Frame
pub mod Methods
pub mod Reload
pub mod Restarts
pub mod Restore
pub mod Silent
pub mod Stranded
use fectl.Prelude.{ℕ, ◌+◌, ◌%◌, String, Bool, true, false, Option, none, some, ◌==◌, if◌then◌else◌}
use fectl.Event.{Event, Events, State, Reason, event}
use fectl.Event
use fectl.Config.{ServiceConfig}
use fectl.Process.Start.{ProcessInfo}
use fectl.Process.Start
use fectl.System.{
  Pid, Addr, Os, ask, log, ProcessRequest, send_process, stop_process, quit_process, start_process,
  pause_process, resume_process,
}
use fectl.Protocol.{WorkerMessage}

pub data WorkerState : Type 0 where
  initial failed stopped : WorkerState
  starting running stopping : ProcessInfo → WorkerState
  reloading restarting stopping_old : ProcessInfo → ProcessInfo → WorkerState

pub record Worker : Type 0 where
  pub idx : ℕ
  pub cfg : ServiceConfig
  pub state : WorkerState
  pub events : Events
  pub restore_from_fail : Bool
  pub started : ℕ
  pub restarts : ℕ
  pub addr : Addr

-- `Events::new(50)`
unfoldable pub new : ℕ → ServiceConfig → Addr → Os → Worker × Os
unfolding ask
new idx cfg addr os = (
  record {
    idx = idx;
    cfg = cfg;
    state = WorkerState.initial;
    events = Event.new 50;
    restore_from_fail = false;
    started = os.outside.instant os.asked;
    restarts = 0;
    addr = addr;
  },
  ask os,
)

-- A request to a process: nothing happens if the process was never created.
unfoldable pub send : ProcessInfo → ProcessRequest → Os → Os
unfolding log
send p request os = elim p.addr [ none ↦ os | some addr ↦ log (send_process addr request) os ]

-- `self.events.add(state, reason, pid)`
unfoldable pub note : State → Reason → Option String → Worker → Os → Worker × Os
unfolding ask
note state reason pid w os = (
  record w { events = Event.add (event state reason pid (os.outside.unix_secs os.asked)) w.events },
  ask os,
)

-- `str(pid)` of src/utils.rs
abbrev pub str : Os → Pid → Option String
str os pid = some (os.outside.format_pid pid)

-- A new process for a worker that has none.
launch : Reason → Worker → Os → Worker × Os
launch reason w os =
    let (info, os') = Start.start w.idx w.cfg w.addr os in
    note State.starting reason (str os' info.pid) (record w { state = WorkerState.starting info })
      os'

start_in : WorkerState → Reason → Worker → Os → Worker × Os
start_in WorkerState.initial reason w os = launch reason w os
start_in WorkerState.stopped reason w os = launch reason w os
start_in WorkerState.failed reason w os = launch reason w os
start_in _ reason w os = (w, os)

unfoldable pub start : Reason → Worker → Os → Worker × Os
unfolding start_in launch
start reason w os = start_in w.state reason w os

-- `loaded` of a replacement: the old process is asked to go by `last`.
replaced : ProcessInfo → ProcessInfo → ProcessRequest → Worker → Os → Worker × Os
replaced p old last w os =
    note State.stopping_old Reason.none (str os old.pid)
      (record w { restarts = 0; state = WorkerState.stopping_old p old })
      (send p start_process (send old last os))

loaded_in : WorkerState → Pid → Worker → Os → Worker × Os
unfolding replaced
loaded_in (WorkerState.starting p) pid w os =
    if p.pid == pid
    then note State.running Reason.none (str os p.pid)
        (record w { restarts = 0; state = WorkerState.running p; restore_from_fail = false })
        (send p start_process os)
    else (w, os)
loaded_in (WorkerState.reloading p old) pid w os =
    if p.pid == pid then replaced p old stop_process w os else (w, os)
loaded_in (WorkerState.restarting p old) pid w os =
    if p.pid == pid then replaced p old (quit_process true) w os else (w, os)
loaded_in _ pid w os = (w, os)

unfoldable pub loaded : Pid → Worker → Os → Worker × Os
unfolding loaded_in
loaded pid w os = loaded_in w.state pid w os

running_state : WorkerState → Bool
running_state (WorkerState.running p) = true
running_state _ = false

unfoldable pub is_running : Worker → Bool
unfolding running_state
is_running w = running_state w.state

failed_state : WorkerState → Bool → Bool
failed_state WorkerState.failed restored = true
failed_state (WorkerState.running p) restored = restored
failed_state _ restored = false

unfoldable pub is_failed : Worker → Bool
unfolding failed_state
is_failed w = failed_state w.state w.restore_from_fail

stopped_state : WorkerState → Bool
stopped_state WorkerState.stopped = true
stopped_state _ = false

unfoldable pub is_stopped : Worker → Bool
unfolding stopped_state
is_stopped w = stopped_state w.state

pid_in : WorkerState → Option Pid
pid_in (WorkerState.running p) = some p.pid
pid_in (WorkerState.stopping_old p old) = some p.pid
pid_in _ = none

unfoldable pub pid : Worker → Option Pid
unfolding pid_in
pid w = pid_in w.state

-- A second process, which replaces the running one when it is loaded.
replace : Bool → Reason → ProcessInfo → Worker → Os → Worker × Os
replace graceful reason p w os =
    let (info, os') = Start.start w.idx w.cfg w.addr os in
    if graceful
    then note State.reloading reason (str os' p.pid)
        (record w { state = WorkerState.reloading info p }) os'
    else note State.restarting reason (str os' p.pid)
        (record w { state = WorkerState.restarting info p }) os'

restart : Reason → Worker → Os → Worker × Os
restart reason w os = start reason (record w { restarts = 0; state = WorkerState.initial }) os

reload_in : WorkerState → Bool → Reason → Worker → Os → Worker × Os
unfolding replace restart
reload_in (WorkerState.running p) graceful reason w os = replace graceful reason p w os
reload_in WorkerState.failed graceful reason w os = restart reason w os
reload_in WorkerState.stopped graceful reason w os = restart reason w os
reload_in _ graceful reason w os = (w, os)

unfoldable pub reload : Bool → Reason → Worker → Os → Worker × Os
unfolding reload_in
reload graceful reason w os = reload_in w.state graceful reason w os

-- Is `pid` the process of a running worker?
asks_reload : WorkerState → Pid → Bool
asks_reload (WorkerState.running p) pid = p.pid == pid
asks_reload _ pid = false

answer : WorkerMessage → Worker → Os → Worker × Os
answer WorkerMessage.reload w os = reload true Reason.worker_request w os
answer WorkerMessage.restart w os = reload false Reason.worker_request w os
answer _ w os = (w, os)

unfoldable pub message : Pid → WorkerMessage → Worker → Os → Worker × Os
unfolding asks_reload answer
message pid m w os = if asks_reload w.state pid then answer m w os else (w, os)

pause_in : WorkerState → Reason → Worker → Os → Worker × Os
pause_in (WorkerState.running p) reason w os =
    note State.paused reason (str os p.pid) w (send p pause_process os)
pause_in _ reason w os = (w, os)

unfoldable pub pause : Reason → Worker → Os → Worker × Os
unfolding pause_in
pause reason w os = pause_in w.state reason w os

resume_in : WorkerState → Reason → Worker → Os → Worker × Os
resume_in (WorkerState.running p) reason w os =
    note State.running reason (str os p.pid) w (send p resume_process os)
resume_in _ reason w os = (w, os)

unfoldable pub resume : Reason → Worker → Os → Worker × Os
unfolding resume_in
resume reason w os = resume_in w.state reason w os
