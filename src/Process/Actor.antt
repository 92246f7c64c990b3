-- ===== src/Process/Actor.antt =====
-- src/process.rs: the actor that looks after one worker process. A handler takes the actor and the
-- instant at which it runs, in nanoseconds, and returns the actor and the effects in their order.
use fectl.Prelude.{ℕ, ◌-◌, ◌*◌, Bool, true, false, List, [], ◌∷◌, ◌++◌, ltb, if◌then◌else◌}
use fectl.Process.Error.{ProcessError}
use fectl.Protocol.{WorkerCommand, WorkerMessage}
use fectl.System.{Pid, Addr}

pub data ProcessState : Type 0 where
  starting failed running stopping : ProcessState

-- `timeout` is a duration in nanoseconds, the other two are seconds.
pub record Process : Type 0 where
  pub idx : ℕ
  pub pid : Pid
  pub state : ProcessState
  pub hb : ℕ
  pub addr : Addr
  pub timeout : ℕ
  pub startup_timeout : ℕ
  pub shutdown_timeout : ℕ

-- `ProcessMessage` of the code, its timers apart from what the worker sends.
pub data Timer : Type 0 where
  startup_timeout stop_timeout heartbeat kill : Timer

pub data ProcessMessage : Type 0 where
  message : WorkerMessage → ProcessMessage
  timer : Timer → ProcessMessage

pub data Signal : Type 0 where
  sigkill sigterm sigquit : Signal

-- `stop` and `terminate` are those of the actor's context; `report_*` go to the service.
pub data Effect : Type 0 where
  write : WorkerCommand → Effect
  notify_later : Timer → ℕ → Effect
  kill : Signal → Effect
  report_loaded : Effect
  report_message : WorkerMessage → Effect
  report_failed : ProcessError → Effect
  stop terminate : Effect

abbrev pub heartbeat_secs : ℕ
heartbeat_secs = 2

-- `Process::create` in `Process::start`: the actor and the timer of its start.
unfoldable pub create : ℕ → Pid → Addr → ℕ → ℕ → ℕ → ℕ → Process × List Effect
create idx pid addr timeout startup shutdown now = (
  record {
    idx = idx;
    pid = pid;
    state = ProcessState.starting;
    hb = now;
    addr = addr;
    timeout = timeout * 1000000000;
    startup_timeout = startup;
    shutdown_timeout = shutdown;
  },
  notify_later Timer.startup_timeout startup ∷ [],
)

-- `Process::kill`
unfoldable pub kill_effects : Bool → List Effect
kill_effects true = notify_later Timer.kill 1 ∷ []
kill_effects false = Effect.kill sigkill ∷ terminate ∷ []

loaded_in : ProcessState → Process → ℕ → Process × List Effect
loaded_in ProcessState.starting p now = (
  record p { state = ProcessState.running; hb = now },
  report_loaded ∷ notify_later Timer.heartbeat heartbeat_secs ∷ [],
)
loaded_in _ p now = (p, [])

unfoldable pub handle_message : WorkerMessage → Process → ℕ → Process × List Effect
unfolding loaded_in
handle_message WorkerMessage.forked p now = (p, write WorkerCommand.prepare ∷ [])
handle_message WorkerMessage.loaded p now = loaded_in p.state p now
handle_message WorkerMessage.hb p now = (record p { hb = now }, [])
handle_message WorkerMessage.reload p now = (p, report_message WorkerMessage.reload ∷ [])
handle_message WorkerMessage.restart p now = (p, report_message WorkerMessage.restart ∷ [])
handle_message (WorkerMessage.cfgerror e) p now =
    (p, report_failed (ProcessError.config_error e) ∷ [])

-- A deadline has passed: the failure is reported and the process killed.
give_up : ProcessError → Process → Process × List Effect
give_up e p = (
  record p { state = ProcessState.failed },
  report_failed e ∷ Effect.kill sigkill ∷ Effect.stop ∷ [],
)

startup_in : ProcessState → Process → Process × List Effect
startup_in ProcessState.starting p = give_up ProcessError.startup_timeout p
startup_in _ p = (p, [])

stop_timeout_in : ProcessState → Process → Process × List Effect
stop_timeout_in ProcessState.stopping p = give_up ProcessError.stop_timeout p
stop_timeout_in _ p = (p, [])

heartbeat_in : ProcessState → Process → ℕ → Process × List Effect
heartbeat_in ProcessState.running p now =
    if ltb p.timeout (now - p.hb)
    then (p, report_failed ProcessError.heartbeat ∷ [])
    else (p, write WorkerCommand.hb ∷ notify_later Timer.heartbeat heartbeat_secs ∷ [])
heartbeat_in _ p now = (p, [])

unfoldable pub handle_timer : Timer → Process → ℕ → Process × List Effect
unfolding startup_in stop_timeout_in heartbeat_in give_up
handle_timer Timer.startup_timeout p now = startup_in p.state p
handle_timer Timer.stop_timeout p now = stop_timeout_in p.state p
handle_timer Timer.heartbeat p now = heartbeat_in p.state p now
handle_timer Timer.kill p now = (p, Effect.kill sigkill ∷ Effect.stop ∷ [])

unfoldable pub handle : ProcessMessage → Process → ℕ → Process × List Effect
handle (message m) p now = handle_message m p now
handle (timer t) p now = handle_timer t p now

stop_in : ProcessState → Process → Process × List Effect
stop_in ProcessState.running p = (
  record p { state = ProcessState.stopping },
  write WorkerCommand.stop
      ∷ notify_later Timer.stop_timeout p.shutdown_timeout
      ∷ Effect.kill sigterm
      ∷ [],
)
stop_in _ p = (p, Effect.kill sigquit ∷ terminate ∷ [])

-- `StopProcess`
unfoldable pub handle_stop : Process → Process × List Effect
unfolding stop_in
handle_stop p = stop_in p.state p

-- `QuitProcess`
unfoldable pub handle_quit : Bool → Process → Process × List Effect
unfolding kill_effects
handle_quit true p = (p, Effect.kill sigquit ∷ kill_effects true)
handle_quit false p = (p, Effect.kill sigkill ∷ terminate ∷ Effect.kill sigkill ∷ terminate ∷ [])

-- What may reach the actor from outside: its timers apart.
pub data Input : Type 0 where
  received : WorkerMessage → Input
  send_command : WorkerCommand → Input
  start_process pause_process resume_process stop_process : Input
  quit_process : Bool → Input
  finished stopping : Input

-- `StreamHandler::finished`: the pipe of the worker is closed.
unfoldable pub handle_finished : Process → Process × List Effect
unfolding kill_effects
handle_finished p = (p, kill_effects false ++ Effect.stop ∷ [])

-- `Actor::stopping`
unfoldable pub handle_stopping : Process → Process × List Effect
unfolding kill_effects
handle_stopping p = (p, kill_effects false)

unfoldable pub accept : Input → Process → ℕ → Process × List Effect
unfolding handle_finished handle_stopping
accept (Input.received m) p now = handle (message m) p now
accept (Input.send_command c) p now = (p, write c ∷ [])
accept Input.start_process p now = (p, write WorkerCommand.start ∷ [])
accept Input.pause_process p now = (p, write WorkerCommand.pause ∷ [])
accept Input.resume_process p now = (p, write WorkerCommand.resume ∷ [])
accept Input.stop_process p now = handle_stop p
accept (Input.quit_process g) p now = handle_quit g p
accept Input.finished p now = handle_finished p
accept Input.stopping p now = handle_stopping p
