-- ===== src/Worker/Exits.antt =====
-- src/worker.rs: `Worker::exited`, what a worker does when one of its processes is reported gone.
use fectl.Prelude.{ℕ, zero, ◌+◌, ◌-◌, ◌*◌, ◌%◌, true, false, ltb, ◌==◌, if◌then◌else◌}
use fectl.Event.{State, Reason}
use fectl.Process.Error.{ProcessError, reason}
use fectl.Process.Start.{ProcessInfo}
use fectl.Process.Start
use fectl.System.{Pid, Os, ask, quit_process}
use fectl.Worker.{Worker, WorkerState, send, note, str, start, reload}

abbrev pub nanos_per_sec : ℕ
nanos_per_sec = 1000000000

-- `self.restarts += 1` on a `u16`
abbrev pub next_restarts : Worker → ℕ
next_restarts w = (w.restarts + 1) % 65536

-- An exit with code 0 more than `secs` seconds after the last one starts the count again.
unfoldable pub count_restart : ℕ → ProcessError → Worker → Os → Worker × Os
unfolding ask
count_restart secs (ProcessError.exit_code zero) w os =
    let now = os.outside.instant os.asked in
    if ltb (secs * nanos_per_sec) (now - w.started)
    then (record w { started = now; restarts = 0 }, ask os)
    else (record w { restarts = next_restarts w }, ask os)
count_restart secs _ w os = (record w { restarts = next_restarts w }, os)

unfoldable pub running_exited : ProcessInfo → Pid → ProcessError → Worker → Os → Worker × Os
running_exited p pid ProcessError.startup_timeout w os =
    let (w', os') = note State.running (reason ProcessError.startup_timeout) (str os pid) w os in
    reload false Reason.reload_aftre_timeout (record w' { restore_from_fail = true }) os'
running_exited p pid e w os =
    let os' = send p (quit_process false) os in
    let w' = record w { started = os'.outside.instant os'.asked; state = WorkerState.initial } in
    let (w'', os'') = note State.stopped (reason e) (str os pid) w' (ask os') in
    start Reason.restart_failed_running_worker w'' os''

unfoldable pub starting_exited : ProcessInfo → Pid → ProcessError → Worker → Os → Worker × Os
starting_exited p pid e w os =
    let (w', os') = count_restart 10 e w os in
    let (w'', os'') = note State.failed (reason e) (str os pid) w' os' in
    if ltb w''.restarts w''.cfg.restarts
    then start Reason.restart_failed_starting_worker (record w'' { state = WorkerState.initial })
        (send p (quit_process false) os'')
    else (record w'' { state = WorkerState.failed }, os'')

-- The new process of a reload or a restart is gone: another one, or back to the old process. The
-- code writes this out for `Reloading` and for `Restarting`; `again` is the state's constructor.
unfoldable pub replacement_exited :
    (ProcessInfo → ProcessInfo → WorkerState)
    → State
    → ProcessInfo
    → Pid
    → ProcessError
    → Worker
    → Os
    → Worker × Os
replacement_exited again failure old pid e w os =
    let (w', os') = count_restart 3 e w os in
    let (w'', os'') = note failure (reason e) (str os pid) w' os' in
    if ltb w''.restarts w''.cfg.restarts
    then (let (info, os₃) = Start.start w''.idx w''.cfg w''.addr os'' in
        (record w'' { state = again info old }, os₃))
    else note State.running Reason.restore_aftre_failed (str os old.pid)
        (record w'' { restore_from_fail = true; state = WorkerState.running old }) os''

-- The old process is gone: the new one is the worker's.
unfoldable pub old_exited : ProcessInfo → Pid → Worker → Os → Worker × Os
old_exited p pid w os =
    let (w', os') =
      note State.stopped Reason.none (str os pid) (record w { restore_from_fail = false }) os in
    note State.running Reason.none (str os p.pid) (record w' { state = WorkerState.running p }) os'

-- The new process is gone while the old one is on its way out.
unfoldable pub new_exited : ProcessInfo → Pid → ProcessError → Worker → Os → Worker × Os
new_exited old pid e w os =
    let (w', os') =
      note State.failed (reason e) (str os pid)
        (record w { restarts = next_restarts w; state = WorkerState.initial })
        (send old (quit_process false) os) in
    start Reason.new_process_died w' os'

unfoldable pub exited_in : WorkerState → Pid → ProcessError → Worker → Os → Worker × Os
exited_in (WorkerState.running p) pid e w os =
    if p.pid == pid then running_exited p pid e w os else (w, os)
exited_in (WorkerState.starting p) pid e w os =
    if p.pid == pid then starting_exited p pid e w os else (w, os)
exited_in (WorkerState.reloading p old) pid e w os =
    if p.pid == pid
    then replacement_exited WorkerState.reloading State.reload_failed old pid e w os
    else if old.pid == pid
    then old_exited p pid w os
    else (w, os)
exited_in (WorkerState.restarting p old) pid e w os =
    if p.pid == pid
    then replacement_exited WorkerState.restarting State.restart_failed old pid e w os
    else if old.pid == pid
    then old_exited p pid w os
    else (w, os)
exited_in (WorkerState.stopping_old p old) pid e w os =
    if p.pid == pid
    then new_exited old pid e w os
    else if old.pid == pid
    then old_exited p pid w os
    else (w, os)
exited_in (WorkerState.stopping p) pid e w os =
    if p.pid == pid
    then note State.stopped (reason e) (str os pid) (record w { state = WorkerState.stopped }) os
    else (w, os)
exited_in _ pid e w os = (w, os)

unfoldable pub exited : Pid → ProcessError → Worker → Os → Worker × Os
unfolding exited_in
exited pid e w os = exited_in w.state pid e w os
