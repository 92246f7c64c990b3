-- ===== src/Worker/Ending.antt =====
-- src/worker.rs: `Worker::stop` and `Worker::quit`.
use fectl.Prelude.{true, none}
use fectl.Event.{State, Reason}
use fectl.Process.Start.{ProcessInfo}
use fectl.System.{Os, stop_process, quit_process}
use fectl.Worker.{Worker, WorkerState, note, send, str}

-- The worker waits for the exit of `p`; the entry of the history is about `p`.
await_exit : State → Reason → ProcessInfo → Worker → Os → Worker × Os
await_exit state reason p w os =
    note state reason (str os p.pid) (record w { state = WorkerState.stopping p }) os

halt : Reason → Worker → Os → Worker × Os
halt reason w os = note State.stopped reason none (record w { state = WorkerState.stopped }) os

stop_in : WorkerState → Reason → Worker → Os → Worker × Os
unfolding halt await_exit
stop_in WorkerState.initial reason w os = halt reason w os
stop_in WorkerState.stopped reason w os = halt reason w os
stop_in WorkerState.failed reason w os = halt reason w os
stop_in (WorkerState.starting p) reason w os =
    await_exit State.stopping reason p w (send p (quit_process true) os)
stop_in (WorkerState.stopping p) reason w os = (w, os)
stop_in (WorkerState.stopping_old p old) reason w os =
    await_exit State.stopping reason p w (send p stop_process (send old (quit_process true) os))
stop_in (WorkerState.running p) reason w os =
    await_exit State.stopping reason p w (send p stop_process os)
stop_in (WorkerState.reloading p old) reason w os =
    await_exit State.stopping reason old w (send old stop_process (send p (quit_process true) os))
stop_in (WorkerState.restarting p old) reason w os =
    await_exit State.stopping reason old w (send old stop_process (send p (quit_process true) os))

unfoldable pub stop : Reason → Worker → Os → Worker × Os
unfolding stop_in
stop reason w os = stop_in w.state reason w os

-- The first request goes to `p`, the second to `q`.
quit_both : ProcessInfo → ProcessInfo → Os → Os
quit_both p q os = send q (quit_process true) (send p (quit_process true) os)

quit_in : WorkerState → Reason → Worker → Os → Worker × Os
unfolding halt await_exit quit_both
quit_in WorkerState.initial reason w os = halt reason w os
quit_in WorkerState.stopped reason w os = halt reason w os
quit_in WorkerState.failed reason w os = halt reason w os
quit_in (WorkerState.starting p) reason w os =
    await_exit State.stopping reason p w (send p (quit_process true) os)
quit_in (WorkerState.stopping p) reason w os = (w, os)
quit_in (WorkerState.stopping_old p old) reason w os =
    await_exit State.stopping_old reason p w (quit_both old p os)
quit_in (WorkerState.running p) reason w os =
    await_exit State.stopping reason p w (send p (quit_process true) os)
quit_in (WorkerState.reloading p old) reason w os =
    await_exit State.stopping reason old w (quit_both p old os)
quit_in (WorkerState.restarting p old) reason w os =
    await_exit State.stopping reason old w (quit_both p old os)

unfoldable pub quit : Reason → Worker → Os → Worker × Os
unfolding quit_in
quit reason w os = quit_in w.state reason w os
