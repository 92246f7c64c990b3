-- ===== src/Worker/Foreign.antt =====
-- A report about a process that the worker does not run changes nothing.
use fectl.Prelude.{◌≡◌, arith, Bool, ◌||◌, false, ◌==◌}
use fectl.Process.Error.{ProcessError}
use fectl.System.{Pid, Os}
use fectl.Worker.{Worker, WorkerState, loaded, message}
use fectl.Worker.Exits.{exited}
use fectl.Protocol.{WorkerMessage}

-- Is `pid` a process of a worker in this state?
unfoldable pub runs : WorkerState → Pid → Bool
runs (WorkerState.starting p) pid = p.pid == pid
runs (WorkerState.running p) pid = p.pid == pid
runs (WorkerState.stopping p) pid = p.pid == pid
runs (WorkerState.reloading p old) pid = p.pid == pid || old.pid == pid
runs (WorkerState.restarting p old) pid = p.pid == pid || old.pid == pid
runs (WorkerState.stopping_old p old) pid = p.pid == pid || old.pid == pid
runs _ pid = false

-- A report, a `loaded` or a request of a process that the worker does not run leaves the worker as
-- it is and makes no call.
foreign_ignored :
    (pid : Pid) (e : ProcessError) (m : WorkerMessage) (w : Worker) (os : Os)
    → runs w.state pid ≡ false
    → (exited pid e w os ≡ (w, os)) × (loaded pid w os ≡ (w, os)) × (message pid m w os ≡ (w, os))
unfolding runs exited loaded message
foreign_ignored pid e m w os h = (ground arith, ground arith, ground arith)
