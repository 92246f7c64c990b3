-- ===== src/Tests/Workers.antt =====
-- The theorems on workers at concrete inputs.
use fectl.Prelude.{
  ℕ, ◌≡◌, refl, inl, true, none, drop, take, All, List, false, [], ◌∷◌, ◌++◌, arith,
}
use fectl.Event
use fectl.Event.{Event, Reason, State, event}
use fectl.Event.History.{add_all, add_all-new}
use fectl.Process.Error.{ProcessError}
use fectl.System.{Addr, log, send_process, start_process, stop_process}
use fectl.Worker.{is_failed, Worker, WorkerState, start, loaded, reload}
use fectl.Process.Start
use fectl.Worker.Custody.{Accounted, custody, dismissed, holds}
use fectl.Worker.Exits.{exited}
use fectl.Worker.Methods.{Method, perform_all}
use fectl.Worker.Reload.{reload_completes, replacement}
use fectl.Worker.Restarts.{IsCounted, crash, is_starting, start_after_failure}
use fectl.Worker.Restore.{IsReplacing, losses, reload_restores}
use fectl.Worker.Stranded.{begun, old_dies_first}
use fectl.Tests.{system, web, process, worker_in}

abbrev reloading : Worker
reloading = worker_in (WorkerState.reloading (process 7 3) (process 8 4))

abbrev running : Worker
running = worker_in (WorkerState.running (process 8 4))

abbrev starting : Worker
starting = worker_in (WorkerState.starting (process 7 3))

custody_example : Accounted (Method.stop Reason.exit) reloading system 3
unfolding holds
custody_example = custody (Method.stop Reason.exit) reloading system 3 refl refl

reload_completes_example :
    let q = replacement running system in
    let (w₁, os₁) = reload true Reason.console_request running system in
    let (w₂, os₂) = loaded q.pid w₁ os₁ in
    let w₃ = (exited 8 (ProcessError.exit_code 0) w₂ os₂).0 in
    (os₁.calls ≡ (Start.start 0 web 1 system).1.calls)
    × (os₂.calls ≡ send_process 10 start_process ∷ send_process 4 stop_process ∷ os₁.calls)
    × (w₂.state ≡ WorkerState.stopping_old q (process 8 4))
    × (w₃.state ≡ WorkerState.running q)
    × (w₃.restarts ≡ 0)
    × (w₃.restore_from_fail ≡ false)
unfolding Start.start log
reload_completes_example =
    reload_completes true Reason.console_request (ProcessError.exit_code 0) running system
      (process 8 4) 4 10 refl refl refl (ground arith)

-- Two deaths, by a signal and while the child boots, and the last one.
abbrev deaths : List ProcessError
deaths = ProcessError.signal 9 ∷ ProcessError.boot_failed ∷ []

deaths-IsCounted : All IsCounted deaths
deaths-IsCounted = (ground arith, (ground arith, tt))

start_after_failure_example :
    let failed = record (worker_in WorkerState.failed) { restarts = 3 } in
    let (w, os) = start Reason.console_request failed system in
    (is_starting w.state ≡ true)
    × ((crash ProcessError.boot_failed w os).0.state ≡ WorkerState.failed)
start_after_failure_example =
    start_after_failure Reason.console_request ProcessError.boot_failed
      (record (worker_in WorkerState.failed) { restarts = 3 }) system (ground arith) refl
      (omega arith) (omega arith)

old_dies_first_example :
    let (w, os) = exited 8 (ProcessError.signal 9) reloading system in
    (w.state ≡ WorkerState.running (process 7 3))
    × (begun 3 (perform_all (Method.loaded 7 ∷ []) w os).1.calls ≡ false)
unfolding begun
old_dies_first_example =
    old_dies_first 3 (process 7 3) (process 8 4) (ProcessError.signal 9) (Method.loaded 7 ∷ [])
      reloading system (inl refl) (ground arith) refl (omega arith)

reload_restores_example :
    let (w, os) = losses (deaths ++ ProcessError.startup_timeout ∷ []) reloading system in
    ((j : ℕ) → IsReplacing (process 8 4) (losses (take j deaths) reloading system).0.state)
    × (w.state ≡ WorkerState.running (process 8 4))
    × (w.restore_from_fail ≡ true)
    × (is_failed w ≡ true)
    × ((a : Addr) → dismissed a os.calls ≡ dismissed a system.calls)
reload_restores_example =
    reload_restores deaths ProcessError.startup_timeout (process 8 4) reloading system
      deaths-IsCounted (ground arith) refl (omega arith) refl

abbrev entry : ℕ → Event
entry now = event State.running Reason.none none now

add_all-new_example :
    (add_all (entry 1 ∷ entry 2 ∷ entry 3 ∷ []) (Event.new 2)).events
    ≡ drop 1 (entry 1 ∷ entry 2 ∷ entry 3 ∷ [])
add_all-new_example = add_all-new 2 (entry 1 ∷ entry 2 ∷ entry 3 ∷ []) (omega arith)
