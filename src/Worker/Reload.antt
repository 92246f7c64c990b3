-- ===== src/Worker/Reload.antt =====
-- A reload and a restart from the request to the exit of the old process.
use fectl.Prelude.{◌≡◌, ◌≢◌, arith, Bool, true, false, some, ◌∷◌, ==_self}
use fectl.Event.{Reason}
use fectl.Process.Error.{ProcessError}
use fectl.Process.Start.{ProcessInfo}
use fectl.Process.Start
use fectl.System.{
  Addr, Os, ask, log, send_process, start_process, stop_process, quit_process, ProcessRequest,
}
use fectl.Worker.{Worker, WorkerState, note, send, loaded, reload}
use fectl.Worker.Exits.{exited, old_exited}

abbrev pub replacement : Worker → Os → ProcessInfo
replacement w os = (Start.start w.idx w.cfg w.addr os).0

-- How the old process is asked to go.
abbrev pub farewell : Bool → ProcessRequest
farewell true = stop_process
farewell false = quit_process true

-- A reload (graceful) or a restart (not graceful) of a running worker keeps the old process until
-- the new one is loaded: only then the old one is asked to go, by `stop` or by a graceful `quit`,
-- and the new one to start. When the old one has gone, the worker runs the new one, its count of
-- restarts at 0 and its mark of a failed reload cleared. Both processes exist, with distinct pids.
pub reload_completes :
    (graceful : Bool) (r : Reason) (e : ProcessError) (w : Worker) (os : Os) (p : ProcessInfo)
    (a b : Addr)
    → w.state ≡ WorkerState.running p
    → p.addr ≡ some a
    → (replacement w os).addr ≡ some b
    → (replacement w os).pid ≢ p.pid
    → let q = replacement w os in
      let (w₁, os₁) = reload graceful r w os in
      let (w₂, os₂) = loaded q.pid w₁ os₁ in
      let w₃ = (exited p.pid e w₂ os₂).0 in
      (os₁.calls ≡ (Start.start w.idx w.cfg w.addr os).1.calls)
      × (os₂.calls ≡ send_process b start_process ∷ send_process a (farewell graceful) ∷ os₁.calls)
      × (w₂.state ≡ WorkerState.stopping_old q p)
      × (w₃.state ≡ WorkerState.running q)
      × (w₃.restarts ≡ 0)
      × (w₃.restore_from_fail ≡ false)
unfolding reload loaded exited old_exited note send log ask
reload_completes graceful r e w os p a b running old_at new_at differ =
    ground (arith, ==_self (replacement w os).pid, ==_self p.pid)
