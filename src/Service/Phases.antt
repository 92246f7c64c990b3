-- ===== src/Service/Phases.antt =====
-- The workers of a service that stops: each is stopped or waits for the exit of its process.
use fectl.Prelude.{◌≡◌, arith, Bool, true, false, List, [], ◌∷◌, inl, inr}
use fectl.Event.{Reason}
use fectl.Process.Error.{ProcessError}
use fectl.Protocol.{WorkerMessage}
use fectl.System.{Pid, Os}
use fectl.Worker.{
  Worker, WorkerState, note, start, loaded, reload, message, is_failed, is_stopped, is_running,
}
use fectl.Worker.Ending.{stop, quit}
use fectl.Worker.Exits.{exited}
use fectl.Service.{Load, check_worker, check_from, check_loading_workers, stop_unfinished}
use fectl.Service.Check.{is_busy}
use fectl.Service.Loops.{Any}

abbrev winding_state : WorkerState → Bool
winding_state (WorkerState.stopping p) = true
winding_state WorkerState.stopped = true
winding_state _ = false

-- Stopped, or waiting for an exit.
abbrev pub IsWinding : Worker → Type 0
IsWinding w = winding_state w.state ≡ true

-- Not failed and not running, or stopped and so to be started again.
abbrev pub IsBusy : Worker → Type 0
IsBusy w = is_busy true w ≡ true

-- Neither stopped nor failed.
abbrev pub IsUnfinished : Worker → Type 0
IsUnfinished w = (is_stopped w ≡ false) × (is_failed w ≡ false)

abbrev pub IsStopped : Worker → Type 0
IsStopped w = w.state ≡ WorkerState.stopped

abbrev pub IsDead : Worker → Type 0
IsDead w = w.state ≡ WorkerState.failed

module _ (pid : Pid) (e : ProcessError) (m : WorkerMessage) (w : Worker) (os : Os) where
  pub exited-IsWinding : IsWinding w → IsWinding (exited pid e w os).0
  unfolding exited note
  exited-IsWinding h = ground arith

  pub loaded-IsWinding : IsWinding w → IsWinding (loaded pid w os).0
  unfolding loaded note
  loaded-IsWinding h = ground arith

  pub message-IsWinding : IsWinding w → IsWinding (message pid m w os).0
  unfolding message
  message-IsWinding h = ground arith

  pub exited-IsStopped : IsStopped w → IsStopped (exited pid e w os).0
  unfolding exited
  exited-IsStopped h = ground arith

  pub loaded-IsStopped : IsStopped w → IsStopped (loaded pid w os).0
  unfolding loaded
  loaded-IsStopped h = ground arith

  pub message-IsStopped : IsStopped w → IsStopped (message pid m w os).0
  unfolding message
  message-IsStopped h = ground arith

  pub exited-IsDead : IsDead w → IsDead (exited pid e w os).0
  unfolding exited
  exited-IsDead h = ground arith

  pub loaded-IsDead : IsDead w → IsDead (loaded pid w os).0
  unfolding loaded
  loaded-IsDead h = ground arith

  pub message-IsDead : IsDead w → IsDead (message pid m w os).0
  unfolding message
  message-IsDead h = ground arith

pub stop-IsWinding : (r : Reason) (w : Worker) (os : Os) → IsWinding (stop r w os).0
unfolding stop note
stop-IsWinding r w os = ground arith

pub quit-IsWinding : (r : Reason) (w : Worker) (os : Os) → IsWinding (quit r w os).0
unfolding quit note
quit-IsWinding r w os = ground arith

pub IsBusy-of_IsWinding : (w : Worker) → IsWinding w → IsBusy w
unfolding is_busy is_stopped is_failed is_running
IsBusy-of_IsWinding w h = ground arith

pub stop_unfinished-IsWinding :
    (w : Worker) (os : Os) → IsUnfinished w → IsWinding (stop_unfinished w os).0
unfolding stop_unfinished
stop_unfinished-IsWinding w os h = ground (arith, stop-IsWinding Reason.some_workers_failed w os)

pub stop_unfinished-IsDead : (w : Worker) (os : Os) → IsDead w → IsDead (stop_unfinished w os).0
unfolding stop_unfinished is_stopped is_failed
stop_unfinished-IsDead w os h = ground arith

check_worker-IsUnfinished :
    (l : Load) (w : Worker) (os : Os) → IsBusy w → IsUnfinished (check_worker true l w os).1
unfolding check_worker is_busy is_stopped is_failed is_running reload start note
check_worker-IsUnfinished l w os h = ground arith

check_worker-IsDead :
    (b : Bool) (l : Load) (w : Worker) (os : Os) → IsDead w → IsDead (check_worker b l w os).1
unfolding check_worker is_failed
check_worker-IsDead b l w os h = ground arith

check_from-IsUnfinished :
    (l : Load) (ws : List Worker) (os : Os)
    → Any IsBusy ws
    → Any IsUnfinished (check_from true l ws os).1
unfolding check_from
check_from-IsUnfinished l [] os h = h
check_from-IsUnfinished l (w ∷ ws) os (inl h) = inl (check_worker-IsUnfinished l w os h)
check_from-IsUnfinished l (w ∷ ws) os (inr h) =
    let (l', w', os') = check_worker true l w os in inr (check_from-IsUnfinished l' ws os' h)

check_from-IsDead :
    (b : Bool) (l : Load) (ws : List Worker) (os : Os)
    → Any IsDead ws
    → Any IsDead (check_from b l ws os).1
unfolding check_from
check_from-IsDead b l [] os h = h
check_from-IsDead b l (w ∷ ws) os (inl h) = inl (check_worker-IsDead b l w os h)
check_from-IsDead b l (w ∷ ws) os (inr h) =
    let (l', w', os') = check_worker b l w os in inr (check_from-IsDead b l' ws os' h)

pub check_loading_workers-IsUnfinished :
    (ws : List Worker) (os : Os)
    → Any IsBusy ws
    → Any IsUnfinished (check_loading_workers true ws os).1
unfolding check_loading_workers
check_loading_workers-IsUnfinished ws os h =
    check_from-IsUnfinished (record { failed = false; in_process = false }) ws os h

pub check_loading_workers-IsDead :
    (b : Bool) (ws : List Worker) (os : Os)
    → Any IsDead ws
    → Any IsDead (check_loading_workers b ws os).1
unfolding check_loading_workers
check_loading_workers-IsDead b ws os h =
    check_from-IsDead b (record { failed = false; in_process = false }) ws os h
