-- ===== src/Service/Check.antt =====
-- What `check_loading_workers` finds out, and what it does to the workers.
use fectl.Prelude.{◌≡◌, arith, Bool, false, ◌&&◌, ◌||◌, not, List, [], ◌∷◌, if◌then◌else◌}
use fectl.System.{Os}
use fectl.Worker.{Worker, is_failed, is_stopped, is_running}
use fectl.Service.{Load, check_worker, check_from, check_loading_workers}

-- Is the worker neither failed nor done? A stopped one counts if it is started again.
unfoldable pub is_busy : Bool → Worker → Bool
is_busy restart_stopped w =
    not (is_failed w) && (if is_stopped w then restart_stopped else not (is_running w))

unfoldable pub any_failed : List Worker → Bool
any_failed [] = false
any_failed (w ∷ ws) = is_failed w || any_failed ws

unfoldable pub any_busy : Bool → List Worker → Bool
any_busy b [] = false
any_busy b (w ∷ ws) = is_busy b w || any_busy b ws

check_from-load :
    (b : Bool) (l : Load) (ws : List Worker) (os : Os)
    → let l' = (check_from b l ws os).0 in
      (l'.failed ≡ (l.failed || any_failed ws)) × (l'.in_process ≡ (l.in_process || any_busy b ws))
unfolding check_from check_worker any_failed any_busy is_busy
check_from-load b l [] os = ground arith
check_from-load b l (w ∷ ws) os =
    let (l', w', os') = check_worker b l w os in ground (arith, check_from-load b l' ws os')

-- The flags say whether some worker has failed and whether some worker is neither failed nor
-- running, the stopped ones counted if they are to be started again.
pub check_loading_workers-load :
    (b : Bool) (ws : List Worker) (os : Os)
    → let l = (check_loading_workers b ws os).0 in
      (l.failed ≡ any_failed ws) × (l.in_process ≡ any_busy b ws)
unfolding check_loading_workers
check_loading_workers-load b ws os =
    check_from-load b (record { failed = false; in_process = false }) ws os

-- With nothing to start again the check changes nothing.
check_from_idle :
    (b : Bool) (l : Load) (ws : List Worker) (os : Os)
    → any_busy b ws ≡ false
    → ((check_from b l ws os).1 ≡ ws) × ((check_from b l ws os).2 ≡ os)
unfolding check_from check_worker any_busy is_busy
check_from_idle b l [] os h = ground arith
check_from_idle b l (w ∷ ws) os h =
    let (l', w', os') = check_worker b l w os in ground (arith, check_from_idle b l' ws os')

check_from_watch :
    (l : Load) (ws : List Worker) (os : Os)
    → ((check_from false l ws os).1 ≡ ws) × ((check_from false l ws os).2 ≡ os)
unfolding check_from check_worker
check_from_watch l [] os = ground arith
check_from_watch l (w ∷ ws) os =
    let (l', w', os') = check_worker false l w os in ground (arith, check_from_watch l' ws os')

pub check_loading_workers_idle :
    (b : Bool) (ws : List Worker) (os : Os)
    → any_busy b ws ≡ false
    → ((check_loading_workers b ws os).1 ≡ ws) × ((check_loading_workers b ws os).2 ≡ os)
unfolding check_loading_workers
check_loading_workers_idle b ws os h =
    check_from_idle b (record { failed = false; in_process = false }) ws os h

pub check_loading_workers_watch :
    (ws : List Worker) (os : Os)
    → ((check_loading_workers false ws os).1 ≡ ws) × ((check_loading_workers false ws os).2 ≡ os)
unfolding check_loading_workers
check_loading_workers_watch ws os =
    check_from_watch (record { failed = false; in_process = false }) ws os
