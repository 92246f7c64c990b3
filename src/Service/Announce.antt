-- ===== src/Service/Announce.antt =====
-- When a start or a reload is over, and with which answer.
use fectl.Prelude.{
  ℕ, ◌≡◌, ◌↔◌, ◌∙◌, ap, sym, subst, refl, arith, Bool, true, false, ◌||◌, ◌&&◌, inl, inr, List, [],
  ◌∷◌, All, ◌⊎◌, if◌then◌else◌,
}
use fectl.Event.{Reason}
use fectl.System.{Os, log, set_start, set_reload}
use fectl.Worker.{Worker, WorkerState, is_failed, is_running, is_stopped}
use fectl.Service.{FeService, ServiceState, settle, update, update_in}
use fectl.Service.Check.{
  any_busy, any_failed, is_busy, check_loading_workers-load, check_loading_workers_idle,
}
use fectl.Service.Status.{StartStatus, ReloadStatus}
use fectl.Service.Commands.{stop, Response}
use fectl.Service.Livelock.{IsPending}
use fectl.Service.Loops.{Any}

abbrev pub runs : WorkerState → Bool
runs (WorkerState.running p) = true
runs _ = false

abbrev pub given_up : WorkerState → Bool
given_up WorkerState.failed = true
given_up _ = false

-- Running, and without the mark of an old process that a failed reload has brought back.
abbrev pub IsUp : Worker → Type 0
IsUp w = (runs w.state ≡ true) × (w.restore_from_fail ≡ false)

-- Running in whatever way, or failed.
abbrev pub IsOver : Worker → Type 0
IsOver w = (runs w.state || given_up w.state) ≡ true

-- Failed, or running with that mark.
abbrev pub IsDown : Worker → Type 0
IsDown w = (given_up w.state || (runs w.state && w.restore_from_fail)) ≡ true

pub All-up : (ws : List Worker) → All IsUp ws → (any_busy true ws ≡ false) × (any_failed ws ≡ false)
unfolding any_busy any_failed is_busy is_running is_failed is_stopped
All-up [] h = (refl, refl)
All-up (w ∷ ws) h = ground (arith, All-up ws h.1)

pub IsUp-of_done :
    (ws : List Worker) → any_busy true ws ≡ false → any_failed ws ≡ false → All IsUp ws
unfolding any_busy any_failed is_busy is_running is_failed is_stopped
IsUp-of_done [] b f = tt
IsUp-of_done (w ∷ ws) b f = (ground arith, IsUp-of_done ws (ground arith) (ground arith))

over-any_busy : (ws : List Worker) → All IsOver ws → any_busy true ws ≡ false
unfolding any_busy is_busy is_running is_failed is_stopped
over-any_busy [] h = refl
over-any_busy (w ∷ ws) h = ground (arith, over-any_busy ws h.1)

down-any_failed : (ws : List Worker) → Any IsDown ws → any_failed ws ≡ true
unfolding any_failed is_failed
down-any_failed [] h = absurd h
down-any_failed (w ∷ ws) (inl h) = ground arith
down-any_failed (w ∷ ws) (inr h) = ground (arith, down-any_failed ws h)

-- The state after the update of a start or reload in state `t`.
abbrev pub verdict : ServiceState → List Worker → ServiceState
verdict t ws =
    if any_busy true ws
    then t
    else if any_failed ws
    then ServiceState.failed
    else ServiceState.running

update_in-verdict :
    (t : ServiceState) (s : FeService) (os : Os)
    → IsPending t
    → (update_in t s os).0.state ≡ verdict t s.workers
unfolding update_in settle
update_in-verdict (ServiceState.starting c) s os k =
    ground (arith, check_loading_workers-load true s.workers os)
update_in-verdict (ServiceState.reloading c) s os k =
    ground (arith, check_loading_workers-load true s.workers os)
update_in-verdict ServiceState.running s os k = absurd k
update_in-verdict ServiceState.failed s os k = absurd k
update_in-verdict ServiceState.stopped s os k = absurd k
update_in-verdict (ServiceState.stopping c) s os k = absurd k

verdict-running :
    (t : ServiceState) (ws : List Worker)
    → IsPending t
    → verdict t ws ≡ ServiceState.running
    → (any_busy true ws ≡ false) × (any_failed ws ≡ false)
verdict-running ServiceState.running ws k e = absurd k
verdict-running _ ws k e = ground arith

-- An update of a service that starts or reloads leaves it running exactly when every worker runs,
-- and none with the mark of a process that a failed reload has brought back.
pub update_success :
    (t : ServiceState) (s : FeService) (os : Os)
    → IsPending t
    → s.state ≡ t
    → ((update s os).0.state ≡ ServiceState.running) ↔ All IsUp s.workers
unfolding update
update_success t s os k e =
    let v : (update_in s.state s os).0.state ≡ verdict t s.workers =
      subst (λ u. (update_in u s os).0.state ≡ verdict t s.workers) (sym e)
        (update_in-verdict t s os k) in
    (
      λ h. let d = verdict-running t s.workers k (sym v ∙ h) in IsUp-of_done s.workers d.0 d.1,
      λ h. v ∙ ground (arith, All-up s.workers h),
    )

-- The updates that end a start or a reload: the workers and the rest of the service stay as they
-- are, and all who wait are told whether a worker has failed.
pub update_done :
    (c : ℕ) (s : FeService) (os : Os)
    → any_busy true s.workers ≡ false
    → let failed = any_failed s.workers in
      let s' = record s { state = if failed then ServiceState.failed else ServiceState.running } in
      (update_in (ServiceState.starting c) s os
        ≡ (s', log (set_start c (if failed then StartStatus.failed else StartStatus.success)) os))
      × (update_in (ServiceState.reloading c) s os ≡ (
        s',
        log (set_reload c (if failed then ReloadStatus.failed else ReloadStatus.success)) os,
      ))
unfolding update_in settle
update_done c s os h =
    let load = check_loading_workers-load true s.workers os in
    let same = check_loading_workers_idle true s.workers os h in
    (ground (arith, load, same), ground (arith, load, same))

failed_update :
    (c : ℕ) (t : ServiceState) (s : FeService) (os : Os)
    → (t ≡ ServiceState.starting c) ⊎ (t ≡ ServiceState.reloading c)
    → any_busy true s.workers ≡ false
    → any_failed s.workers ≡ true
    → (update_in t s os).0 ≡ record s { state = ServiceState.failed }
unfolding update_in settle
failed_update c t s os e b f =
    let load = check_loading_workers-load true s.workers os in
    let same = check_loading_workers_idle true s.workers os b in ground (arith, load, same)

-- The defect: a start or a reload ends in failure when each worker runs or has failed, and one has
-- failed or runs on a process that a failed reload has brought back. The service then counts as
-- failed, but its workers stay as they are, the others running, and a stop of that service is refused
-- and changes nothing.
pub failed_refuses_stop :
    (c : ℕ) (graceful : Bool) (r : Reason) (s : FeService) (os : Os)
    → (s.state ≡ ServiceState.starting c) ⊎ (s.state ≡ ServiceState.reloading c)
    → All IsOver s.workers
    → Any IsDown s.workers
    → let (s', os') = update s os in
      (s'.state ≡ ServiceState.failed)
      × (s'.workers ≡ s.workers)
      × (stop graceful r s' os' ≡ (Response.reply tt, s', os'))
unfolding update stop
failed_refuses_stop c graceful r s os e b f =
    let calm = over-any_busy s.workers b in
    let done = failed_update c s.state s os e calm (down-any_failed s.workers f) in
    (
      ap (λ (x : FeService). x.state) done,
      ap (λ (x : FeService). x.workers) done,
      ground (arith, done),
    )
