-- ===== src/Service/Success.antt =====
-- The start of a service, from the first report of its processes to the last.
use fectl.Prelude.{
  ℕ, zero, suc, ◌<◌, ◌≡◌, ◌∙◌, inl, inr, refl, sym, ap, subst, arith, All, Bool-cases, true, false,
  Option, none, some, List, [], ◌∷◌, length, ==_self,
}
use mathlib.Core.Option
use fectl.Service.{
  FeService, ServiceState, at_worker, at_worker_then_update, process_loaded, update, update_in,
}
use fectl.Service.Announce.{IsUp, IsUp-of_done, All-up, update_done}
use fectl.Service.Check.{any_busy, any_failed}
use fectl.Service.Launch.{
  AreAwaited, AreAwaited-AreSteady, any_failed_steady, Told, at_worker-Told, is_told, load_all,
  loaded-IsUp, update_busy, IsReported,
}
use fectl.Service.Status.{StartStatus}
use fectl.System.{Os, Pid, log, set_start}
use fectl.Worker.{Worker, loaded}

-- On its way with condition `c`, or over.
pub data Launching (c : ℕ) (reports : List (ℕ × Pid)) (s : FeService) (os : Os) : Type 0 where
  pending :
      s.state ≡ ServiceState.starting c
      → any_busy true s.workers ≡ true
      → AreAwaited reports 0 s.workers
      → Launching c reports s os
  over :
      s.state ≡ ServiceState.running
      → All IsUp s.workers
      → is_told c os.calls ≡ true
      → Launching c reports s os

update_succeeds :
    (c : ℕ) (s : FeService) (os : Os)
    → any_busy true s.workers ≡ false
    → any_failed s.workers ≡ false
    → update_in (ServiceState.starting c) s os
      ≡ (record s { state = ServiceState.running }, log (set_start c StartStatus.success) os)
update_succeeds c s os idle healthy = ground (arith, update_done c s os idle, healthy)

told_now : (c : ℕ) (os : Os) → is_told c (log (set_start c StartStatus.success) os).calls ≡ true
unfolding log is_told
told_now c os = ground (arith, ==_self c)

update-Launching :
    (c : ℕ) (reports : List (ℕ × Pid)) (s : FeService) (os : Os)
    → s.state ≡ ServiceState.starting c
    → AreAwaited reports 0 s.workers
    → let (s', os') = update s os in
      Launching c reports s' os' × (length s'.workers ≡ length s.workers)
unfolding update
update-Launching c reports s os starts awaited =
    let steady = AreAwaited-AreSteady reports 0 s.workers awaited in
    let healthy = any_failed_steady s.workers steady in
    elim (Bool-cases (any_busy true s.workers)) [
      | inl busy ↦
          let same = ap (λ t. update_in t s os) starts ∙ update_busy c s os steady busy in
          subst (λ x. Launching c reports x.0 x.1 × (length x.0.workers ≡ length s.workers))
            (sym same) (pending refl busy awaited, refl)
      | inr idle ↦
          let same = ap (λ t. update_in t s os) starts ∙ update_succeeds c s os idle healthy in
          subst (λ x. Launching c reports x.0 x.1 × (length x.0.workers ≡ length s.workers))
            (sym same) (over refl (IsUp-of_done s.workers idle healthy) (told_now c os), refl)
    ]

-- A report to a service that has started changes nothing.
at_worker_up :
    (i : ℕ) (pid : Pid) (ws : List Worker) (os : Os)
    → i < length ws
    → All IsUp ws
    → at_worker i (loaded pid) ws os ≡ some (ws, os)
unfolding at_worker
at_worker_up i pid [] os h up = absurd (omega arith)
at_worker_up zero pid (w ∷ ws) os h up = ap (λ x. some (x.0 ∷ ws, x.1)) (loaded-IsUp pid w os up.0)
at_worker_up (suc i) pid (w ∷ ws) os h up =
    ground (arith, at_worker_up i pid ws os (omega arith) up.1)

unfoldable pub Next : ℕ → List (ℕ × Pid) → ℕ → Option (FeService × Os) → Type 0
Next c reports n none = ⊥
Next c reports n (some (s, os)) = Launching c reports s os × (length s.workers ≡ n)

pending-Next :
    (c : ℕ) (reports : List (ℕ × Pid)) (s : FeService) (r : Option (List Worker × Os))
    → s.state ≡ ServiceState.starting c
    → Told reports 0 s.workers r
    → Next c reports
        (length s.workers)
        (Option.map (λ x. update (record s { workers = x.0 }) x.1) r)
unfolding Told Next
pending-Next c reports s none starts h = h
pending-Next c reports s (some (ws, os)) starts h =
    let (later, same) = update-Launching c reports (record s { workers = ws }) os starts h.0 in
    (later, same ∙ h.1)

over-Next :
    (c : ℕ) (reports : List (ℕ × Pid)) (s : FeService) (os : Os)
    → s.state ≡ ServiceState.running
    → All IsUp s.workers
    → is_told c os.calls ≡ true
    → Next c reports (length s.workers) (some (update s os))
unfolding Next update
over-Next c reports s os runs up told =
    let same : update_in s.state s os ≡ (s, os) =
      ap (λ t. update_in t s os) runs ∙ unfold update_in in refl in
    subst (λ x. Launching c reports x.0 x.1 × (length x.0.workers ≡ length s.workers)) (sym same)
      (over runs up told, refl)

process_loaded-Next :
    (c i : ℕ) (pid : Pid) (reports : List (ℕ × Pid)) (s : FeService) (os : Os)
    → i < length s.workers
    → Launching c ((i, pid) ∷ reports) s os
    → Next c reports (length s.workers) (process_loaded i pid s os)
unfolding process_loaded at_worker_then_update
process_loaded-Next c i pid reports s os h (pending starts busy awaited) =
    pending-Next c reports s (at_worker i (loaded pid) s.workers os) starts (
      at_worker-Told 0 i pid reports s.workers os h
        (subst (λ k. AreAwaited ((k, pid) ∷ reports) 0 s.workers) (omega arith) awaited))
process_loaded-Next c i pid reports s os h (over runs up told) =
    subst
      (λ x.
        Next c reports (length s.workers)
          (Option.map (λ r. update (record s { workers = r.0 }) r.1) x))
      (sym (at_worker_up i pid s.workers os h up)) (over-Next c reports s os runs up told)

-- The service runs with all its workers, and who waited for the start has been told.
unfoldable pub Finished : ℕ → Option (FeService × Os) → Type 0
Finished c none = ⊥
Finished c (some (s, os)) =
    (s.state ≡ ServiceState.running) × All IsUp s.workers × (is_told c os.calls ≡ true)

AreAwaited-IsUp : (i : ℕ) (ws : List Worker) → AreAwaited [] i ws → All IsUp ws
unfolding AreAwaited IsReported
AreAwaited-IsUp i [] h = tt
AreAwaited-IsUp i (w ∷ ws) (inl up, rest) = (up, AreAwaited-IsUp (suc i) ws rest)
AreAwaited-IsUp i (w ∷ ws) (inr (p, starts, reported), rest) = elim reported [ ]

Launching-Finished :
    (c : ℕ) (s : FeService) (os : Os) → Launching c [] s os → Finished c (some (s, os))
unfolding Finished
Launching-Finished c s os (over runs up told) = (runs, up, told)
Launching-Finished c s os (pending starts busy awaited) =
    absurd (ground (arith, busy, All-up s.workers (AreAwaited-IsUp 0 s.workers awaited)))

follow :
    (c : ℕ) (reports : List (ℕ × Pid)) (n : ℕ) (r : Option (FeService × Os))
    → Next c reports n r
    → ((s : FeService) (os : Os)
        → Launching c reports s os
        → length s.workers ≡ n
        → Finished c (load_all reports s os))
    → Finished c (elim r [ none ↦ none | some (s, os) ↦ load_all reports s os ])
unfolding Next
follow c reports n none h later = elim h [ ]
follow c reports n (some (s, os)) h later = later s os h.0 h.1

load_all-Finished :
    (c : ℕ) (reports : List (ℕ × Pid)) (s : FeService) (os : Os)
    → All (λ r. r.0 < length s.workers) reports
    → Launching c reports s os
    → Finished c (load_all reports s os)
unfolding load_all
load_all-Finished c [] s os h l = Launching-Finished c s os l
load_all-Finished c ((i, pid) ∷ reports) s os (h, hs) l =
    follow c reports (length s.workers) (process_loaded i pid s os)
      (process_loaded-Next c i pid reports s os h l)
      λ s' os' l' same.
        load_all-Finished c reports s' os'
          (subst (λ n. All (λ (r : ℕ × Pid). r.0 < n) reports) (sym same) hs) l'

-- A service that starts, with workers that run or wait for a process that starts, at least one of
-- them not running yet: once each of these processes has reported that it is loaded, in whatever order, with
-- reports in between that are repeated or have other pids, the service runs with all its workers,
-- and those who wait for the start have been told of the success.
pub start_succeeds :
    (c : ℕ) (reports : List (ℕ × Pid)) (s : FeService) (os : Os)
    → s.state ≡ ServiceState.starting c
    → any_busy true s.workers ≡ true
    → AreAwaited reports 0 s.workers
    → All (λ r. r.0 < length s.workers) reports
    → Finished c (load_all reports s os)
start_succeeds c reports s os starts busy awaited h =
    load_all-Finished c reports s os h (pending starts busy awaited)
