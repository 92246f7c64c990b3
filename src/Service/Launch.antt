-- ===== src/Service/Launch.antt =====
-- A start that succeeds: the processes of a service report that they are loaded, in any order.
use fectl.Prelude.{
  ℕ, zero, suc, ◌+◌, ◌<◌, ◌≡◌, ◌≢◌, ◌⊎◌, inl, inr, refl, sym, ap, subst, arith, All, Bool,
  Bool-cases, true, false, ◌||◌, ◌==◌, Option, none, some, List, [], ◌∷◌, length, ==_self,
}
use fectl.Process.Start.{ProcessInfo}
use fectl.Service.{
  FeService, ServiceState, at_worker, Load, check_from, check_loading_workers, check_worker,
  process_loaded, settle, update_in,
}
use fectl.Service.Announce.{IsUp}
use fectl.Service.Check.{any_busy, any_failed, check_loading_workers-load}
use fectl.Service.Status.{StartStatus}
use fectl.System.{Call, Os, Pid, set_start}
use fectl.Worker.{Worker, WorkerState, is_failed, is_running, is_stopped, loaded, note}

-- The worker with this number has been reported as loaded with this pid.
unfoldable pub IsReported : ℕ → Pid → List (ℕ × Pid) → Type 0
IsReported i pid [] = ⊥
IsReported i pid ((j, q) ∷ reports) = ((i ≡ j) × (pid ≡ q)) ⊎ IsReported i pid reports

-- The worker runs, or starts a process that is going to be reported.
abbrev pub IsAwaited : List (ℕ × Pid) → ℕ → Worker → Type 0
IsAwaited reports i w =
    IsUp w ⊎ ((p : ProcessInfo) × (w.state ≡ WorkerState.starting p) × IsReported i p.pid reports)

-- The same of all workers, the first of which has number `i`.
unfoldable pub AreAwaited : List (ℕ × Pid) → ℕ → List Worker → Type 0
AreAwaited reports i [] = Unit
AreAwaited reports i (w ∷ ws) = IsAwaited reports i w × AreAwaited reports (suc i) ws

-- The reports, one after the other; `none` if an index is out of range.
unfoldable pub load_all : List (ℕ × Pid) → FeService → Os → Option (FeService × Os)
load_all [] s os = some (s, os)
load_all ((i, pid) ∷ reports) s os = elim (process_loaded i pid s os) [
  | none ↦ none
  | some (s', os') ↦ load_all reports s' os'
]

-- Have those who wait for condition `c` been told of the success?
unfoldable pub is_told : ℕ → List Call → Bool
is_told c [] = false
is_told c (set_start d StartStatus.success ∷ cs) = d == c || is_told c cs
is_told c (_ ∷ cs) = is_told c cs

pub loaded-IsUp : (pid : Pid) (w : Worker) (os : Os) → IsUp w → loaded pid w os ≡ (w, os)
unfolding loaded is_running is_failed
loaded-IsUp pid w os h = ground arith

-- The report of its own process makes a starting worker run, any other changes nothing.
loaded_own :
    (p : ProcessInfo) (w : Worker) (os : Os)
    → w.state ≡ WorkerState.starting p
    → IsUp (loaded p.pid w os).0
unfolding loaded note is_running is_failed
loaded_own p w os h = ground (arith, ==_self p.pid)

loaded_foreign :
    (p : ProcessInfo) (pid : Pid) (w : Worker) (os : Os)
    → w.state ≡ WorkerState.starting p
    → (p.pid == pid) ≡ false
    → loaded pid w os ≡ (w, os)
unfolding loaded
loaded_foreign p pid w os h e = ground arith

loaded-IsAwaited :
    (i : ℕ) (pid : Pid) (reports : List (ℕ × Pid)) (w : Worker) (os : Os)
    → IsAwaited ((i, pid) ∷ reports) i w
    → IsAwaited reports i (loaded pid w os).0
unfolding IsReported
loaded-IsAwaited i pid reports w os (inl up) =
    subst (λ x. IsAwaited reports i x.0) (sym (loaded-IsUp pid w os up)) (inl up)
loaded-IsAwaited i pid reports w os (inr (p, starts, inl same)) =
    inl (subst (λ q. IsUp (loaded q w os).0) same.1 (loaded_own p w os starts))
loaded-IsAwaited i pid reports w os (inr (p, starts, inr reported)) =
    elim (Bool-cases (p.pid == pid)) [
      | inl own ↦
          inl (subst (λ q. IsUp (loaded q w os).0) (ground arith) (loaded_own p w os starts))
      | inr foreign ↦
          subst (λ x. IsAwaited reports i x.0) (sym (loaded_foreign p pid w os starts foreign))
            (inr (p, starts, reported))
    ]

other-IsAwaited :
    (i j : ℕ) (pid : Pid) (reports : List (ℕ × Pid)) (w : Worker)
    → i ≢ j
    → IsAwaited ((j, pid) ∷ reports) i w
    → IsAwaited reports i w
unfolding IsReported
other-IsAwaited i j pid reports w h (inl up) = inl up
other-IsAwaited i j pid reports w h (inr (p, starts, inl same)) = absurd (h same.0)
other-IsAwaited i j pid reports w h (inr (p, starts, inr reported)) = inr (p, starts, reported)

AreAwaited-later :
    (i j : ℕ) (pid : Pid) (reports : List (ℕ × Pid)) (ws : List Worker)
    → j < i
    → AreAwaited ((j, pid) ∷ reports) i ws
    → AreAwaited reports i ws
unfolding AreAwaited
AreAwaited-later i j pid reports [] h a = tt
AreAwaited-later i j pid reports (w ∷ ws) h (a, others) = (
  other-IsAwaited i j pid reports w (λ e. absurd (omega (arith, e))) a,
  AreAwaited-later (suc i) j pid reports ws (omega arith) others,
)

-- The worker with number `i + j` is told; all are still awaited.
unfoldable pub Told : List (ℕ × Pid) → ℕ → List Worker → Option (List Worker × Os) → Type 0
Told reports i ws none = ⊥
Told reports i ws (some (ws', os')) = AreAwaited reports i ws' × (length ws' ≡ length ws)

cons-Told :
    (i : ℕ) (reports : List (ℕ × Pid)) (w : Worker) (ws : List Worker)
    (r : Option (List Worker × Os))
    → IsAwaited reports i w
    → Told reports (suc i) ws r
    → Told reports i (w ∷ ws) (elim r [ none ↦ none | some (ws', os') ↦ some (w ∷ ws', os') ])
unfolding Told AreAwaited
cons-Told i reports w ws none a h = h
cons-Told i reports w ws (some (ws', os')) a h = ((a, h.0), ap suc h.1)

pub at_worker-Told :
    (i j : ℕ) (pid : Pid) (reports : List (ℕ × Pid)) (ws : List Worker) (os : Os)
    → j < length ws
    → AreAwaited ((i + j, pid) ∷ reports) i ws
    → Told reports i ws (at_worker j (loaded pid) ws os)
unfolding at_worker Told AreAwaited
at_worker-Told i j pid reports [] os h a = absurd (omega arith)
at_worker-Told i zero pid reports (w ∷ ws) os h (a, rest) =
    let here : i + zero ≡ i = omega arith in
    (
      (
        loaded-IsAwaited i pid reports w os
            (subst (λ k. IsAwaited ((k, pid) ∷ reports) i w) here a),
        AreAwaited-later (suc i) i pid reports ws (omega arith)
            (subst (λ k. AreAwaited ((k, pid) ∷ reports) (suc i) ws) here rest),
      ),
      refl,
    )
at_worker-Told i (suc j) pid reports (w ∷ ws) os h (a, rest) =
    let later : i + suc j ≡ suc i + j = omega arith in
    cons-Told i reports w ws (at_worker j (loaded pid) ws os)
      (other-IsAwaited i (i + suc j) pid reports w (λ e. absurd (omega (arith, e))) a)
      (at_worker-Told (suc i) j pid reports ws os (omega arith)
        (subst (λ k. AreAwaited ((k, pid) ∷ reports) (suc i) ws) later rest))

-- Starting or up: not failed, and with nothing to start again.
unfoldable pub AreSteady : List Worker → Type 0
AreSteady ws = All (λ w. (is_failed w ≡ false) × (is_stopped w ≡ false)) ws

IsAwaited-steady :
    (reports : List (ℕ × Pid)) (i : ℕ) (w : Worker)
    → IsAwaited reports i w
    → (is_failed w ≡ false) × (is_stopped w ≡ false)
unfolding is_failed is_stopped is_running
IsAwaited-steady reports i w (inl up) = ground arith
IsAwaited-steady reports i w (inr (p, starts, reported)) = ground arith

pub AreAwaited-AreSteady :
    (reports : List (ℕ × Pid)) (i : ℕ) (ws : List Worker) → AreAwaited reports i ws → AreSteady ws
unfolding AreAwaited AreSteady
AreAwaited-AreSteady reports i [] h = tt
AreAwaited-AreSteady reports i (w ∷ ws) h =
    (IsAwaited-steady reports i w h.0, AreAwaited-AreSteady reports (suc i) ws h.1)

pub any_failed_steady : (ws : List Worker) → AreSteady ws → any_failed ws ≡ false
unfolding AreSteady any_failed
any_failed_steady [] h = refl
any_failed_steady (w ∷ ws) h = ground (arith, h.0.0, any_failed_steady ws h.1)

check_from_steady :
    (l : Load) (ws : List Worker) (os : Os)
    → AreSteady ws
    → ((check_from true l ws os).1 ≡ ws) × ((check_from true l ws os).2 ≡ os)
unfolding AreSteady check_from check_worker
check_from_steady l [] os h = ground arith
check_from_steady l (w ∷ ws) os h =
    let (l', w', os') = check_worker true l w os in ground (arith, check_from_steady l' ws os' h.1)

-- While a worker is busy the update changes nothing.
pub update_busy :
    (c : ℕ) (s : FeService) (os : Os)
    → AreSteady s.workers
    → any_busy true s.workers ≡ true
    → update_in (ServiceState.starting c) s os ≡ (record s { state = ServiceState.starting c }, os)
unfolding update_in settle check_loading_workers
update_busy c s os h busy =
    let l : Load = record { failed = false; in_process = false } in
    ground (
      arith,
      check_loading_workers-load true s.workers os,
      check_from_steady l s.workers os h,
      any_failed_steady s.workers h,
    )
