-- ===== src/Service/Ledger.antt =====
-- The account of a condition: the service holds it, or it has been answered.
use fectl.Prelude.{
  ℕ, ◌+◌, ◌≡◌, refl, arith, Bool, true, false, List, [], ◌∷◌, ◌==◌, ltb, if◌then◌else◌,
}
use fectl.Event.{Reason}
use fectl.System.{Os, log}
use fectl.Worker.{Worker}
use fectl.Worker.Methods.{Method, perform}
use fectl.Worker.Silent.{IsSilent, answered, perform-IsSilent}
use fectl.Service.{
  FeService, ServiceState, Load, check_worker, check_from, check_loading_workers, settle, update,
  update_in, for_each, stop_unfinished,
}

module _ (c : ℕ) where
  -- 1 if the state holds condition `c`, that is, if it is still to be answered.
  unfoldable pub held : ServiceState → ℕ
  held (ServiceState.starting d) = if d == c then 1 else 0
  held (ServiceState.reloading d) = if d == c then 1 else 0
  held (ServiceState.stopping d) = if d == c then 1 else 0
  held _ = 0

  -- A condition that has been made is held or has been answered once; one that has not is neither.
  abbrev pub IsBalanced : FeService × Os → Type 0
  IsBalanced (s, os) =
      answered c os.calls + held s.state ≡ (if ltb c os.next_condition then 1 else 0)

  -- A method of a worker, as the loops call it.
  abbrev pub Silent : (Worker → Os → Worker × Os) → Type 0
  Silent f = (w : Worker) (os : Os) → IsSilent c os (f w os).1

  pub for_each-IsSilent :
      (f : Worker → Os → Worker × Os) (ws : List Worker) (os : Os)
      → Silent f
      → IsSilent c os (for_each f ws os).1
  unfolding for_each
  for_each-IsSilent f [] os q = ground arith
  for_each-IsSilent f (w ∷ ws) os q = ground (arith, q w os, for_each-IsSilent f ws (f w os).1 q)

  check_worker-IsSilent :
      (b : Bool) (l : Load) (w : Worker) (os : Os) → IsSilent c os (check_worker b l w os).2
  unfolding check_worker perform
  check_worker-IsSilent b l w os =
      ground (arith, perform-IsSilent c (Method.reload true Reason.none) w os)

  check_from-IsSilent :
      (b : Bool) (l : Load) (ws : List Worker) (os : Os) → IsSilent c os (check_from b l ws os).2
  unfolding check_from
  check_from-IsSilent b l [] os = ground arith
  check_from-IsSilent b l (w ∷ ws) os =
      let (l', w', os') = check_worker b l w os in
      ground (arith, check_worker-IsSilent b l w os, check_from-IsSilent b l' ws os')

  pub check_loading_workers-IsSilent :
      (b : Bool) (ws : List Worker) (os : Os) → IsSilent c os (check_loading_workers b ws os).2
  unfolding check_loading_workers
  check_loading_workers-IsSilent b ws os = check_from-IsSilent b _ ws os

  pub stop_unfinished-IsSilent : Silent stop_unfinished
  unfolding stop_unfinished perform
  stop_unfinished-IsSilent w os =
      ground (arith, perform-IsSilent c (Method.stop Reason.some_workers_failed) w os)

  update_in-IsBalanced :
      (t : ServiceState) (s : FeService) (os : Os)
      → s.state ≡ t
      → IsBalanced (s, os)
      → IsBalanced (update_in t s os)
  unfolding update_in settle log answered held
  update_in-IsBalanced (ServiceState.starting d) s os e h =
      let (l, ws, os') = check_loading_workers true s.workers os in
      ground (
        arith,
        check_loading_workers-IsSilent true s.workers os,
        for_each-IsSilent stop_unfinished ws os' stop_unfinished-IsSilent,
      )
  update_in-IsBalanced (ServiceState.reloading d) s os e h =
      let (l, ws, os') = check_loading_workers true s.workers os in
      ground (
        arith,
        check_loading_workers-IsSilent true s.workers os,
        for_each-IsSilent stop_unfinished ws os' stop_unfinished-IsSilent,
      )
  update_in-IsBalanced (ServiceState.stopping d) s os e h =
      ground (arith, check_loading_workers-IsSilent false s.workers os)
  update_in-IsBalanced _ s os e h = h

  pub update-IsBalanced : (s : FeService) (os : Os) → IsBalanced (s, os) → IsBalanced (update s os)
  unfolding update
  update-IsBalanced s os h = update_in-IsBalanced s.state s os refl h
