-- ===== src/Tests/Starts.antt =====
-- The theorem on the start of a service at a concrete input: two workers, and reports out of order, one
-- of them repeated and one with the pid of another process.
use fectl.Prelude.{ℕ, ◌≡◌, refl, arith, inl, inr, true, List, [], ◌∷◌}
use fectl.Service.{FeService, ServiceState}
use fectl.Service.Check.{any_busy, is_busy}
use fectl.Service.Launch.{AreAwaited, IsReported, load_all}
use fectl.Service.Success.{Finished, start_succeeds}
use fectl.System.{Pid}
use fectl.Worker.{WorkerState, is_failed, is_running, is_stopped}
use fectl.Tests.{process, service_in, system, worker_in}

abbrev starting : FeService
starting = service_in (ServiceState.starting 4) (
    worker_in (WorkerState.starting (process 103 10))
    ∷ worker_in (WorkerState.starting (process 107 11))
    ∷ [])

abbrev reports : List (ℕ × Pid)
reports = (1, 107) ∷ (0, 9) ∷ (1, 107) ∷ (0, 103) ∷ []

starting-busy : any_busy true starting.workers ≡ true
unfolding any_busy is_busy is_failed is_running is_stopped
starting-busy = refl

starting-AreAwaited : AreAwaited reports 0 starting.workers
unfolding AreAwaited IsReported
starting-AreAwaited = (
  inr (process 103 10, refl, inr (inr (inr (inl (refl, refl))))),
  (inr (process 107 11, refl, inl (refl, refl)), tt),
)

start_succeeds_example : Finished 4 (load_all reports starting system)
start_succeeds_example =
    start_succeeds 4 reports starting system refl starting-busy starting-AreAwaited
      (ground arith, (ground arith, (ground arith, (ground arith, tt))))
