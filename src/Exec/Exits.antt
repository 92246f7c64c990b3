-- ===== src/Exec/Exits.antt =====
-- From the exit of a child that could not become the worker to what the services are told.
use mathlib.Core.List.{append-nil}
use fectl.Prelude.{ℕ, String, map, ◌≡◌, ◌⊎◌, inl, inr, refl, arith, List, [], ◌∷◌}
use fectl.Command.{
  CommandCenter, Order, send_exited, SignalType, WaitStatus, handle_signal, reap, tell,
}
use fectl.Config.{ServiceConfig}
use fectl.Exec.{exec_worker, Program}
use fectl.Exec.Child.{Effect, Exit, Surroundings, exited, panicked}
use fectl.Exec.Configured.{Post, exec_worker-Ends}
use fectl.Process.Error.{ProcessError, from, worker_boot_failed, worker_init_failed}
use fectl.Steps.{Result, ended, ok}
use fectl.System.{Addr, Pid}

-- What every service is told of the process.
abbrev pub told : Pid → ProcessError → List (String × Addr) → List Order
told pid e services = map (λ s. send_exited s.1 pid e) services

tell-told :
    (pid : Pid) (e : ProcessError) (ss : List (String × Addr)) → tell pid e ss ≡ told pid e ss
unfolding tell
tell-told pid e [] = refl
tell-told pid e ((n, a) ∷ ss) = ground (arith, tell-told pid e ss)

codes :
    (m : Surroundings) (cfg : ServiceConfig) (write code : ℕ)
    (r : Result Exit Program × List Effect)
    → Post m cfg write r
    → r.0 ≡ ended (exited code)
    → (code ≡ worker_init_failed) ⊎ (code ≡ worker_boot_failed)
codes m cfg write code (ok program, es) p h = absurd (ground arith)
codes m cfg write code (ended (exited k), es) p h = ground arith
codes m cfg write code (ended panicked, es) p h = absurd (ground arith)

reaped :
    (code : ℕ) (pid : Pid) (c : CommandCenter)
    → handle_signal SignalType.child (WaitStatus.exited pid code ∷ []) c
      ≡ (c, told pid (from code) c.services)
unfolding handle_signal reap
reaped code pid c =
    let heard = tell pid (from code) c.services in
    ground (arith, append-nil heard, tell-told pid (from code) c.services)

-- When a child gives up before it is the worker, the master, on the signal about it, tells every
-- service of that child: that it failed to initialise, where the exit code is 99, and that it failed
-- to boot, where it is 100; there is no other code.
pub exec_worker-reported :
    (m : Surroundings) (idx : ℕ) (cfg : ServiceConfig) (read write code : ℕ) (pid : Pid)
    (c : CommandCenter)
    → (exec_worker m idx cfg read write []).0 ≡ ended (exited code)
    → let heard = handle_signal SignalType.child (WaitStatus.exited pid code ∷ []) c in
      ((code ≡ 99) × (heard ≡ (c, told pid ProcessError.init_failed c.services)))
      ⊎ ((code ≡ 100) × (heard ≡ (c, told pid ProcessError.boot_failed c.services)))
unfolding from
exec_worker-reported m idx cfg read write code pid c h =
    let run = exec_worker m idx cfg read write [] in
    let known = codes m cfg write code run (exec_worker-Ends m idx cfg read write) h in
    elim known [
      | inl e ↦ inl (e, ground (arith, e, reaped code pid c))
      | inr e ↦ inr (e, ground (arith, e, reaped code pid c))
    ]
