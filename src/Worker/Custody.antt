-- ===== src/Worker/Custody.antt =====
-- No process is forgotten: one that leaves the state of its worker is told to go, or was reported.
use fectl.Prelude.{
  ℕ, ◌≡◌, refl, ◌⊎◌, arith, Bool, true, false, ◌||◌, ◌&&◌, ◌==◌, Option, none, some, List, [], ◌∷◌,
}
use fectl.Config.{ServiceConfig}
use fectl.Process.Error.{ProcessError}
use fectl.Process.Start.{ProcessInfo}
use fectl.Process.Start
use fectl.System.{Pid, Addr, Os, Call, send_process, stop_process, quit_process, ask, log}
use fectl.Worker.{Worker, WorkerState, note, send, start, loaded, reload, message, pause, resume}
use fectl.Worker.Ending.{stop, quit}
use fectl.Worker.Exits.{
  exited, exited_in, count_restart, running_exited, starting_exited, replacement_exited, old_exited,
  new_exited,
}
use fectl.Worker.Methods.{Method, perform}

abbrev pub at : Option Addr → Addr → Bool
at none a = false
at (some b) a = a == b

abbrev pub is_at : ProcessInfo → Addr → Bool
is_at p a = at p.addr a

-- Has a worker in this state a process at address `a`?
unfoldable pub holds : WorkerState → Addr → Bool
holds (WorkerState.starting p) a = is_at p a
holds (WorkerState.running p) a = is_at p a
holds (WorkerState.stopping p) a = is_at p a
holds (WorkerState.reloading p old) a = is_at p a || is_at old a
holds (WorkerState.restarting p old) a = is_at p a || is_at old a
holds (WorkerState.stopping_old p old) a = is_at p a || is_at old a
holds _ a = false

abbrev is_reported : ProcessInfo → Pid → Addr → Bool
is_reported p pid a = is_at p a && p.pid == pid

-- Is the process at `a` one that the report is about?
unfoldable pub reported : Method → WorkerState → Addr → Bool
reported (Method.exited pid e) (WorkerState.starting p) a = is_reported p pid a
reported (Method.exited pid e) (WorkerState.running p) a = is_reported p pid a
reported (Method.exited pid e) (WorkerState.stopping p) a = is_reported p pid a
reported (Method.exited pid e) (WorkerState.reloading p old) a =
    is_reported p pid a || is_reported old pid a
reported (Method.exited pid e) (WorkerState.restarting p old) a =
    is_reported p pid a || is_reported old pid a
reported (Method.exited pid e) (WorkerState.stopping_old p old) a =
    is_reported p pid a || is_reported old pid a
reported _ _ a = false

-- Has the process at `a` been asked to stop or to quit?
unfoldable pub dismissed : Addr → List Call → Bool
dismissed a [] = false
dismissed a (send_process b stop_process ∷ cs) = a == b || dismissed a cs
dismissed a (send_process b (quit_process graceful) ∷ cs) = a == b || dismissed a cs
dismissed a (_ ∷ cs) = dismissed a cs

pub dismissed-start :
    (a : Addr) (idx : ℕ) (cfg : ServiceConfig) (service : Addr) (os : Os)
    → dismissed a (Start.start idx cfg service os).1.calls ≡ dismissed a os.calls
unfolding dismissed Start.start log
dismissed-start a idx cfg service os = ground arith

-- What the theorem promises of the process at `a`.
abbrev pub Accounted : Method → Worker → Os → Addr → Type 0
Accounted m w os a =
    let (w', os') = perform m w os in
    (holds w'.state a ≡ true) ⊎ (dismissed a os'.calls ≡ true) ⊎ (reported m w.state a ≡ true)

exited_in-custody :
    (s : WorkerState) (pid : Pid) (e : ProcessError) (w : Worker) (os : Os) (a : Addr)
    → os.calls ≡ []
    → w.state ≡ s
    → holds s a ≡ true
    → let (w', os') = exited_in s pid e w os in
      (holds w'.state a ≡ true)
      ⊎ (dismissed a os'.calls ≡ true)
      ⊎ (reported (Method.exited pid e) s a ≡ true)
unfolding perform holds reported dismissed exited_in running_exited starting_exited
    replacement_exited old_exited new_exited count_restart note send start reload ask
exited_in-custody (WorkerState.running p) pid e w os a c k h = ground arith
exited_in-custody (WorkerState.starting p) pid e w os a c k h = ground arith
exited_in-custody (WorkerState.reloading p old) pid e w os a c k h = ground arith
exited_in-custody (WorkerState.restarting p old) pid e w os a c k h = ground arith
exited_in-custody (WorkerState.stopping_old p old) pid e w os a c k h =
    ground (arith, dismissed-start a w.idx w.cfg w.addr (ask (send old (quit_process false) os)))
exited_in-custody _ pid e w os a c k h = ground arith

-- Whatever method is called on a worker, a process that it has is accounted for: the worker still
-- has it, or it has been asked to stop or to quit, or the method is the report that this process is
-- gone. No call has been recorded before.
pub custody :
    (m : Method) (w : Worker) (os : Os) (a : Addr)
    → os.calls ≡ []
    → holds w.state a ≡ true
    → Accounted m w os a
unfolding perform exited holds reported dismissed note send start loaded reload stop quit message
    pause resume ask
custody (Method.exited pid e) w os a c h = exited_in-custody w.state pid e w os a c refl h
custody m w os a c h = ground arith
