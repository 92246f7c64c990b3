-- ===== src/Worker/Silent.antt =====
-- Workers answer nobody who waits for a service, and hand out no condition.
use fectl.Prelude.{ℕ, suc, ◌≡◌, arith, Bool, List, [], ◌∷◌, ◌==◌, if◌then◌else◌}
use fectl.Event.{Reason}
use fectl.Config.{ServiceConfig}
use fectl.Process.Error.{ProcessError}
use fectl.Process.Start
use fectl.System.{Pid, Addr, Os, Call, set_start, set_reload, set_stop, ask, log}
use fectl.Worker.{Worker, WorkerState, note, send, start, loaded, reload, message, pause, resume}
use fectl.Worker.Ending.{stop, quit}
use fectl.Worker.Exits.{
  exited, exited_in, count_restart, running_exited, starting_exited, replacement_exited, old_exited,
  new_exited,
}
use fectl.Worker.Methods.{Method, perform}

-- How often has condition `c` been answered?
unfoldable pub answered : ℕ → List Call → ℕ
answered c [] = 0
answered c (set_start d status ∷ cs) = if d == c then suc (answered c cs) else answered c cs
answered c (set_reload d status ∷ cs) = if d == c then suc (answered c cs) else answered c cs
answered c (set_stop d ∷ cs) = if d == c then suc (answered c cs) else answered c cs
answered c (_ ∷ cs) = answered c cs

-- From `os` to `os'` condition `c` is not answered, and no condition is handed out.
pub record IsSilent (c : ℕ) (os os' : Os) : Type 0 where
  pub unanswered : answered c os'.calls ≡ answered c os.calls
  pub unmade : os'.next_condition ≡ os.next_condition

module _ (c : ℕ) where
  create-IsSilent :
      (idx : ℕ) (cfg : ServiceConfig) (service : Addr) (os : Os)
      → IsSilent c os (Start.start idx cfg service os).1
  unfolding answered Start.start log
  create-IsSilent idx cfg service os = ground arith

  start-IsSilent : (r : Reason) (w : Worker) (os : Os) → IsSilent c os (start r w os).1
  unfolding note start ask
  start-IsSilent r w os = grind (arith, create-IsSilent)

  reload-IsSilent :
      (b : Bool) (r : Reason) (w : Worker) (os : Os) → IsSilent c os (reload b r w os).1
  unfolding note start reload ask
  reload-IsSilent b r w os = grind (arith, create-IsSilent)

  count_restart-IsSilent :
      (secs : ℕ) (e : ProcessError) (w : Worker) (os : Os)
      → IsSilent c os (count_restart secs e w os).1
  unfolding count_restart ask
  count_restart-IsSilent secs e w os = ground arith

  exited_in-IsSilent :
      (s : WorkerState) (pid : Pid) (e : ProcessError) (w : Worker) (os : Os)
      → IsSilent c os (exited_in s pid e w os).1
  unfolding answered exited_in running_exited starting_exited replacement_exited old_exited
      new_exited note send ask log
  exited_in-IsSilent (WorkerState.starting p) pid e w os =
      grind (arith, start-IsSilent, reload-IsSilent, create-IsSilent, count_restart-IsSilent)
  exited_in-IsSilent _ pid e w os =
      grind (arith, start-IsSilent, reload-IsSilent, create-IsSilent, count_restart-IsSilent)

  pub perform-IsSilent : (m : Method) (w : Worker) (os : Os) → IsSilent c os (perform m w os).1
  unfolding perform exited answered note send loaded stop quit message pause resume ask log
  perform-IsSilent (Method.exited pid e) w os = exited_in-IsSilent w.state pid e w os
  perform-IsSilent m w os = grind (arith, start-IsSilent, reload-IsSilent)
