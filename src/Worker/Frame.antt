-- ===== src/Worker/Frame.antt =====
-- What no method of a worker changes, and the limit of its history.
use fectl.Prelude.{ℕ, ◌≤◌, ◌<◌, ◌≡◌, Option, Bool, String, List, [], ◌∷◌, arith, length}
use fectl.Event.{State, Reason, event}
use fectl.Event.Bounds.{Fits, new-Fits, new-max, max-add, add-Fits}
use fectl.Config.{ServiceConfig}
use fectl.Process.Error.{ProcessError}
use fectl.Process.Start.{ProcessInfo}
use fectl.System.{Pid, Addr, Os}
use fectl.Worker.{Worker, WorkerState, new, note, start, loaded, reload, message, pause, resume}
use fectl.Worker.Ending.{stop, quit}
use fectl.Worker.Exits.{
  exited, count_restart, running_exited, starting_exited, replacement_exited, old_exited,
  new_exited,
}
use fectl.Worker.Methods.{Method, perform, perform_all}

-- `w'` is a later state of `w`: the same worker, whose history has at most 50 entries if that of
-- `w` had.
pub record Later (w w' : Worker) : Type 0 where
  pub idx : w'.idx ≡ w.idx
  pub cfg : w'.cfg ≡ w.cfg
  pub addr : w'.addr ≡ w.addr
  pub max : w'.events.max ≡ w.events.max
  pub fits : 0 < w.events.max → Fits w.events → Fits w'.events

pub Later-refl : (w : Worker) → Later w w
Later-refl w = ground arith

pub Later-trans : {a b c : Worker} → Later a b → Later b c → Later a c
Later-trans {a} {b} {c} h k = ground (arith, k.fits, h.fits)

-- A new state, count or mark is no matter.
pub note-Later :
    (s : State) (r : Reason) (pid : Option String) (w : Worker) (os : Os)
    → Later w (note s r pid w os).0
unfolding note
note-Later s r pid w os =
    let e = event s r pid (os.outside.unix_secs os.asked) in
    ground (arith, max-add e w.events, add-Fits e w.events)

start-Later : (r : Reason) (w : Worker) (os : Os) → Later w (start r w os).0
unfolding start
start-Later r w os = grind (arith, note-Later)

reload-Later : (b : Bool) (r : Reason) (w : Worker) (os : Os) → Later w (reload b r w os).0
unfolding reload
reload-Later b r w os = grind (arith, note-Later, start-Later)

count_restart-Later :
    (secs : ℕ) (e : ProcessError) (w : Worker) (os : Os) → Later w (count_restart secs e w os).0
unfolding count_restart
count_restart-Later secs e w os = ground arith

running_exited-Later :
    (p : ProcessInfo) (pid : Pid) (e : ProcessError) (w : Worker) (os : Os)
    → Later w (running_exited p pid e w os).0
unfolding running_exited
running_exited-Later p pid e w os = grind (arith, note-Later, start-Later, reload-Later)

starting_exited-Later :
    (p : ProcessInfo) (pid : Pid) (e : ProcessError) (w : Worker) (os : Os)
    → Later w (starting_exited p pid e w os).0
unfolding starting_exited
starting_exited-Later p pid e w os = grind (arith, note-Later, start-Later, count_restart-Later)

replacement_exited-Later :
    (again : ProcessInfo → ProcessInfo → WorkerState) (s : State) (old : ProcessInfo) (pid : Pid)
    (e : ProcessError) (w : Worker) (os : Os)
    → Later w (replacement_exited again s old pid e w os).0
unfolding replacement_exited
replacement_exited-Later again s old pid e w os = grind (arith, note-Later, count_restart-Later)

old_exited-Later :
    (p : ProcessInfo) (pid : Pid) (w : Worker) (os : Os) → Later w (old_exited p pid w os).0
unfolding old_exited
old_exited-Later p pid w os = grind (arith, note-Later)

new_exited-Later :
    (old : ProcessInfo) (pid : Pid) (e : ProcessError) (w : Worker) (os : Os)
    → Later w (new_exited old pid e w os).0
unfolding new_exited
new_exited-Later old pid e w os = grind (arith, note-Later, start-Later)

exited-Later : (pid : Pid) (e : ProcessError) (w : Worker) (os : Os) → Later w (exited pid e w os).0
unfolding exited
exited-Later pid e w os = grind (
  arith, running_exited-Later, starting_exited-Later, replacement_exited-Later, old_exited-Later,
  new_exited-Later, note-Later,
)

-- Every method leaves the number, the settings and the service of a worker as they are, and its
-- history within the limit.
pub perform-Later : (m : Method) (w : Worker) (os : Os) → Later w (perform m w os).0
unfolding perform loaded message stop quit pause resume
perform-Later (Method.exited pid e) w os = exited-Later pid e w os
perform-Later (Method.start r) w os = start-Later r w os
perform-Later (Method.reload b r) w os = reload-Later b r w os
perform-Later (Method.message pid m) w os = grind (arith, reload-Later)
perform-Later m w os = grind (arith, note-Later)

perform_all-Later : (ms : List Method) (w : Worker) (os : Os) → Later w (perform_all ms w os).0
unfolding perform_all
perform_all-Later [] w os = Later-refl w
perform_all-Later (m ∷ ms) w os =
    let (w', os') = perform m w os in
    Later-trans (perform-Later m w os) (perform_all-Later ms w' os')

-- Whatever happens to a new worker, its history has at most 50 entries, and its number, its
-- settings and its service are those that it was made with.
perform_all-new :
    (idx : ℕ) (cfg : ServiceConfig) (addr : Addr) (os : Os) (ms : List Method)
    → let (w, os') = new idx cfg addr os in
      let w' = (perform_all ms w os').0 in
      (length w'.events.events ≤ 50) × (w'.idx ≡ idx) × (w'.cfg ≡ cfg) × (w'.addr ≡ addr)
unfolding new
perform_all-new idx cfg addr os ms =
    let (w, os') = new idx cfg addr os in
    let h = perform_all-Later ms w os' in
    (ground (arith, h.fits, h.max, new-Fits 50, new-max 50), h.idx, h.cfg, h.addr)
