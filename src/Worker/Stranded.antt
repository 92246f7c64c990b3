-- ===== src/Worker/Stranded.antt =====
-- Who is told to start. A process is told so when it is reported as loaded, and only while its
-- worker waits for that report.
use fectl.Prelude.{
  ℕ, ◌≤◌, ◌<◌, ◌≡◌, ◌≢◌, ◌⊎◌, ◌∙◌, refl, arith, Bool, false, ◌||◌, ◌==◌, some, List, [], ◌∷◌,
  ==_self,
}
use fectl.Event.{Reason}
use fectl.Config.{ServiceConfig}
use fectl.Process.Error.{ProcessError}
use fectl.Process.Start.{ProcessInfo}
use fectl.Process.Start
use fectl.System.{Pid, Addr, Os, Call, send_process, start_process, ask, log}
use fectl.Worker.{Worker, WorkerState, note, send, start, loaded, reload, message, pause, resume}
use fectl.Worker.Ending.{stop, quit}
use fectl.Worker.Exits.{
  exited, exited_in, count_restart, running_exited, starting_exited, replacement_exited, old_exited,
  new_exited,
}
use fectl.Worker.Custody.{is_at}
use fectl.Worker.Methods.{Method, perform, perform_all}

-- Does the worker wait until the process at `a` is loaded?
unfoldable pub awaits : WorkerState → Addr → Bool
awaits (WorkerState.starting p) a = is_at p a
awaits (WorkerState.reloading p old) a = is_at p a
awaits (WorkerState.restarting p old) a = is_at p a
awaits _ a = false

-- Has the process at `a` been told to start?
unfoldable pub begun : Addr → List Call → Bool
begun a [] = false
begun a (send_process b start_process ∷ cs) = a == b || begun a cs
begun a (_ ∷ cs) = begun a cs

-- The process at `a` is not told to start between the two states, and nobody waits for it.
record Idle (a : Addr) (before : List Call) (r : Worker × Os) : Type 0 where
  quiet : begun a r.1.calls ≡ begun a before
  ignored : awaits r.0.state a ≡ false

create-Idle :
    (a : Addr) (idx : ℕ) (cfg : ServiceConfig) (service : Addr) (os : Os)
    → a < os.next_addr
    → let (p, os') = Start.start idx cfg service os in
      (begun a os'.calls ≡ begun a os.calls) × (is_at p a ≡ false)
unfolding begun Start.start log
create-Idle a idx cfg service os h = ground arith

create-grows :
    (idx : ℕ) (cfg : ServiceConfig) (service : Addr) (os : Os)
    → os.next_addr ≤ (Start.start idx cfg service os).1.next_addr
unfolding Start.start log
create-grows idx cfg service os = ground arith

start-grows : (r : Reason) (w : Worker) (os : Os) → os.next_addr ≤ (start r w os).1.next_addr
unfolding note start ask
start-grows r w os = ground (arith, create-grows w.idx w.cfg w.addr os)

reload-grows :
    (b : Bool) (r : Reason) (w : Worker) (os : Os) → os.next_addr ≤ (reload b r w os).1.next_addr
unfolding note start reload ask
reload-grows b r w os = ground (arith, create-grows w.idx w.cfg w.addr os)

start-Idle :
    (a : Addr) (r : Reason) (w : Worker) (os : Os)
    → a < os.next_addr
    → awaits w.state a ≡ false
    → Idle a os.calls (start r w os)
unfolding begun awaits note start ask log
start-Idle a r w os h k = ground (arith, create-Idle a w.idx w.cfg w.addr os)

reload-Idle :
    (a : Addr) (b : Bool) (r : Reason) (w : Worker) (os : Os)
    → a < os.next_addr
    → awaits w.state a ≡ false
    → Idle a os.calls (reload b r w os)
unfolding begun awaits note start reload ask log
reload-Idle a b r w os h k = ground (arith, create-Idle a w.idx w.cfg w.addr os)

count_restart_silent :
    (secs : ℕ) (e : ProcessError) (w : Worker) (os : Os)
    → let (w', os') = count_restart secs e w os in
      (w'.state ≡ w.state) × (os'.calls ≡ os.calls) × (os'.next_addr ≡ os.next_addr)
unfolding count_restart ask
count_restart_silent secs e w os = ground arith

exited_in-grows :
    (s : WorkerState) (pid : Pid) (e : ProcessError) (w : Worker) (os : Os)
    → os.next_addr ≤ (exited_in s pid e w os).1.next_addr
unfolding exited_in running_exited starting_exited replacement_exited old_exited new_exited note
    send ask log
exited_in-grows (WorkerState.starting p) pid e w os =
    grind (arith, start-grows, reload-grows, create-grows, count_restart_silent)
exited_in-grows _ pid e w os =
    grind (arith, start-grows, reload-grows, create-grows, count_restart_silent)

exited_in-Idle :
    (s : WorkerState) (a : Addr) (pid : Pid) (e : ProcessError) (w : Worker) (os : Os)
    → a < os.next_addr
    → w.state ≡ s
    → awaits s a ≡ false
    → Idle a os.calls (exited_in s pid e w os)
unfolding begun awaits exited_in running_exited starting_exited replacement_exited old_exited
    new_exited note send ask log
exited_in-Idle (WorkerState.starting p) a pid e w os h k i =
    grind (arith, start-Idle, create-Idle, count_restart_silent)
exited_in-Idle (WorkerState.running p) a pid e w os h k i = grind (arith, start-Idle, reload-Idle)
exited_in-Idle _ a pid e w os h k i = grind (arith, start-Idle, create-Idle, count_restart_silent)

perform-grows : (m : Method) (w : Worker) (os : Os) → os.next_addr ≤ (perform m w os).1.next_addr
unfolding perform exited note send loaded stop quit message pause resume ask log
perform-grows (Method.exited pid e) w os = exited_in-grows w.state pid e w os
perform-grows m w os = grind (arith, start-grows, reload-grows)

perform-Idle :
    (a : Addr) (m : Method) (w : Worker) (os : Os)
    → a < os.next_addr
    → awaits w.state a ≡ false
    → Idle a os.calls (perform m w os)
unfolding perform exited begun awaits note send loaded stop quit message pause resume ask log
perform-Idle a (Method.exited pid e) w os h k = exited_in-Idle w.state a pid e w os h refl k
perform-Idle a m w os h k = grind (arith, start-Idle, reload-Idle)

-- A process for which its worker does not wait is never told to start, whatever happens to the
-- worker afterwards. Its address is one of those that have been handed out.
perform_all-begun :
    (a : Addr) (ms : List Method) (w : Worker) (os : Os)
    → a < os.next_addr
    → awaits w.state a ≡ false
    → begun a (perform_all ms w os).1.calls ≡ begun a os.calls
unfolding perform_all
perform_all-begun a [] w os h k = refl
perform_all-begun a (m ∷ ms) w os h k =
    let (w', os') = perform m w os in
    let i = perform-Idle a m w os h k in
    perform_all-begun a ms w' os' (omega (arith, perform-grows m w os)) i.ignored ∙ i.quiet

-- The defect: when the old process of a reload or a restart dies before the new one, at `a`, is
-- loaded, the worker counts as running the new process and no longer waits for it. The new process
-- is not told to start by that report, nor by any sequence of later events. The pids differ, and the
-- address has been handed out.
pub old_dies_first :
    (a : Addr) (p old : ProcessInfo) (e : ProcessError) (ms : List Method) (w : Worker) (os : Os)
    → (w.state ≡ WorkerState.reloading p old) ⊎ (w.state ≡ WorkerState.restarting p old)
    → p.pid ≢ old.pid
    → p.addr ≡ some a
    → a < os.next_addr
    → let (w', os') = exited old.pid e w os in
      (w'.state ≡ WorkerState.running p)
      × (begun a (perform_all ms w' os').1.calls ≡ begun a os.calls)
unfolding exited old_exited awaits note ask
old_dies_first a p old e ms w os s d at_a known =
    let (w', os') = exited old.pid e w os in
    ground (arith, ==_self old.pid, perform_all-begun a ms w' os')
