-- ===== src/Tests/Actors.antt =====
-- The theorems on process actors at concrete inputs.
use fectl.Prelude.{ℕ, ◌≤◌, ◌<◌, refl, arith, List, [], ◌∷◌}
use fectl.Process.Actor.{
  Input, Process, ProcessState, Timer, create, handle_timer, accept, handle, handle_message,
}
use fectl.Process.Deadlines.{
  Live, IsGuarded, Reach-IsGuarded, after, begin, fired, here, next, input, fire, set, note_effects,
  note_effect,
}
use fectl.Process.Heartbeat.{IsFound, silence-IsFound}
use fectl.Process.Loaded.{Happening, loaded_once, reports_all}
use fectl.Protocol.{WorkerMessage}

abbrev born : Live
born = begin 0 7 1 10 30 30 0

abbrev up : Live
up = after born (accept (Input.received WorkerMessage.loaded) born.process 1)

abbrev beaten : Live
beaten = after (fired Timer.heartbeat up) (handle_timer Timer.heartbeat up.process 2000000000)

heartbeat_set : 0 < set Timer.heartbeat up
unfolding set after begin accept note_effects note_effect create handle handle_message
heartbeat_set = ground arith

Reach-IsGuarded_example : IsGuarded beaten
Reach-IsGuarded_example = Reach-IsGuarded 0 7 1 10 30 30 0 (
    next (next here (input born (Input.received WorkerMessage.loaded) 1))
      (fire up Timer.heartbeat 2000000000 heartbeat_set))

loaded_once_example :
    reports_all
      ((Happening.input (Input.received WorkerMessage.loaded), 1)
        ∷ (Happening.input (Input.received WorkerMessage.loaded), 2)
        ∷ [])
      (create 0 7 1 10 30 30 0).0
    ≤ 1
loaded_once_example = loaded_once 0 7 1 10 30 30 0 (
    (Happening.input (Input.received WorkerMessage.loaded), 1)
    ∷ (Happening.input (Input.received WorkerMessage.loaded), 2)
    ∷ [])

-- A worker that has three seconds: the tick after four seconds finds it.
abbrev hung : Process
hung = record {
  idx = 0;
  pid = 7;
  state = ProcessState.running;
  hb = 0;
  addr = 1;
  timeout = 3000000000;
  startup_timeout = 30;
  shutdown_timeout = 30;
}

abbrev seconds : List ℕ
seconds = 2000000000 ∷ 4000000000 ∷ 6000000000 ∷ []

silence-IsFound_example : IsFound seconds hung
silence-IsFound_example =
    silence-IsFound seconds hung refl (ground arith, (ground arith, (ground arith, tt)))
      (ground arith)
