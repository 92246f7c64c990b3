-- ===== src/Worker/Methods.antt =====
-- The methods of src/worker.rs that change a worker, as one type, and their sequences.
use fectl.Prelude.{Bool, List, [], ◌∷◌}
use fectl.Event.{Reason}
use fectl.Process.Error.{ProcessError}
use fectl.System.{Pid, Os}
use fectl.Worker.{Worker}
use fectl.Worker
use fectl.Worker.Ending
use fectl.Worker.Exits
use fectl.Protocol.{WorkerMessage}

pub data Method : Type 0 where
  start stop quit pause resume : Reason → Method
  reload : Bool → Reason → Method
  loaded : Pid → Method
  message : Pid → WorkerMessage → Method
  exited : Pid → ProcessError → Method

unfoldable pub perform : Method → Worker → Os → Worker × Os
perform (start r) w os = Worker.start r w os
perform (stop r) w os = Ending.stop r w os
perform (quit r) w os = Ending.quit r w os
perform (pause r) w os = Worker.pause r w os
perform (resume r) w os = Worker.resume r w os
perform (reload b r) w os = Worker.reload b r w os
perform (loaded pid) w os = Worker.loaded pid w os
perform (message pid m) w os = Worker.message pid m w os
perform (exited pid e) w os = Exits.exited pid e w os

unfoldable pub perform_all : List Method → Worker → Os → Worker × Os
perform_all [] w os = (w, os)
perform_all (m ∷ ms) w os = let (w', os') = perform m w os in perform_all ms w' os'
