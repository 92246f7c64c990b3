-- ===== src/Service/Queries.antt =====
-- src/service.rs: the handlers of `Pids` and `Status`, which only read.
use Prim.Native.String.{◌++◌}
use fectl.Prelude.{◌+◌, String, none, some, List, [], ◌∷◌, map, if◌then◌else◌}
use fectl.Event.{Event}
use fectl.Service.{FeService, ServiceState, description}
use fectl.System.{Os}
use fectl.Worker.{Worker}
use fectl.Worker

unfoldable pub pids_from : List Worker → Os → List String
pids_from [] os = []
pids_from (w ∷ ws) os = elim (Worker.pid w) [
  | none ↦ pids_from ws os
  | some pid ↦ os.outside.format_pid pid ∷ pids_from ws os
]

unfoldable pub pids : FeService → Os → List String
unfolding pids_from
pids s os = pids_from s.workers os

unfoldable pub worker_name : Os → Worker → String
worker_name os w = "worker(" ++ os.outside.format_number (w.idx + 1) ++ ")"

unfoldable pub status : FeService → Os → String × List (String × List Event)
unfolding description
status s os = (
  elim s.state [
    | ServiceState.running ↦ if s.paused then "paused" else "running"
    | other ↦ description other
  ],
  map (λ w. (worker_name os w, w.events.events)) s.workers,
)
