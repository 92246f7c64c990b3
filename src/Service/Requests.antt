-- ===== src/Service/Requests.antt =====
-- Every message that a service handles, as one type, and their sequences.
use fectl.Prelude.{ℕ, Bool, Option, none, some, List, [], ◌∷◌}
use fectl.Event.{Reason}
use fectl.Process.Error.{ProcessError}
use fectl.Protocol.{WorkerMessage}
use fectl.System.{Pid, Os}
use fectl.Service.{FeService}
use fectl.Service
use fectl.Service.Commands

-- What the processes bring about.
pub data Signal : Type 0 where
  message : ℕ → Pid → WorkerMessage → Signal
  failed failure_due : ℕ → Pid → ProcessError → Signal
  loaded : ℕ → Pid → Signal
  exited : Pid → ProcessError → Signal

unfoldable pub deliver : Signal → FeService → Os → Option (FeService × Os)
deliver (message i pid m) s os = Service.process_message i pid m s os
deliver (failed i pid e) s os = some (Service.process_failed i pid e s os)
deliver (failure_due i pid e) s os = Service.failure_due i pid e s os
deliver (loaded i pid) s os = Service.process_loaded i pid s os
deliver (exited pid e) s os = some (Service.process_exited pid e s os)

unfoldable pub deliver_all : List Signal → FeService → Os → Option (FeService × Os)
deliver_all [] s os = some (s, os)
deliver_all (g ∷ gs) s os = elim (deliver g s os) [
  | none ↦ none
  | some (s', os') ↦ deliver_all gs s' os'
]

-- What the command center asks for.
pub data Request : Type 0 where
  signal : Signal → Request
  start pause resume : Request
  reload : Bool → Request
  stop : Bool → Reason → Request

unfoldable pub handle : Request → FeService → Os → Option (FeService × Os)
unfolding deliver
handle (signal g) s os = deliver g s os
handle start s os = let (r, s', os') = Commands.start s os in some (s', os')
handle pause s os = let (r, s', os') = Commands.pause s os in some (s', os')
handle resume s os = let (r, s', os') = Commands.resume s os in some (s', os')
handle (reload b) s os = let (r, s', os') = Commands.reload b s os in some (s', os')
handle (stop b reason) s os = let (r, s', os') = Commands.stop b reason s os in some (s', os')

-- The handlers in turn; `none` if one of them panics.
unfoldable pub handle_all : List Request → FeService → Os → Option (FeService × Os)
handle_all [] s os = some (s, os)
handle_all (r ∷ rs) s os = elim (handle r s os) [
  | none ↦ none
  | some (s', os') ↦ handle_all rs s' os'
]
