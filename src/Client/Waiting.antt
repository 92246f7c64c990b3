-- ===== src/Client/Waiting.antt =====
-- From the state of a service to what the console client does with the answer.
use fectl.Prelude.{
  ℕ, zero, suc, ◌≡◌, ◌⊎◌, refl, arith, String, Bool, true, none, some, List, [], ◌∷◌,
}
use fectl.Command.Requests.{Sent, start_answered, stop_answered}
use fectl.Event.{Reason}
use fectl.Master
use fectl.Master.{MasterResponse}
use fectl.Service.{FeService, ServiceState, error}
use fectl.Service.Commands.{Response}
use fectl.Service.Commands
use fectl.Service.Status.{ServiceOperationError}
use fectl.System.{Os}
use fectl.Client.{ClientCommand, Read, response, on_response, read_loop}

-- The master's heartbeat to its clients, once a second.
unfoldable pub pongs : ℕ → List Read
pongs zero = []
pongs (suc n) = response MasterResponse.pong ∷ pongs n

pongs_wait : (v : String → Bool) (cmd : ClientCommand) (n : ℕ) → read_loop v cmd (pongs n) ≡ none
unfolding read_loop on_response pongs
pongs_wait v cmd zero = refl
pongs_wait v cmd (suc n) = pongs_wait v cmd n

-- A start that the service refuses at once, as the command center and the master pass it on.
abbrev pub start_reply : Response ServiceOperationError → List Read
start_reply (Response.reply e) = response (Master.answer_start (start_answered (Sent.err e))) ∷ []
start_reply (Response.async c) = []

-- The defect: the client of a start of a running service, which is refused, never returns. The
-- service stays as it is, and after the refusal the client waits however long the master's
-- heartbeat goes on.
pub start-running_hangs :
    (v : String → Bool) (name : String) (n : ℕ) (s : FeService) (os : Os)
    → s.state ≡ ServiceState.running
    → let (r, s', os') = Commands.start s os in
      (s' ≡ s)
      × (start_reply r ≡ response MasterResponse.error_service_running ∷ [])
      × (read_loop v
            (ClientCommand.start name)
            (response MasterResponse.error_service_running ∷ pongs n)
          ≡ none)
unfolding Commands.start error Master.answer_start start_answered read_loop on_response
start-running_hangs v name n s os h =
    (ground arith, ground arith, ground (arith, pongs_wait v (ClientCommand.start name) n))

-- A stop that the service refuses, passed on in the same way.
abbrev pub stop_reply : Response (Unit {0}) → List Read
stop_reply (Response.reply e) = response (Master.answer_stop (stop_answered (Sent.err e))) ∷ []
stop_reply (Response.async c) = []

-- The defect: who stops a service that is stopped or has failed is told that it was started, and
-- the client reports success, while the service stays as it is.
pub stop_stopped_succeeds :
    (v : String → Bool) (name : String) (g : Bool) (s : FeService) (os : Os)
    → (s.state ≡ ServiceState.stopped) ⊎ (s.state ≡ ServiceState.failed)
    → let (r, s', os') = Commands.stop g Reason.console_request s os in
      (s' ≡ s)
      × (stop_reply r ≡ response MasterResponse.service_started ∷ [])
      × (read_loop v (ClientCommand.stop name) (stop_reply r) ≡ some true)
unfolding Commands.stop Master.answer_stop stop_answered read_loop on_response
stop_stopped_succeeds v name g s os h = (ground arith, ground arith, ground arith)
