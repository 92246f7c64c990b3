-- ===== src/Client.antt =====
-- client/client.rs: the console client, from a command to the exit status. The socket is a list of
-- the responses that arrive.
pub mod Arrivals
pub mod Cli
pub mod Conversation
pub mod Misdirected
pub mod Run
pub mod Stream
pub mod Verdicts
pub mod Waiting
use fectl.Prelude.{String, Bool, true, false, Option, none, some, List, [], ◌∷◌}
use fectl.Master.{MasterRequest, MasterResponse}

pub data ClientCommand : Type 0 where
  start pause resume reload restart stop status spid : String → ClientCommand
  pid quit version version_check : ClientCommand

-- The request that `run` sends for a command.
unfoldable pub request : ClientCommand → MasterRequest
request (ClientCommand.status name) = MasterRequest.status name
request (ClientCommand.spid name) = MasterRequest.spid name
request (ClientCommand.pause name) = MasterRequest.pause name
request (ClientCommand.resume name) = MasterRequest.resume name
request (ClientCommand.start name) = MasterRequest.start name
request (ClientCommand.reload name) = MasterRequest.reload name
request (ClientCommand.restart name) = MasterRequest.restart name
request (ClientCommand.stop name) = MasterRequest.stop name
request ClientCommand.pid = MasterRequest.pid
request ClientCommand.version = MasterRequest.version
request ClientCommand.version_check = MasterRequest.version
request ClientCommand.quit = MasterRequest.quit

-- `ver.ends_with(PKG_INFO.version)` is a parameter: the version is made by the build.
version_reply : (String → Bool) → ClientCommand → String → Bool
version_reply ends_with_version ClientCommand.version_check v = ends_with_version v
version_reply ends_with_version _ v = true

-- One round of the loop that reads responses: `some` is a return, `none` another round.
unfoldable pub on_response : (String → Bool) → ClientCommand → MasterResponse → Option Bool
unfolding version_reply
on_response v cmd MasterResponse.pong = none
on_response v cmd MasterResponse.done = some true
on_response v cmd (MasterResponse.pid p) = some true
on_response v cmd (MasterResponse.version ver) = some (version_reply v cmd ver)
on_response v cmd MasterResponse.service_started = some true
on_response v cmd MasterResponse.service_stopped = some true
on_response v cmd (MasterResponse.service_status s) = some true
on_response v cmd (MasterResponse.service_worker_pids ps) = some true
on_response v cmd MasterResponse.service_failed = some false
on_response v cmd MasterResponse.error_not_ready = some false
on_response v cmd MasterResponse.error_unknown_service = some false
on_response v cmd MasterResponse.error_service_starting = some false
on_response v cmd MasterResponse.error_service_reloading = some false
on_response v cmd MasterResponse.error_service_stopping = some false
on_response v cmd _ = none

-- What `try_read_response` gives in each round: a response, or an error that ends the loop.
pub data Read : Type 0 where
  response : MasterResponse → Read
  failure : Read

-- The loop; `none` is a client that still waits when the list is at its end.
unfoldable pub read_loop : (String → Bool) → ClientCommand → List Read → Option Bool
read_loop v cmd [] = none
read_loop v cmd (failure ∷ rs) = some false
read_loop v cmd (response r ∷ rs) = elim (on_response v cmd r) [
  | some result ↦ some result
  | none ↦ read_loop v cmd rs
]
