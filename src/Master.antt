-- ===== src/Master.antt =====
-- src/master.rs and src/master_types.rs: what a client of the master is answered.
pub mod Dispatch
use fectl.Prelude.{String, List}
use fectl.Event.{Event}
use fectl.Command.{CommandError}
use fectl.Command.Requests.{CommandResult}
use fectl.Service.Status.{StartStatus, ReloadStatus, ServiceOperationError}

pub data MasterRequest : Type 0 where
  ping pid quit version : MasterRequest
  status spid start pause resume reload restart stop : String → MasterRequest

abbrev pub ServiceStatus : Type 0
ServiceStatus = String × List (String × List Event)

pub data MasterResponse : Type 0 where
  pong done : MasterResponse
  pid version : String → MasterResponse
  service_started service_stopped service_failed : MasterResponse
  service_status : ServiceStatus → MasterResponse
  service_worker_pids : List String → MasterResponse
  error_not_ready error_unknown_service error_service_starting error_service_running :
      MasterResponse
  error_service_reloading error_service_stopping error_service_stopped : MasterResponse
  error_service_failed : MasterResponse

service_error : ServiceOperationError → MasterResponse
service_error ServiceOperationError.starting = MasterResponse.error_service_starting
service_error ServiceOperationError.reloading = MasterResponse.error_service_reloading
service_error ServiceOperationError.stopping = MasterResponse.error_service_stopping
service_error ServiceOperationError.running = MasterResponse.error_service_running
service_error ServiceOperationError.stopped = MasterResponse.error_service_stopped
service_error ServiceOperationError.failed = MasterResponse.error_service_failed

unfoldable pub handle_error : CommandError → MasterResponse
unfolding service_error
handle_error CommandError.not_ready = MasterResponse.error_not_ready
handle_error CommandError.unknown_service = MasterResponse.error_unknown_service
handle_error CommandError.service_stopped = MasterResponse.error_service_stopped
handle_error (CommandError.service e) = service_error e

-- The answers of `MasterClient::stop`, `reload` and `start_service` to a result of the command
-- center; a center that cannot be reached is answered by nothing and is left out here.
unfoldable pub answer_stop : CommandResult (Unit {0}) → MasterResponse
unfolding handle_error
answer_stop (CommandResult.err CommandError.service_stopped) = MasterResponse.service_started
answer_stop (CommandResult.err e) = handle_error e
answer_stop (CommandResult.ok u) = MasterResponse.service_stopped

unfoldable pub answer_reload : CommandResult ReloadStatus → MasterResponse
unfolding handle_error
answer_reload (CommandResult.err e) = handle_error e
answer_reload (CommandResult.ok ReloadStatus.success) = MasterResponse.service_started
answer_reload (CommandResult.ok ReloadStatus.failed) = MasterResponse.service_failed
answer_reload (CommandResult.ok ReloadStatus.stopping) = MasterResponse.error_service_stopping

unfoldable pub answer_start : CommandResult StartStatus → MasterResponse
unfolding handle_error
answer_start (CommandResult.err e) = handle_error e
answer_start (CommandResult.ok StartStatus.success) = MasterResponse.service_started
answer_start (CommandResult.ok StartStatus.failed) = MasterResponse.service_failed
answer_start (CommandResult.ok StartStatus.stopping) = MasterResponse.error_service_stopping

-- `Pause` and `Resume`
unfoldable pub answer_done : CommandResult (Unit {0}) → MasterResponse
unfolding handle_error
answer_done (CommandResult.err e) = handle_error e
answer_done (CommandResult.ok u) = MasterResponse.done
