-- ===== src/Command/Requests.antt =====
-- src/cmd.rs: the requests by name. `send` gives the answer of the service at an address, or that it
-- cannot be reached.
use fectl.Prelude.{String, List}
use fectl.Command.{CommandCenter, CommandError, Routed, reply, ask, route}
use fectl.Service.Status.{StartStatus, ReloadStatus, ServiceOperationError}
use fectl.System.{Addr}

-- `Result<Result<A, E>, MailboxError>`: what a service answers, or that it cannot be reached.
pub data Sent {ℓ} (E A : Type ℓ) : Type ℓ where
  ok : A → Sent E A
  err : E → Sent E A
  unreachable : Sent E A

pub data CommandResult {ℓ} (A : Type ℓ) : Type ℓ where
  ok : A → CommandResult A
  err : CommandError → CommandResult A

-- How the answer of a service is passed on.
unfoldable pub start_answered : Sent ServiceOperationError StartStatus → CommandResult StartStatus
start_answered (Sent.ok s) = CommandResult.ok s
start_answered (Sent.err e) = CommandResult.err (CommandError.service e)
start_answered Sent.unreachable = CommandResult.err CommandError.not_ready

unfoldable pub stop_answered : Sent (Unit {0}) (Unit {0}) → CommandResult (Unit {0})
stop_answered (Sent.ok u) = CommandResult.ok tt
stop_answered _ = CommandResult.err CommandError.service_stopped

unfoldable pub pause_answered : Sent ServiceOperationError (Unit {0}) → CommandResult (Unit {0})
pause_answered (Sent.ok u) = CommandResult.ok tt
pause_answered (Sent.err e) = CommandResult.err (CommandError.service e)
pause_answered Sent.unreachable = CommandResult.err CommandError.unknown_service

unfoldable pub resume_answered : Sent ServiceOperationError (Unit {0}) → CommandResult (Unit {0})
resume_answered (Sent.ok u) = CommandResult.ok tt
resume_answered (Sent.err e) = CommandResult.err (CommandError.service e)
resume_answered Sent.unreachable = CommandResult.err CommandError.unknown_service

unfoldable pub reload_answered :
    Sent ServiceOperationError ReloadStatus → CommandResult ReloadStatus
reload_answered (Sent.ok s) = CommandResult.ok s
reload_answered (Sent.err e) = CommandResult.err (CommandError.service e)
reload_answered Sent.unreachable = CommandResult.err CommandError.unknown_service

unfoldable pub status_answered {ℓ} : {A : Type ℓ} → Sent (Unit {ℓ}) A → CommandResult A
status_answered (Sent.ok s) = CommandResult.ok s
status_answered _ = CommandResult.err CommandError.unknown_service

unfoldable pub pids_answered : Sent ⊥ (List String) → CommandResult (List String)
pids_answered (Sent.ok pids) = CommandResult.ok pids
pids_answered _ = CommandResult.err CommandError.unknown_service

-- An error at once, or the answer of the service, passed on by `answered`.
unfoldable pub relayed {ℓ} :
    {E A : Type ℓ} → (Sent E A → CommandResult A) → (Addr → Sent E A) → Routed → CommandResult A
relayed answered send (reply e) = CommandResult.err e
relayed answered send (ask addr) = answered (send addr)

unfoldable pub start_service :
    String
    → (Addr → Sent ServiceOperationError StartStatus)
    → CommandCenter
    → CommandResult StartStatus
unfolding relayed start_answered
start_service name send c = relayed start_answered send (route name c)

unfoldable pub stop_service :
    String → (Addr → Sent (Unit {0}) (Unit {0})) → CommandCenter → CommandResult (Unit {0})
unfolding relayed stop_answered
stop_service name send c = relayed stop_answered send (route name c)

unfoldable pub pause_service :
    String
    → (Addr → Sent ServiceOperationError (Unit {0}))
    → CommandCenter
    → CommandResult (Unit {0})
unfolding relayed pause_answered
pause_service name send c = relayed pause_answered send (route name c)

unfoldable pub resume_service :
    String
    → (Addr → Sent ServiceOperationError (Unit {0}))
    → CommandCenter
    → CommandResult (Unit {0})
unfolding relayed resume_answered
resume_service name send c = relayed resume_answered send (route name c)

unfoldable pub reload_service :
    String
    → (Addr → Sent ServiceOperationError ReloadStatus)
    → CommandCenter
    → CommandResult ReloadStatus
unfolding relayed reload_answered
reload_service name send c = relayed reload_answered send (route name c)

unfoldable pub status_service {ℓ} :
    {A : Type ℓ} → String → (Addr → Sent (Unit {ℓ}) A) → CommandCenter → CommandResult A
unfolding relayed status_answered
status_service name send c = relayed status_answered send (route name c)

unfoldable pub service_pids :
    String → (Addr → Sent ⊥ (List String)) → CommandCenter → CommandResult (List String)
unfolding relayed pids_answered
service_pids name send c = relayed pids_answered send (route name c)
