-- ===== src/Master/Dispatch.antt =====
-- src/master.rs: `Handler<MasterRequest>` of the `MasterClient` actor, from a request to the response
-- that is written when the command center has answered.
use mathlib.Core.Option
use fectl.Prelude.{
  ℕ, String, Bool, true, false, ◌||◌, ◌==◌, Option, none, some, List, [], ◌∷◌, if◌then◌else◌,
}
use fectl.Command.{CommandCenter, Order, handle_stop, set_waiter}
use fectl.Command.Requests.{
  CommandResult, Sent, start_service, stop_service, pause_service, resume_service, reload_service,
  status_service, service_pids,
}
use fectl.Command.Shutdown.{answers}
use fectl.Master.{
  MasterRequest, MasterResponse, ServiceStatus, handle_error, answer_stop, answer_reload,
  answer_start, answer_done,
}
use fectl.Service.Status.{StartStatus, ReloadStatus, ServiceOperationError}
use fectl.System.{Addr}
use fectl.Transport.{incomplete, invalid, item}
use fectl.Transport.Codecs.{master_decode}

-- What the services answer; a Boolean says whether a stop or a reload is graceful. For `Quit`,
-- `condition` is the number of the condition that the command center makes, if it makes one, and
-- `stopped` says how many services have answered its stop by now.
pub record Replies : Type 0 where
  pub condition : ℕ
  pub stopped : ℕ
  pub start : Addr → Sent ServiceOperationError StartStatus
  pub stop : Bool → Addr → Sent (Unit {0}) (Unit {0})
  pub pause : Addr → Sent ServiceOperationError (Unit {0})
  pub resume : Addr → Sent ServiceOperationError (Unit {0})
  pub reload : Bool → Addr → Sent ServiceOperationError ReloadStatus
  pub status : Addr → Sent (Unit {0}) ServiceStatus
  pub pids : Addr → Sent ⊥ (List String)

unfoldable pub answer_status : CommandResult ServiceStatus → MasterResponse
answer_status (CommandResult.err e) = handle_error e
answer_status (CommandResult.ok s) = MasterResponse.service_status s

unfoldable pub answer_pids : CommandResult (List String) → MasterResponse
answer_pids (CommandResult.err e) = handle_error e
answer_pids (CommandResult.ok ps) = MasterResponse.service_worker_pids ps

-- Has the condition been set?
is_told : ℕ → List Order → Bool
is_told w [] = false
is_told w (set_waiter v ∷ os) = v == w || is_told w os
is_told w (_ ∷ os) = is_told w os

-- `cmd::Stop` is sent, and `Done` is written when it resolves: with an error, if the command center
-- cannot be reached, and else when the condition is set.
unfoldable pub answer_quit : Replies → Option CommandCenter → Option MasterResponse
unfolding is_told
answer_quit r none = some MasterResponse.done
answer_quit r (some c) =
    let ((c', w), os) = handle_stop r.condition c in
    elim (answers r.stopped c') [
      | none ↦ none
      | some (c'', os') ↦ if is_told w os' then some MasterResponse.done else none
    ]

-- The command center is `none` if it cannot be reached, and then a request by name is not answered.
-- `pid` and `version` are the texts of the master.
unfoldable pub handle :
    Replies → String → String → MasterRequest → Option CommandCenter → Option MasterResponse
unfolding answer_status answer_pids answer_quit
handle r pid version MasterRequest.ping c = some MasterResponse.pong
handle r pid version (MasterRequest.start name) c =
    Option.map (λ c'. answer_start (start_service name r.start c')) c
handle r pid version (MasterRequest.reload name) c =
    Option.map (λ c'. answer_reload (reload_service name (r.reload true) c')) c
handle r pid version (MasterRequest.restart name) c =
    Option.map (λ c'. answer_reload (reload_service name (r.reload false) c')) c
handle r pid version (MasterRequest.stop name) c =
    Option.map (λ c'. answer_stop (stop_service name (r.stop true) c')) c
handle r pid version (MasterRequest.pause name) c =
    Option.map (λ c'. answer_done (pause_service name r.pause c')) c
handle r pid version (MasterRequest.resume name) c =
    Option.map (λ c'. answer_done (resume_service name r.resume c')) c
handle r pid version (MasterRequest.status name) c =
    Option.map (λ c'. answer_status (status_service name r.status c')) c
handle r pid version (MasterRequest.spid name) c =
    Option.map (λ c'. answer_pids (service_pids name r.pids c')) c
handle r pid version MasterRequest.pid c = some (MasterResponse.pid pid)
handle r pid version MasterRequest.version c = some (MasterResponse.version version)
handle r pid version MasterRequest.quit c = answer_quit r c

-- `StreamHandler<MasterRequest>`: the first request in the bytes of a connection is handled.
unfoldable pub receive :
    (List ℕ → Option MasterRequest)
    → Replies
    → String
    → String
    → Option CommandCenter
    → List ℕ
    → Option MasterResponse
receive from_slice r pid version c src = elim (master_decode from_slice src).0 [
  | item req ↦ handle r pid version req c
  | incomplete ↦ none
  | invalid ↦ none
]
