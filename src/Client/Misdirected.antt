-- ===== src/Client/Misdirected.antt =====
-- Commands for a service that the master does not know, and commands that come too early or too late.
use fectl.Prelude.{
  ℕ, zero, suc, ◌≡◌, ◌≢◌, ◌⊎◌, refl, arith, String, Bool, false, Option, none, some, List, [], ◌∷◌,
  ◌++◌,
}
use fectl.Command.{CommandCenter, State, CommandError, Routed, get, route}
use fectl.Command.Requests.{
  relayed, start_service, stop_service, pause_service, resume_service, reload_service,
  status_service, service_pids,
}
use fectl.Master.{
  MasterResponse, handle_error, answer_stop, answer_reload, answer_start, answer_done,
}
use fectl.Master.Dispatch.{Replies, handle, answer_status, answer_pids}
use fectl.Client.{ClientCommand, Read, response, request, on_response, read_loop}
use fectl.Client.Waiting.{pongs}

-- The service that a command is for.
unfoldable pub named : ClientCommand → Option String
named (ClientCommand.start name) = some name
named (ClientCommand.pause name) = some name
named (ClientCommand.resume name) = some name
named (ClientCommand.reload name) = some name
named (ClientCommand.restart name) = some name
named (ClientCommand.stop name) = some name
named (ClientCommand.status name) = some name
named (ClientCommand.spid name) = some name
named _ = none

abbrev pub written : Option MasterResponse → List Read
written none = []
written (some r) = response r ∷ []

skip_pongs :
    (v : String → Bool) (cmd : ClientCommand) (n : ℕ) (rs : List Read)
    → read_loop v cmd (pongs n ++ rs) ≡ read_loop v cmd rs
unfolding pongs read_loop on_response
skip_pongs v cmd zero rs = refl
skip_pongs v cmd (suc n) rs = skip_pongs v cmd n rs

-- The two errors of the command center itself.
abbrev IsRefusal : Routed → Type 0
IsRefusal r =
    (r ≡ Routed.reply CommandError.not_ready) ⊎ (r ≡ Routed.reply CommandError.unknown_service)

route-IsRefusal :
    (name : String) (c : CommandCenter)
    → (c.state ≢ State.running) ⊎ (get name c.services ≡ none)
    → IsRefusal (route name c)
unfolding route
route-IsRefusal name c h = ground arith

refused :
    (v : String → Bool) (cmd : ClientCommand) (name : String) (r : Replies) (pid version : String)
    (c : CommandCenter)
    → named cmd ≡ some name
    → IsRefusal (route name c)
    → read_loop v cmd (written (handle r pid version (request cmd) (some c))) ≡ some false
unfolding named request handle read_loop on_response start_service stop_service pause_service
    resume_service reload_service status_service service_pids relayed answer_start answer_stop
    answer_reload answer_done answer_status answer_pids handle_error
refused v cmd name r pid version c e h = ground arith

-- A command for a service by name, while the command center is not running or does not know the
-- name, ends with a failure of the client, whatever the services would answer and however many
-- heartbeats of the master come first.
pub misdirected_fails :
    (v : String → Bool) (cmd : ClientCommand) (name : String) (n : ℕ) (r : Replies)
    (pid version : String) (c : CommandCenter)
    → named cmd ≡ some name
    → (c.state ≢ State.running) ⊎ (get name c.services ≡ none)
    → read_loop v cmd (pongs n ++ written (handle r pid version (request cmd) (some c)))
      ≡ some false
misdirected_fails v cmd name n r pid version c e h =
    rw (skip_pongs v cmd n (written (handle r pid version (request cmd) (some c))))
      (refused v cmd name r pid version c e (route-IsRefusal name c h))
