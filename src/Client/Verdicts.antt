-- ===== src/Client/Verdicts.antt =====
-- Which exit status a response of the master stands for.
use fectl.Prelude.{◌≡◌, arith, String, Bool, true, false, some}
use fectl.Client.{ClientCommand, on_response}
use fectl.Master.{MasterResponse}

-- The console command that asks for the version of a running master.
abbrev is_check : ClientCommand → Bool
is_check ClientCommand.version_check = true
is_check _ = false

-- The status that the text of a version stands for.
abbrev checked : Bool → Bool → Bool
checked true fits = fits
checked false fits = true

-- The response ends the command, with success (`true`) or with a failure. A check of the version
-- succeeds where the version fits; what is only printed ends no command.
abbrev pub Means : (String → Bool) → ClientCommand → MasterResponse → Bool → Type 0
Means v cmd MasterResponse.done result = result ≡ true
Means v cmd (MasterResponse.pid p) result = result ≡ true
Means v cmd MasterResponse.service_started result = result ≡ true
Means v cmd MasterResponse.service_stopped result = result ≡ true
Means v cmd (MasterResponse.service_status s) result = result ≡ true
Means v cmd (MasterResponse.service_worker_pids ps) result = result ≡ true
Means v cmd (MasterResponse.version text) result = result ≡ checked (is_check cmd) (v text)
Means v cmd MasterResponse.service_failed result = result ≡ false
Means v cmd MasterResponse.error_not_ready result = result ≡ false
Means v cmd MasterResponse.error_unknown_service result = result ≡ false
Means v cmd MasterResponse.error_service_starting result = result ≡ false
Means v cmd MasterResponse.error_service_reloading result = result ≡ false
Means v cmd MasterResponse.error_service_stopping result = result ≡ false
Means v cmd _ result = ⊥

pub on_response-Means :
    (v : String → Bool) (cmd : ClientCommand) (answer : MasterResponse) (result : Bool)
    → Means v cmd answer result
    → on_response v cmd answer ≡ some result
unfolding on_response
on_response-Means v cmd MasterResponse.pong result h = absurd h
on_response-Means v cmd answer result h = ground arith
