-- ===== src/Service/Commands.antt =====
-- src/service.rs: the handlers of the commands `Start`, `Pause`, `Resume`, `Reload` and `Stop`.
use fectl.Prelude.{ℕ, Bool, true, false, if◌then◌else◌}
use fectl.Event.{Reason}
use fectl.Service.Status.{StartStatus, ReloadStatus, ServiceOperationError}
use fectl.Service.{FeService, ServiceState, error, fresh, for_each, update}
use fectl.System.{Os, log, set_start, set_reload}
use fectl.Worker
use fectl.Worker.Ending

-- `Response<_, E>`: an error at once, or the answer of a condition later.
pub data Response {ℓ} (E : Type ℓ) : Type ℓ where
  reply : E → Response E
  async : ℕ → Response E

-- `Result<(), E>`
pub data Outcome {ℓ} (E : Type ℓ) : Type ℓ where
  ok : Outcome E
  err : E → Outcome E

-- A fresh condition: the state to come is made from it, and the workers are put to work.
unfoldable pub begin :
    (ℕ → ServiceState)
    → (Worker.Worker → Os → Worker.Worker × Os)
    → FeService
    → Os
    → Response ServiceOperationError × FeService × Os
begin state work s os =
    let (c, os') = fresh os in
    let (ws, os'') = for_each work s.workers os' in
    (Response.async c, record s { paused = false; state = state c; workers = ws }, os'')

unfoldable pub start_in :
    ServiceState → FeService → Os → Response ServiceOperationError × FeService × Os
unfolding begin
start_in (ServiceState.starting c) s os = (Response.async c, s, os)
start_in ServiceState.failed s os =
    begin ServiceState.starting (Worker.start Reason.console_request) s os
start_in ServiceState.stopped s os =
    begin ServiceState.starting (Worker.start Reason.console_request) s os
start_in other s os = (Response.reply (error other), s, os)

unfoldable pub start : FeService → Os → Response ServiceOperationError × FeService × Os
unfolding start_in
start s os = start_in s.state s os

unfoldable pub pause_in :
    ServiceState → FeService → Os → Outcome ServiceOperationError × FeService × Os
pause_in ServiceState.running s os =
    let (ws, os') = for_each (Worker.pause Reason.console_request) s.workers os in
    (Outcome.ok, record s { paused = true; workers = ws }, os')
pause_in other s os = (Outcome.err (error other), s, os)

unfoldable pub pause : FeService → Os → Outcome ServiceOperationError × FeService × Os
unfolding pause_in
pause s os = pause_in s.state s os

unfoldable pub resume_in :
    ServiceState → FeService → Os → Outcome ServiceOperationError × FeService × Os
resume_in ServiceState.running s os =
    let (ws, os') = for_each (Worker.resume Reason.console_request) s.workers os in
    (Outcome.ok, record s { paused = false; workers = ws }, os')
resume_in other s os = (Outcome.err (error other), s, os)

unfoldable pub resume : FeService → Os → Outcome ServiceOperationError × FeService × Os
unfolding resume_in
resume s os = resume_in s.state s os

unfoldable pub reload_in :
    ServiceState → Bool → FeService → Os → Response ServiceOperationError × FeService × Os
unfolding begin
reload_in (ServiceState.reloading c) graceful s os = (Response.async c, s, os)
reload_in ServiceState.running graceful s os =
    begin ServiceState.reloading (Worker.reload graceful Reason.console_request) s os
reload_in ServiceState.failed graceful s os =
    begin ServiceState.reloading (Worker.reload graceful Reason.console_request) s os
reload_in ServiceState.stopped graceful s os =
    begin ServiceState.reloading (Worker.reload graceful Reason.console_request) s os
reload_in other graceful s os = (Response.reply (error other), s, os)

unfoldable pub reload : Bool → FeService → Os → Response ServiceOperationError × FeService × Os
unfolding reload_in
reload graceful s os = reload_in s.state graceful s os

unfoldable pub stop_workers : Bool → Reason → FeService → Os → FeService × Os
stop_workers graceful reason s os =
    let (c, os') = fresh os in
    let (ws, os'') =
      for_each (if graceful then Ending.stop reason else Ending.quit reason) s.workers os' in
    update (record s { paused = false; state = ServiceState.stopping c; workers = ws }) os''

-- The answer comes from the condition that is made here.
begin_stop : Bool → Reason → FeService → Os → Response (Unit {0}) × FeService × Os
begin_stop graceful reason s os =
    let (s', os') = stop_workers graceful reason s os in (Response.async (fresh os).0, s', os')

unfoldable pub stop_in :
    ServiceState → Bool → Reason → FeService → Os → Response (Unit {0}) × FeService × Os
unfolding begin_stop
stop_in ServiceState.failed graceful reason s os = (Response.reply tt, s, os)
stop_in ServiceState.stopped graceful reason s os = (Response.reply tt, s, os)
stop_in (ServiceState.stopping c) graceful reason s os = (Response.async c, s, os)
stop_in (ServiceState.starting c) graceful reason s os =
    begin_stop graceful reason s (log (set_start c StartStatus.stopping) os)
stop_in (ServiceState.reloading c) graceful reason s os =
    begin_stop graceful reason s (log (set_reload c ReloadStatus.stopping) os)
stop_in ServiceState.running graceful reason s os = begin_stop graceful reason s os

unfoldable pub stop : Bool → Reason → FeService → Os → Response (Unit {0}) × FeService × Os
unfolding stop_in
stop graceful reason s os = stop_in s.state graceful reason s os
