-- ===== src/Process/Error.antt =====
-- src/process.rs: `ProcessError`, the errors that a process is reported with, `ProcessError::from`
-- for an exit code and the conversion into the `Reason` of an event.
use fectl.Prelude.{ℕ, ◌≡◌, String, Option, none, some, arith, ◌==◌, if◌then◌else◌}
use fectl.Event.{Reason}

-- `Signal(usize)`; `ExitCode(i8)` holds the byte of the code, 0 to 255.
pub data ProcessError : Type 0 where
  heartbeat : ProcessError
  failed_to_start : Option String → ProcessError
  startup_timeout stop_timeout : ProcessError
  config_error : String → ProcessError
  init_failed boot_failed : ProcessError
  signal exit_code : ℕ → ProcessError

abbrev pub worker_timeout : ℕ
worker_timeout = 98

abbrev pub worker_init_failed : ℕ
worker_init_failed = 99

abbrev pub worker_boot_failed : ℕ
worker_boot_failed = 100

unfoldable pub from : ℕ → ProcessError
from code =
    if code == worker_timeout
    then ProcessError.startup_timeout
    else if code == worker_init_failed
    then ProcessError.init_failed
    else if code == worker_boot_failed
    then ProcessError.boot_failed
    else ProcessError.exit_code code

-- `format!("{}", e)` of a text is the text.
unfoldable pub reason : ProcessError → Reason
reason ProcessError.heartbeat = Reason.heartbeat_failed
reason (ProcessError.failed_to_start none) = Reason.failed_to_start none
reason (ProcessError.failed_to_start (some e)) = Reason.failed_to_start (some e)
reason ProcessError.startup_timeout = Reason.startup_timeout
reason ProcessError.stop_timeout = Reason.stop_timeout
reason (ProcessError.config_error e) = Reason.worker_error e
reason ProcessError.init_failed = Reason.init_failed
reason ProcessError.boot_failed = Reason.boot_failed
reason (ProcessError.signal s) = Reason.signal s
reason (ProcessError.exit_code c) = Reason.exit_code c

-- Two exit codes with the same reason in the history are the same code.
pub reason-from_injective : (a b : ℕ) → reason (from a) ≡ reason (from b) → a ≡ b
unfolding reason from
reason-from_injective a b h = ground arith
