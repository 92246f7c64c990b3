-- ===== src/Tests.antt =====
-- Sample data, and the theorems of the library at concrete inputs.
pub mod Actors
pub mod Centers
pub mod Children
pub mod Conversations
pub mod Fleets
pub mod Frames
pub mod Masters
pub mod Services
pub mod Starts
pub mod Workers
use fectl.Prelude.{ℕ, ◌+◌, ◌*◌, Bool, true, false, none, some, List, []}
use fectl.Config.{
  ServiceConfig, default_restarts, default_timeout, default_startup_timeout,
  default_shutdown_timeout,
}
use fectl.Event
use fectl.Process.Start.{ProcessInfo}
use fectl.Service.{FeService, ServiceState}
use fectl.System.{Outside, Os, Io, Pid, Addr}
use fectl.Worker.{Worker, WorkerState}

-- The n-th question: descriptors, pids and instants that grow, one second at a time.
abbrev pub outside : Outside
outside = record {
  pipe = λ n. Io.ok (2 * n + 10, 2 * n + 11);
  fork = λ n. Io.ok (100 + n);
  instant = λ n. n * 1000000000;
  unix_secs = λ n. n;
  format_pid = λ p. "pid";
  format_number = λ n. "number";
}

abbrev pub system : Os
system = record { outside = outside; asked = 0; next_addr = 10; next_condition = 1; calls = [] }

abbrev pub web : ServiceConfig
web = record {
  name = "web";
  num = 2;
  command = "serve";
  restarts = default_restarts;
  directory = none;
  gid = none;
  uid = none;
  timeout = default_timeout;
  startup_timeout = default_startup_timeout;
  shutdown_timeout = default_shutdown_timeout;
  stdout = none;
  stderr = none;
}

abbrev pub process : Pid → Addr → ProcessInfo
process pid addr = record { pid = pid; addr = some addr }

-- A worker of the service at address 1 in the given state.
abbrev pub worker_in : WorkerState → Worker
worker_in state = record {
  idx = 0;
  cfg = web;
  state = state;
  events = Event.new 50;
  restore_from_fail = false;
  started = 0;
  restarts = 0;
  addr = 1;
}

abbrev pub service_in : ServiceState → List Worker → FeService
service_in state workers = record { name = "web"; state = state; paused = false; workers = workers }
