-- ===== src/Config.antt =====
-- src/config.rs: the settings of one service. The default values of src/config_helpers.rs are
-- constants; how a file is parsed is the business of the `toml` and `serde` crates.
use fectl.Prelude.{ℕ, String, Bool, Option, none, some, List}

-- `num` and `restarts` are `u16`; the timeouts are `u32`, in seconds.
pub record ServiceConfig : Type 0 where
  pub name : String
  pub num : ℕ
  pub command : String
  pub restarts : ℕ
  pub directory : Option String
  pub gid : Option ℕ
  pub uid : Option ℕ
  pub timeout : ℕ
  pub startup_timeout : ℕ
  pub shutdown_timeout : ℕ
  pub stdout : Option String
  pub stderr : Option String

abbrev pub default_restarts : ℕ
default_restarts = 3

abbrev pub default_timeout : ℕ
default_timeout = 10

abbrev pub default_startup_timeout : ℕ
default_startup_timeout = 30

abbrev pub default_shutdown_timeout : ℕ
default_shutdown_timeout = 30

-- The settings of the master process. Paths are texts.
pub record MasterConfig : Type 0 where
  pub daemon : Bool
  pub pid : Option String
  pub sock : String
  pub directory : String
  pub gid : Option ℕ
  pub uid : Option ℕ
  pub stdout : Option String
  pub stderr : Option String

pub data Proto : Type 0 where
  tcp4 tcp6 unix : Proto

-- `port` is a `u32`, `backlog` a `u16`.
pub record SocketConfig : Type 0 where
  pub name : String
  pub port : ℕ
  pub host : Option String
  pub backlog : ℕ
  pub proto : Proto
  pub service : List String
  pub app : Option String
  pub arguments : List String

pub record LoggingConfig : Type 0 where
  pub name : String
  pub service : String
  pub level : Option String
  pub facility : Option String

abbrev pub default_logging : LoggingConfig
default_logging = record {
  name = "default";
  service = "console";
  level = some "info";
  facility = none;
}

abbrev pub default_sock : String
default_sock = "fectld.sock"
