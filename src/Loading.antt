-- ===== src/Loading.antt =====
-- src/config.rs: how the configuration of the master is loaded. The command line is the `structopt`
-- crate's, the file the `toml` and `serde` crates', with the defaults filled in.
pub mod Ids
pub mod Paths
pub mod Sections
use fectl.Prelude.{ℕ, String, Bool, Option, none, some, List}
use fectl.Config.{
  LoggingConfig, MasterConfig, ServiceConfig, SocketConfig, default_logging, default_sock,
}
use fectl.Sockets
use fectl.Sockets.{Socket}
use fectl.Sockets.Net.{Effect, Failure, Network}
use fectl.Steps.{Action, Result, ok, ended}
use fectl.System.{Io}
use fectl.Utils.{join}

-- The command line.
pub record Cli : Type 0 where
  pub config : String
  pub daemon : Bool

pub record TomlMasterConfig : Type 0 where
  pub sock : String
  pub pid : Option String
  pub directory : Option String
  pub gid : Option ℕ
  pub uid : Option ℕ
  pub stdout : Option String
  pub stderr : Option String

pub record TomlConfig : Type 0 where
  pub master : Option TomlMasterConfig
  pub logging : Option LoggingConfig
  pub socket : List SocketConfig
  pub service : List ServiceConfig

pub record Config : Type 0 where
  pub master : MasterConfig
  pub sockets : List Socket
  pub logging : LoggingConfig
  pub services : List ServiceConfig

-- The file system, by its answers, and the parser of the file.
pub record Files : Type 0 where
  pub read_to_string : String → Io String
  pub from_str : String → Option TomlConfig
  pub canonicalize : String → Option String
  pub current_dir : Option String

default_master : TomlMasterConfig
default_master = record {
  sock = default_sock;
  pid = none;
  directory = none;
  gid = none;
  uid = none;
  stdout = none;
  stderr = none;
}

-- `cfg.master.unwrap_or(..)`, and likewise of the logging.
unfoldable pub master_or_default : Option TomlMasterConfig → TomlMasterConfig
unfolding default_master
master_or_default none = default_master
master_or_default (some m) = m

unfoldable pub logging_or_default : Option LoggingConfig → LoggingConfig
logging_or_default none = default_logging
logging_or_default (some l) = l

unfoldable pub master_config : Cli → String → TomlMasterConfig → MasterConfig
master_config args directory toml = record {
  daemon = args.daemon;
  sock = join directory toml.sock;
  pid = elim toml.pid [ none ↦ none | some pid ↦ some (join directory pid) ];
  gid = toml.gid;
  uid = toml.uid;
  directory = directory;
  stdout = toml.stdout;
  stderr = toml.stderr;
}

module _ (files : Files) where
  -- The working directory.
  unfoldable pub directory_of : Option String → Option String
  directory_of none = files.current_dir
  directory_of (some dir) = files.canonicalize dir

  unfoldable pub read_config : Cli → Option TomlConfig
  read_config args = elim (files.read_to_string args.config) [
    | Io.err err ↦ none
    | Io.ok cfg_str ↦ files.from_str cfg_str
  ]

unfoldable pub finish : List Socket → MasterConfig → TomlConfig → Config
finish sockets master cfg = record {
  master = master;
  sockets = sockets;
  logging = logging_or_default cfg.logging;
  services = cfg.service;
}

-- `return None`, and a panic of the sockets.
pub data Unloaded : Type 0 where
  absent panicked : Unloaded

unfoldable pub unloaded : Failure → Unloaded
unloaded (Failure.error text) = absent
unloaded Failure.panicked = panicked

unfoldable pub with_sockets :
    MasterConfig
    → TomlConfig
    → Result Failure (List Socket) × List Effect
    → Result Unloaded Config × List Effect
unfolding finish unloaded
with_sockets master cfg (ok sockets, es) = (ok (finish sockets master cfg), es)
with_sockets master cfg (ended x, es) = (ended (unloaded x), es)

module _ (files : Files) (net : Network) where
  -- The file has been read and parsed.
  unfoldable pub load_parsed : Cli → TomlConfig → Action Effect Unloaded Config
  load_parsed args cfg es =
      let toml = master_or_default cfg.master in
      elim (directory_of files toml.directory) [
        | none ↦ (ended absent, es)
        | some directory ↦
            with_sockets (master_config args directory toml) cfg
              (Sockets.load_config net cfg.socket es)
      ]

  unfoldable pub load_config : Cli → Action Effect Unloaded Config
  unfolding load_parsed
  load_config args es = elim (read_config files args) [
    | none ↦ (ended absent, es)
    | some cfg ↦ load_parsed args cfg es
  ]
