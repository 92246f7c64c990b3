-- ===== src/Loading/Sections.antt =====
-- src/config.rs: what a loaded configuration has to be, by the text of its file.
use fectl.Prelude.{◌≡◌, refl, arith, String, Option, none, some}
use fectl.Config.{LoggingConfig, MasterConfig}
use fectl.Loading.{
  Cli, Files, TomlConfig, TomlMasterConfig, directory_of, logging_or_default, master_config,
  master_or_default, read_config,
}
use fectl.System.{Io}
use fectl.Utils.{join}

-- The [master] section of the file, or its default.
abbrev pub section : Option TomlMasterConfig → TomlMasterConfig
section (some toml) = toml
section none = record {
  sock = "fectld.sock";
  pid = none;
  directory = none;
  gid = none;
  uid = none;
  stdout = none;
  stderr = none;
}

-- The [logging] section, or its default: the console, at the level `info`.
abbrev pub logging_section : Option LoggingConfig → LoggingConfig
logging_section (some l) = l
logging_section none = record {
  name = "default";
  service = "console";
  level = some "info";
  facility = none;
}

-- The working directory: that of the file, made canonical, or the current one.
abbrev pub IsDirectory : Files → Option String → String → Type 0
IsDirectory files (some dir) directory = files.canonicalize dir ≡ some directory
IsDirectory files none directory = files.current_dir ≡ some directory

-- The path of the pid file.
abbrev pub pid_path : String → Option String → Option String
pid_path directory none = none
pid_path directory (some pid) = some (join directory pid)

-- The settings of the master are those of the section.
abbrev pub IsMaster : Files → Cli → TomlMasterConfig → MasterConfig → Type 0
IsMaster files args toml m =
    IsDirectory files toml.directory m.directory
    × (m.daemon ≡ args.daemon)
    × (m.sock ≡ join m.directory toml.sock)
    × (m.pid ≡ pid_path m.directory toml.pid)
    × (m.gid ≡ toml.gid)
    × (m.uid ≡ toml.uid)
    × (m.stdout ≡ toml.stdout)
    × (m.stderr ≡ toml.stderr)

pub master_or_default-section :
    (toml : Option TomlMasterConfig) → master_or_default toml ≡ section toml
unfolding master_or_default
master_or_default-section none = refl
master_or_default-section (some toml) = refl

pub logging_or_default-section :
    (l : Option LoggingConfig) → logging_or_default l ≡ logging_section l
unfolding logging_or_default
logging_or_default-section none = refl
logging_or_default-section (some l) = refl

directory_of-IsDirectory :
    (files : Files) (dir : Option String) (directory : String)
    → directory_of files dir ≡ some directory
    → IsDirectory files dir directory
unfolding directory_of
directory_of-IsDirectory files none directory e = e
directory_of-IsDirectory files (some dir) directory e = e

pid_path_lem :
    (directory : String) (pid : Option String)
    → (elim pid [ none ↦ none | some p ↦ some (join directory p) ]) ≡ pid_path directory pid
pid_path_lem directory none = refl
pid_path_lem directory (some pid) = refl

pub master_config-IsMaster :
    (files : Files) (args : Cli) (toml : TomlMasterConfig) (directory : String)
    → directory_of files toml.directory ≡ some directory
    → IsMaster files args toml (master_config args directory toml)
unfolding master_config
master_config-IsMaster files args toml directory e = (
  directory_of-IsDirectory files toml.directory directory e,
  refl,
  refl,
  pid_path_lem directory toml.pid,
  refl,
  refl,
  refl,
  refl,
)

-- What the file says.
abbrev pub Says : Files → Cli → String → TomlConfig → Type 0
Says files args text cfg =
    (files.read_to_string args.config ≡ Io.ok text) × (files.from_str text ≡ some cfg)

parsed-Says :
    (files : Files) (r : Io String) (cfg : TomlConfig)
    → (elim r [ Io.err err ↦ none | Io.ok text ↦ files.from_str text ]) ≡ some cfg
    → (text : String) × (r ≡ Io.ok text) × (files.from_str text ≡ some cfg)
parsed-Says files (Io.err err) cfg e = absurd (ground arith)
parsed-Says files (Io.ok text) cfg e = (text, refl, e)

pub read_config-Says :
    (files : Files) (args : Cli) (cfg : TomlConfig)
    → read_config files args ≡ some cfg
    → (text : String) × Says files args text cfg
unfolding read_config
read_config-Says files args cfg e =
    let (text, same, parses) = parsed-Says files (files.read_to_string args.config) cfg e in
    (text, (same, parses))
