-- ===== src/Loading/Paths.antt =====
-- A loaded configuration stands by itself: its paths are absolute, whatever the process does later.
use Prim.Native.String.{String, ◌++◌}
use text.Mathlib.Text.{starts_with}
use text.Mathlib.TextEquality.{starts_with_iff}
use text.Mathlib.TextPositions.{starts_with-append}
use text.Mathlib.TextLemmas.{append_assoc}
use fectl.Prelude.{◌≡◌, refl, subst, sym, arith, true, Option, none, some, List, []}
use fectl.Config.{MasterConfig}
use fectl.Loading.{
  Cli, Config, Files, absent, TomlConfig, TomlMasterConfig, Unloaded, directory_of, finish,
  load_config, load_parsed, master_config, master_or_default, read_config, with_sockets,
}
use fectl.Loading.Sections.{
  IsMaster, Says, logging_or_default-section, logging_section, master_config-IsMaster,
  master_or_default-section, read_config-Says, section,
}
use fectl.Sockets
use fectl.Sockets.{Socket}
use fectl.Sockets.Listening.{AllFit, all_announced, load_config-AllFit}
use fectl.Sockets.Net.{Effect, Failure, Network}
use fectl.Steps.Ends.{Ends, Ends-weaken}
use fectl.Steps.{Result, ok, ended}
use fectl.Utils.{join}

abbrev pub IsAbsolute : String → Type 0
IsAbsolute path = starts_with path "/" ≡ true

append-IsAbsolute : (dir path : String) → IsAbsolute dir → IsAbsolute (dir ++ path)
append-IsAbsolute dir path h =
    let (rest, e) = (starts_with_iff dir "/").0 h in
    subst (λ d. IsAbsolute (d ++ path)) e
      (subst (λ d. IsAbsolute d) (sym (append_assoc "/" rest path))
        (starts_with-append "/" (rest ++ path)))

join-IsAbsolute : (dir path : String) → IsAbsolute dir → IsAbsolute (join dir path)
unfolding join
join-IsAbsolute dir path h =
    ground (arith, append-IsAbsolute dir path h, append-IsAbsolute dir ("/" ++ path) h)

-- An option, where there is one.
abbrev pub If : {A : Type 0} → (A → Type 0) → Option A → Type 0
If P none = Unit
If P (some a) = P a

-- The directory, the socket and the pid file.
abbrev pub AllAbsolute : MasterConfig → Type 0
AllAbsolute m = IsAbsolute m.directory × IsAbsolute m.sock × If IsAbsolute m.pid

master_config-AllAbsolute :
    (args : Cli) (directory : String) (toml : TomlMasterConfig)
    → IsAbsolute directory
    → AllAbsolute (master_config args directory toml)
unfolding master_config
master_config-AllAbsolute args directory toml h = (
  h,
  join-IsAbsolute directory toml.sock h,
  elim toml.pid
      as (λ p. If IsAbsolute (elim p [ none ↦ none | some pid ↦ some (join directory pid) ])) [
        | none ↦ tt
        | some pid ↦ join-IsAbsolute directory pid h
      ],
)

module _ (files : Files) (net : Network) (args : Cli)
    (canonical : (dir : String) → If IsAbsolute (files.canonicalize dir))
    (current : If IsAbsolute files.current_dir) where
  -- What is asked of a loaded configuration of the file `cfg`.
  abbrev pub Follows : TomlConfig → Config → List Effect → Type 0
  Follows cfg c es =
      AllAbsolute c.master
      × IsMaster files args (section cfg.master) c.master
      × AllFit net cfg.socket c.sockets
      × (es ≡ all_announced net cfg.socket c.sockets [])
      × (c.services ≡ cfg.service)
      × (c.logging ≡ logging_section cfg.logging)

  abbrev pub Any : Unloaded → List Effect → Type 0
  Any x es = Unit

  with_sockets-Follows :
      (directory : String) (cfg : TomlConfig) (r : Result Failure (List Socket) × List Effect)
      → IsAbsolute directory
      → directory_of files (master_or_default cfg.master).directory ≡ some directory
      → Ends
          (λ ss es. AllFit net cfg.socket ss × (es ≡ all_announced net cfg.socket ss []))
          (λ x es. Unit {0})
          r
      → Ends
          (Follows cfg)
          Any
          (with_sockets (master_config args directory (master_or_default cfg.master)) cfg r)
  unfolding with_sockets finish
  with_sockets-Follows directory cfg (ok ss, es) h found (fits, effects) =
      let toml = master_or_default cfg.master in
      let m = master_config args directory toml in
      (
        master_config-AllAbsolute args directory toml h,
        subst (λ t. IsMaster files args t m) (master_or_default-section cfg.master)
            (master_config-IsMaster files args toml directory found),
        fits,
        effects,
        refl,
        logging_or_default-section cfg.logging,
      )
  with_sockets-Follows directory cfg (ended x, es) h found k = tt

  directory_of-IsAbsolute : (dir : Option String) → If IsAbsolute (directory_of files dir)
  unfolding directory_of
  directory_of-IsAbsolute none = current
  directory_of-IsAbsolute (some dir) = canonical dir

  in_directory :
      (cfg : TomlConfig) (directory : Option String)
      → If IsAbsolute directory
      → directory_of files (master_or_default cfg.master).directory ≡ directory
      → Ends (Follows cfg) Any (elim directory [
        | none ↦ (ended absent, [])
        | some dir ↦
            with_sockets
              (master_config args dir (master_or_default cfg.master))
              cfg
              (Sockets.load_config net cfg.socket [])
      ])
  in_directory cfg none h found = tt
  in_directory cfg (some dir) h found =
      with_sockets-Follows dir cfg (Sockets.load_config net cfg.socket []) h found
        (load_config-AllFit net cfg.socket)

  -- What is asked of the result of `load_config`.
  abbrev pub FollowsFile : Config → List Effect → Type 0
  FollowsFile c es =
      (text : String) × (cfg : TomlConfig) × Says files args text cfg × Follows cfg c es

  of_file :
      (file : Option TomlConfig)
      → read_config files args ≡ file
      → Ends FollowsFile Any
          (elim file [ none ↦ (ended absent, []) | some cfg ↦ load_parsed files net args cfg [] ])
  unfolding load_parsed
  of_file none e = tt
  of_file (some cfg) e =
      let dir = directory_of files (master_or_default cfg.master).directory in
      Ends-weaken (Follows cfg) FollowsFile Any Any (load_parsed files net args cfg [])
        (λ c es f. let (text, says) = read_config-Says files args cfg e in (text, cfg, says, f))
        (λ x es u. u)
        (in_directory cfg dir (directory_of-IsAbsolute (master_or_default cfg.master).directory)
          refl)

  -- A configuration that is loaded is that of the text of the file: the settings of the master, the
  -- services and the logging are those of the file, with defaults for the sections that are missing,
  -- the command line decides whether it runs in the background, and for each entry of a socket there
  -- is one listening socket, which the environment names. Its directory, socket and pid file are
  -- absolute paths, where the file system gives absolute directories.
  pub load_config-FollowsFile : Ends FollowsFile Any (load_config files net args [])
  unfolding load_config
  load_config-FollowsFile = of_file (read_config files args) refl
