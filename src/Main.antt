-- ===== src/Main.antt =====
-- src/main.rs: a master, from its command line to its exit code.
use fectl.Prelude.{ℕ, ◌≡◌, refl, ap, subst, arith, String, List, []}
use fectl.Loading.{Cli, Config, Files, Unloaded, load_config}
use fectl.Loading.Paths.{Any, FollowsFile, If, IsAbsolute, load_config-FollowsFile}
use fectl.Sockets.Net
use fectl.Sockets.Net.{Network}
use fectl.Startup.{start}
use fectl.Startup.HostCalls
use fectl.Startup.HostCalls.{Host, Refusal}
use fectl.Startup.Plan.{IsPlan, start-Ends}
use fectl.Startup.Turns.{Unstarted}
use fectl.Steps.{Result, ok, ended}
use fectl.Steps.Ends.{Ends}

-- `runs` is `sys.run()`, `exits` an exit code, `waits` a start that has not returned.
pub data Outcome : Type 0 where
  runs : Config → Outcome
  exits : ℕ → Outcome
  waits panics : Outcome

unfoldable pub started : Config → Result Refusal (Unit {0}) × List HostCalls.Effect → Outcome
started cfg (ok u, es) = runs cfg
started cfg (ended Refusal.returned, es) = exits 1
started cfg (ended Refusal.waiting, es) = waits

config_of : Config → Outcome → Config
config_of c (runs d) = d
config_of c _ = c

runs-injective : {c d : Config} → runs c ≡ runs d → c ≡ d
unfolding config_of
runs-injective {c} {d} e = ap (config_of c) e

module _ (files : Files) (net : Network) (host : Host) (args : Cli) where
  unfoldable pub loaded : Result Unloaded Config × List Net.Effect → Outcome
  unfolding started
  loaded (ok cfg, es) = started cfg (start host cfg.master [])
  loaded (ended Unloaded.absent, es) = exits 1
  loaded (ended Unloaded.panicked, es) = panics

  unfoldable pub main : Outcome
  unfolding loaded
  main = loaded (load_config files net args [])

  Runs : Config → Type 0
  Runs c = IsPlan host c.master (start host c.master []).1

  started-Runs :
      (c cfg : Config) (r : Result Refusal (Unit {0}) × List HostCalls.Effect)
      → r ≡ start host cfg.master []
      → Ends (λ u es. IsPlan host cfg.master es) Unstarted r
      → started cfg r ≡ runs c
      → (cfg ≡ c) × IsPlan host cfg.master (start host cfg.master []).1
  unfolding started
  started-Runs c cfg (ok u, es) same plan e =
      (runs-injective e, subst (λ r. IsPlan host cfg.master r.1) same plan)
  started-Runs c cfg (ended Refusal.returned, es) same plan e = absurd (ground arith)
  started-Runs c cfg (ended Refusal.waiting, es) same plan e = absurd (ground arith)

  module _ (canonical : (dir : String) → If IsAbsolute (files.canonicalize dir))
      (current : If IsAbsolute files.current_dir) where
    loaded-Runs :
        (c : Config) (r : Result Unloaded Config × List Net.Effect)
        → Ends
            (FollowsFile files net args canonical current)
            (Any files net args canonical current)
            r
        → loaded r ≡ runs c
        → FollowsFile files net args canonical current c r.1 × Runs c
    unfolding loaded Runs
    loaded-Runs c (ok cfg, es) follows e =
        let (same, plan) =
          started-Runs c cfg (start host cfg.master []) refl (start-Ends host cfg.master) e in
        subst
          (λ d.
            FollowsFile files net args canonical current d es
            × IsPlan host d.master (start host d.master []).1)
          same (follows, plan)
    loaded-Runs c (ended Unloaded.absent, es) follows e = absurd (ground arith)
    loaded-Runs c (ended Unloaded.panicked, es) follows e = absurd (ground arith)

    -- A master that comes to run has loaded the configuration that the text of its file says: the
    -- settings of the master in the section of the file, or the default ones, with the paths of the
    -- socket and of the pid file taken from the working directory, the services and the logging of
    -- the file, and from the command line whether it runs in the background. It listens on one socket
    -- for each entry of the file, and has started with that configuration, by its plan, as the owner
    -- of the local address and the socket. The file system gives absolute directories.
    pub main-runs :
        (c : Config)
        → main ≡ runs c
        → FollowsFile files net args canonical current c (load_config files net args []).1
          × IsPlan host c.master (start host c.master []).1
    unfolding main Runs
    main-runs c e =
        loaded-Runs c (load_config files net args [])
          (load_config-FollowsFile files net args canonical current) e
