-- ===== src/Startup.antt =====
-- src/master.rs: the start of a master process, up to its actors.
pub mod HostCalls
pub mod Plan
pub mod Second
pub mod Turns
use fectl.Prelude.{
  ℕ, zero, suc, String, Bool, true, false, Option, none, some, List, ◌==◌, if◌then◌else◌,
}
use fectl.Config.{MasterConfig}
use fectl.Probe.{AliveStatus, is_alive}
use fectl.Steps.{pure, perform, stop, ◌>>=◌, ◌>>◌}
use fectl.System.{Io}
use HostCalls.{Host, Binding, Effect, Refusal, Start, returned, waiting}

-- `return false`
refuse : {A : Type 0} → Start A
refuse = stop returned

module _ (host : Host) where
  -- A call of the system that goes through or makes the start fail.
  unfoldable pub attempt : Option String → Effect → Start (Unit {0})
  unfolding refuse
  attempt none effect = perform effect
  attempt (some err) effect = refuse

  -- The rounds of `for idx in 0..10` that are left, from round `idx`.
  unfoldable pub bind_host : ℕ → ℕ → Start (Unit {0})
  unfolding refuse
  bind_host zero idx = pure tt
  bind_host (suc left) idx = elim (host.bind idx) [
    | none ↦ perform Effect.locked
    | some err ↦
        let again = perform (Effect.slept 5) >> bind_host left (suc idx) in
        if idx == 8 then refuse else again
  ]

  -- The socket file is of a master that is gone: remove it and try again.
  unfoldable pub rebind : Start (Unit {0})
  unfolding refuse
  rebind =
      perform Effect.socket_removed
      >> elim host.bind_socket_again [ none ↦ perform Effect.listening | some err ↦ refuse ]

  unfoldable pub bind_socket : Start (Unit {0})
  unfolding refuse rebind
  bind_socket = elim host.bind_socket [
    | Binding.bound ↦ perform Effect.listening
    | Binding.permission_denied ↦ refuse
    | Binding.addr_in_use ↦ elim (is_alive host.from_slice host.connection) [
      | AliveStatus.alive ↦ refuse
      | AliveStatus.not_responding ↦ refuse
      | AliveStatus.not_alive ↦ rebind
      | AliveStatus.undecided ↦ stop waiting
    ]
    | Binding.other_error err ↦ refuse
  ]

  -- `MasterConfig::save_pid`, the error of which makes the start fail.
  unfoldable pub save_pid : Option String → Start (Unit {0})
  unfolding attempt
  save_pid none = pure tt
  save_pid (some path) = attempt (host.write_pid path) (Effect.pid_saved path)

  unfoldable pub set_uid : Option ℕ → Start (Unit {0})
  unfolding attempt
  set_uid none = pure tt
  set_uid (some uid) = attempt (host.setuid uid) (Effect.became_user uid)

  -- `user` is the user that the process has switched to.
  unfoldable pub set_gid : Option ℕ → Option ℕ → Start (Unit {0})
  unfolding attempt
  set_gid user none = pure tt
  set_gid user (some gid) = attempt (host.setgid user gid) (Effect.became_group gid)

  -- A file that does not open is logged, and the stream stays as it is.
  unfoldable pub redirect : ℕ → Option String → Start (Unit {0})
  redirect target none = pure tt
  redirect target (some path) = elim (host.open_append path) [
    | Io.ok fd ↦ perform (Effect.redirected fd target)
    | Io.err err ↦ pure tt
  ]

  unfoldable pub daemonize : MasterConfig → Start (Unit {0})
  unfolding attempt redirect
  daemonize cfg =
      if cfg.daemon
      then (do
        attempt host.daemon Effect.daemonized
        perform (Effect.closed 0)
        redirect 1 cfg.stdout
        redirect 2 cfg.stderr
        perform (Effect.masked 18))
      else pure tt

  -- `some` is an error; then the actors are started.
  unfoldable pub start : MasterConfig → Start (Unit {0})
  unfolding attempt
  start cfg = do
    attempt (host.chdir cfg.directory) (Effect.entered cfg.directory)
    bind_host 10 0
    bind_socket
    save_pid cfg.pid
    set_uid cfg.uid
    set_gid cfg.uid cfg.gid
    daemonize cfg
    attempt host.from_std Effect.started
