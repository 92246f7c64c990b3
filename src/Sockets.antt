-- ===== src/Sockets.antt =====
-- src/socket.rs: the listening sockets of the master and the variables that name them for the workers.
pub mod Net
pub mod Listening
use Prim.Native.String.{◌++◌}
use mathlib.Core.List.{◌++◌ as ◌++ₗ◌}
use fectl.Prelude.{ℕ, String, Bool, true, false, Option, none, some, List, [], ◌∷◌, if◌then◌else◌}
use fectl.Config.{Proto, SocketConfig}
use fectl.Steps.{Action, ok, ended, pure, perform, stop, ◌>>=◌, ◌>>◌}
use fectl.System.{Io}
use Net.{AddrInfo, Effect, Failure, Family, Network, error, panicked}

-- `listener` is its descriptor.
pub record Socket : Type 0 where
  pub name : String
  pub listener : ℕ
  pub info : AddrInfo

-- A `continue` before anything is opened.
unfoldable pub is_skipped : Proto → Family → Bool
is_skipped Proto.tcp6 Family.inet = true
is_skipped Proto.tcp4 Family.inet6 = true
is_skipped proto Family.inet = false
is_skipped proto Family.inet6 = false
is_skipped proto Family.other = true

-- `remove_var` names another variable than `Socket::new` sets.
unfoldable pub drop_all : List Socket → List Effect → List Effect
drop_all [] es = es
drop_all (s ∷ ss) es = drop_all ss (Effect.removed_var ("FD_" ++ s.name) ∷ es)

module _ (net : Network) where
  unfoldable pub fd_value : ℕ → AddrInfo → String
  fd_value fd info =
      net.format_number fd
      ++ ",FAMILY:"
      ++ net.format_number info.family_int
      ++ ",SOCKETTYPE:"
      ++ net.format_number info.socktype_int
      ++ ",PROTO:"
      ++ net.format_number info.protocol_int

  unfoldable pub set_args : String → List String → Action Effect Failure (Unit {0})
  set_args name [] = pure tt
  set_args name (arg ∷ args) =
      perform (Effect.set_var ("FECTL_ARGS_" ++ name) (net.to_string (arg ∷ args)))

  -- The loader and its arguments.
  unfoldable pub set_app : SocketConfig → Action Effect Failure (Unit {0})
  unfolding set_args
  set_app cfg = elim cfg.app [
    | none ↦ pure tt
    | some app ↦
        perform (Effect.set_var ("FECTL_APP_" ++ cfg.name) app) >> set_args cfg.name cfg.arguments
  ]

  -- `Socket::new`
  unfoldable pub new : SocketConfig → ℕ → AddrInfo → Action Effect Failure Socket
  new cfg fd info = do
    perform (Effect.set_var ("FECTL_FD_" ++ cfg.name) (fd_value fd info))
    set_app cfg
    (if net.has_flags fd then perform (Effect.inherited fd) else stop panicked)
    pure (record { name = cfg.name; listener = fd; info = info })

  -- A listener on an address, `none` where the loop goes on to the next one.
  unfoldable pub listen : SocketConfig → AddrInfo → Option ℕ
  unfolding is_skipped
  listen cfg addr =
      if is_skipped cfg.proto addr.family
      then none
      else if net.builder addr
      then elim (net.bind addr) [ none ↦ net.listen addr cfg.backlog | some err ↦ none ]
      else none

  -- The first address that can be listened on.
  unfoldable pub first_listener : SocketConfig → List AddrInfo → Option (ℕ × AddrInfo)
  unfolding listen
  first_listener cfg [] = none
  first_listener cfg (addr ∷ addrs) = elim (listen cfg addr) [
    | none ↦ first_listener cfg addrs
    | some fd ↦ some (fd, addr)
  ]

  -- `local_addr().expect(..)`
  unfoldable pub push : SocketConfig → ℕ → AddrInfo → Option String → Action Effect Failure Socket
  push cfg fd addr none = stop panicked
  push cfg fd addr (some sockaddr) = new cfg fd (record addr { sockaddr = sockaddr })

  unfoldable pub found : SocketConfig → Option (ℕ × AddrInfo) → Action Effect Failure Socket
  unfolding push
  found cfg none = stop (error ("Can not start listener for `" ++ cfg.name ++ "` service"))
  found cfg (some (fd, addr)) = push cfg fd addr (net.local_addr fd)

  -- One round of `load_config`.
  unfoldable pub load_socket : SocketConfig → Action Effect Failure Socket
  unfolding found
  load_socket cfg = elim (net.lookup cfg.host cfg.port) [
    | Io.err err ↦ stop (error err)
    | Io.ok addrs ↦ elim addrs [
      | [] ↦ stop (error "getaddrinfo() returned empty list")
      | addr ∷ others ↦ found cfg (first_listener cfg (addr ∷ others))
    ]
  ]

  -- The sockets so far are dropped with the error.
  unfoldable pub load_all : List Socket → List SocketConfig → Action Effect Failure (List Socket)
  unfolding drop_all
  load_all services [] es = (ok services, es)
  load_all services (cfg ∷ cfgs) es =
      let (r, es') = load_socket cfg es in
      elim r [
        | ok s ↦ load_all (services ++ₗ (s ∷ [])) cfgs es'
        | ended e ↦ (ended e, drop_all services es')
      ]

  unfoldable pub load_config : List SocketConfig → Action Effect Failure (List Socket)
  load_config cfgs = load_all [] cfgs
