-- ===== src/Sockets/Listening.antt =====
-- A configuration is loaded to one listening socket for each of its entries, in their order.
use mathlib.Core.List.{◌++◌ as ◌++ₗ◌, append-nil, append_assoc}
use Prim.Native.String.{◌++◌}
use fectl.Prelude.{
  ℕ, ◌≡◌, refl, ap, sym, ◌∙◌, arith, String, false, Option, none, some, List, [], ◌∷◌,
}
use fectl.Config.{SocketConfig}
use fectl.Steps.{Result, ok, ended}
use fectl.Steps.Ends.{Ends, Ends-weaken}
use fectl.System.{Io}
use fectl.Sockets.{
  Socket, drop_all, fd_value, first_listener, is_skipped, listen, load_all, load_config,
  load_socket, found, push, new, set_app, set_args,
}
use fectl.Sockets.Net.{AddrInfo, Effect, Failure, Network, set_var, inherited}

module _ (net : Network) where
  abbrev pub arg_vars : String → List String → List Effect
  arg_vars name [] = []
  arg_vars name (arg ∷ args) = set_var ("FECTL_ARGS_" ++ name) (net.to_string (arg ∷ args)) ∷ []

  abbrev pub app_vars : SocketConfig → List Effect
  app_vars cfg = elim cfg.app [
    | none ↦ []
    | some app ↦ arg_vars cfg.name cfg.arguments ++ₗ (set_var ("FECTL_APP_" ++ cfg.name) app ∷ [])
  ]

  -- What the workers are told of a socket, the newest first.
  abbrev pub announced : SocketConfig → Socket → List Effect
  announced cfg s =
      inherited s.listener
      ∷ (app_vars cfg ++ₗ (set_var ("FECTL_FD_" ++ cfg.name) (fd_value net s.listener s.info) ∷ []))

  -- The socket is of the entry, of a family that the protocol allows, at the address where it listens.
  abbrev pub Fits : SocketConfig → Socket → Type 0
  Fits cfg s =
      (s.name ≡ cfg.name)
      × (is_skipped cfg.proto s.info.family ≡ false)
      × (net.local_addr s.listener ≡ some s.info.sockaddr)

  -- One socket for each entry, in order.
  abbrev pub AllFit : List SocketConfig → List Socket → Type 0
  AllFit [] [] = Unit
  AllFit [] (s ∷ ss) = ⊥
  AllFit (cfg ∷ cfgs) [] = ⊥
  AllFit (cfg ∷ cfgs) (s ∷ ss) = Fits cfg s × AllFit cfgs ss

  abbrev pub all_announced : List SocketConfig → List Socket → List Effect → List Effect
  all_announced [] ss es = es
  all_announced (cfg ∷ cfgs) [] es = es
  all_announced (cfg ∷ cfgs) (s ∷ ss) es = all_announced cfgs ss (announced cfg s ++ₗ es)

  abbrev Any : Failure → List Effect → Type 0
  Any x es = Unit

  new-Ends :
      (cfg : SocketConfig) (fd : ℕ) (info : AddrInfo) (es : List Effect)
      → is_skipped cfg.proto info.family ≡ false
      → net.local_addr fd ≡ some info.sockaddr
      → Ends (λ s es'. Fits cfg s × (es' ≡ announced cfg s ++ₗ es)) Any (new net cfg fd info es)
  unfolding new set_app set_args
  new-Ends cfg fd info es h l = ground arith

  first_listener-allowed :
      (cfg : SocketConfig) (addrs : List AddrInfo) (fd : ℕ) (addr : AddrInfo)
      → first_listener net cfg addrs ≡ some (fd, addr)
      → is_skipped cfg.proto addr.family ≡ false
  unfolding first_listener listen
  first_listener-allowed cfg [] fd addr e = absurd (ground arith)
  first_listener-allowed cfg (a ∷ addrs) fd addr e =
      ground (arith, e, first_listener-allowed cfg addrs fd addr)

  -- The postcondition of one round.
  abbrev Round : SocketConfig → List Effect → Result Failure Socket × List Effect → Type 0
  Round cfg es r = Ends (λ s es'. Fits cfg s × (es' ≡ announced cfg s ++ₗ es)) Any r

  push-Round :
      (cfg : SocketConfig) (fd : ℕ) (addr : AddrInfo) (local : Option String) (es : List Effect)
      → is_skipped cfg.proto addr.family ≡ false
      → net.local_addr fd ≡ local
      → Round cfg es (push net cfg fd addr local es)
  unfolding push
  push-Round cfg fd addr none es h l = tt
  push-Round cfg fd addr (some sockaddr) es h l =
      new-Ends cfg fd (record addr { sockaddr = sockaddr }) es h l

  found-Round :
      (cfg : SocketConfig) (o : Option (ℕ × AddrInfo)) (es : List Effect)
      → ((fd : ℕ) (addr : AddrInfo)
          → o ≡ some (fd, addr)
          → is_skipped cfg.proto addr.family ≡ false)
      → Round cfg es (found net cfg o es)
  unfolding found
  found-Round cfg none es h = tt
  found-Round cfg (some (fd, addr)) es h =
      push-Round cfg fd addr (net.local_addr fd) es (h fd addr refl) refl

  looked_up-Round :
      (cfg : SocketConfig) (answer : Io (List AddrInfo)) (es : List Effect)
      → net.lookup cfg.host cfg.port ≡ answer
      → Round cfg es (load_socket net cfg es)
  unfolding load_socket
  looked_up-Round cfg (Io.err err) es e = ground (arith, e)
  looked_up-Round cfg (Io.ok []) es e = ground (arith, e)
  looked_up-Round cfg (Io.ok (addr ∷ others)) es e =
      let addrs = addr ∷ others in
      ground (
        arith,
        e,
        found-Round cfg (first_listener net cfg addrs) es (first_listener-allowed cfg addrs),
      )

  -- The postcondition of the loop, which has listened for the entries before.
  Loaded :
      List SocketConfig
      → List Socket
      → List Effect
      → Result Failure (List Socket) × List Effect
      → Type 0
  Loaded cfgs before es r =
      Ends
        (λ ss es'.
          (more : List Socket) × (ss ≡ before ++ₗ more)
          × AllFit cfgs more
          × (es' ≡ all_announced cfgs more es))
        Any r

  Loaded-weaken :
      (cfg : SocketConfig) (cfgs : List SocketConfig) (before : List Socket) (s : Socket)
      (es es' : List Effect) (r : Result Failure (List Socket) × List Effect)
      → Fits cfg s
      → es' ≡ announced cfg s ++ₗ es
      → Loaded cfgs (before ++ₗ (s ∷ [])) es' r
      → Loaded (cfg ∷ cfgs) before es r
  unfolding Loaded
  Loaded-weaken cfg cfgs before s es es' (ok ss, es'') fits e (more, whole, all, effects) = (
    s ∷ more,
    whole ∙ append_assoc before (s ∷ []) more,
    (fits, all),
    effects ∙ ap (all_announced cfgs more) e,
  )
  Loaded-weaken cfg cfgs before s es es' (ended x, es'') fits e h = tt

  after_one :
      (cfg : SocketConfig) (cfgs : List SocketConfig) (before : List Socket) (es : List Effect)
      (r : Result Failure Socket × List Effect)
      → Round cfg es r
      → ((s : Socket) (es' : List Effect)
          → Loaded cfgs (before ++ₗ (s ∷ [])) es' (load_all net (before ++ₗ (s ∷ [])) cfgs es'))
      → Loaded (cfg ∷ cfgs) before es (elim r.0 [
        | ok s ↦ load_all net (before ++ₗ (s ∷ [])) cfgs r.1
        | ended e ↦ (ended e, drop_all before r.1)
      ])
  after_one cfg cfgs before es (ok s, es') (fits, e) next =
      Loaded-weaken cfg cfgs before s es es' _ fits e (next s es')
  after_one cfg cfgs before es (ended x, es') h next = unfold Loaded in tt

  load_all-Loaded :
      (cfgs : List SocketConfig) (before : List Socket) (es : List Effect)
      → Loaded cfgs before es (load_all net before cfgs es)
  unfolding load_all
  load_all-Loaded [] before es = unfold Loaded in ([], sym (append-nil before), tt, refl)
  load_all-Loaded (cfg ∷ cfgs) before es =
      after_one cfg cfgs before es (load_socket net cfg es)
        (looked_up-Round cfg (net.lookup cfg.host cfg.port) es refl)
        (λ s es'. load_all-Loaded cfgs (before ++ₗ (s ∷ [])) es')

  -- A configuration that loads has one listening socket for each of its entries, in their order, each
  -- with the name of its entry, of a family that the entry's protocol allows; and the environment names
  -- exactly these for the workers.
  pub load_config-AllFit :
      (cfgs : List SocketConfig)
      → Ends
          (λ ss es. AllFit cfgs ss × (es ≡ all_announced cfgs ss []))
          Any
          (load_config net cfgs [])
  unfolding load_config Loaded
  load_config-AllFit cfgs =
      Ends-weaken
        (λ ss es.
          (more : List Socket) × (ss ≡ more) × AllFit cfgs more × (es ≡ all_announced cfgs more []))
        (λ ss es. AllFit cfgs ss × (es ≡ all_announced cfgs ss [])) Any Any
        (load_all net [] cfgs []) (λ ss es h. rw h.1 (h.2, h.3)) (λ x es h. h)
        (load_all-Loaded cfgs [] [])
