-- ===== src/Startup/Second.antt =====
-- A master that finds the socket file of another one, alive or gone.
use fectl.Prelude.{
  ℕ, zero, suc, ◌≤◌, ◌<◌, ◌≡◌, arith, All, String, Bool, true, false, Option, none, some, List, [],
  ◌∷◌, ◌++◌, length,
}
use fectl.Config.{MasterConfig}
use fectl.Master.{MasterResponse}
use fectl.Probe.{
  AliveStatus, Connection, Reading, alive_status, connected, first_response, is_alive, response,
}
use fectl.Probe.Answer.{IsOpen, first_response-Answered, stream}
use fectl.Steps.Ends.{Ends, Ends-and_then}
use fectl.Startup.{attempt, bind_host, bind_socket, start}
use fectl.Startup.HostCalls.{
  Effect, Host, Refusal, entered, returned, slept, socket_removed, addr_in_use,
}
use fectl.Transport.{encode}

-- Has a socket file been removed?
unfoldable pub has_removed : List Effect → Bool
has_removed [] = false
has_removed (socket_removed ∷ es) = true
has_removed (e ∷ es) = has_removed es

-- The start returned `false`, and no socket file was removed.
abbrev pub Refused : Refusal → List Effect → Type 0
Refused x es = (x ≡ returned) × (has_removed es ≡ false)

abbrev pub Never : Unit {0} → List Effect → Type 0
Never u es = ⊥

abbrev Kept : Unit {0} → List Effect → Type 0
Kept u es = has_removed es ≡ false

module _ (host : Host) where
  chdir-Kept : (dir : String) → Ends Kept Refused (attempt host (host.chdir dir) (entered dir) [])
  unfolding attempt has_removed
  chdir-Kept dir = ground arith

  bind_host-Kept :
      (left idx : ℕ) (es : List Effect)
      → has_removed es ≡ false
      → Ends Kept Refused (bind_host host left idx es)
  unfolding bind_host has_removed
  bind_host-Kept zero idx es h = h
  bind_host-Kept (suc left) idx es h =
      ground (arith, bind_host-Kept left (suc idx) (slept 5 ∷ es) h)

  bind_socket-Never :
      (es : List Effect)
      → host.bind_socket ≡ addr_in_use
      → is_alive host.from_slice host.connection ≡ AliveStatus.alive
      → has_removed es ≡ false
      → Ends Never Refused (bind_socket host es)
  unfolding bind_socket
  bind_socket-Never es b a h = ground arith

  start-Refused :
      (cfg : MasterConfig)
      → host.bind_socket ≡ addr_in_use
      → is_alive host.from_slice host.connection ≡ AliveStatus.alive
      → Ends Never Refused (start host cfg [])
  unfolding start
  start-Refused cfg b a =
      Ends-and_then Kept Never Refused _
        (λ u es h.
          Ends-and_then Kept Never Refused _
            (λ u' es' h'.
              Ends-and_then Never Never Refused _ (λ u'' es'' never. absurd never) _
                (bind_socket-Never es' b a h'))
            _ (bind_host-Kept 10 0 es h))
        _ (chdir-Kept cfg.directory)

answers :
    (from_slice : List ℕ → Option MasterResponse) (c : Connection) (rs : List Reading)
    (m : MasterResponse)
    → c ≡ connected rs
    → (first_response from_slice [] rs).0 ≡ response m
    → is_alive from_slice c ≡ AliveStatus.alive
unfolding is_alive alive_status
answers from_slice c rs m e h = grind (arith, e, h)

-- While a master answers on the socket, in whatever pieces and with whatever delays, a second one that
-- is started for the same socket returns without a start, and leaves the socket file where it is. The
-- text of the answer is parsed as a message and has fewer than 2^16 bytes.
pub second_start-Refused :
    (host : Host) (cfg : MasterConfig) (to_string : MasterResponse → List ℕ) (m : MasterResponse)
    (extra : List ℕ) (rs : List Reading)
    → host.bind_socket ≡ addr_in_use
    → host.connection ≡ connected rs
    → All IsOpen rs
    → stream rs ≡ encode to_string m [] ++ extra
    → host.from_slice (to_string m) ≡ some m
    → length (to_string m) < 65536
    → Ends Never Refused (start host cfg [])
second_start-Refused host cfg to_string m extra rs b c opens same parses short =
    let first =
      first_response-Answered to_string host.from_slice m extra parses short rs opens same in
    start-Refused host cfg b (answers host.from_slice host.connection rs m c first.0)

-- All that a start asks of its host goes through, but for the socket file, which is removed, and the
-- local address, which is free in one of the first nine rounds.
pub record IsWilling (host : Host) : Type 0 where
  pub enters : (dir : String) → host.chdir dir ≡ none
  pub free : (idx : ℕ) × (idx ≤ 8) × (host.bind idx ≡ none)
  pub binds : host.bind_socket_again ≡ none
  pub writes : (path : String) → host.write_pid path ≡ none
  pub users : (uid : ℕ) → host.setuid uid ≡ none
  pub groups : (user : Option ℕ) (gid : ℕ) → host.setgid user gid ≡ none
  pub background : host.daemon ≡ none
  pub listener : host.from_std ≡ none

abbrev pub Goes : Unit {0} → List Effect → Type 0
Goes u es = Unit

abbrev pub Stops : Refusal → List Effect → Type 0
Stops x es = ⊥
