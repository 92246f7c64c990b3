-- ===== src/Fleet.antt =====
-- The master as a whole while it shuts down: the command center of src/cmd.rs and its services of
-- src/service.rs, each with what its processes report, interleaved in any order. A member is a
-- service with its own view of the system; messages of the command center to one service keep their
-- order.
pub mod Answers
pub mod Counts
pub mod Members
pub mod Moves
pub mod Orders
pub mod Progress
pub mod Reports
pub mod Shutdown
pub mod Waiting
use mathlib.Core.Option
use fectl.Prelude.{
  ℕ, ◌≡◌, ◌⊎◌, Bool, true, false, ◌||◌, ◌==◌, Option, none, some, List, [], ◌∷◌, ◌++◌, map, All,
}
use fectl.Command.{CommandCenter, Order, State, send_stop, stop, stop_answered, stop_system}
use fectl.Config.{ServiceConfig}
use fectl.Event.{Reason}
use fectl.Service.{FeService, create, started}
use fectl.Service.Commands
use fectl.Service.Commands.{Response, async, reply}
use fectl.Service.Requests.{Request, Signal, handle}
use fectl.System.{Addr, Call, Os, set_reload, set_start, set_stop}

-- How far the stop of a service has come: `sent` is a message in its mailbox, `waiting` the
-- condition that the answer waits for, `replied` an answer at once, `done` an answer that the command
-- center has taken.
pub data Status : Type 0 where
  idle : Status
  sent : Bool → Status
  waiting : ℕ → Status
  replied : Status
  done : Status

pub record Member : Type 0 where
  pub addr : Addr
  pub service : FeService
  pub os : Os
  pub status : Status

-- Any message but the stop of the command center.
unfoldable pub serve : Request → Member → Option Member
serve r m = Option.map (λ x. record m { service = x.0; os = x.1 }) (handle r m.service m.os)

unfoldable pub status_of : Response (Unit {0}) → Status
status_of (reply u) = replied
status_of (async c) = waiting c

-- The service handles the stop of the command center.
unfoldable pub accept_stop : Bool → Member → Member
accept_stop graceful m =
    let (answer, s, os) = Commands.stop graceful Reason.exit m.service m.os in
    record m { service = s; os = os; status = status_of answer }

-- Has condition `c` been set?
unfoldable pub is_set : ℕ → List Call → Bool
is_set c [] = false
is_set c (set_start d status ∷ cs) = d == c || is_set c cs
is_set c (set_reload d status ∷ cs) = d == c || is_set c cs
is_set c (set_stop d ∷ cs) = d == c || is_set c cs
is_set c (_ ∷ cs) = is_set c cs

-- Is the answer of the service there, for the command center to take?
unfoldable pub is_answered : Member → Bool
is_answered m = elim m.status [
  | idle ↦ false
  | sent g ↦ false
  | waiting c ↦ is_set c m.os.calls
  | replied ↦ true
  | done ↦ false
]

-- The first stop for the address.
unfoldable pub stop_for : Addr → List Order → Option Bool
stop_for a [] = none
stop_for a (send_stop b graceful r ∷ os) = elim (b == a) [
  | true ↦ some graceful
  | false ↦ stop_for a os
]
stop_for a (_ ∷ os) = stop_for a os

-- The messages of the command center are put into the mailboxes.
unfoldable pub post : List Order → Member → Member
post os m = elim (stop_for m.addr os) [
  | none ↦ m
  | some graceful ↦ record m { status = sent graceful }
]

pub record Fleet : Type 0 where
  pub center : CommandCenter
  pub members : List Member
  pub orders : List Order

-- The services are as `CommandCenter::started` has made them, and the command center runs. The members
-- are the services of its table: one whose name has been given to a later service is in no table, and
-- no member.
abbrev pub IsNew : Member → Type 0
IsNew m =
    (num : ℕ) × (cfg : ServiceConfig) × (os₀ : Os) × let (s, os) = create num cfg m.addr os₀ in
      (os₀.calls ≡ [])
      × (os₀.next_condition ≡ 0)
      × ((m.service, m.os) ≡ started s os)
      × (m.status ≡ idle)

abbrev pub IsStart : Fleet → Type 0
IsStart f =
    All IsNew f.members
    × (map (λ m. m.addr) f.members ≡ map (λ s. s.1) f.center.services)
    × (f.center.state ≡ State.running)
    × (f.center.stopping ≡ 0)
    × (f.orders ≡ [])

-- `signal` is a report of a process, `command` a request of a client that the command center has
-- passed on before its stop, `shutdown` is `CommandCenter::stop`.
pub data Step : Fleet → Fleet → Type 0 where
  signal :
      (f : Fleet) (before after : List Member) (m m' : Member) (g : Signal)
      → f.members ≡ before ++ m ∷ after
      → serve (Request.signal g) m ≡ some m'
      → Step f (record f { members = before ++ m' ∷ after })
  command :
      (f : Fleet) (before after : List Member) (m m' : Member) (r : Request)
      → f.members ≡ before ++ m ∷ after
      → (m.status ≡ idle) ⊎ ((g : Bool) × (m.status ≡ sent g))
      → serve r m ≡ some m'
      → Step f (record f { members = before ++ m' ∷ after })
  shutdown :
      (f : Fleet) (graceful : Bool)
      → Step f (record {
        center = (stop graceful f.center).0;
        members = map (post (stop graceful f.center).1) f.members;
        orders = f.orders ++ (stop graceful f.center).1;
      })
  accept :
      (f : Fleet) (before after : List Member) (m : Member) (graceful : Bool)
      → f.members ≡ before ++ m ∷ after
      → m.status ≡ sent graceful
      → Step f (record f { members = before ++ accept_stop graceful m ∷ after })
  answer :
      (f : Fleet) (before after : List Member) (m : Member) (c : CommandCenter) (os : List Order)
      → f.members ≡ before ++ m ∷ after
      → is_answered m ≡ true
      → stop_answered f.center ≡ some (c, os)
      → Step f (record {
        center = c;
        members = before ++ record m { status = done } ∷ after;
        orders = f.orders ++ os;
      })

pub data Reach : Fleet → Type 0 where
  start : (f : Fleet) → IsStart f → Reach f
  later : {f f' : Fleet} → Reach f → Step f f' → Reach f'
