-- ===== src/Command.antt =====
-- src/cmd.rs: the command center, which knows the services by name. A handler returns what it has
-- answered or whom it asks; `HashMap` is an association list, in which a name stands once.
pub mod Events
pub mod Interchange
pub mod Iteration
pub mod Requests
pub mod Routing
pub mod Shutdown
pub mod Unordered
use text.Mathlib.Text.{◌==◌}
use fectl.Prelude.{
  ℕ, suc, ◌-◌, String, Bool, true, false, Option, none, some, List, [], ◌∷◌, ◌++◌, map,
  if◌then◌else◌,
}
use fectl.Prelude.{◌==◌ as nat_eq}
use fectl.Event.{Reason}
use fectl.Process.Error.{ProcessError, from}
use fectl.Service.Status.{StartStatus, ReloadStatus, ServiceOperationError}
use fectl.System.{Pid, Addr}

pub data CommandError : Type 0 where
  not_ready unknown_service service_stopped : CommandError
  service : ServiceOperationError → CommandError

pub data State : Type 0 where
  starting running stopping : State

pub record CommandCenter : Type 0 where
  pub state : State
  pub services : List (String × Addr)
  pub stop_waiter : Option ℕ
  pub stopping : ℕ

-- The messages to services, to the waiters of the stop and to the actor system, in their order.
pub data Order : Type 0 where
  send_stop : Addr → Bool → Reason → Order
  send_reload : Addr → Bool → Order
  send_exited : Addr → Pid → ProcessError → Order
  set_waiter : ℕ → Order
  stop_system : Order

-- `HashMap::get` and `HashMap::insert`
unfoldable pub get : String → List (String × Addr) → Option Addr
get name [] = none
get name ((n, a) ∷ rest) = if n == name then some a else get name rest

unfoldable pub insert : String → Addr → List (String × Addr) → List (String × Addr)
insert name addr [] = (name, addr) ∷ []
insert name addr ((n, a) ∷ rest) =
    if n == name then (n, addr) ∷ rest else (n, a) ∷ insert name addr rest

-- `CommandCenter::start`
unfoldable pub new : CommandCenter
new = record { state = State.starting; services = []; stop_waiter = none; stopping = 0 }

-- `started`: the services of the configuration, each with the address that its actor got.
unfoldable pub add_services : List (String × Addr) → List (String × Addr) → List (String × Addr)
add_services [] known = known
add_services ((name, addr) ∷ cfgs) known = add_services cfgs (insert name addr known)

unfoldable pub started : List (String × Addr) → CommandCenter → CommandCenter
started cfgs c = record c { services = add_services cfgs c.services; state = State.running }

waiter_orders : Option ℕ → List Order
waiter_orders none = []
waiter_orders (some w) = set_waiter w ∷ []

unfoldable pub exit : CommandCenter → CommandCenter × List Order
unfolding waiter_orders
exit c = (record c { stop_waiter = none }, waiter_orders c.stop_waiter ++ stop_system ∷ [])

-- `stopping` of the actor.
unfoldable pub handle_stopping : CommandCenter → CommandCenter × List Order
handle_stopping c = exit c

-- The loop of `CommandCenter::stop` over the services.
unfoldable pub stop_services :
    Bool → List (String × Addr) → CommandCenter → CommandCenter × List Order
stop_services graceful [] c = (c, [])
stop_services graceful ((n, a) ∷ rest) c =
    let (c', os) = stop_services graceful rest (record c { stopping = suc c.stopping }) in
    (c', send_stop a graceful Reason.exit ∷ os)

stop_in : State → Bool → CommandCenter → CommandCenter × List Order
stop_in State.stopping graceful c = (c, [])
stop_in _ graceful c = stop_services graceful c.services (record c { state = State.stopping })

-- `CommandCenter::stop`
unfoldable pub stop : Bool → CommandCenter → CommandCenter × List Order
unfolding stop_in
stop graceful c = stop_in c.state graceful c

-- What happens when a service has answered `Stop`, or cannot be reached: `none` is the overflow.
unfoldable pub stop_answered : CommandCenter → Option (CommandCenter × List Order)
stop_answered c =
    if nat_eq c.stopping 0
    then none
    else let c' = record c { stopping = c.stopping - 1 } in
      some (if nat_eq c'.stopping 0 then exit c' else (c', []))

-- `Stop`: `fresh` is the number of the condition if one is made; the number to wait for comes back.
wait_in : Option ℕ → ℕ → CommandCenter → CommandCenter × ℕ
wait_in none fresh c = (record c { stop_waiter = some fresh }, fresh)
wait_in (some w) fresh c = (c, w)

unfoldable pub handle_stop : ℕ → CommandCenter → (CommandCenter × ℕ) × List Order
unfolding wait_in
handle_stop fresh c = let (c', os) = stop true c in (wait_in c'.stop_waiter fresh c', os)

-- An error at once, or a question to the service at an address.
pub data Routed : Type 0 where
  reply : CommandError → Routed
  ask : Addr → Routed

found : Option Addr → Routed
found none = reply CommandError.unknown_service
found (some a) = ask a

route_in : State → String → List (String × Addr) → Routed
unfolding found
route_in State.running name services = found (get name services)
route_in _ name services = reply CommandError.not_ready

-- All requests by name find their service in this way.
unfoldable pub route : String → CommandCenter → Routed
unfolding route_in
route name c = route_in c.state name c.services

reload_services : List (String × Addr) → List Order
reload_services = map (λ s. send_reload s.1 true)

reload_all_in : State → List (String × Addr) → List Order
unfolding reload_services
reload_all_in State.running services = reload_services services
reload_all_in _ services = []

-- `ReloadAll`
unfoldable pub reload_all : CommandCenter → List Order
unfolding reload_all_in
reload_all c = reload_all_in c.state c.services

-- `waitpid`: the answers that the loop goes on after, and all others.
pub data WaitStatus : Type 0 where
  exited : Pid → ℕ → WaitStatus
  signaled : Pid → ℕ → WaitStatus
  other : WaitStatus

unfoldable pub tell : Pid → ProcessError → List (String × Addr) → List Order
tell pid e [] = []
tell pid e ((n, a) ∷ rest) = send_exited a pid e ∷ tell pid e rest

-- The loop on `SIGCHLD`, over the answers of the calls of `waitpid`.
unfoldable pub reap : List WaitStatus → List (String × Addr) → List Order
reap [] services = []
reap (exited pid code ∷ ws) services = tell pid (from code) services ++ reap ws services
reap (signaled pid sig ∷ ws) services =
    tell pid (ProcessError.signal sig) services ++ reap ws services
reap (other ∷ ws) services = []

pub data SignalType : Type 0 where
  int hup term quit child : SignalType

-- `Handler<signal::Signal>`; `ws` are the answers of `waitpid` while it runs.
unfoldable pub handle_signal :
    SignalType → List WaitStatus → CommandCenter → CommandCenter × List Order
handle_signal SignalType.int ws c = stop false c
handle_signal SignalType.hup ws c = (c, [])
handle_signal SignalType.term ws c = stop true c
handle_signal SignalType.quit ws c = stop false c
handle_signal SignalType.child ws c = (c, reap ws c.services)
