-- ===== src/Command/Shutdown.antt =====
-- The shutdown: every service is asked once, and the system stops when the last one has answered.
use fectl.Prelude.{
  ℕ, zero, suc, ◌+◌, ◌-◌, ◌≤◌, ◌<◌, ◌≡◌, ◌≢◌, ◌⊎◌, inl, inr, refl, arith, Bool, Option, none, some,
  String, List, [], ◌∷◌, ◌++◌, length, map, Option-cases,
}
use mathlib.Core.List.{append-nil}
use fectl.Event.{Reason}
use fectl.System.{Addr}
use fectl.Command.{
  CommandCenter, State, Order, send_stop, set_waiter, stop_system, SignalType, WaitStatus, exit,
  stop_services, stop, stop_answered, handle_stop, handle_signal, reap, tell,
}

-- The requests to the services, in the order of the table.
unfoldable pub stop_orders : Bool → List (String × Addr) → List Order
stop_orders graceful [] = []
stop_orders graceful ((n, a) ∷ rest) = send_stop a graceful Reason.exit ∷ stop_orders graceful rest

pub stop_services_lem :
    (g : Bool) (ss : List (String × Addr)) (c : CommandCenter)
    → stop_services g ss c ≡ (record c { stopping = length ss + c.stopping }, stop_orders g ss)
unfolding stop_services stop_orders
stop_services_lem g [] c = ground arith
stop_services_lem g ((n, a) ∷ ss) c =
    ground (arith, stop_services_lem g ss (record c { stopping = suc c.stopping }))

stop_orders-map :
    (g : Bool) (ss : List (String × Addr))
    → stop_orders g ss ≡ map (λ s. send_stop s.1 g Reason.exit) ss
unfolding stop_orders
stop_orders-map g [] = refl
stop_orders-map g ((n, a) ∷ ss) = ground (arith, stop_orders-map g ss)

pub State-cases : (t : State) → (t ≡ State.stopping) ⊎ (t ≢ State.stopping)
State-cases State.starting = inr (λ e. absurd (ground arith))
State-cases State.running = inr (λ e. absurd (ground arith))
State-cases State.stopping = inl refl

pub stop-again : (g : Bool) (c : CommandCenter) → c.state ≡ State.stopping → stop g c ≡ (c, [])
unfolding stop
stop-again g c e = ground arith

pub stop-first :
    (g : Bool) (c : CommandCenter)
    → c.state ≢ State.stopping
    → stop g c ≡ (
      record c { state = State.stopping; stopping = length c.services + c.stopping },
      stop_orders g c.services,
    )
unfolding stop
stop-first g c h =
    ground (arith, stop_services_lem g c.services (record c { state = State.stopping }))

-- So many services answer; the orders of all their answers.
unfoldable pub answers : ℕ → CommandCenter → Option (CommandCenter × List Order)
answers zero c = some (c, [])
answers (suc k) c = elim (stop_answered c) [
  | none ↦ none
  | some (c', os) ↦ elim (answers k c') [ none ↦ none | some (c'', os') ↦ some (c'', os ++ os') ]
]

-- Fewer answers than are awaited bring no order about.
answers_early :
    (k : ℕ) (c : CommandCenter)
    → k < c.stopping
    → answers k c ≡ some (record c { stopping = c.stopping - k }, [])
unfolding answers stop_answered
answers_early zero c h = ground arith
answers_early (suc k) c h = ground (arith, answers_early k (record c { stopping = c.stopping - 1 }))

answers_last :
    (k : ℕ) (c : CommandCenter)
    → c.stopping ≡ suc k
    → answers (suc k) c ≡ some (exit (record c { stopping = 0 }))
unfolding answers stop_answered exit
answers_last zero c h = ground (arith, append-nil (exit (record c { stopping = 0 })).1)
answers_last (suc k) c h = ground (arith, answers_last k (record c { stopping = c.stopping - 1 }))

-- What the last answer brings about: the waiter, if there is one, is told, and the system stops.
abbrev pub last_orders : Option ℕ → List Order
last_orders none = stop_system ∷ []
last_orders (some w) = set_waiter w ∷ stop_system ∷ []

exit-last_orders :
    (c : CommandCenter) → exit c ≡ (record c { stop_waiter = none }, last_orders c.stop_waiter)
unfolding exit
exit-last_orders c = elim (Option-cases c.stop_waiter) [
  | inl e ↦ ground (arith, e)
  | inr (w, e) ↦ ground (arith, e)
]

-- A stop of a center that has services, is not stopping yet and awaits no answer asks every service
-- once. Until the last of them has answered nothing happens; then the system is stopped, and before
-- that who has come to wait for the stop, if anyone, is told so.
pub stop_exits :
    (g : Bool) (n : ℕ) (c : CommandCenter) (waiter : Option ℕ)
    → c.state ≢ State.stopping
    → c.stopping ≡ 0
    → length c.services ≡ suc n
    → let (stopped, os) = stop g c in
      let c' = record stopped { stop_waiter = waiter } in
      (os ≡ map (λ s. send_stop s.1 g Reason.exit) c.services)
      × (stopped.state ≡ State.stopping)
      × ((k : ℕ) → k ≤ n → answers k c' ≡ some (record c' { stopping = suc n - k }, []))
      × (answers (suc n) c'
          ≡ some (record c' { stopping = 0; stop_waiter = none }, last_orders waiter))
unfolding stop
stop_exits g n c waiter h z l =
    let (stopped, os) = stop g c in
    let c' = record stopped { stop_waiter = waiter } in
    let asked = stop_services_lem g c.services (record c { state = State.stopping }) in
    (
      ground (arith, asked, stop_orders-map g c.services),
      ground (arith, asked),
      λ k hk. ground (arith, asked, answers_early k c'),
      ground (arith, asked, answers_last n c', exit-last_orders (record c' { stopping = 0 })),
    )

-- A center that stops has sent its requests: another stop, by command or by signal, sends none.
stop_again :
    (fresh : ℕ) (g : Bool) (t : SignalType) (c : CommandCenter)
    → t ≢ SignalType.child
    → let c' = (stop g c).0 in ((handle_stop fresh c').1 ≡ []) × ((handle_signal t [] c').1 ≡ [])
unfolding stop handle_stop handle_signal
stop_again fresh g t c h =
    ground (arith, stop_services_lem g c.services (record c { state = State.stopping }))

reap_nobody : (ws : List WaitStatus) → reap ws [] ≡ []
unfolding reap tell
reap_nobody [] = refl
reap_nobody (WaitStatus.exited pid code ∷ ws) = reap_nobody ws
reap_nobody (WaitStatus.signaled pid sig ∷ ws) = reap_nobody ws
reap_nobody (WaitStatus.other ∷ ws) = refl

-- The defect: a center without services never stops the system. No stop and no signal makes it give
-- an order, and it stays without services.
pub empty_never_exits :
    (fresh : ℕ) (t : SignalType) (ws : List WaitStatus) (c : CommandCenter)
    → c.services ≡ []
    → let (c₁, os₁) = handle_stop fresh c in
      let (c₂, os₂) = handle_signal t ws c in
      (os₁ ≡ []) × (c₁.0.services ≡ []) × (os₂ ≡ []) × (c₂.services ≡ [])
unfolding handle_stop handle_signal stop stop_services
empty_never_exits fresh t ws c h = ground (arith, reap_nobody ws)
