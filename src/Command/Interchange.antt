-- ===== src/Command/Interchange.antt =====
-- Two command centers of src/cmd.rs whose tables differ in their order only: all that happens to
-- them, one event after the other.
use mathlib.Core.List.{Permᴰ}
use mathlib.Core.List.Permᴰ
use fectl.Prelude.{
  ℕ, ◌≡◌, ◌∙◌, inl, inr, sym, ap, refl, subst, arith, String, Bool, true, false, Option,
  Option-cases, none, some, List, [],
}
use fectl.Command
use fectl.Command.{
  CommandCenter, Order, Routed, SignalType, State, WaitStatus, exit, handle_signal, handle_stop,
  new, reap, route, send_exited, send_reload, send_stop, started, stop_answered, stop_services,
  tell, wait_in, reload_all_in, reload_services,
}
use fectl.Command.Events.{
  Answer, Event, answered, react, reload_all, request, routed, signal, stop, waits,
}
use fectl.Command.Iteration.{
  IsTable, Table, get-Perm, length-Perm, map-Perm, reap-Perm, stop_orders-Perm,
}
use fectl.Command.Shutdown.{State-cases, stop-again, stop-first}

pub record Similar (c d : CommandCenter) : Type 0 where
  pub state : c.state ≡ d.state
  pub waiter : c.stop_waiter ≡ d.stop_waiter
  pub stopping : c.stopping ≡ d.stopping
  pub table : Permᴰ c.services d.services

-- One event: the tables stay as they are.
unfoldable pub Alike :
    Option (CommandCenter × Answer × List Order)
    → Option (CommandCenter × Answer × List Order)
    → Type 0
Alike none none = Unit
Alike (some (c, a, os)) (some (d, b, os')) = Similar c d × (a ≡ b) × Permᴰ os os'
Alike _ _ = ⊥

Similar-stop :
    (g : Bool) (c d : CommandCenter)
    → Similar c d
    → Similar (Command.stop g c).0 (Command.stop g d).0
      × Permᴰ (Command.stop g c).1 (Command.stop g d).1
Similar-stop g c d h = elim (State-cases c.state) [
  | inl stops ↦ rw (stop-again g c stops, stop-again g d (sym h.state ∙ stops)) (h, Permᴰ.nil)
  | inr runs ↦
      rw (stop-first g c runs, stop-first g d (λ e. runs (h.state ∙ e)))
        (
          record {
            state = refl;
            waiter = h.waiter;
            stopping = ground (arith, length-Perm h.table, h.stopping);
            table = h.table;
          },
          stop_orders-Perm g h.table,
        )
]

reload_in-Perm :
    (s : State) {t t' : Table} → Permᴰ t t' → Permᴰ (reload_all_in s t) (reload_all_in s t')
unfolding reload_all_in reload_services
reload_in-Perm State.running d = map-Perm (λ x. send_reload x.1 true) d
reload_in-Perm State.starting d = Permᴰ.nil
reload_in-Perm State.stopping d = Permᴰ.nil

module _ (c : CommandCenter) (t : Table) (d : Permᴰ c.services t) where
  abbrev reordered : CommandCenter
  reordered = record c { services = t }

  abbrev still : Similar c reordered
  still = record { state = refl; waiter = refl; stopping = refl; table = d }

  route-reordered : (name : String) → IsTable c.services → route name c ≡ route name reordered
  unfolding route
  route-reordered name k = ground (arith, get-Perm name d k)

  answered-Alike : Alike (react answered c) (react answered reordered)
  unfolding react Alike stop_answered exit
  answered-Alike = ground (arith, still, Permᴰ.refl {A = Order} [], Permᴰ.refl (exit c).1)

  reload-Perm : Permᴰ (Command.reload_all c) (Command.reload_all reordered)
  unfolding Command.reload_all
  reload-Perm = reload_in-Perm c.state d

wait-Alike :
    (fresh : ℕ) (c d : CommandCenter) (os os' : List Order)
    → Similar c d
    → Permᴰ os os'
    → let (c', w) = wait_in c.stop_waiter fresh c in
      let (d', w') = wait_in d.stop_waiter fresh d in
      Alike (some (c', waits w, os)) (some (d', waits w', os'))
unfolding Alike wait_in
wait-Alike fresh c d os os' h p = elim (Option-cases c.stop_waiter) [
  | inl e ↦
      rw (e, sym h.waiter ∙ e)
        (record { state = h.state; waiter = refl; stopping = h.stopping; table = h.table }, refl, p)
  | inr (w, e) ↦
      rw (e, sym h.waiter ∙ e)
        (record { state = h.state; waiter = refl; stopping = h.stopping; table = h.table }, refl, p)
]

signal-Alike :
    (t : SignalType) (ws : List WaitStatus) (c d : CommandCenter)
    → Similar c d
    → Alike (react (signal t ws) c) (react (signal t ws) d)
unfolding react handle_signal Alike
signal-Alike SignalType.int ws c d h = let (s, p) = Similar-stop false c d h in (s, refl, p)
signal-Alike SignalType.hup ws c d h = (h, refl, Permᴰ.nil)
signal-Alike SignalType.term ws c d h = let (s, p) = Similar-stop true c d h in (s, refl, p)
signal-Alike SignalType.quit ws c d h = let (s, p) = Similar-stop false c d h in (s, refl, p)
signal-Alike SignalType.child ws c d h = (h, refl, reap-Perm ws h.table)

-- Similar centers differ in their tables only.
Similar-eq : (c d : CommandCenter) → Similar c d → record c { services = d.services } ≡ d
Similar-eq c d h = ground (arith, h.state, h.waiter, h.stopping)

pub react-Alike :
    (e : Event) (c d : CommandCenter)
    → IsTable c.services
    → Similar c d
    → Alike (react e c) (react e d)
react-Alike (request name) c d k h =
    subst (λ x. Alike (react (request name) c) (react (request name) x)) (Similar-eq c d h)
      (unfold react Alike in
        (
          still c d.services h.table,
          ap routed (route-reordered c d.services h.table name k),
          Permᴰ.nil,
        ))
react-Alike (stop fresh) c d k h =
    let (s, p) = Similar-stop true c d h in
    unfold react handle_stop in
    wait-Alike fresh (Command.stop true c).0 (Command.stop true d).0 (Command.stop true c).1
      (Command.stop true d).1 s p
react-Alike answered c d k h =
    subst (λ x. Alike (react answered c) (react answered x)) (Similar-eq c d h)
      (answered-Alike c d.services h.table)
react-Alike (signal t ws) c d k h = signal-Alike t ws c d h
react-Alike reload_all c d k h =
    subst (λ x. Alike (react reload_all c) (react reload_all x)) (Similar-eq c d h)
      (unfold react Alike in (still c d.services h.table, refl, reload-Perm c d.services h.table))
