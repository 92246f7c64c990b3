-- ===== src/Command/Unordered.antt =====
-- Whatever order the `HashMap` of src/cmd.rs has, the command center does the same.
use mathlib.Core.List.{Permᴰ}
use fectl.Prelude.{
  ◌≡◌, refl, sym, subst, arith, inl, inr, Bool, true, false, Option-cases, Option, none, some, List,
  [], ◌∷◌,
}
use fectl.Command.{
  CommandCenter, Order, SignalType, handle_signal, handle_stop, new, started, stop_answered, exit,
  wait_in,
}
use fectl.Command
use fectl.Command.Shutdown.{State-cases, stop-again, stop-first}
use fectl.Command.Events.{Answer, Event, Outputs, join, react, react_all, then}
use fectl.Command.Interchange.{Alike, Similar, react-Alike}
use fectl.Command.Iteration.{IsTable, Table, add_services-IsTable}

-- The same answers, and the same orders at each event, in another order perhaps.
unfoldable pub AreSame : Outputs → Outputs → Type 0
AreSame [] [] = Unit
AreSame ((a, os) ∷ xs) ((b, os') ∷ ys) = (a ≡ b) × Permᴰ os os' × AreSame xs ys
AreSame _ _ = ⊥

unfoldable pub Matches :
    Option (CommandCenter × Outputs) → Option (CommandCenter × Outputs) → Type 0
Matches none none = Unit
Matches (some (c, xs)) (some (d, ys)) = Similar c d × AreSame xs ys
Matches _ _ = ⊥

-- No event changes the table.
Kept : Table → Option (CommandCenter × Answer × List Order) → Type 0
Kept t none = Unit
Kept t (some (c, a, os)) = c.services ≡ t

stop_keeps : (g : Bool) (c : CommandCenter) → (Command.stop g c).0.services ≡ c.services
stop_keeps g c = elim (State-cases c.state) [
  | inl e ↦ rw (stop-again g c e) refl
  | inr h ↦ rw (stop-first g c h) refl
]

react-Kept : (e : Event) (c : CommandCenter) → Kept c.services (react e c)
unfolding Kept react handle_signal handle_stop stop_answered exit wait_in
react-Kept (Event.request name) c = refl
react-Kept (Event.stop fresh) c = elim (Option-cases (Command.stop true c).0.stop_waiter) [
  | inl e ↦ rw e (stop_keeps true c)
  | inr (w, e) ↦ rw e (stop_keeps true c)
]
react-Kept Event.answered c = ground arith
react-Kept (Event.signal SignalType.int ws) c = stop_keeps false c
react-Kept (Event.signal SignalType.term ws) c = stop_keeps true c
react-Kept (Event.signal SignalType.quit ws) c = stop_keeps false c
react-Kept (Event.signal _ ws) c = refl
react-Kept Event.reload_all c = refl

join-Matches :
    (a b : Answer) (os os' : List Order) (x y : Option (CommandCenter × Outputs))
    → a ≡ b
    → Permᴰ os os'
    → Matches x y
    → Matches (join a os x) (join b os' y)
unfolding Matches AreSame join
join-Matches a b os os' none none e d m = tt
join-Matches a b os os' (some (c, xs)) (some (c', ys)) e d (s, same) = (s, (e, d, same))
join-Matches a b os os' none (some y) e d m = m
join-Matches a b os os' (some x) none e d m = m

then-Matches :
    (t : Table) (next : CommandCenter → Option (CommandCenter × Outputs))
    (x y : Option (CommandCenter × Answer × List Order))
    → Alike x y
    → Kept t x
    → ((c d : CommandCenter) → c.services ≡ t → Similar c d → Matches (next c) (next d))
    → Matches (then x next) (then y next)
unfolding Alike Kept then
then-Matches t next none none h k later = unfold Matches in tt
then-Matches t next (some (c, a, os)) (some (d, b, os')) (s, e, p) k later =
    join-Matches a b os os' (next c) (next d) e p (later c d k s)
then-Matches t next none (some y) h k later = elim h [ ]
then-Matches t next (some x) none h k later = elim h [ ]

react_all-Matches :
    (es : List Event) (c d : CommandCenter)
    → IsTable c.services
    → Similar c d
    → Matches (react_all es c) (react_all es d)
unfolding react_all
react_all-Matches [] c d t s = unfold Matches AreSame in (s, tt)
react_all-Matches (e ∷ es) c d t s =
    then-Matches c.services (λ c'. react_all es c') (react e c) (react e d) (react-Alike e c d t s)
      (react-Kept e c) λ c' d' k s'. react_all-Matches es c' d' (subst IsTable (sym k) t) s'

-- A command center that has started, and another one that goes through its services in some other
-- order: whatever requests, signals, stops and answers reach both, they answer the same, and at each
-- event they give the same orders, in another order perhaps; and where one comes to an overflow, so
-- does the other.
pub react_all-order :
    (cfgs table : Table) (es : List Event)
    → let c = started cfgs new in
      Permᴰ c.services table
      → Matches (react_all es c) (react_all es (record c { services = table }))
unfolding started new IsTable
react_all-order cfgs table es d =
    let c = started cfgs new in
    react_all-Matches es c (record c { services = table }) (add_services-IsTable cfgs [] tt)
      (record { state = refl; waiter = refl; stopping = refl; table = d })
