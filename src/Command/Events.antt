-- ===== src/Command/Events.antt =====
-- src/cmd.rs: the handlers of the command center as one function, for sequences of events.
use fectl.Prelude.{ℕ, String, Option, none, some, List, [], ◌∷◌}
use fectl.Command
use fectl.Command.{
  CommandCenter, Order, Routed, SignalType, WaitStatus, handle_signal, handle_stop, route,
  stop_answered,
}

pub data Event : Type 0 where
  request : String → Event
  stop : ℕ → Event
  answered : Event
  signal : SignalType → List WaitStatus → Event
  reload_all : Event

pub data Answer : Type 0 where
  routed : Routed → Answer
  waits : ℕ → Answer
  nothing : Answer

-- A handler of the command center: `none` is the overflow of an answer that was not awaited.
unfoldable pub react : Event → CommandCenter → Option (CommandCenter × Answer × List Order)
react (request name) c = some (c, routed (route name c), [])
react (stop fresh) c = let ((c', w), os) = handle_stop fresh c in some (c', waits w, os)
react answered c = elim (stop_answered c) [ none ↦ none | some (c', os) ↦ some (c', nothing, os) ]
react (signal t ws) c = let (c', os) = handle_signal t ws c in some (c', nothing, os)
react reload_all c = some (c, nothing, Command.reload_all c)

abbrev pub Outputs : Type 0
Outputs = List (Answer × List Order)

unfoldable pub join :
    Answer → List Order → Option (CommandCenter × Outputs) → Option (CommandCenter × Outputs)
join a os none = none
join a os (some (c, outs)) = some (c, (a, os) ∷ outs)

unfoldable pub then :
    Option (CommandCenter × Answer × List Order)
    → (CommandCenter → Option (CommandCenter × Outputs))
    → Option (CommandCenter × Outputs)
unfolding join
then none next = none
then (some (c, a, os)) next = join a os (next c)

-- Events one after the other, and what comes out at each of them.
unfoldable pub react_all : List Event → CommandCenter → Option (CommandCenter × Outputs)
unfolding then
react_all [] c = some (c, [])
react_all (e ∷ es) c = then (react e c) (λ c'. react_all es c')
