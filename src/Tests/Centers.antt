-- ===== src/Tests/Centers.antt =====
-- The theorem on the order of the services at a concrete input: a command center with two services,
-- in either order, that is asked for one of them and stops.
use mathlib.Core.List.{Permᴰ}
use fectl.Prelude.{refl, List, [], ◌∷◌}
use fectl.Command.{SignalType, add_services, insert, new, started}
use fectl.Command.Events.{Event, react_all}
use fectl.Command.Iteration.{Table}
use fectl.Command.Unordered.{Matches, react_all-order}

abbrev configured : Table
configured = ("web", 2) ∷ ("api", 3) ∷ []

abbrev other_way : Table
other_way = ("api", 3) ∷ ("web", 2) ∷ []

abbrev course : List Event
course =
    Event.request "api"
    ∷ Event.signal SignalType.term []
    ∷ Event.answered
    ∷ Event.stop 7
    ∷ Event.answered
    ∷ []

other_way-table : Permᴰ (started configured new).services other_way
unfolding started new add_services insert
other_way-table = Permᴰ.swap refl refl

react_all-order_example :
    let c = started configured new in
    Matches (react_all course c) (react_all course (record c { services = other_way }))
react_all-order_example = react_all-order configured other_way course other_way-table
