-- ===== src/Event/Bounds.antt =====
-- The history keeps its limit, and its newest entry stands last.
use fectl.Prelude.{ℕ, ◌-◌, ◌≤◌, ◌<◌, ◌≡◌, refl, List, [], ◌∷◌, arith, length, length-append}
use fectl.Event.{Event, Events, new, pop_front, add}

abbrev pub Fits : Events → Type 0
Fits es = length es.events ≤ es.max

pub new-Fits : (n : ℕ) → Fits (new n)
unfolding new
new-Fits n = omega arith

pub new-max : (n : ℕ) → (new n).max ≡ n
unfolding new
new-max n = refl

length-pop_front : (es : List Event) → length (pop_front es) ≡ length es - 1
unfolding pop_front
length-pop_front [] = omega arith
length-pop_front (e ∷ es) = omega arith

pub max-add : (e : Event) (es : Events) → (add e es).max ≡ es.max
unfolding add
max-add e es = refl

-- A history that is not longer than its limit, a positive one, stays so, whatever is added.
pub add-Fits : (e : Event) (es : Events) → 0 < es.max → Fits es → Fits (add e es)
unfolding add
add-Fits e es h f = ground (
  arith,
  length-pop_front es.events,
  length-append (pop_front es.events) (e ∷ []),
  length-append es.events (e ∷ []),
)
