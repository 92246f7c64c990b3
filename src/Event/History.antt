-- ===== src/Event/History.antt =====
-- The history of a worker is the end of the sequence of all its events.
use fectl.Prelude.{
  ℕ, suc, ◌+◌, ◌-◌, ◌≤◌, ◌<◌, ◌≡◌, ◌∙◌, refl, arith, List, [], ◌∷◌, ◌++◌, length, drop,
  length-append,
}
use fectl.Event.{Event, Events, new, pop_front, add}
use fectl.Event.Bounds.{Fits, max-add, add-Fits}
use mathlib.Core.List.{append_assoc, append-nil}

unfoldable pub add_all : List Event → Events → Events
add_all [] h = h
add_all (e ∷ es) h = add_all es (add e h)

-- One more event, and whatever comes after it.
add_cut :
    (e : Event) (es : List Event) (m : ℕ) (l : List Event)
    → 0 < m
    → length l ≤ m
    → let l' = (add e (record { max = m; events = l })).events in
      drop (length l' + length es - m) (l' ++ es)
      ≡ drop (length l + suc (length es) - m) (l ++ e ∷ es)
unfolding add pop_front
add_cut e es m [] p f = ground arith
add_cut e es m (x ∷ xs) p f =
    let full : suc (length xs) ≡ m → length (xs ++ e ∷ []) + length es - m ≡ length es =
      λ h. omega (arith, length-append xs (e ∷ [])) in
    ground (arith, full, append_assoc xs (e ∷ []) es, length-append (x ∷ xs) (e ∷ []))

add_all_cut :
    (es : List Event) (h : Events)
    → 0 < h.max
    → Fits h
    → (add_all es h).events ≡ drop (length h.events + length es - h.max) (h.events ++ es)
unfolding add_all
add_all_cut [] h p f =
    let none_over : length h.events + 0 - h.max ≡ 0 = omega (arith, f) in
    rw (none_over, append-nil h.events) refl
add_all_cut (e ∷ es) h p f =
    add_all_cut es (add e h) (rw (max-add e h) p) (add-Fits e h p f)
    ∙ rw (max-add e h) (add_cut e es h.max h.events p f)

-- A history with a positive limit holds the last events that were added to it, as many as the limit,
-- in the order in which they were added.
pub add_all-new :
    (n : ℕ) (es : List Event) → 0 < n → (add_all es (new n)).events ≡ drop (length es - n) es
unfolding new
add_all-new n es p =
    let size : 0 + length es - n ≡ length es - n = omega arith in
    add_all_cut es (new n) p (omega arith) ∙ rw size refl
