-- ===== src/Service/Loops.antt =====
-- The loops over the workers of a service: what holds of every worker, and of some worker.
use mathlib.Core.Option
use fectl.Prelude.{ℕ, zero, suc, ◌⊎◌, inl, inr, Option, none, some, List, [], ◌∷◌, All}
use fectl.System.{Os}
use fectl.Worker.{Worker}
use fectl.Service.{for_each, at_worker}

abbrev pub Any {ℓ} : {A : Type ℓ} → (A → Type 0) → List A → Type 0
Any P [] = ⊥
Any P (x ∷ xs) = P x ⊎ Any P xs

-- If there is a result at all, it has the property.
abbrev pub Ends {ℓ} : {A : Type ℓ} → (A → Type 0) → Option A → Type 0
Ends P none = Unit
Ends P (some a) = P a

pub Ends-map {ℓ κ} :
    {A : Type ℓ} {B : Type κ} (P : A → Type 0) (Q : B → Type 0) (g : A → B) (o : Option A)
    → ((a : A) → P a → Q (g a))
    → Ends P o
    → Ends Q (Option.map g o)
Ends-map P Q g none step h = tt
Ends-map P Q g (some a) step h = step a h

pub Ends-any {ℓ} : {A : Type ℓ} (o : Option A) → Ends (λ a. Unit {0}) o
Ends-any none = tt
Ends-any (some a) = tt

-- `step` takes every worker with `P` to one with `Q`.
module _ (P Q : Worker → Type 0) (f : Worker → Os → Worker × Os)
    (step : (w : Worker) (os : Os) → P w → Q (f w os).0) where
  pub for_each-All : (ws : List Worker) (os : Os) → All P ws → All Q (for_each f ws os).0
  unfolding for_each
  for_each-All [] os h = tt
  for_each-All (w ∷ ws) os h = (step w os h.0, for_each-All ws (f w os).1 h.1)

  pub for_each-Any : (ws : List Worker) (os : Os) → Any P ws → Any Q (for_each f ws os).0
  unfolding for_each
  for_each-Any [] os h = h
  for_each-Any (w ∷ ws) os (inl h) = inl (step w os h)
  for_each-Any (w ∷ ws) os (inr h) = inr (for_each-Any ws (f w os).1 h)

module _ (P : Worker → Type 0) (f : Worker → Os → Worker × Os)
    (step : (w : Worker) (os : Os) → P w → P (f w os).0) where
  pub at_worker-All :
      (i : ℕ) (ws : List Worker) (os : Os) → All P ws → Ends (λ r. All P r.0) (at_worker i f ws os)
  unfolding at_worker
  at_worker-All i [] os h = tt
  at_worker-All zero (w ∷ ws) os h = (step w os h.0, h.1)
  at_worker-All (suc i) (w ∷ ws) os h =
      Ends-map (λ r. All P r.0) (λ r. All P r.0) (λ r. (w ∷ r.0, r.1)) (at_worker i f ws os)
        (λ r k. (h.0, k)) (at_worker-All i ws os h.1)

  pub at_worker-Any :
      (i : ℕ) (ws : List Worker) (os : Os) → Any P ws → Ends (λ r. Any P r.0) (at_worker i f ws os)
  unfolding at_worker
  at_worker-Any i [] os h = tt
  at_worker-Any zero (w ∷ ws) os (inl h) = inl (step w os h)
  at_worker-Any zero (w ∷ ws) os (inr h) = inr h
  at_worker-Any (suc i) (w ∷ ws) os (inl h) =
      Ends-map (λ r. Unit {0}) (λ r. Any P r.0) (λ r. (w ∷ r.0, r.1)) (at_worker i f ws os)
        (λ r k. inl h) (Ends-any (at_worker i f ws os))
  at_worker-Any (suc i) (w ∷ ws) os (inr h) =
      Ends-map (λ r. Any P r.0) (λ r. Any P r.0) (λ r. (w ∷ r.0, r.1)) (at_worker i f ws os)
        (λ r k. inr k) (at_worker-Any i ws os h)
