-- ===== src/Steps/Ends.antt =====
-- How a sequence of steps ends: a rule for each way of composing them.
use fectl.Prelude.{List}
use fectl.Steps.{Result, Action, ok, ended, and_then}

-- `P` for a step that goes through, `E` for one that ends the sequence.
abbrev pub Ends :
    {W X A : Type 0} → (A → List W → Type 0) → (X → List W → Type 0) → Result X A × List W → Type 0
Ends P E (ok a, es) = P a es
Ends P E (ended x, es) = E x es

module _ {W X : Type 0} where
  module _ {A B : Type 0} (P : A → List W → Type 0) (Q : B → List W → Type 0)
      (E : X → List W → Type 0) (f : A → Action W X B)
      (k : (a : A) (es : List W) → P a es → Ends Q E (f a es)) where
    pub Ends-and_then : (r : Result X A × List W) → Ends P E r → Ends Q E (and_then r f)
    Ends-and_then (ok a, es) h = k a es h
    Ends-and_then (ended x, es) h = h

  -- From the conditions of one step to weaker ones.
  pub Ends-weaken :
      {A : Type 0} (P Q : A → List W → Type 0) (E F : X → List W → Type 0) (r : Result X A × List W)
      → ((a : A) (es : List W) → P a es → Q a es)
      → ((x : X) (es : List W) → E x es → F x es)
      → Ends P E r
      → Ends Q F r
  Ends-weaken P Q E F (ok a, es) v w h = v a es h
  Ends-weaken P Q E F (ended x, es) v w h = w x es h
