-- ===== src/Steps.antt =====
-- Steps that do something to the world and may end the whole sequence: `Result` with an early return
-- or exit of type `X`, and the effects of type `W` so far, newest first, however the step ends.
pub mod Ends
use fectl.Prelude.{List, ◌∷◌}

pub data Result {ℓ κ} (X : Type ℓ) (A : Type κ) : Type (ℓ ⊔ κ) where
  ok : A → Result X A
  ended : X → Result X A

abbrev pub Action : Type 0 → Type 0 → Type 0 → Type 0
Action W X A = List W → Result X A × List W

module _ {W X : Type 0} where
  abbrev pub and_then :
      {A B : Type 0} → Result X A × List W → (A → Action W X B) → Result X B × List W
  and_then (ok a, es) f = f a es
  and_then (ended x, es) f = (ended x, es)

  abbrev pub pure : {A : Type 0} → A → Action W X A
  pure a es = (ok a, es)

  abbrev pub stop : {A : Type 0} → X → Action W X A
  stop x es = (ended x, es)

  abbrev pub perform : W → Action W X (Unit {0})
  perform e es = (ok tt, e ∷ es)

infixl 5 ◌>>=◌ ◌>>◌
abbrev pub ◌>>=◌ : {W X A B : Type 0} → Action W X A → (A → Action W X B) → Action W X B
◌>>=◌ m f es = and_then (m es) f

abbrev pub ◌>>◌ : {W X A B : Type 0} → Action W X A → Action W X B → Action W X B
m >> k = m >>= λ _. k
