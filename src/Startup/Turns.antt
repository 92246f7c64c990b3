-- ===== src/Startup/Turns.antt =====
-- The rounds in which a starting master waits for the local address.
use fectl.Prelude.{
  ap, ◌∙◌, ◌==◌, Bool-cases, Option-cases, ℕ, zero, suc, ◌+◌, ◌≤◌, ◌≡◌, inl, inr, refl, arith,
  String, Bool, true, false, none, some, List, [], ◌∷◌, ◌++◌,
}
use fectl.Steps.{ok, ended}
use fectl.Steps.Ends.{Ends, Ends-weaken}
use fectl.Startup.{bind_host}
use fectl.Startup.HostCalls.{Effect, Host, Refusal, locked, returned, slept, started}

-- Have the actors of the master been started?
unfoldable pub has_started : List Effect → Bool
has_started [] = false
has_started (started ∷ es) = true
has_started (e ∷ es) = has_started es

-- The rounds in which another process had the local address.
unfoldable pub waits : ℕ → List Effect
waits zero = []
waits (suc n) = slept 5 ∷ waits n

abbrev pub Unstarted : Refusal → List Effect → Type 0
Unstarted x es = has_started es ≡ false

pub waits-Unstarted :
    (n : ℕ) (es : List Effect) → has_started es ≡ false → has_started (waits n ++ es) ≡ false
unfolding waits has_started
waits-Unstarted zero es h = h
waits-Unstarted (suc n) es h = waits-Unstarted n es h

module _ (host : Host) where
  module _ (left idx : ℕ) (es : List Effect) where
    bind_free : host.bind idx ≡ none → bind_host host (suc left) idx es ≡ (ok tt, locked ∷ es)
    unfolding bind_host
    bind_free e = grind (arith, e)

    bind_last :
        (err : String)
        → host.bind idx ≡ some err
        → (idx == 8) ≡ true
        → bind_host host (suc left) idx es ≡ (ended returned, es)
    unfolding bind_host
    bind_last err e h = grind (arith, e, h)

    bind_taken :
        (err : String)
        → host.bind idx ≡ some err
        → (idx == 8) ≡ false
        → bind_host host (suc left) idx es ≡ bind_host host left (suc idx) (slept 5 ∷ es)
    unfolding bind_host
    bind_taken err e h = grind (arith, e, h)

  waits-newest : (n : ℕ) (es : List Effect) → waits n ++ (slept 5 ∷ es) ≡ waits (suc n) ++ es
  unfolding waits
  waits-newest zero es = refl
  waits-newest (suc n) es = ap (λ t. slept 5 ∷ t) (waits-newest n es)

  -- The address is held after that many further rounds, before round 9.
  abbrev pub Held : ℕ → List Effect → Unit {0} → List Effect → Type 0
  Held idx es u es' = (n : ℕ) × (idx + n ≤ 8) × (es' ≡ locked ∷ (waits n ++ es))

  Held-later :
      (idx : ℕ) (es : List Effect) (u : Unit {0}) (es' : List Effect)
      → Held (suc idx) (slept 5 ∷ es) u es'
      → Held idx es u es'
  Held-later idx es u es' (n, b, e) =
      (suc n, omega arith, e ∙ ap (λ t. locked ∷ t) (waits-newest n es))

  pub bind_host-Ends :
      (left idx : ℕ) (es : List Effect)
      → left + idx ≡ 10
      → idx ≤ 8
      → has_started es ≡ false
      → Ends (Held idx es) Unstarted (bind_host host left idx es)
  unfolding waits has_started
  bind_host-Ends zero idx es e b h = absurd (omega arith)
  bind_host-Ends (suc left) idx es e b h = elim (Option-cases (host.bind idx)) [
    | inl free ↦ rw (bind_free left idx es free) (0, omega arith, refl)
    | inr (err, taken) ↦ elim (Bool-cases (idx == 8)) [
      | inl last ↦ rw (bind_last left idx es err taken last) h
      | inr earlier ↦
          let rest = bind_host host left (suc idx) (slept 5 ∷ es) in
          let below : suc idx ≤ 8 = ground arith in
          rw (bind_taken left idx es err taken earlier) (
            Ends-weaken (Held (suc idx) (slept 5 ∷ es)) (Held idx es) Unstarted Unstarted rest
              (Held-later idx es) (λ x es' u. u)
              (bind_host-Ends left (suc idx) (slept 5 ∷ es) (omega arith) below h))
    ]
  ]
