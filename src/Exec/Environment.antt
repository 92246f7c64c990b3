-- ===== src/Exec/Environment.antt =====
-- src/utils.rs and src/exec.rs: the environment of a worker, written out.
use Prim.Native.String.{◌++◌, String}
use mathlib.Core.List.{◌++◌ as ◌++ₗ◌}
use text.Mathlib.Text.{starts_with}
use text.Mathlib.TextEquality.{starts_with_iff}
use text.Mathlib.TextLemmas.{cons-append}
use Prim.Native.Char.{Char, code}
use fectl.Prelude.{
  ◌≢◌, ◌||◌, sym, if◌then◌else◌, ap, inl, inr, true, Bool-cases, ℕ, ◌≡◌, ◌∙◌, refl, arith, false,
  List, [], ◌∷◌,
}
use fectl.Config.{ServiceConfig}
use fectl.Exec.{worker_env}
use fectl.Exec.Child.{Surroundings}
use fectl.Utils.{get_env_vars}

-- The variables of a worker. All are passed on but those whose names begin by an underscore, and of
-- these none begins like the ones that are passed on in any case.
abbrev pub kept : List (String × String) → List String
kept [] = []
kept ((name, value) ∷ vars) =
    if starts_with name "_" then kept vars else (name ++ "=" ++ value) ∷ kept vars

-- The code of the first character.
abbrev first : String → ℕ
first String.[] = 0
first (String.◌∷◌ c s) = code c

first-append : (c : Char) (s t : String) → first (String.◌∷◌ c s ++ t) ≡ code c
first-append c s t = ap first (cons-append c s t)

no_prefix :
    (name : String) (c : Char) (s : String)
    → code c ≢ b'_'
    → starts_with name "_" ≡ true
    → starts_with name (String.◌∷◌ c s) ≡ false
no_prefix name c s other h = elim (Bool-cases (starts_with name (String.◌∷◌ c s))) [
  | inl k ↦
      let (r, e) = (starts_with_iff name "_").0 h in
      let (q, d) = (starts_with_iff name (String.◌∷◌ c s)).0 k in
      let same : first ("_" ++ r) ≡ first (String.◌∷◌ c s ++ q) = ap first (e ∙ sym d) in
      absurd (other (sym (first-append c s q) ∙ sym same ∙ first-append "_" "" r))
  | inr k ↦ k
]

underscored :
    (name : String)
    → starts_with name "_" ≡ true
    → (starts_with name "FECTL_FD" || starts_with name "LANG" || starts_with name "LC_") ≡ false
underscored name h =
    rw
      (
        no_prefix name "F" "ECTL_FD" (omega arith) h,
        no_prefix name "L" "ANG" (omega arith) h,
        no_prefix name "L" "C_" (omega arith) h,
      )
      refl

get_env_vars-kept : (vars : List (String × String)) → get_env_vars true vars ≡ kept vars
unfolding get_env_vars
get_env_vars-kept [] = refl
get_env_vars-kept ((name, value) ∷ vars) = elim (Bool-cases (starts_with name "_")) [
  | inl h ↦ rw h (rw (underscored name h) (get_env_vars-kept vars))
  | inr h ↦ rw h (ap (λ ss. (name ++ "=" ++ value) ∷ ss) (get_env_vars-kept vars))
]

abbrev pub environment : Surroundings → ℕ → ServiceConfig → ℕ → ℕ → List String
environment m idx cfg read write =
    kept m.vars
    ++ₗ ("FECTL_FD=" ++ m.format_number read ++ ":" ++ m.format_number write)
      ∷ ("FECTL_SRV_NAME=" ++ cfg.name)
      ∷ ("FECTL_PROC_IDX=" ++ m.format_number idx)
      ∷ []

pub worker_env-environment :
    (m : Surroundings) (idx : ℕ) (cfg : ServiceConfig) (read write : ℕ)
    → worker_env m idx cfg read write ≡ environment m idx cfg read write
unfolding worker_env
worker_env-environment m idx cfg read write = rw (get_env_vars-kept m.vars) refl
