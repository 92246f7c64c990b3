-- ===== src/Command/Routing.antt =====
-- Requests reach the service of their name.
use text.Mathlib.Text.{◌==◌}
use text.Mathlib.TextEquality.{eq_iff}
use fectl.Prelude.{String, ◌≡◌, ◌≢◌, arith, some, List, [], ◌∷◌, ◌++◌, refl, All, if◌then◌else◌}
use text.Mathlib.TextPositions.{eq_refl}
use fectl.System.{Addr}
use fectl.Command.{CommandCenter, get, insert, add_services, started, route, ask}

get-insert :
    (name other : String) (addr : Addr) (s : List (String × Addr))
    → get other (insert name addr s) ≡ (if name == other then some addr else get other s)
unfolding get insert
get-insert name other addr [] = ground arith
get-insert name other addr ((n, a) ∷ rest) =
    ground
      (arith, eq_iff n name, eq_iff n other, eq_iff name other, get-insert name other addr rest)

-- A name that is configured no more keeps its address.
get-add_services :
    (name : String) (cfgs s : List (String × Addr))
    → All (λ c. c.0 ≢ name) cfgs
    → get name (add_services cfgs s) ≡ get name s
unfolding add_services
get-add_services name [] s h = ground arith
get-add_services name ((n, a) ∷ cfgs) s h = ground (
  arith,
  get-insert n name a s,
  get-add_services name cfgs (insert n a s) h.1,
  eq_iff n name,
  h.0,
)

get-add_services_last :
    (name : String) (addr : Addr) (before after s : List (String × Addr))
    → All (λ c. c.0 ≢ name) after
    → get name (add_services (before ++ (name, addr) ∷ after) s) ≡ some addr
unfolding add_services
get-add_services_last name addr [] after s h = ground (
  arith,
  get-add_services name after (insert name addr s) h,
  get-insert name name addr s,
  eq_refl name,
)
get-add_services_last name addr ((n, a) ∷ before) after s h =
    get-add_services_last name addr before after (insert n a s) h

-- Once the command center has started, a request by name asks the service that was configured under
-- this name last, whatever services were configured before and after it.
route-started :
    (name : String) (addr : Addr) (before after : List (String × Addr)) (c : CommandCenter)
    → All (λ s. s.0 ≢ name) after
    → route name (started (before ++ (name, addr) ∷ after) c) ≡ ask addr
unfolding route started
route-started name addr before after c h =
    rw (get-add_services_last name addr before after c.services h) refl
