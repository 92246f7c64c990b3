-- ===== src/Service/Lifecycle.antt =====
-- A service from its creation through any messages.
use fectl.Prelude.{ℕ, zero, suc, ◌≤◌, ◌≡◌, arith, [], Option, none, some, List, length, All}
use fectl.Config.{ServiceConfig}
use fectl.Event.{Reason}
use fectl.System.{Os, Addr, ask}
use fectl.Worker
use fectl.Worker.Methods.{Method, perform}
use fectl.Worker.Silent.{answered, perform-IsSilent}
use fectl.Service.{FeService, create, started, fresh, make_workers}
use fectl.Service.Conditions.{handle_all-IsBalanced}
use fectl.Service.Ledger.{IsBalanced, held, for_each-IsSilent}
use fectl.Service.Loops.{Ends}
use fectl.Service.Panics.{InRange, Returns, handle_all-Returns, create-length}
use fectl.Service.Requests.{Request, handle_all}
use fectl.Service.Stopping.{IsConsistent, handle_all-IsConsistent}

-- There is a result, and it has the property.
abbrev pub Yields {ℓ} : {A : Type ℓ} → (A → Type 0) → Option A → Type 0
Yields P none = ⊥
Yields P (some a) = P a

Yields-both :
    (n : ℕ) (P : FeService × Os → Type 0) (o : Option (FeService × Os))
    → Returns n o
    → Ends P o
    → Yields (λ r. (length r.0.workers ≡ n) × P r) o
Yields-both n P none h k = h
Yields-both n P (some r) h k = (h, k)

-- So many workers; if the service counts as stopped, all its workers are stopped, and while it
-- stops, every worker is stopped or waits for the exit of its process.
abbrev pub IsSound : ℕ → FeService × Os → Type 0
IsSound n (s, os) = (length s.workers ≡ n) × IsConsistent s

pub created-IsConsistent :
    (num : ℕ) (cfg : ServiceConfig) (addr : Addr) (os : Os)
    → let (s, os') = create num cfg addr os in IsConsistent (started s os').0
unfolding create started fresh
created-IsConsistent num cfg addr os = tt

-- A new service with `num` workers handles any messages, commands and reports in any order, that
-- name no other worker: no handler panics, the service keeps its workers, if it then counts as
-- stopped every worker is stopped, and if it stops every worker is stopped or waits for the exit of
-- its process.
pub handle_all-IsSound :
    (num : ℕ) (cfg : ServiceConfig) (addr : Addr) (os : Os) (rs : List Request)
    → All (InRange num) rs
    → let (s₀, os₀) = create num cfg addr os in
      let (s₁, os₁) = started s₀ os₀ in Yields (IsSound num) (handle_all rs s₁ os₁)
handle_all-IsSound num cfg addr os rs h =
    let (s₀, os₀) = create num cfg addr os in
    let (s₁, os₁) = started s₀ os₀ in
    Yields-both num (λ r. IsConsistent r.0) (handle_all rs s₁ os₁)
      (handle_all-Returns num rs s₁ os₁ (create-length num cfg addr os) h)
      (handle_all-IsConsistent rs s₁ os₁ (created-IsConsistent num cfg addr os))

make_workers_quiet :
    (n idx : ℕ) (cfg : ServiceConfig) (addr : Addr) (os : Os)
    → let os' = (make_workers n idx cfg addr os).1 in
      (os'.calls ≡ os.calls) × (os'.next_condition ≡ os.next_condition)
unfolding make_workers Worker.new ask
make_workers_quiet zero idx cfg addr os = ground arith
make_workers_quiet (suc n) idx cfg addr os =
    ground (arith, make_workers_quiet n (suc idx) cfg addr (Worker.new idx cfg addr os).1)

pub create-IsBalanced :
    (c num : ℕ) (cfg : ServiceConfig) (addr : Addr) (os : Os)
    → os.calls ≡ []
    → os.next_condition ≤ c
    → let (s₀, os₀) = create num cfg addr os in IsBalanced c (started s₀ os₀)
unfolding create started fresh held answered perform
create-IsBalanced c num cfg addr os e h =
    let (s, os') = create num cfg addr os in
    ground (
      arith,
      make_workers_quiet num 0 cfg addr os,
      for_each-IsSilent c (Worker.start Reason.initial) s.workers os'
          (λ w o. perform-IsSilent c (Method.start Reason.initial) w o),
    )

-- Take any condition `c` that has not been made when a service with `num` workers is created, and
-- any messages to the service that name no other worker. Then no handler panics, and if `c` has been
-- made by then, for the service's first start or for a command, either the service holds it, so that
-- it is still to be answered, or it has been answered exactly once. If it has not been made, it has
-- not been answered. No call has been recorded before the service is created.
pub handle_all-answers :
    (c num : ℕ) (cfg : ServiceConfig) (addr : Addr) (os : Os) (rs : List Request)
    → os.calls ≡ []
    → os.next_condition ≤ c
    → All (InRange num) rs
    → let (s₀, os₀) = create num cfg addr os in
      let (s₁, os₁) = started s₀ os₀ in
      Yields (λ r. (length r.0.workers ≡ num) × IsBalanced c r) (handle_all rs s₁ os₁)
handle_all-answers c num cfg addr os rs e l h =
    let (s₀, os₀) = create num cfg addr os in
    let (s₁, os₁) = started s₀ os₀ in
    Yields-both num (IsBalanced c) (handle_all rs s₁ os₁)
      (handle_all-Returns num rs s₁ os₁ (create-length num cfg addr os) h)
      (handle_all-IsBalanced c rs s₁ os₁ (create-IsBalanced c num cfg addr os e l))
