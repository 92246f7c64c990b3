-- ===== src/Command/Iteration.antt =====
-- The order in which the `HashMap` of src/cmd.rs is gone through does not matter.

use text.Mathlib.TextEquality.{eq_iff}
use mathlib.Core.List.{Permᴰ}
use mathlib.Core.List.Permᴰ
use fectl.Prelude.{
  suc, length, map, ◌≡◌, ◌≢◌, ◌∙◌, sym, ap, refl, subst, arith, String, Bool, List, [], ◌∷◌, ◌++◌,
  All,
}
use fectl.Command.Shutdown.{stop_orders}
use fectl.Event.{Reason}
use fectl.Process.Error.{ProcessError, from}
use fectl.System.{Addr, Pid}
use fectl.Command.{Order, WaitStatus, add_services, get, insert, reap, send_exited, send_stop, tell}

abbrev pub Table : Type 0
Table = List (String × Addr)

-- A name stands once in the table.
unfoldable pub IsTable : Table → Type 0
IsTable [] = Unit
IsTable (s ∷ rest) = All (λ t. t.0 ≢ s.0) rest × IsTable rest

insert-All :
    (n name : String) (addr : Addr) (s : Table)
    → n ≢ name
    → All (λ t. t.0 ≢ n) s
    → All (λ t. t.0 ≢ n) (insert name addr s)
unfolding insert
insert-All n name addr [] e h = ((λ x. e (sym x)), tt)
insert-All n name addr ((m, a) ∷ rest) e (g, h) =
    ground (arith, eq_iff m name, insert-All n name addr rest e h)

insert-IsTable :
    (name : String) (addr : Addr) (s : Table) → IsTable s → IsTable (insert name addr s)
unfolding IsTable insert
insert-IsTable name addr [] h = (tt, tt)
insert-IsTable name addr ((n, a) ∷ rest) (g, h) =
    ground (arith, eq_iff n name, insert-All n name addr rest, insert-IsTable name addr rest h)

pub add_services-IsTable : (cfgs s : Table) → IsTable s → IsTable (add_services cfgs s)
unfolding add_services
add_services-IsTable [] s h = h
add_services-IsTable ((n, a) ∷ cfgs) s h =
    add_services-IsTable cfgs (insert n a s) (insert-IsTable n a s h)

Perm-All : (n : String) {s t : Table} → Permᴰ s t → All (λ x. x.0 ≢ n) s → All (λ x. x.0 ≢ n) t
Perm-All n Permᴰ.nil h = tt
Perm-All n (Permᴰ.cons e d) h = ((λ x. h.0 (ap (λ y. y.0) e ∙ x)), Perm-All n d h.1)
Perm-All n (Permᴰ.swap e e') h =
    (subst (λ x. x.0 ≢ n) e' h.1.0, (subst (λ x. x.0 ≢ n) e h.0, h.1.1))
Perm-All n (Permᴰ.trans d d') h = Perm-All n d' (Perm-All n d h)

swapped : (a b : String × Addr) (l : Table) → IsTable (a ∷ b ∷ l) → IsTable (b ∷ a ∷ l)
unfolding IsTable
swapped a b l h = (((λ x. h.0.0 (sym x)), h.1.0), (h.0.1, h.1.1))

pub Perm-IsTable : {s t : Table} → Permᴰ s t → IsTable s → IsTable t
unfolding IsTable
Perm-IsTable Permᴰ.nil h = tt
Perm-IsTable (Permᴰ.cons {a = a} {b = b} {l₂ = t} e d) h = (
  subst (λ (x : String × Addr). All (λ y. y.0 ≢ x.0) t) e (Perm-All a.0 d h.0),
  Perm-IsTable d h.1,
)
Perm-IsTable (Permᴰ.swap {a = a} {b = b} {b' = b'} {l = l} e e') h =
    subst (λ x. IsTable (x ∷ b' ∷ l)) e' (subst (λ y. IsTable (b ∷ y ∷ l)) e (swapped a b l h))
Perm-IsTable (Permᴰ.trans d d') h = Perm-IsTable d' (Perm-IsTable d h)

pub get-Perm : (name : String) {s t : Table} → Permᴰ s t → IsTable s → get name s ≡ get name t
unfolding get IsTable
get-Perm name Permᴰ.nil h = refl
get-Perm name (Permᴰ.cons e d) h = ground (arith, e, get-Perm name d h.1)
get-Perm name (Permᴰ.swap {a = a} {b = b} e e') h =
    ground (arith, e, e', h.0.0, eq_iff a.0 name, eq_iff b.0 name)
get-Perm name (Permᴰ.trans d d') h = get-Perm name d h ∙ get-Perm name d' (Perm-IsTable d h)

module _ {A B : Type 0} (f : A → B) where
  pub map-Perm : {s t : List A} → Permᴰ s t → Permᴰ (map f s) (map f t)
  map-Perm Permᴰ.nil = Permᴰ.nil
  map-Perm (Permᴰ.cons e d) = Permᴰ.cons (ap f e) (map-Perm d)
  map-Perm (Permᴰ.swap e e') = Permᴰ.swap (ap f e) (ap f e')
  map-Perm (Permᴰ.trans d d') = Permᴰ.trans (map-Perm d) (map-Perm d')

pub length-Perm : {s t : Table} → Permᴰ s t → length s ≡ length t
length-Perm Permᴰ.nil = refl
length-Perm (Permᴰ.cons e d) = ap suc (length-Perm d)
length-Perm (Permᴰ.swap e e') = refl
length-Perm (Permᴰ.trans d d') = length-Perm d ∙ length-Perm d'

stop_orders-map :
    (g : Bool) (s : Table) → stop_orders g s ≡ map (λ x. send_stop x.1 g Reason.exit) s
unfolding stop_orders
stop_orders-map g [] = refl
stop_orders-map g ((n, a) ∷ s) = ap (λ os. send_stop a g Reason.exit ∷ os) (stop_orders-map g s)

tell-map :
    (pid : Pid) (e : ProcessError) (s : Table) → tell pid e s ≡ map (λ x. send_exited x.1 pid e) s
unfolding tell
tell-map pid e [] = refl
tell-map pid e ((n, a) ∷ s) = ap (λ os. send_exited a pid e ∷ os) (tell-map pid e s)

pub stop_orders-Perm :
    (g : Bool) {s t : Table} → Permᴰ s t → Permᴰ (stop_orders g s) (stop_orders g t)
stop_orders-Perm g {s = s} {t = t} d =
    rw (stop_orders-map g s, stop_orders-map g t) (map-Perm (λ x. send_stop x.1 g Reason.exit) d)

tell-Perm :
    (pid : Pid) (e : ProcessError) {s t : Table} → Permᴰ s t → Permᴰ (tell pid e s) (tell pid e t)
tell-Perm pid e {s = s} {t = t} d =
    rw (tell-map pid e s, tell-map pid e t) (map-Perm (λ x. send_exited x.1 pid e) d)

append-Perm : {xs ys zs ws : List Order} → Permᴰ xs ys → Permᴰ zs ws → Permᴰ (xs ++ zs) (ys ++ ws)
append-Perm {ys = ys} {zs = zs} d d' =
    Permᴰ.trans (Permᴰ.append_right zs d) (Permᴰ.append_left ys d')

pub reap-Perm : (ws : List WaitStatus) {s t : Table} → Permᴰ s t → Permᴰ (reap ws s) (reap ws t)
unfolding reap
reap-Perm [] d = Permᴰ.nil
reap-Perm (WaitStatus.exited pid code ∷ ws) d =
    append-Perm (tell-Perm pid (from code) d) (reap-Perm ws d)
reap-Perm (WaitStatus.signaled pid sig ∷ ws) d =
    append-Perm (tell-Perm pid (ProcessError.signal sig) d) (reap-Perm ws d)
reap-Perm (WaitStatus.other ∷ ws) d = Permᴰ.nil
