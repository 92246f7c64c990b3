-- ===== src/Fleet/Orders.antt =====
-- The messages of the command center when it stops.
use mathlib.Core.List.{append-nil, append_assoc}
use fectl.Prelude.{
  ==_self, ◌+◌, ◌≡◌, ◌≢◌, inl, inr, refl, sym, ap, ◌∙◌, subst, arith, String, Bool, false, ◌||◌,
  some, List, [], ◌∷◌, ◌++◌, map, All, length,
}
use fectl.Command.{CommandCenter, Order, State, stop}
use fectl.Command.Shutdown.{State-cases, stop-again, stop-first, stop_orders}
use fectl.System.{Addr}
use fectl.Fleet.{Fleet, Member, post, sent, stop_for}
use fectl.Fleet.Members.{IsKept}
use fectl.Fleet.Counts.{IsCalled, IsOrderly, addresses, has_exited, pending, total, total_idle}

-- The stop of a service that has not been asked before is in its mailbox.
abbrev IsPosted : Bool → List Order → Member → Type 0
IsPosted g os m = stop_for m.addr os ≡ some g

stop_for-stop_orders :
    (g : Bool) (a : Addr) (n : String) (before after : List (String × Addr))
    → stop_for a (stop_orders g (before ++ (n, a) ∷ after)) ≡ some g
unfolding stop_for stop_orders
stop_for-stop_orders g a n [] after = ground (arith, ==_self a)
stop_for-stop_orders g a n ((n', b) ∷ before) after =
    ground (arith, stop_for-stop_orders g a n before after)

all-IsPosted :
    (g : Bool) (before ss : List (String × Addr)) (ms : List Member)
    → addresses ms ≡ map (λ s. s.1) ss
    → All (IsPosted g (stop_orders g (before ++ ss))) ms
all-IsPosted g before ss [] e = tt
all-IsPosted g before [] (m ∷ ms) e = absurd (ground arith)
all-IsPosted g before ((n, a) ∷ ss) (m ∷ ms) e =
    let same : m.addr ≡ a = ground arith in
    let others : addresses ms ≡ map (λ s. s.1) ss = ground arith in
    (
      subst (λ x. stop_for x (stop_orders g (before ++ (n, a) ∷ ss)) ≡ some g) (sym same)
          (stop_for-stop_orders g a n before ss),
      subst (λ xs. All (IsPosted g (stop_orders g xs)) ms) (append_assoc before ((n, a) ∷ []) ss)
          (all-IsPosted g (before ++ (n, a) ∷ []) ss ms others),
    )

post-sent :
    (g : Bool) (os : List Order) (m : Member)
    → IsPosted g os m
    → post os m ≡ record m { status = sent g }
unfolding post
post-sent g os m h = grind (arith, h)

sent-IsKept : (g : Bool) (m : Member) → IsKept m → IsKept (record m { status = sent g })
sent-IsKept g m k = record { balanced = k.balanced; consistent = k.consistent; agrees = tt }

posted :
    (g : Bool) (os : List Order) (ms : List Member)
    → All (IsPosted g os) ms
    → All IsKept ms
    → All IsKept (map (post os) ms)
      × (addresses (map (post os) ms) ≡ addresses ms)
      × (total (map (post os) ms) ≡ length ms)
      × All IsCalled (map (post os) ms)
unfolding total pending
posted g os [] h k = (tt, refl, refl, tt)
posted g os (m ∷ ms) h k =
    let (kept, same, all, called) = posted g os ms h.1 k.1 in
    rw (post-sent g os m h.0) (
      (sent-IsKept g m k.0, kept),
      ap (λ xs. m.addr ∷ xs) same,
      omega (arith, all),
      (λ e. absurd (ground arith), called),
    )

pub has_exited-append :
    (xs ys : List Order) → has_exited (xs ++ ys) ≡ (has_exited xs || has_exited ys)
unfolding has_exited
has_exited-append [] ys = refl
has_exited-append (x ∷ xs) ys = ground (arith, has_exited-append xs ys)

has_exited-stop_orders :
    (g : Bool) (ss : List (String × Addr)) → has_exited (stop_orders g ss) ≡ false
unfolding has_exited stop_orders
has_exited-stop_orders g [] = refl
has_exited-stop_orders g ((n, a) ∷ ss) = has_exited-stop_orders g ss

pub known-length :
    (ms : List Member) (ss : List (String × Addr))
    → addresses ms ≡ map (λ s. s.1) ss
    → length ms ≡ length ss
known-length [] [] e = refl
known-length [] (s ∷ ss) e = absurd (ground arith)
known-length (m ∷ ms) [] e = absurd (ground arith)
known-length (m ∷ ms) (s ∷ ss) e = omega (arith, known-length ms ss (ground arith))

pub map-post : (ms : List Member) → map (post []) ms ≡ ms
unfolding post stop_for
map-post [] = refl
map-post (m ∷ ms) = ap (λ t. m ∷ t) (map-post ms)

-- The fleet after the command center has put its messages into the mailboxes.
unfoldable pub ordered : Fleet → CommandCenter × List Order → Fleet
ordered f (c, os) = record {
  center = c;
  members = map (post os) f.members;
  orders = f.orders ++ os;
}

again-IsOrderly : (f : Fleet) → IsOrderly f → IsOrderly (ordered f (f.center, []))
unfolding ordered
again-IsOrderly f k = rw (map-post f.members, append-nil f.orders) k

first-IsOrderly :
    (g : Bool) (f : Fleet)
    → IsOrderly f
    → f.center.state ≢ State.stopping
    → IsOrderly (
        ordered f (
          record f.center {
            state = State.stopping;
            stopping = length f.center.services + f.center.stopping;
          },
          stop_orders g f.center.services,
        ))
unfolding ordered
first-IsOrderly g f k h =
    let ss = f.center.services in
    let os = stop_orders g ss in
    let (idle_all, working) = k.at_work h in
    let (kept, same, all, called) =
      posted g os f.members (all-IsPosted g [] ss f.members k.known) k.kept in
    record {
      kept = kept;
      known = same ∙ k.known;
      counted =
          omega (
            arith,
            all,
            known-length f.members ss k.known,
            k.counted,
            total_idle f.members idle_all,
          );
      at_work = λ x. absurd (x refl);
      at_end = λ x. (
        called,
        λ y. absurd (
            ground (arith, y, has_exited-append f.orders os, working, has_exited-stop_orders g ss)),
      );
    }

pub shutdown-IsOrderly :
    (g : Bool) (f : Fleet) → IsOrderly f → IsOrderly (ordered f (stop g f.center))
shutdown-IsOrderly g f k = elim (State-cases f.center.state) [
  | inl e ↦ rw (stop-again g f.center e) (again-IsOrderly f k)
  | inr h ↦ rw (stop-first g f.center h) (first-IsOrderly g f k h)
]
