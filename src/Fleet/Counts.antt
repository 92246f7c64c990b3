-- ===== src/Fleet/Counts.antt =====
-- The services that are still to answer, and what holds of a fleet at all times.

use fectl.Prelude.{
  ℕ, ◌+◌, ◌≡◌, ◌≢◌, refl, sym, ap, ◌∙◌, subst, arith, Bool, true, false, List, [], ◌∷◌, ◌++◌, map,
  All,
}
use fectl.Command.{Order, State, stop_system}
use fectl.System.{Addr}
use fectl.Fleet.{Fleet, IsNew, IsStart, Member, Status, done, idle, replied, sent, waiting}
use fectl.Fleet.Members.{IsKept, new-IsKept}

-- Has the command center stopped the system?
unfoldable pub has_exited : List Order → Bool
has_exited [] = false
has_exited (stop_system ∷ os) = true
has_exited (_ ∷ os) = has_exited os

-- 1 for a service that is still to answer.
unfoldable pub pending : Status → ℕ
pending idle = 0
pending (sent g) = 1
pending (waiting c) = 1
pending replied = 1
pending done = 0

unfoldable pub total : List Member → ℕ
total [] = 0
total (m ∷ ms) = pending m.status + total ms

abbrev pub IsIdle : Member → Type 0
IsIdle m = m.status ≡ idle

-- The service has been asked to stop.
abbrev pub IsCalled : Member → Type 0
IsCalled m = m.status ≢ idle

abbrev pub addresses : List Member → List Addr
addresses ms = map (λ m. m.addr) ms

pub All-replace :
    (P : Member → Type 0) (before after : List Member) (m m' : Member)
    → All P (before ++ m ∷ after)
    → (P m → P m')
    → All P (before ++ m' ∷ after)
All-replace P [] after m m' h f = (f h.0, h.1)
All-replace P (x ∷ before) after m m' h f = (h.0, All-replace P before after m m' h.1 f)

pub All-middle :
    (P : Member → Type 0) (before after : List Member) (m : Member)
    → All P (before ++ m ∷ after)
    → P m
All-middle P [] after m h = h.0
All-middle P (x ∷ before) after m h = All-middle P before after m h.1

pub total-replace :
    (before after : List Member) (m m' : Member)
    → total (before ++ m' ∷ after) + pending m.status
      ≡ total (before ++ m ∷ after) + pending m'.status
unfolding total
total-replace [] after m m' = omega arith
total-replace (x ∷ before) after m m' = omega (arith, total-replace before after m m')

pub addresses-replace :
    (before after : List Member) (m m' : Member)
    → m'.addr ≡ m.addr
    → addresses (before ++ m' ∷ after) ≡ addresses (before ++ m ∷ after)
addresses-replace [] after m m' e = ap (λ a. a ∷ addresses after) e
addresses-replace (x ∷ before) after m m' e =
    ap (λ xs. x.addr ∷ xs) (addresses-replace before after m m' e)

pub record IsOrderly (f : Fleet) : Type 0 where
  pub kept : All IsKept f.members
  pub known : addresses f.members ≡ map (λ s. s.1) f.center.services
  pub counted : f.center.stopping ≡ total f.members
  pub at_work :
      f.center.state ≢ State.stopping → All IsIdle f.members × (has_exited f.orders ≡ false)
  pub at_end :
      f.center.state ≡ State.stopping
      → All IsCalled f.members × (has_exited f.orders ≡ true → total f.members ≡ 0)

pub total_idle : (ms : List Member) → All IsIdle ms → total ms ≡ 0
unfolding total pending
total_idle [] h = refl
total_idle (m ∷ ms) h = ground (arith, h.0, total_idle ms h.1)

news-IsKept : (ms : List Member) → All IsNew ms → All IsKept ms × All IsIdle ms
news-IsKept [] h = (tt, tt)
news-IsKept (m ∷ ms) h = let (k, i) = news-IsKept ms h.1 in ((new-IsKept m h.0, k), (h.0.3.3, i))

pub start-IsOrderly : (f : Fleet) → IsStart f → IsOrderly f
unfolding has_exited
start-IsOrderly f (new, known, running, none_asked, quiet) =
    let (k, i) = news-IsKept f.members new in
    record {
      kept = k;
      known = known;
      counted = none_asked ∙ sym (total_idle f.members i);
      at_work = λ h. (i, rw quiet refl);
      at_end = λ h. absurd (grind (arith, running, h));
    }

-- A step of one service, which is asked for nothing else by it.
pub member-IsOrderly :
    (f : Fleet) (before after : List Member) (m m' : Member)
    → IsOrderly f
    → f.members ≡ before ++ m ∷ after
    → m'.addr ≡ m.addr
    → pending m'.status ≡ pending m.status
    → (IsIdle m → IsIdle m')
    → (IsCalled m → IsCalled m')
    → (IsKept m → IsKept m')
    → IsOrderly (record f { members = before ++ m' ∷ after })
member-IsOrderly f before after m m' k e a o rests calls keeps = record {
  kept = All-replace IsKept before after m m' (subst (All IsKept) e k.kept) keeps;
  known = addresses-replace before after m m' a ∙ ap addresses (sym e) ∙ k.known;
  counted = omega (arith, k.counted, ap total e, total-replace before after m m', o);
  at_work = λ h.
      let (i, x) = k.at_work h in
      (All-replace IsIdle before after m m' (subst (All IsIdle) e i) rests, x);
  at_end = λ h.
      let (c, x) = k.at_end h in
      (
        All-replace IsCalled before after m m' (subst (All IsCalled) e c) calls,
        λ y. omega (arith, x y, ap total e, total-replace before after m m', o),
      );
}
