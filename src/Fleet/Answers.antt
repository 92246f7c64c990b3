-- ===== src/Fleet/Answers.antt =====
-- The answers of the services, and all steps of a fleet.
use mathlib.Core.List.{append-nil}
use fectl.Prelude.{
  ℕ, zero, suc, ◌≡◌, ◌≢◌, inl, inr, refl, sym, ap, ◌∙◌, subst, arith, Bool, true, some, List, [],
  ◌∷◌, ◌++◌, map, All,
}
use fectl.Command.{CommandCenter, Order, State, exit, stop_answered}
use fectl.Event.{Reason}
use fectl.Service.Commands
use fectl.Service.Commands.{Response, async, reply}
use fectl.Service.Requests.{Request}
use fectl.Fleet.{
  Fleet, Member, Reach, Status, Step, accept_stop, done, idle, is_answered, later, replied, sent,
  serve, start, status_of, waiting,
}
use fectl.Fleet.Members.{
  IsKept, serve-same, accept_stop-IsKept, answered-IsKept, command-IsKept, signal-IsKept,
}
use fectl.Fleet.Counts.{
  IsCalled, IsIdle, IsOrderly, All-middle, All-replace, addresses, addresses-replace, has_exited,
  member-IsOrderly, pending, start-IsOrderly, total, total-replace,
}
use fectl.Command.Shutdown.{State-cases}
use fectl.Fleet.Orders.{ordered, shutdown-IsOrderly}

-- The answer of a service is taken.
stop_answered-cases :
    (c c' : CommandCenter) (os : List Order)
    → stop_answered c ≡ some (c', os)
    → (c.stopping ≡ suc c'.stopping)
      × (c'.state ≡ c.state)
      × (c'.services ≡ c.services)
      × (c'.stopping ≢ 0 → os ≡ [])
unfolding stop_answered exit
stop_answered-cases c c' os e = (ground arith, ground arith, ground arith, λ h. ground (arith, h))

pub answered_pending :
    (t : Status) (m : Member)
    → m.status ≡ t
    → is_answered m ≡ true
    → (pending m.status ≡ 1) × IsCalled m
unfolding is_answered pending
answered_pending idle m e h = absurd (ground arith)
answered_pending (sent g) m e h = absurd (ground arith)
answered_pending (waiting c) m e h = (ground arith, λ x. absurd (ground arith))
answered_pending replied m e h = (ground arith, λ x. absurd (ground arith))
answered_pending done m e h = absurd (ground arith)

-- Who has been called works for a command center that stops.
called-State :
    (f : Fleet) (before after : List Member) (m : Member)
    → IsOrderly f
    → f.members ≡ before ++ m ∷ after
    → IsCalled m
    → f.center.state ≡ State.stopping
called-State f before after m k e c = elim (State-cases f.center.state) [
  | inl h ↦ h
  | inr h ↦ absurd (c (All-middle IsIdle before after m (subst (All IsIdle) e (k.at_work h).0)))
]

-- The system is stopped with the last answer only.
counts_down :
    (m : Member) (before after : List Member) (n : ℕ) (xs os : List Order)
    → n ≡ total (before ++ m ∷ after)
    → (n ≢ 0 → os ≡ [])
    → (has_exited xs ≡ true → ⊥)
    → has_exited (xs ++ os) ≡ true
    → total (before ++ m ∷ after) ≡ 0
counts_down m before after zero xs os counts silent never h = sym counts
counts_down m before after (suc n) xs os counts silent never h =
    let none_sent = silent (λ e. absurd (omega arith)) in
    absurd (
      never (
        subst (λ t. has_exited t ≡ true) (append-nil xs)
          (subst (λ t. has_exited (xs ++ t) ≡ true) none_sent h)))

answer-IsOrderly :
    (f : Fleet) (before after : List Member) (m : Member) (c : CommandCenter) (os : List Order)
    → IsOrderly f
    → f.members ≡ before ++ m ∷ after
    → is_answered m ≡ true
    → stop_answered f.center ≡ some (c, os)
    → IsOrderly (record {
      center = c;
      members = before ++ record m { status = done } ∷ after;
      orders = f.orders ++ os;
    })
unfolding pending
answer-IsOrderly f before after m c os k e h s =
    let m' = record m { status = done } in
    let (one, called) = answered_pending m.status m refl h in
    let stops = called-State f before after m k e called in
    let (all_called, ends) = k.at_end stops in
    let (fewer, same, services, silent) = stop_answered-cases f.center c os s in
    let counts : c.stopping ≡ total (before ++ m' ∷ after) =
      omega (arith, k.counted, ap total e, total-replace before after m m', fewer, one) in
    record {
      kept =
          All-replace IsKept before after m m' (subst (All IsKept) e k.kept)
            (λ x. answered-IsKept m x h);
      known =
          addresses-replace before after m m' refl
          ∙ ap addresses (sym e)
          ∙ k.known
          ∙ ap (map (λ x. x.1)) (sym services);
      counted = counts;
      at_work = λ x. absurd (x (same ∙ stops));
      at_end = λ x. (
        All-replace IsCalled before after m m' (subst (All IsCalled) e all_called)
            (λ y z. absurd (ground arith)),
        λ y.
            counts_down (record m' { status = done }) before after c.stopping f.orders os counts
              silent (λ z. absurd (omega (arith, ends z, k.counted, fewer))) y,
      );
    }

pending-status_of : (x : Response (Unit {0})) → (pending (status_of x) ≡ 1) × (status_of x ≢ idle)
unfolding pending status_of
pending-status_of (reply u) = (refl, λ e. absurd (ground arith))
pending-status_of (async c) = (refl, λ e. absurd (ground arith))

pub accept_stop-pending :
    (g : Bool) (m : Member) → (pending (accept_stop g m).status ≡ 1) × IsCalled (accept_stop g m)
unfolding accept_stop
accept_stop-pending g m = pending-status_of (Commands.stop g Reason.exit m.service m.os).0

pub sent-pending : (g : Bool) (m : Member) → m.status ≡ sent g → pending m.status ≡ 1
unfolding pending
sent-pending g m e = ground arith

accept_stop-addr : (g : Bool) (m : Member) → (accept_stop g m).addr ≡ m.addr
unfolding accept_stop
accept_stop-addr g m = refl

-- A message that leaves the status as it is.
serve-IsOrderly :
    (f : Fleet) (before after : List Member) (m m' : Member) (r : Request)
    → IsOrderly f
    → f.members ≡ before ++ m ∷ after
    → serve r m ≡ some m'
    → (IsKept m → IsKept m')
    → IsOrderly (record f { members = before ++ m' ∷ after })
serve-IsOrderly f before after m m' r k e s keeps =
    let (a, t) = serve-same r m m' s in
    member-IsOrderly f before after m m' k e a (ap pending t) (λ x. t ∙ x) (λ x y. x (sym t ∙ y))
      keeps

pub Step-IsOrderly : {f f' : Fleet} → Step f f' → IsOrderly f → IsOrderly f'
unfolding ordered
Step-IsOrderly (Step.signal f before after m m' g e s) k =
    serve-IsOrderly f before after m m' (Request.signal g) k e s (λ x. signal-IsKept g m m' x s)
Step-IsOrderly (Step.command f before after m m' r e waits s) k =
    serve-IsOrderly f before after m m' r k e s (λ x. command-IsKept r m m' x waits s)
Step-IsOrderly (Step.shutdown f g) k = shutdown-IsOrderly g f k
Step-IsOrderly (Step.accept f before after m g e s) k =
    let (one, called) = accept_stop-pending g m in
    member-IsOrderly f before after m (accept_stop g m) k e (accept_stop-addr g m)
      (one ∙ sym (sent-pending g m s)) (λ x. absurd (grind (arith, x, s))) (λ x. called)
      (accept_stop-IsKept g m)
Step-IsOrderly (Step.answer f before after m c os e h s) k =
    answer-IsOrderly f before after m c os k e h s

pub Reach-IsOrderly : {f : Fleet} → Reach f → IsOrderly f
Reach-IsOrderly (start f s) = start-IsOrderly f s
Reach-IsOrderly (later r s) = Step-IsOrderly s (Reach-IsOrderly r)
