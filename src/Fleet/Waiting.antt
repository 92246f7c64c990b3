-- ===== src/Fleet/Waiting.antt =====
-- A master that stops does not get stuck.
use mathlib.Core.List.{append-nil}
use fectl.Prelude.{
  suc, ◌-◌, ◌≡◌, ◌≢◌, inl, inr, refl, sym, ap, ◌∙◌, subst, arith, Bool, Option-cases, true, false,
  none, some, List, [], ◌∷◌, ◌++◌, map, All, length,
}
use fectl.Command.{CommandCenter, Order, State, exit, stop, stop_answered}
use fectl.Command.Shutdown.{State-cases, stop-again, stop-first}
use fectl.Fleet.{
  Fleet, IsNew, IsStart, Member, Reach, Step, accept_stop, done, is_answered, later, post, serve,
  start,
}
use fectl.Fleet.Answers.{Reach-IsOrderly, Step-IsOrderly, accept_stop-pending, sent-pending}
use fectl.Fleet.Counts.{
  All-middle, All-replace, IsOrderly, has_exited, pending, total, total-replace,
}
use fectl.Fleet.Members.{IsKept, serve-same}
use fectl.Fleet.Moves.{Move, members-Move}
use fectl.Fleet.Orders.{has_exited-append, known-length, map-post, ordered, shutdown-IsOrderly}
use fectl.Fleet.Progress.{
  IsAlert, accept_stop-IsAlert, command-IsAlert, new-IsAlert, post-IsAlert, signal-IsAlert,
}
use fectl.Service.Loops.{Any}
use fectl.Service.Requests.{Request}

-- When all services of a master that stops are done, it has exited.
pub record IsAwake (f : Fleet) : Type 0 where
  pub alert : All IsAlert f.members
  pub exits :
      f.center.state ≡ State.stopping
      → total f.members ≡ 0
      → length f.members ≢ 0
      → has_exited f.orders ≡ true

news-IsAlert : (ms : List Member) → All IsNew ms → All IsAlert ms
news-IsAlert [] h = tt
news-IsAlert (m ∷ ms) h = (new-IsAlert m h.0, news-IsAlert ms h.1)

start-IsAwake : (f : Fleet) → IsStart f → IsAwake f
start-IsAwake f (new, known, running, none_asked, quiet) = record {
  alert = news-IsAlert f.members new;
  exits = λ s. absurd (grind (arith, running, s));
}

length-replace :
    (before after : List Member) (m m' : Member)
    → length (before ++ m' ∷ after) ≡ length (before ++ m ∷ after)
length-replace [] after m m' = refl
length-replace (x ∷ before) after m m' = ap suc (length-replace before after m m')

-- A step of one service that is still to answer as before.
member-IsAwake :
    (f : Fleet) (before after : List Member) (m m' : Member)
    → IsAwake f
    → f.members ≡ before ++ m ∷ after
    → pending m'.status ≡ pending m.status
    → (IsAlert m → IsAlert m')
    → IsAwake (record f { members = before ++ m' ∷ after })
member-IsAwake f before after m m' w e o alerts = record {
  alert = All-replace IsAlert before after m m' (subst (All IsAlert) e w.alert) alerts;
  exits = λ s z n.
      w.exits s (omega (arith, z, ap total e, total-replace before after m m', o))
        (λ x. n (length-replace before after m m' ∙ sym (ap length e) ∙ x));
}

-- The last answer stops the system.
exit-exits : (c : CommandCenter) → has_exited (exit c).1 ≡ true
unfolding exit has_exited
exit-exits c = elim (Option-cases c.stop_waiter) [ inl e ↦ rw e refl | inr (w, e) ↦ rw e refl ]

stop_answered-exits :
    (c c' : CommandCenter) (os : List Order)
    → stop_answered c ≡ some (c', os)
    → c'.stopping ≡ 0
    → has_exited os ≡ true
unfolding stop_answered exit
stop_answered-exits c c' os e z =
    ground (arith, e, z, exit-exits (record c { stopping = c.stopping - 1 }))

answer-IsAwake :
    (f : Fleet) (before after : List Member) (m : Member) (c : CommandCenter) (os : List Order)
    → IsOrderly f
    → IsAwake f
    → f.members ≡ before ++ m ∷ after
    → is_answered m ≡ true
    → stop_answered f.center ≡ some (c, os)
    → IsAwake (record {
      center = c;
      members = before ++ record m { status = done } ∷ after;
      orders = f.orders ++ os;
    })
answer-IsAwake f before after m c os k w e h s =
    let k' = Step-IsOrderly (Step.answer f before after m c os e h s) k in
    record {
      alert =
          All-replace IsAlert before after m (record m { status = done })
            (subst (All IsAlert) e w.alert) (λ a. record { waits = a.waits; made = tt });
      exits = λ t z n.
          let last = stop_answered-exits f.center c os s (k'.counted ∙ z) in
          ground (arith, has_exited-append f.orders os, last);
    }

length-map : (os : List Order) (ms : List Member) → length (map (post os) ms) ≡ length ms
length-map os [] = refl
length-map os (m ∷ ms) = ap suc (length-map os ms)

shutdown-IsAwake :
    (g : Bool) (f : Fleet) → IsOrderly f → IsAwake f → IsAwake (ordered f (stop g f.center))
unfolding ordered
shutdown-IsAwake g f k w =
    let k' = shutdown-IsOrderly g f k in
    elim (State-cases f.center.state) [
      | inl e ↦ rw (stop-again g f.center e, map-post f.members, append-nil f.orders) w
      | inr h ↦
          let os = (stop g f.center).1 in
          let same = stop-first g f.center h in
          record {
            alert = post-IsAlert os f.members w.alert;
            exits = λ t z n. absurd (
                n (
                  omega (
                    arith,
                    k'.counted,
                    ap (λ x. x.0.stopping) same,
                    known-length f.members f.center.services k.known,
                    length-map os f.members,
                  )));
          }
    ]

serve-IsAwake :
    (f : Fleet) (before after : List Member) (m m' : Member) (r : Request)
    → IsAwake f
    → f.members ≡ before ++ m ∷ after
    → serve r m ≡ some m'
    → (IsAlert m → IsAlert m')
    → IsAwake (record f { members = before ++ m' ∷ after })
serve-IsAwake f before after m m' r w e s alerts =
    member-IsAwake f before after m m' w e (ap pending ((serve-same r m m' s).1)) alerts

Step-IsAwake : {f f' : Fleet} → Step f f' → IsOrderly f → IsAwake f → IsAwake f'
unfolding ordered
Step-IsAwake (Step.signal f before after m m' g e s) k w =
    serve-IsAwake f before after m m' (Request.signal g) w e s (λ a. signal-IsAlert g m m' a s)
Step-IsAwake (Step.command f before after m m' r e waits s) k w =
    serve-IsAwake f before after m m' r w e s (λ a. command-IsAlert r m m' a waits s)
Step-IsAwake (Step.shutdown f g) k w = shutdown-IsAwake g f k w
Step-IsAwake (Step.accept f before after m g e s) k w =
    member-IsAwake f before after m (accept_stop g m) w e
      ((accept_stop-pending g m).0 ∙ sym (sent-pending g m s))
      (accept_stop-IsAlert g m (All-middle IsKept before after m (subst (All IsKept) e k.kept)))
Step-IsAwake (Step.answer f before after m c os e h s) k w =
    answer-IsAwake f before after m c os k w e h s

Reach-IsAwake : {f : Fleet} → Reach f → IsAwake f
Reach-IsAwake (start f s) = start-IsAwake f s
Reach-IsAwake (later r s) = Step-IsAwake s (Reach-IsOrderly r) (Reach-IsAwake r)

none-stopping : (c : CommandCenter) → stop_answered c ≡ none → c.stopping ≡ 0
unfolding stop_answered
none-stopping c e = ground arith

-- While an answer is awaited, one can be taken.
can_take :
    (c : CommandCenter)
    → c.stopping ≢ 0
    → (c' : CommandCenter) × (os : List Order) × (stop_answered c ≡ some (c', os))
can_take c h = elim (Option-cases (stop_answered c)) [
  | inl e ↦ absurd (h (none-stopping c e))
  | inr (x, e) ↦ (x.0, x.1, e)
]

-- In any course of things from a running master with at least one service, all of them new: while the
-- command center stops and has not stopped the system yet, something is still to happen that brings
-- the stop on. For some service the stop is in its mailbox, or its answer is there and the command
-- center can take it, or one of its workers waits for the exit of a process. The services are those
-- of the table of the command center.
pub stop_goes_on :
    (f : Fleet)
    → Reach f
    → f.center.state ≡ State.stopping
    → length f.members ≢ 0
    → has_exited f.orders ≡ false
    → Any (Move f.center) f.members
stop_goes_on f r stops some_service runs =
    let k = Reach-IsOrderly r in
    let w = Reach-IsAwake r in
    let more : total f.members ≢ 0 = λ z. absurd (ground (arith, w.exits stops z some_service)) in
    let (c, os, taken) = can_take f.center (λ z. more (sym k.counted ∙ z)) in
    members-Move f.center c os taken f.members k.kept w.alert more
