-- ===== src/Fleet/Moves.antt =====
-- A service that has been asked to stop and is not done: what can happen next.
use fectl.Prelude.{
  ℕ, ◌≤◌, ◌<◌, ◌≡◌, ◌≢◌, ◌⊎◌, inl, inr, refl, subst, arith, Bool, true, false, some, List, [], ◌∷◌,
  All, ◌==◌, Bool-cases,
}
use fectl.Command.{CommandCenter, Order, stop_answered}
use fectl.Fleet.{Member, Status, is_answered, is_set, replied, sent, waiting}
use fectl.Fleet.Counts.{pending, total}
use fectl.Fleet.Members.{Agrees, IsKept}
use fectl.Fleet.Progress.{IsAlert, IsMade}
use fectl.Process.Start.{ProcessInfo}
use fectl.Service.{FeService, ServiceState}
use fectl.Service.Check.{any_busy, is_busy}
use fectl.Service.Ledger.{IsBalanced, held}
use fectl.Service.Loops.{Any}
use fectl.Service.Phases.{IsWinding}
use fectl.Service.Stopping
use fectl.Service.Waits.{Waits}
use fectl.System.{Call, Os}
use fectl.Worker.{Worker, WorkerState, is_failed, is_running, is_stopped}
use fectl.Worker.Silent.{answered}

-- The worker waits for the exit of its process, which has been told to go.
abbrev pub IsLeaving : Worker → Type 0
IsLeaving w = (p : ProcessInfo) × (w.state ≡ WorkerState.stopping p)

-- The stop is in the mailbox, or the answer to it can be taken, or a process has yet to exit.
pub data Move (c : CommandCenter) (m : Member) : Type 0 where
  accepts : (graceful : Bool) → m.status ≡ sent graceful → Move c m
  answers :
      (c' : CommandCenter) (os : List Order)
      → is_answered m ≡ true
      → stop_answered c ≡ some (c', os)
      → Move c m
  awaits : Any IsLeaving m.service.workers → Move c m

winding-cases :
    (t : WorkerState) (w : Worker)
    → w.state ≡ t
    → IsWinding w
    → IsLeaving w ⊎ (w.state ≡ WorkerState.stopped)
winding-cases (WorkerState.stopping p) w e h = inl (p, e)
winding-cases WorkerState.stopped w e h = inr e
winding-cases _ w e h = absurd (ground arith)

stopped_idle : (w : Worker) → w.state ≡ WorkerState.stopped → is_busy false w ≡ false
unfolding is_busy is_failed is_stopped is_running
stopped_idle w e = ground arith

leaving : (ws : List Worker) → All IsWinding ws → any_busy false ws ≡ true → Any IsLeaving ws
unfolding any_busy
leaving [] h busy = absurd (ground arith)
leaving (w ∷ ws) h busy = elim (winding-cases w.state w refl h.0) [
  | inl l ↦ inl l
  | inr e ↦ inr (leaving ws h.1 (ground (arith, busy, stopped_idle w e)))
]

answered-is_set : (c : ℕ) (cs : List Call) → 1 ≤ answered c cs → is_set c cs ≡ true
unfolding is_set answered
answered-is_set c [] h = absurd (omega arith)
answered-is_set c (call ∷ cs) h = ground (arith, answered-is_set c cs)

stopped_set :
    (c : ℕ) (s : FeService) (os : Os)
    → IsBalanced c (s, os)
    → s.state ≡ ServiceState.stopped
    → c < os.next_condition
    → is_set c os.calls ≡ true
unfolding held
stopped_set c s os b e h = answered-is_set c os.calls (ground arith)

module _ (c c' : CommandCenter) (os : List Order) (s : stop_answered c ≡ some (c', os)) where
  waiting-Move : (n : ℕ) (m : Member) → m.status ≡ waiting n → IsKept m → IsAlert m → Move c m
  unfolding is_answered
  waiting-Move n m e k a =
      let made = subst (λ t. IsMade t m.os.next_condition) e a.made in
      elim (subst (λ t. Agrees t m.service.state) e k.agrees) [
        | inl stops ↦ awaits (
            leaving m.service.workers
              (subst (λ t. Stopping.Agrees t m.service.workers) stops k.consistent)
              (subst (λ t. Waits t m.service) stops a.waits))
        | inr stopped ↦
            let over = stopped_set n m.service m.os (k.balanced n) stopped made in
            answers c' os (ground (arith, e, over)) s
      ]

  status-Move :
      (t : Status) (m : Member)
      → m.status ≡ t
      → IsKept m
      → IsAlert m
      → pending m.status ≢ 0
      → Move c m
  unfolding pending is_answered
  status-Move (sent g) m e k a h = accepts g e
  status-Move (waiting n) m e k a h = waiting-Move n m e k a
  status-Move replied m e k a h = answers c' os (ground (arith, e)) s
  status-Move _ m e k a h = absurd (h (ground (arith, e)))

  pub members-Move :
      (ms : List Member) → All IsKept ms → All IsAlert ms → total ms ≢ 0 → Any (Move c) ms
  unfolding total
  members-Move [] k a h = absurd (h refl)
  members-Move (m ∷ ms) k a h = elim (Bool-cases (pending m.status == 0)) [
    | inl zero ↦
        let later : total ms ≢ 0 = λ e. h (ground (arith, zero, e)) in
        inr (members-Move ms k.1 a.1 later)
    | inr more ↦
        let here : pending m.status ≢ 0 = λ e. absurd (ground (arith, more, e)) in
        inl (status-Move m.status m refl k.0 a.0 here)
  ]
