-- ===== src/Fleet/Members.antt =====
-- What holds of a service of the fleet, whatever it has handled.
use fectl.Prelude.{
  ==_self, ℕ, ◌≤◌, ◌≡◌, ◌⊎◌, inl, inr, refl, sym, Option-cases, ap, subst, arith, Bool, true, false,
  some, List, [], ◌∷◌, if◌then◌else◌,
}
use fectl.Event.{Reason}
use fectl.Service.{FeService, ServiceState, fresh, for_each}
use fectl.Service.Commands
use fectl.Service.Commands.{Response, async, reply}
use fectl.Service.Conditions.{handle-IsBalanced}
use fectl.Service.Ledger.{IsBalanced, held}
use fectl.Service.Lifecycle.{create-IsBalanced, created-IsConsistent}
use fectl.Service.Requests.{Request, Signal, handle}
use fectl.Service.Stopping.{IsConsistent, handle-IsConsistent}
use fectl.Service.Status.{ReloadStatus, StartStatus}
use fectl.System.{Call, Os, log, set_reload, set_start}
use fectl.Worker.Ending
use fectl.Worker.Silent.{answered}
use fectl.Fleet.Reports.{Leads, deliver-Leads, update-Leads}
use fectl.Fleet.{
  IsNew, Member, Status, accept_stop, done, idle, is_answered, is_set, replied, sent, serve,
  status_of, waiting,
}

abbrev pub IsOver : ServiceState → Type 0
IsOver t = (t ≡ ServiceState.stopped) ⊎ (t ≡ ServiceState.failed)

-- The stop of the service has come as far as its state says.
abbrev pub Agrees : Status → ServiceState → Type 0
Agrees (waiting c) t = (t ≡ ServiceState.stopping c) ⊎ (t ≡ ServiceState.stopped)
Agrees replied t = IsOver t
Agrees done t = IsOver t
Agrees _ t = Unit

pub record IsKept (m : Member) : Type 0 where
  pub balanced : (c : ℕ) → IsBalanced c (m.service, m.os)
  pub consistent : IsConsistent m.service
  pub agrees : Agrees m.status m.service.state

Leads-Agrees : (s : Status) (t t' : ServiceState) → Leads t t' → Agrees s t → Agrees s t'
Leads-Agrees idle t t' l h = tt
Leads-Agrees (sent g) t t' l h = tt
Leads-Agrees (waiting c) t t' l h = ground arith
Leads-Agrees replied t t' l h = ground arith
Leads-Agrees done t t' l h = ground arith

pub new-IsKept : (m : Member) → IsNew m → IsKept m
new-IsKept m (num, cfg, os₀, (quiet, none_made, same, rests)) = record {
  balanced = λ c.
      subst (IsBalanced c) (sym same)
        (create-IsBalanced c num cfg m.addr os₀ quiet (omega (arith, none_made)));
  consistent = subst (λ x. IsConsistent x.0) (sym same) (created-IsConsistent num cfg m.addr os₀);
  agrees = subst (λ t. Agrees t m.service.state) (sym rests) tt;
}

-- What a message to the service keeps, whatever it does to the state.
pub serve-cases :
    (r : Request) (m m' : Member)
    → serve r m ≡ some m'
    → (x : FeService × Os) × (handle r m.service m.os ≡ some x)
      × (m' ≡ record m { service = x.0; os = x.1 })
unfolding serve
serve-cases r m m' e = elim (Option-cases (handle r m.service m.os)) [
  | inl h ↦ absurd (grind (arith, e, h))
  | inr (x, h) ↦ (x, h, grind (arith, e, h))
]

pub serve-same :
    (r : Request) (m m' : Member)
    → serve r m ≡ some m'
    → (m'.addr ≡ m.addr) × (m'.status ≡ m.status)
serve-same r m m' e =
    let (x, h, same) = serve-cases r m m' e in (ap (λ y. y.addr) same, ap (λ y. y.status) same)

serve-IsKept :
    (r : Request) (m m' : Member)
    → IsKept m
    → serve r m ≡ some m'
    → ((x : FeService × Os) → handle r m.service m.os ≡ some x → Agrees m.status x.0.state)
    → IsKept m'
serve-IsKept r m m' k e agrees =
    let (x, h, same) = serve-cases r m m' e in
    subst IsKept (sym same) (record {
      balanced = λ c. rw h at (handle-IsBalanced c r m.service m.os (k.balanced c));
      consistent = rw h at (handle-IsConsistent r m.service m.os k.consistent);
      agrees = agrees x h;
    })

pub signal-IsKept :
    (g : Signal) (m m' : Member) → IsKept m → serve (Request.signal g) m ≡ some m' → IsKept m'
unfolding handle
signal-IsKept g m m' k e = serve-IsKept (Request.signal g) m m' k e (λ x h.
    Leads-Agrees m.status m.service.state x.0.state (rw h at (deliver-Leads g m.service m.os))
      k.agrees)

pub command-IsKept :
    (r : Request) (m m' : Member)
    → IsKept m
    → (m.status ≡ idle) ⊎ ((g : Bool) × (m.status ≡ sent g))
    → serve r m ≡ some m'
    → IsKept m'
command-IsKept r m m' k (inl waits) e =
    serve-IsKept r m m' k e (λ x h. subst (λ t. Agrees t x.0.state) (sym waits) tt)
command-IsKept r m m' k (inr (g, waits)) e =
    serve-IsKept r m m' k e (λ x h. subst (λ t. Agrees t x.0.state) (sym waits) tt)

-- An answer at once comes from a service that is over, a later one from one that stops.
abbrev Answers : Response (Unit {0}) × FeService × Os → Type 0
Answers (reply u, s, os) = IsOver s.state
Answers (async c, s, os) = (s.state ≡ ServiceState.stopping c) ⊎ (s.state ≡ ServiceState.stopped)

stop_workers-Answers :
    (g : Bool) (r : Reason) (s : FeService) (os : Os)
    → let c = (fresh os).0 in
      let t = (Commands.stop_workers g r s os).0.state in
      (t ≡ ServiceState.stopping c) ⊎ (t ≡ ServiceState.stopped)
unfolding Commands.stop_workers
stop_workers-Answers g r s os =
    let (c, os') = fresh os in
    let (ws, os'') = for_each (if g then Ending.stop r else Ending.quit r) s.workers os' in
    update-Leads (record s { paused = false; state = ServiceState.stopping c; workers = ws }) os''

stop_in-Answers :
    (t : ServiceState) (g : Bool) (r : Reason) (s : FeService) (os : Os)
    → s.state ≡ t
    → Answers (Commands.stop_in t g r s os)
unfolding Commands.stop_in
stop_in-Answers ServiceState.failed g r s os e = inr e
stop_in-Answers ServiceState.stopped g r s os e = inl e
stop_in-Answers (ServiceState.stopping c) g r s os e = inl e
stop_in-Answers (ServiceState.starting c) g r s os e =
    stop_workers-Answers g r s (log (set_start c StartStatus.stopping) os)
stop_in-Answers (ServiceState.reloading c) g r s os e =
    stop_workers-Answers g r s (log (set_reload c ReloadStatus.stopping) os)
stop_in-Answers ServiceState.running g r s os e = stop_workers-Answers g r s os

Answers-Agrees :
    (x : Response (Unit {0}) × FeService × Os) → Answers x → Agrees (status_of x.0) x.1.state
unfolding status_of
Answers-Agrees (reply u, s, os) h = h
Answers-Agrees (async c, s, os) h = h

pub accept_stop-IsKept : (g : Bool) (m : Member) → IsKept m → IsKept (accept_stop g m)
unfolding accept_stop handle Commands.stop
accept_stop-IsKept g m k = record {
  balanced = λ c. handle-IsBalanced c (Request.stop g Reason.exit) m.service m.os (k.balanced c);
  consistent = handle-IsConsistent (Request.stop g Reason.exit) m.service m.os k.consistent;
  agrees =
      Answers-Agrees (Commands.stop g Reason.exit m.service m.os)
        (stop_in-Answers m.service.state g Reason.exit m.service m.os refl);
}

is_set-answered : (c : ℕ) (cs : List Call) → is_set c cs ≡ true → 1 ≤ answered c cs
unfolding is_set answered
is_set-answered c [] h = absurd (ground arith)
is_set-answered c (call ∷ cs) h = ground (arith, is_set-answered c cs)

held_unset :
    (c : ℕ) (s : FeService) (os : Os)
    → IsBalanced c (s, os)
    → s.state ≡ ServiceState.stopping c
    → 1 ≤ answered c os.calls
    → ⊥
unfolding held
held_unset c s os b e h = ground (arith, ==_self c)

-- A condition that is set is held no more.
set-IsOver :
    (c : ℕ) (m : Member)
    → IsKept m
    → m.status ≡ waiting c
    → is_set c m.os.calls ≡ true
    → IsOver m.service.state
set-IsOver c m k w h =
    let stops = subst (λ st. Agrees st m.service.state) w k.agrees in
    elim stops [
      | inl still ↦
          absurd (held_unset c m.service m.os (k.balanced c) still (is_set-answered c m.os.calls h))
      | inr stopped ↦ inl stopped
    ]

answered-IsOver :
    (t : Status) (m : Member)
    → IsKept m
    → m.status ≡ t
    → is_answered m ≡ true
    → IsOver m.service.state
unfolding is_answered
answered-IsOver idle m k e h = absurd (ground arith)
answered-IsOver (sent g) m k e h = absurd (ground arith)
answered-IsOver (waiting c) m k e h = set-IsOver c m k e (ground (arith, e, h))
answered-IsOver replied m k e h = subst (λ st. Agrees st m.service.state) e k.agrees
answered-IsOver done m k e h = absurd (ground arith)

pub answered-IsKept :
    (m : Member) → IsKept m → is_answered m ≡ true → IsKept (record m { status = done })
answered-IsKept m k h = record {
  balanced = k.balanced;
  consistent = k.consistent;
  agrees = answered-IsOver m.status m k refl h;
}
