-- ===== src/Fleet/Progress.antt =====
-- What a service of the fleet that is to stop waits for.
use fectl.Prelude.{
  ==_self, ℕ, ◌<◌, ◌≡◌, ◌⊎◌, inl, inr, refl, sym, subst, arith, Bool, some, List, [], ◌∷◌, All, map,
  Option-cases,
}
use fectl.Command.{Order}
use fectl.Event.{Reason}
use fectl.Fleet.{
  IsNew, Member, Status, accept_stop, idle, post, sent, serve, status_of, stop_for, waiting,
}
use fectl.Fleet.Members.{IsKept, serve-cases}
use fectl.Service.{FeService, ServiceState, create, fresh, started}
use fectl.Service.Commands
use fectl.Service.Commands.{Response, async, reply}
use fectl.Service.Ledger.{IsBalanced, held}
use fectl.Service.Made.{deliver-IsUnmade, stop_workers_makes}
use fectl.Service.Requests.{Request, Signal, handle}
use fectl.Service.Status.{ReloadStatus, StartStatus}
use fectl.Service.Waits.{IsWaiting, handle-IsWaiting}
use fectl.System.{Os, log, set_reload, set_start}

-- The condition of the answer has been made.
abbrev pub IsMade : Status → ℕ → Type 0
IsMade (waiting c) n = c < n
IsMade _ n = Unit

pub record IsAlert (m : Member) : Type 0 where
  pub waits : IsWaiting m.service
  pub made : IsMade m.status m.os.next_condition

pub new-IsAlert : (m : Member) → IsNew m → IsAlert m
unfolding create started
new-IsAlert m (num, cfg, os₀, (quiet, none_made, same, rests)) = record {
  waits = subst (λ x. IsWaiting x.0) (sym same) tt;
  made = subst (λ t. IsMade t m.os.next_condition) (sym rests) tt;
}

IsMade-same : (t : Status) (n n' : ℕ) → n' ≡ n → IsMade t n → IsMade t n'
IsMade-same t n n' e h = subst (IsMade t) (sym e) h

serve-IsAlert :
    (r : Request) (m m' : Member)
    → IsAlert m
    → serve r m ≡ some m'
    → ((x : FeService × Os) → handle r m.service m.os ≡ some x → IsMade m.status x.1.next_condition)
    → IsAlert m'
serve-IsAlert r m m' a e made =
    let (x, h, same) = serve-cases r m m' e in
    subst IsAlert (sym same)
      (record { waits = rw h at (handle-IsWaiting r m.service m.os a.waits); made = made x h })

pub signal-IsAlert :
    (g : Signal) (m m' : Member) → IsAlert m → serve (Request.signal g) m ≡ some m' → IsAlert m'
unfolding handle
signal-IsAlert g m m' a e = serve-IsAlert (Request.signal g) m m' a e (λ x h.
    IsMade-same m.status m.os.next_condition x.1.next_condition
      (rw h at (deliver-IsUnmade g m.service m.os)) a.made)

pub command-IsAlert :
    (r : Request) (m m' : Member)
    → IsAlert m
    → (m.status ≡ idle) ⊎ ((g : Bool) × (m.status ≡ sent g))
    → serve r m ≡ some m'
    → IsAlert m'
command-IsAlert r m m' a (inl rests) e =
    serve-IsAlert r m m' a e (λ x h. subst (λ t. IsMade t x.1.next_condition) (sym rests) tt)
command-IsAlert r m m' a (inr (g, rests)) e =
    serve-IsAlert r m m' a e (λ x h. subst (λ t. IsMade t x.1.next_condition) (sym rests) tt)

-- A condition that the service holds has been made.
held_made :
    (c : ℕ) (s : FeService) (os : Os)
    → IsBalanced c (s, os)
    → s.state ≡ ServiceState.stopping c
    → c < os.next_condition
unfolding held
held_made c s os b e = ground (arith, ==_self c)

stop_in-IsMade :
    (t : ServiceState) (g : Bool) (r : Reason) (s : FeService) (os : Os)
    → s.state ≡ t
    → ((c : ℕ) → IsBalanced c (s, os))
    → let (x, s', os') = Commands.stop_in t g r s os in IsMade (status_of x) os'.next_condition
unfolding Commands.stop_in status_of fresh log
stop_in-IsMade ServiceState.failed g r s os e b = tt
stop_in-IsMade ServiceState.stopped g r s os e b = tt
stop_in-IsMade (ServiceState.stopping c) g r s os e b = held_made c s os (b c) e
stop_in-IsMade (ServiceState.starting c) g r s os e b =
    omega (arith, stop_workers_makes g r s (log (set_start c StartStatus.stopping) os))
stop_in-IsMade (ServiceState.reloading c) g r s os e b =
    omega (arith, stop_workers_makes g r s (log (set_reload c ReloadStatus.stopping) os))
stop_in-IsMade ServiceState.running g r s os e b = omega (arith, stop_workers_makes g r s os)

pub accept_stop-IsAlert : (g : Bool) (m : Member) → IsKept m → IsAlert m → IsAlert (accept_stop g m)
unfolding accept_stop handle Commands.stop
accept_stop-IsAlert g m k a = record {
  waits = handle-IsWaiting (Request.stop g Reason.exit) m.service m.os a.waits;
  made = stop_in-IsMade m.service.state g Reason.exit m.service m.os refl k.balanced;
}

pub post-IsAlert :
    (os : List Order) (ms : List Member) → All IsAlert ms → All IsAlert (map (post os) ms)
unfolding post
post-IsAlert os [] a = tt
post-IsAlert os (m ∷ ms) a = elim (Option-cases (stop_for m.addr os)) [
  | inl e ↦ rw (e, post) (a.0, post-IsAlert os ms a.1)
  | inr (g, e) ↦ rw (e, post) (record { waits = a.0.waits; made = tt }, post-IsAlert os ms a.1)
]
