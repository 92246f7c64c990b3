-- ===== src/Fleet/Reports.antt =====
-- What the reports of processes do to the state of a service.
use fectl.Prelude.{ℕ, ◌≡◌, ◌⊎◌, inl, refl, arith}
use fectl.Service.{
  FeService, ServiceState, at_worker_then_update, at_worker, update, update_in, process_message,
  process_failed, failure_due, process_loaded, process_exited,
}
use fectl.Service.Loops.{Ends, Ends-map, Ends-any}
use fectl.Service.Requests.{Signal, deliver}
use fectl.System.{Os}
use fectl.Worker.{Worker}

-- Where the reports of processes can lead from a state.
abbrev pub Leads : ServiceState → ServiceState → Type 0
Leads (ServiceState.stopping c) t = (t ≡ ServiceState.stopping c) ⊎ (t ≡ ServiceState.stopped)
Leads ServiceState.stopped t = t ≡ ServiceState.stopped
Leads ServiceState.failed t = t ≡ ServiceState.failed
Leads _ t = Unit

update_in-Leads :
    (t : ServiceState) (s : FeService) (os : Os) → s.state ≡ t → Leads t (update_in t s os).0.state
unfolding update_in
update_in-Leads (ServiceState.stopping c) s os e = ground arith
update_in-Leads (ServiceState.starting c) s os e = tt
update_in-Leads (ServiceState.reloading c) s os e = tt
update_in-Leads ServiceState.running s os e = tt
update_in-Leads ServiceState.failed s os e = e
update_in-Leads ServiceState.stopped s os e = e

pub update-Leads : (s : FeService) (os : Os) → Leads s.state (update s os).0.state
unfolding update
update-Leads s os = update_in-Leads s.state s os refl

at_worker-Leads :
    (f : Worker → Os → Worker × Os) (i : ℕ) (s : FeService) (os : Os)
    → Ends (λ r. Leads s.state r.0.state) (at_worker_then_update i f s os)
unfolding at_worker_then_update
at_worker-Leads f i s os =
    Ends-map (λ r. Unit {0}) (λ r. Leads s.state r.0.state) _ (at_worker i f s.workers os)
      (λ r u. update-Leads (record s { workers = r.0 }) r.1) (Ends-any (at_worker i f s.workers os))

Leads-self : (t : ServiceState) → Leads t t
Leads-self (ServiceState.stopping c) = inl refl
Leads-self ServiceState.stopped = refl
Leads-self ServiceState.failed = refl
Leads-self ServiceState.running = tt
Leads-self (ServiceState.starting c) = tt
Leads-self (ServiceState.reloading c) = tt

pub deliver-Leads :
    (g : Signal) (s : FeService) (os : Os) → Ends (λ r. Leads s.state r.0.state) (deliver g s os)
unfolding deliver process_message process_failed failure_due process_loaded process_exited
deliver-Leads (Signal.message i pid m) s os = at_worker-Leads _ i s os
deliver-Leads (Signal.failed i pid e) s os = Leads-self s.state
deliver-Leads (Signal.failure_due i pid e) s os = at_worker-Leads _ i s os
deliver-Leads (Signal.loaded i pid) s os = at_worker-Leads _ i s os
deliver-Leads (Signal.exited pid e) s os = update-Leads _ _
