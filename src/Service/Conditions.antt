-- ===== src/Service/Conditions.antt =====
-- Who waits for a service is answered once: the conditions of a service from their making.
use fectl.Prelude.{
  ℕ, zero, suc, ◌≡◌, refl, arith, Bool, true, false, List, [], ◌∷◌, ◌==◌, ltb, if◌then◌else◌,
  Option-cases, inl, inr,
}
use fectl.Event.{Reason}
use fectl.System.{Os, log}
use fectl.Worker.{Worker}
use fectl.Worker
use fectl.Worker.Ending
use fectl.Worker.Exits
use fectl.Worker.Methods.{Method, perform}
use fectl.Worker.Silent.{IsSilent, answered, perform-IsSilent}
use fectl.Service.{
  FeService, ServiceState, update, for_each, at_worker, at_worker_then_update, process_message,
  process_failed, failure_due, process_loaded, process_exited, fresh,
}
use fectl.Service.Commands
use fectl.Service.Loops.{Ends, Ends-map}
use fectl.Service.Requests.{Signal, Request, deliver, handle, handle_all}
use fectl.Service.Ledger.{IsBalanced, Silent, held, for_each-IsSilent, update-IsBalanced}

module _ (c : ℕ) where
  -- Whatever the state was, no condition is held by it any more.
  abbrev Released : Os → Type 0
  Released os = answered c os.calls ≡ (if ltb c os.next_condition then 1 else 0)

  pub stop-Silent : (g : Bool) (r : Reason) → Silent c (if g then Ending.stop r else Ending.quit r)
  unfolding perform
  stop-Silent true r w os = perform-IsSilent c (Method.stop r) w os
  stop-Silent false r w os = perform-IsSilent c (Method.quit r) w os

  stop_workers-IsBalanced :
      (g : Bool) (r : Reason) (s : FeService) (os : Os)
      → Released os
      → IsBalanced c (Commands.stop_workers g r s os)
  unfolding Commands.stop_workers fresh held
  stop_workers-IsBalanced g r s os h =
      let (d, os') = fresh os in
      let work = if g then Ending.stop r else Ending.quit r in
      let (ws, os'') = for_each work s.workers os' in
      update-IsBalanced c
        (record s { paused = false; state = ServiceState.stopping d; workers = ws }) os''
        (ground (arith, h, for_each-IsSilent c work s.workers os' (stop-Silent g r)))

  -- The service and the system after a command, without its response.
  abbrev outcome {ℓ} : {A : Type ℓ} → A × FeService × Os → FeService × Os
  outcome (r, s, os) = (s, os)

  stop_in-IsBalanced :
      (t : ServiceState) (g : Bool) (r : Reason) (s : FeService) (os : Os)
      → s.state ≡ t
      → IsBalanced c (s, os)
      → IsBalanced c (outcome (Commands.stop_in t g r s os))
  unfolding Commands.stop_in log answered held
  stop_in-IsBalanced ServiceState.running g r s os e h =
      stop_workers-IsBalanced g r s os (ground arith)
  stop_in-IsBalanced (ServiceState.starting d) g r s os e h =
      stop_workers-IsBalanced g r s _ (ground arith)
  stop_in-IsBalanced (ServiceState.reloading d) g r s os e h =
      stop_workers-IsBalanced g r s _ (ground arith)
  stop_in-IsBalanced _ g r s os e h = h

  begin-IsBalanced :
      (state : ℕ → ServiceState) (work : Worker → Os → Worker × Os) (s : FeService) (os : Os)
      → ((d : ℕ) → held c (state d) ≡ (if d == c then 1 else 0))
      → Silent c work
      → Released os
      → IsBalanced c (outcome (Commands.begin state work s os))
  unfolding Commands.begin fresh
  begin-IsBalanced state work s os k q h =
      let (d, os') = fresh os in ground (arith, h, k d, for_each-IsSilent c work s.workers os' q)

  start_in-IsBalanced :
      (t : ServiceState) (s : FeService) (os : Os)
      → s.state ≡ t
      → IsBalanced c (s, os)
      → IsBalanced c (outcome (Commands.start_in t s os))
  unfolding Commands.start_in held perform
  start_in-IsBalanced ServiceState.failed s os e h =
      begin-IsBalanced ServiceState.starting (Worker.start Reason.console_request) s os (λ d. refl)
        (λ w os'. perform-IsSilent c (Method.start Reason.console_request) w os') (ground arith)
  start_in-IsBalanced ServiceState.stopped s os e h =
      begin-IsBalanced ServiceState.starting (Worker.start Reason.console_request) s os (λ d. refl)
        (λ w os'. perform-IsSilent c (Method.start Reason.console_request) w os') (ground arith)
  start_in-IsBalanced _ s os e h = h

  reload_in-IsBalanced :
      (t : ServiceState) (b : Bool) (s : FeService) (os : Os)
      → s.state ≡ t
      → IsBalanced c (s, os)
      → IsBalanced c (outcome (Commands.reload_in t b s os))
  unfolding Commands.reload_in held perform
  reload_in-IsBalanced ServiceState.running b s os e h =
      begin-IsBalanced ServiceState.reloading (Worker.reload b Reason.console_request) s os
        (λ d. refl) (λ w os'. perform-IsSilent c (Method.reload b Reason.console_request) w os')
        (ground arith)
  reload_in-IsBalanced ServiceState.failed b s os e h =
      begin-IsBalanced ServiceState.reloading (Worker.reload b Reason.console_request) s os
        (λ d. refl) (λ w os'. perform-IsSilent c (Method.reload b Reason.console_request) w os')
        (ground arith)
  reload_in-IsBalanced ServiceState.stopped b s os e h =
      begin-IsBalanced ServiceState.reloading (Worker.reload b Reason.console_request) s os
        (λ d. refl) (λ w os'. perform-IsSilent c (Method.reload b Reason.console_request) w os')
        (ground arith)
  reload_in-IsBalanced _ b s os e h = h

  pause_in-IsBalanced :
      (t : ServiceState) (s : FeService) (os : Os)
      → IsBalanced c (s, os)
      → IsBalanced c (outcome (Commands.pause_in t s os))
  unfolding Commands.pause_in perform
  pause_in-IsBalanced ServiceState.running s os h = ground (
    arith,
    for_each-IsSilent c (Worker.pause Reason.console_request) s.workers os
        (λ w os'. perform-IsSilent c (Method.pause Reason.console_request) w os'),
  )
  pause_in-IsBalanced _ s os h = h

  resume_in-IsBalanced :
      (t : ServiceState) (s : FeService) (os : Os)
      → IsBalanced c (s, os)
      → IsBalanced c (outcome (Commands.resume_in t s os))
  unfolding Commands.resume_in perform
  resume_in-IsBalanced ServiceState.running s os h = ground (
    arith,
    for_each-IsSilent c (Worker.resume Reason.console_request) s.workers os
        (λ w os'. perform-IsSilent c (Method.resume Reason.console_request) w os'),
  )
  resume_in-IsBalanced _ s os h = h

  pub at_worker-IsSilent :
      (i : ℕ) (f : Worker → Os → Worker × Os) (ws : List Worker) (os : Os)
      → Silent c f
      → Ends (λ r. IsSilent c os r.1) (at_worker i f ws os)
  unfolding at_worker
  at_worker-IsSilent i f [] os q = tt
  at_worker-IsSilent zero f (w ∷ ws) os q = q w os
  at_worker-IsSilent (suc i) f (w ∷ ws) os q =
      Ends-map (λ r. IsSilent c os r.1) (λ r. IsSilent c os r.1) (λ r. (w ∷ r.0, r.1))
        (at_worker i f ws os) (λ r k. k) (at_worker-IsSilent i f ws os q)

  at_worker_then_update-IsBalanced :
      (m : Method) (i : ℕ) (s : FeService) (os : Os)
      → IsBalanced c (s, os)
      → Ends (λ r. IsBalanced c r) (at_worker_then_update i (perform m) s os)
  unfolding at_worker_then_update
  at_worker_then_update-IsBalanced m i s os h =
      Ends-map (λ r. IsSilent c os r.1) (λ r. IsBalanced c r)
        (λ r. update (record s { workers = r.0 }) r.1) (at_worker i (perform m) s.workers os)
        (λ r k. update-IsBalanced c (record s { workers = r.0 }) r.1 (ground (arith, k, h)))
        (at_worker-IsSilent i (perform m) s.workers os (perform-IsSilent c m))

  deliver-IsBalanced :
      (g : Signal) (s : FeService) (os : Os)
      → IsBalanced c (s, os)
      → Ends (λ r. IsBalanced c r) (deliver g s os)
  unfolding deliver process_message process_failed failure_due process_loaded process_exited perform
      log answered
  deliver-IsBalanced (Signal.message i pid m) s os h =
      at_worker_then_update-IsBalanced (Method.message pid m) i s os h
  deliver-IsBalanced (Signal.failed i pid e) s os h = h
  deliver-IsBalanced (Signal.failure_due i pid e) s os h =
      at_worker_then_update-IsBalanced (Method.exited pid e) i s os h
  deliver-IsBalanced (Signal.loaded i pid) s os h =
      at_worker_then_update-IsBalanced (Method.loaded pid) i s os h
  deliver-IsBalanced (Signal.exited pid e) s os h =
      let gone = Exits.exited pid e in
      update-IsBalanced c _ _ (
        ground (
          arith,
          for_each-IsSilent c gone s.workers os
              (λ w os'. perform-IsSilent c (Method.exited pid e) w os'),
        ))

  pub handle-IsBalanced :
      (r : Request) (s : FeService) (os : Os)
      → IsBalanced c (s, os)
      → Ends (λ x. IsBalanced c x) (handle r s os)
  unfolding handle Commands.start Commands.pause Commands.resume Commands.reload Commands.stop
  handle-IsBalanced (Request.signal g) s os h = deliver-IsBalanced g s os h
  handle-IsBalanced Request.start s os h = start_in-IsBalanced s.state s os refl h
  handle-IsBalanced Request.pause s os h = pause_in-IsBalanced s.state s os h
  handle-IsBalanced Request.resume s os h = resume_in-IsBalanced s.state s os h
  handle-IsBalanced (Request.reload b) s os h = reload_in-IsBalanced s.state b s os refl h
  handle-IsBalanced (Request.stop b r) s os h = stop_in-IsBalanced s.state b r s os refl h

  pub handle_all-IsBalanced :
      (rs : List Request) (s : FeService) (os : Os)
      → IsBalanced c (s, os)
      → Ends (λ x. IsBalanced c x) (handle_all rs s os)
  unfolding handle_all
  handle_all-IsBalanced [] s os h = h
  handle_all-IsBalanced (r ∷ rs) s os h = elim (Option-cases (handle r s os)) [
    | inl e ↦ rw (e, handle_all) tt
    | inr (x, e) ↦
        rw (e, handle_all) (handle_all-IsBalanced rs x.0 x.1 (rw e at (handle-IsBalanced r s os h)))
  ]
