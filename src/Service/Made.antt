-- ===== src/Service/Made.antt =====
-- The conditions that a service has made: reports of processes make none.
use fectl.Prelude.{ℕ, suc, ◌≡◌, ◌∙◌, refl, arith, Bool, true, false, if◌then◌else◌}
use fectl.Event.{Reason}
use fectl.Service.{
  FeService, ServiceState, at_worker, at_worker_then_update, check_loading_workers, failure_due,
  fresh, process_exited, process_failed, process_loaded, process_message, settle, stop_unfinished,
  update, update_in,
}
use fectl.Service.Commands
use fectl.Service.Conditions.{at_worker-IsSilent, stop-Silent}
use fectl.Service.Ledger.{
  check_loading_workers-IsSilent, for_each-IsSilent, stop_unfinished-IsSilent,
}
use fectl.Service.Loops.{Ends, Ends-map}
use fectl.Service.Requests.{Signal, deliver}
use fectl.System.{Os, log}
use fectl.Worker.Ending
use fectl.Worker.Exits
use fectl.Worker.Methods.{Method, perform}
use fectl.Worker.Silent.{IsSilent, perform-IsSilent}

-- No condition is made from the one system to the other.
abbrev pub IsUnmade : Os → Os → Type 0
IsUnmade os os' = os'.next_condition ≡ os.next_condition

update_in-IsUnmade : (t : ServiceState) (s : FeService) (os : Os) → IsUnmade os (update_in t s os).1
unfolding update_in settle log
update_in-IsUnmade (ServiceState.starting d) s os =
    let (l, ws, os') = check_loading_workers true s.workers os in
    ground (
      arith,
      check_loading_workers-IsSilent 0 true s.workers os,
      for_each-IsSilent 0 stop_unfinished ws os' (stop_unfinished-IsSilent 0),
    )
update_in-IsUnmade (ServiceState.reloading d) s os =
    let (l, ws, os') = check_loading_workers true s.workers os in
    ground (
      arith,
      check_loading_workers-IsSilent 0 true s.workers os,
      for_each-IsSilent 0 stop_unfinished ws os' (stop_unfinished-IsSilent 0),
    )
update_in-IsUnmade (ServiceState.stopping d) s os =
    ground (arith, check_loading_workers-IsSilent 0 false s.workers os)
update_in-IsUnmade _ s os = refl

pub update-IsUnmade : (s : FeService) (os : Os) → IsUnmade os (update s os).1
unfolding update
update-IsUnmade s os = update_in-IsUnmade s.state s os

at_worker-IsUnmade :
    (m : Method) (i : ℕ) (s : FeService) (os : Os)
    → Ends (λ r. IsUnmade os r.1) (at_worker_then_update i (perform m) s os)
unfolding at_worker_then_update
at_worker-IsUnmade m i s os =
    Ends-map (λ r. IsSilent 0 os r.1) (λ r. IsUnmade os r.1)
      (λ r. update (record s { workers = r.0 }) r.1) (at_worker i (perform m) s.workers os)
      (λ r k. update-IsUnmade (record s { workers = r.0 }) r.1 ∙ k.unmade)
      (at_worker-IsSilent 0 i (perform m) s.workers os (perform-IsSilent 0 m))

pub deliver-IsUnmade :
    (g : Signal) (s : FeService) (os : Os) → Ends (λ r. IsUnmade os r.1) (deliver g s os)
unfolding deliver process_message process_failed failure_due process_loaded process_exited perform
    log
deliver-IsUnmade (Signal.message i pid m) s os = at_worker-IsUnmade (Method.message pid m) i s os
deliver-IsUnmade (Signal.failed i pid e) s os = refl
deliver-IsUnmade (Signal.failure_due i pid e) s os = at_worker-IsUnmade (Method.exited pid e) i s os
deliver-IsUnmade (Signal.loaded i pid) s os = at_worker-IsUnmade (Method.loaded pid) i s os
deliver-IsUnmade (Signal.exited pid e) s os =
    update-IsUnmade _ _
    ∙ (for_each-IsSilent 0 (Exits.exited pid e) s.workers os
        (λ w os'. perform-IsSilent 0 (Method.exited pid e) w os')).unmade

-- A stop makes one.
pub stop_workers_makes :
    (g : Bool) (r : Reason) (s : FeService) (os : Os)
    → (Commands.stop_workers g r s os).1.next_condition ≡ suc os.next_condition
unfolding Commands.stop_workers fresh
stop_workers_makes g r s os =
    let work = if g then Ending.stop r else Ending.quit r in
    update-IsUnmade _ _
    ∙ (for_each-IsSilent 0 work s.workers (fresh os).1 (stop-Silent 0 g r)).unmade
