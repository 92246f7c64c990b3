-- ===== src/Process/Heartbeat.antt =====
-- How long a worker may be silent: the heartbeat timer of src/process.rs over a run of its ticks.
use fectl.Prelude.{
  ℕ, ◌+◌, ◌-◌, ◌*◌, ◌≤◌, ◌<◌, ◌≡◌, ◌∙◌, refl, arith, All, Bool, Bool-cases, inl, inr, true, false,
  List, [], ◌∷◌, ◌++◌, length, ltb, ap,
}
use fectl.Process.Actor.{
  Effect, Process, ProcessState, Timer, handle_timer, notify_later, write, report_failed,
}
use fectl.Process.Error.{ProcessError}
use fectl.Protocol.{WorkerCommand}

-- Has the timer been set again?
unfoldable pub is_rearmed : List Effect → Bool
is_rearmed [] = false
is_rearmed (notify_later Timer.heartbeat secs ∷ es) = true
is_rearmed (_ ∷ es) = is_rearmed es

-- The heartbeat timer goes off at these instants, as long as it is set again, and the worker sends
-- nothing that the actor takes for a heartbeat.
unfoldable pub ticks : List ℕ → Process → List Effect
ticks [] p = []
ticks (now ∷ later) p =
    let (p', es) = handle_timer Timer.heartbeat p now in
    let rest = ticks later p' in es ++ elim (is_rearmed es) [ true ↦ rest | false ↦ [] ]

-- Instants that are at least two seconds apart, from `start` on.
abbrev pub AreSpaced : ℕ → List ℕ → Type 0
AreSpaced start [] = Unit
AreSpaced start (now ∷ later) = (start + 2000000000 ≤ now) × AreSpaced now later

-- What the actor does at each tick while it waits.
abbrev pub probes : List ℕ → List Effect
probes [] = []
probes (now ∷ later) = write WorkerCommand.hb ∷ notify_later Timer.heartbeat 2 ∷ probes later

-- The first tick at which the silence has lasted longer than the timeout ends the wait.
abbrev pub IsFound : List ℕ → Process → Type 0
IsFound nows p =
    (before : List ℕ) × (now : ℕ) × (after : List ℕ) × (nows ≡ before ++ now ∷ after)
    × All (λ t. t - p.hb ≤ p.timeout) before
    × (p.timeout < now - p.hb)
    × (ticks nows p ≡ probes before ++ report_failed ProcessError.heartbeat ∷ [])

tick_on_time :
    (now : ℕ) (later : List ℕ) (p : Process)
    → p.state ≡ ProcessState.running
    → now - p.hb ≤ p.timeout
    → ticks (now ∷ later) p
      ≡ write WorkerCommand.hb ∷ notify_later Timer.heartbeat 2 ∷ ticks later p
unfolding ticks is_rearmed handle_timer
tick_on_time now later p running h = ground arith

tick_late :
    (now : ℕ) (later : List ℕ) (p : Process)
    → p.state ≡ ProcessState.running
    → p.timeout < now - p.hb
    → ticks (now ∷ later) p ≡ report_failed ProcessError.heartbeat ∷ []
unfolding ticks is_rearmed handle_timer
tick_late now later p running h = ground arith

IsFound-from :
    (start : ℕ) (nows : List ℕ) (p : Process)
    → p.state ≡ ProcessState.running
    → p.hb ≤ start
    → AreSpaced start nows
    → p.timeout < (start - p.hb) + length nows * 2000000000
    → (start - p.hb) ≤ p.timeout
    → IsFound nows p
IsFound-from start [] p running h s l e = absurd (omega arith)
IsFound-from start (now ∷ later) p running h (s, spaced) l e =
    elim (Bool-cases (ltb p.timeout (now - p.hb))) [
      | inl over ↦ (
        [],
        now,
        later,
        refl,
        tt,
        ground (arith, over),
        tick_late now later p running (ground (arith, over)),
      )
      | inr within ↦
          let on_time : now - p.hb ≤ p.timeout = ground (arith, within) in
          let (before, t, after, e, all, late, same) =
            IsFound-from now later p running (omega arith) spaced (omega arith) on_time in
          (
            now ∷ before,
            t,
            after,
            ap (λ ts. now ∷ ts) e,
            (on_time, all),
            late,
            tick_on_time now later p running on_time
                ∙ ap (λ es. write WorkerCommand.hb ∷ notify_later Timer.heartbeat 2 ∷ es) same,
          )
    ]

-- A running worker that sends no heartbeat: where the timer goes off at least two seconds after the
-- last time, and often enough for these seconds to exceed the timeout, the actor asks the worker for
-- a heartbeat at each tick up to the first one at which more than the timeout has passed, and then
-- tells the service, once and not before.
pub silence-IsFound :
    (nows : List ℕ) (p : Process)
    → p.state ≡ ProcessState.running
    → AreSpaced p.hb nows
    → p.timeout < length nows * 2000000000
    → IsFound nows p
silence-IsFound nows p running spaced l =
    IsFound-from p.hb nows p running (omega arith) spaced (omega arith) (omega arith)
