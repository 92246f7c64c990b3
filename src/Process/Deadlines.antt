-- ===== src/Process/Deadlines.antt =====
-- Every live process has a deadline: a state machine of the actor with its pending timers.
use fectl.Prelude.{ℕ, suc, ◌-◌, ◌<◌, ◌≡◌, ◌⊎◌, arith, Bool, true, false, List, [], ◌∷◌}
use fectl.Process.Error.{ProcessError}
use fectl.Process.Actor.{
  Process, ProcessState, Timer, Effect, Input, create, handle_message, handle_timer, handle_stop,
  handle_quit, accept, handle,
}
use fectl.System.{Pid, Addr}

-- How many timers of each kind are set; whether the actor has been stopped; whether it has reported
-- that the heartbeat failed.
pub record Live : Type 0 where
  pub process : Process
  pub startup : ℕ
  pub stop : ℕ
  pub heartbeat : ℕ
  pub kill : ℕ
  pub ended : Bool
  pub silent : Bool

unfoldable pub note_effect : Effect → Live → Live
note_effect (Effect.notify_later Timer.startup_timeout secs) l = record l {
  startup = suc l.startup;
}
note_effect (Effect.notify_later Timer.stop_timeout secs) l = record l { stop = suc l.stop }
note_effect (Effect.notify_later Timer.heartbeat secs) l = record l { heartbeat = suc l.heartbeat }
note_effect (Effect.notify_later Timer.kill secs) l = record l { kill = suc l.kill }
note_effect (Effect.report_failed ProcessError.heartbeat) l = record l { silent = true }
note_effect Effect.stop l = record l { ended = true }
note_effect Effect.terminate l = record l { ended = true }
note_effect _ l = l

unfoldable pub note_effects : List Effect → Live → Live
note_effects [] l = l
note_effects (e ∷ es) l = note_effects es (note_effect e l)

-- The actor after a handler, with what the handler's effects set.
unfoldable pub after : Live → Process × List Effect → Live
unfolding note_effects note_effect
after l (p, es) = note_effects es (record l { process = p })

-- How many timers of a kind are set, and the actor with one of them taken away.
unfoldable pub set : Timer → Live → ℕ
set Timer.startup_timeout l = l.startup
set Timer.stop_timeout l = l.stop
set Timer.heartbeat l = l.heartbeat
set Timer.kill l = l.kill

unfoldable pub fired : Timer → Live → Live
fired Timer.startup_timeout l = record l { startup = l.startup - 1 }
fired Timer.stop_timeout l = record l { stop = l.stop - 1 }
fired Timer.heartbeat l = record l { heartbeat = l.heartbeat - 1 }
fired Timer.kill l = record l { kill = l.kill - 1 }

unfoldable pub begin : ℕ → Pid → Addr → ℕ → ℕ → ℕ → ℕ → Live
unfolding after
begin idx pid addr timeout startup shutdown now =
    let (p, es) = create idx pid addr timeout startup shutdown now in
    after
      (record {
        process = p;
        startup = 0;
        stop = 0;
        heartbeat = 0;
        kill = 0;
        ended = false;
        silent = false;
      })
      (p, es)

-- An input at any time, or a timer that is set and goes off.
pub data Step : Live → Live → Type 0 where
  input : (l : Live) (i : Input) (now : ℕ) → Step l (after l (accept i l.process now))
  fire :
      (l : Live) (t : Timer) (now : ℕ)
      → 0 < set t l
      → Step l (after (fired t l) (handle_timer t l.process now))

pub data Reach (s : Live) : Live → Type 0 where
  here : Reach s s
  next : {l m : Live} → Reach s l → Step l m → Reach s m

-- The timer on which a state relies.
abbrev Due : ProcessState → Live → Type 0
Due ProcessState.starting l = 0 < l.startup
Due ProcessState.running l = (0 < l.heartbeat) ⊎ (l.silent ≡ true)
Due ProcessState.stopping l = 0 < l.stop
Due ProcessState.failed l = ⊥

-- The actor has ended, or the timer of its state is set.
abbrev pub IsGuarded : Live → Type 0
IsGuarded l = (l.ended ≡ true) ⊎ Due l.process.state l

input-IsGuarded :
    (l : Live) (i : Input) (now : ℕ) → IsGuarded l → IsGuarded (after l (accept i l.process now))
unfolding after accept handle handle_message handle_stop handle_quit
input-IsGuarded l (Input.received m) now g = ground arith
input-IsGuarded l _ now g = ground arith

fire-IsGuarded :
    (l : Live) (t : Timer) (now : ℕ)
    → 0 < set t l
    → IsGuarded l
    → IsGuarded (after (fired t l) (handle_timer t l.process now))
unfolding after fired set handle_timer
fire-IsGuarded l Timer.kill now h g = ground arith
fire-IsGuarded l _ now h g = ground arith

Step-IsGuarded : {l m : Live} → Step l m → IsGuarded l → IsGuarded m
Step-IsGuarded (input l i now) g = input-IsGuarded l i now g
Step-IsGuarded (fire l t now h) g = fire-IsGuarded l t now h g

-- Whatever reaches the actor, until it ends a timer is set that bounds its state: the startup
-- timeout while it starts, the stop timeout while it stops, and while it runs the heartbeat, unless
-- the service has been told that the heartbeat failed.
pub Reach-IsGuarded :
    (idx : ℕ) (pid : Pid) (addr : Addr) (timeout startup shutdown now : ℕ) {l : Live}
    → Reach (begin idx pid addr timeout startup shutdown now) l
    → IsGuarded l
unfolding begin create
Reach-IsGuarded idx pid addr timeout startup shutdown now here = ground arith
Reach-IsGuarded idx pid addr timeout startup shutdown now (next r s) =
    Step-IsGuarded s (Reach-IsGuarded idx pid addr timeout startup shutdown now r)
