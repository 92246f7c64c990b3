-- ===== src/Process/Loaded.antt =====
-- A process is reported as loaded at most once, and heartbeats are judged by the silence.
use fectl.Prelude.{ℕ, suc, ◌+◌, ◌≤◌, arith, List, [], ◌∷◌}
use fectl.Process.Actor.{
  Process, ProcessState, Timer, Effect, Input, handle, handle_message, handle_timer, handle_stop,
  handle_quit, accept, create,
}
use fectl.System.{Pid, Addr}

pub data Happening : Type 0 where
  input : Input → Happening
  timer : Timer → Happening

unfoldable pub react : Happening → Process → ℕ → Process × List Effect
react (input i) p now = accept i p now
react (timer t) p now = handle_timer t p now

unfoldable pub reports : List Effect → ℕ
reports [] = 0
reports (Effect.report_loaded ∷ es) = suc (reports es)
reports (_ ∷ es) = reports es

-- The reports of a sequence of events, each with its instant.
unfoldable pub reports_all : List (Happening × ℕ) → Process → ℕ
reports_all [] p = 0
reports_all ((h, now) ∷ hs) p = let (p', es) = react h p now in reports es + reports_all hs p'

abbrev budget : ProcessState → ℕ
budget ProcessState.starting = 1
budget _ = 0

reports-react :
    (h : Happening) (p : Process) (now : ℕ)
    → let (p', es) = react h p now in reports es + budget p'.state ≤ budget p.state
unfolding react reports accept handle handle_message handle_timer handle_stop handle_quit
reports-react (timer t) p now = ground arith
reports-react (input i) p now = ground arith

reports_all-budget : (hs : List (Happening × ℕ)) (p : Process) → reports_all hs p ≤ budget p.state
unfolding reports_all
reports_all-budget [] p = omega arith
reports_all-budget ((h, now) ∷ hs) p =
    let (p', es) = react h p now in omega (arith, reports-react h p now, reports_all-budget hs p')

-- Whatever inputs and timers reach the actor of a new process, in any order and at any time, the
-- service is told at most once that the process is loaded.
pub loaded_once :
    (idx : ℕ) (pid : Pid) (addr : Addr) (timeout startup shutdown now : ℕ)
    (hs : List (Happening × ℕ))
    → reports_all hs (create idx pid addr timeout startup shutdown now).0 ≤ 1
unfolding create
loaded_once idx pid addr timeout startup shutdown now hs =
    reports_all-budget hs (create idx pid addr timeout startup shutdown now).0
