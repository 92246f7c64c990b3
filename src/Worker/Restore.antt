-- ===== src/Worker/Restore.antt =====
-- A reload whose new process does not come up: the old process stays, and is the worker's again.
use fectl.Prelude.{
  ℕ, suc, ◌+◌, ◌≤◌, ◌<◌, ◌≡◌, refl, ◌∙◌, arith, All, All-take, true, List, [], ◌∷◌, ◌++◌, ==_self,
  length, length-take-le_length, take,
}
use fectl.Process.Error.{ProcessError}
use fectl.Process.Start.{ProcessInfo}
use fectl.System.{Pid, Addr, Os, ask}
use fectl.Worker.{Worker, WorkerState, note, is_failed}
use fectl.Worker.Custody.{dismissed, dismissed-start}
use fectl.Worker.Exits.{exited, replacement_exited, count_restart}
use fectl.Worker.Restarts.{IsCounted}

-- Is the worker replacing `old`?
abbrev pub IsReplacing : ProcessInfo → WorkerState → Type 0
IsReplacing old (WorkerState.reloading p q) = q ≡ old
IsReplacing old (WorkerState.restarting p q) = q ≡ old
IsReplacing old _ = ⊥

abbrev new_pid : WorkerState → Pid
new_pid (WorkerState.reloading p q) = p.pid
new_pid (WorkerState.restarting p q) = p.pid
new_pid _ = 0

-- The process that is to replace the old one is reported gone.
unfoldable pub lose : ProcessError → Worker → Os → Worker × Os
lose e w os = exited (new_pid w.state) e w os

-- One replacement after the other is reported gone, each for a reason of its own.
unfoldable pub losses : List ProcessError → Worker → Os → Worker × Os
losses [] w os = (w, os)
losses (e ∷ es) w os = let (w', os') = lose e w os in losses es w' os'

module _ (old : ProcessInfo) (a : Addr) where
  lose_retries :
      (e : ProcessError) (w : Worker) (os : Os)
      → IsCounted e
      → IsReplacing old w.state
      → w.cfg.restarts < 65536
      → w.restarts + 1 < w.cfg.restarts
      → let (w', os') = lose e w os in
        IsReplacing old w'.state
        × (w'.restarts ≡ w.restarts + 1)
        × (w'.cfg ≡ w.cfg)
        × (dismissed a os'.calls ≡ dismissed a os.calls)
  unfolding lose exited replacement_exited count_restart note ask dismissed
  lose_retries e w os f s b l = grind (arith, ==_self, dismissed-start)

  lose_restores :
      (e : ProcessError) (w : Worker) (os : Os)
      → IsCounted e
      → IsReplacing old w.state
      → w.restarts + 1 < 65536
      → w.cfg.restarts ≤ w.restarts + 1
      → let (w', os') = lose e w os in
        (w'.state ≡ WorkerState.running old)
        × (w'.restore_from_fail ≡ true)
        × (dismissed a os'.calls ≡ dismissed a os.calls)
  unfolding lose exited replacement_exited count_restart note ask dismissed
  lose_restores e w os f s b l = grind (arith, ==_self, dismissed-start)

  losses_retry :
      (es : List ProcessError) (w : Worker) (os : Os)
      → All IsCounted es
      → IsReplacing old w.state
      → w.cfg.restarts < 65536
      → w.restarts + length es < w.cfg.restarts
      → let (w', os') = losses es w os in
        IsReplacing old w'.state
        × (w'.restarts ≡ w.restarts + length es)
        × (w'.cfg ≡ w.cfg)
        × (dismissed a os'.calls ≡ dismissed a os.calls)
  unfolding losses
  losses_retry [] w os f s b l = (s, omega arith, refl, refl)
  losses_retry (e ∷ es) w os f s b l =
      let (w', os') = lose e w os in
      let (s', n, same, quiet) = lose_retries e w os f.0 s b (omega arith) in
      let (s'', n', same', quiet') =
        losses_retry es w' os' f.1 s' (rw same b) (rw same (omega (arith, n))) in
      (s'', omega (arith, n, n'), same' ∙ same, quiet' ∙ quiet)

losses_last :
    (es : List ProcessError) (e : ProcessError) (w : Worker) (os : Os)
    → losses (es ++ e ∷ []) w os ≡ (let (w', os') = losses es w os in lose e w' os')
unfolding losses
losses_last [] e w os = refl
losses_last (d ∷ es) e w os = let (w', os') = lose d w os in losses_last es e w' os'

-- While a worker replaces its process `old`, by a reload or a restart, and the new processes die
-- before they are loaded, each for a reason of its own, but none by exit code 0, it goes on replacing
-- until `restarts` failures are counted. Then `old` is its process again, with the mark of a failed
-- reload, by which the worker counts as failed. All this time no process is asked to stop or to quit.
-- The count fits its `u16`.
pub reload_restores :
    (es : List ProcessError) (e : ProcessError) (old : ProcessInfo) (w : Worker) (os : Os)
    → All IsCounted es
    → IsCounted e
    → IsReplacing old w.state
    → w.cfg.restarts < 65536
    → w.restarts + suc (length es) ≡ w.cfg.restarts
    → let (w', os') = losses (es ++ e ∷ []) w os in
      ((j : ℕ) → IsReplacing old (losses (take j es) w os).0.state)
      × (w'.state ≡ WorkerState.running old)
      × (w'.restore_from_fail ≡ true)
      × (is_failed w' ≡ true)
      × ((a : Addr) → dismissed a os'.calls ≡ dismissed a os.calls)
unfolding is_failed
reload_restores es e old w os all f s b l =
    let (w', os') = losses es w os in
    let so_far = λ (a : Addr). losses_retry old a es w os all s b (omega arith) in
    let (s', n, same, quiet) = so_far 0 in
    let end = λ (a : Addr).
      lose_restores old a e w' os' f s' (omega (arith, n)) (rw same (omega (arith, n, l))) in
    (
      (λ j.
          (losses_retry old 0 (take j es) w os (All-take IsCounted j es all) s b
            (omega (arith, length-take-le_length j es))).0),
      rw (losses_last es e w os) ((end 0).0),
      rw (losses_last es e w os) ((end 0).1),
      rw (losses_last es e w os) (ground (arith, end 0)),
      (λ a. rw (losses_last es e w os) ((end a).2 ∙ (so_far a).3)),
    )
