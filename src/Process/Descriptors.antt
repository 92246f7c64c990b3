-- ===== src/Process/Descriptors.antt =====
-- The descriptors of a start that fails.
use fectl.Prelude.{ℕ, suc, ◌≡◌, arith, String, ◌∷◌}
use fectl.System.{Io, Os, Pid, ask, close, log}
use fectl.Process.Start.{create_pipes, fork}

-- The defect: a fork that fails, at a pipe or at the process, closes none of the descriptors that it
-- has opened.
fork_leaks : (os : Os) (e : String) → (fork os).0 ≡ Io.err e → (fork os).1.calls ≡ os.calls
unfolding fork create_pipes ask log
fork_leaks os e h = ground arith

-- A fork that goes through closes just the two ends that the child keeps.
pub fork_closes :
    (os : Os) (r w cr cw : ℕ) (child : Pid)
    → os.outside.pipe os.asked ≡ Io.ok (r, w)
    → os.outside.pipe (suc os.asked) ≡ Io.ok (cr, cw)
    → os.outside.fork (suc (suc os.asked)) ≡ Io.ok child
    → (fork os).1.calls ≡ close cw ∷ close r ∷ os.calls
unfolding fork create_pipes ask log
fork_closes os r w cr cw child a b c = ground arith
