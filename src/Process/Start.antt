-- ===== src/Process/Start.antt =====
-- src/process.rs: `Process::start`, `Process::fork` and `Process::create_pipes` in the master. What
-- the forked child does is src/exec.rs, in another process.
use Prim.Native.String.{◌++◌}
use fectl.Prelude.{ℕ, suc, String, Option, none, some}
use fectl.Config.{ServiceConfig}
use fectl.Process.Error.{ProcessError}
use fectl.System.{
  Pid, no_pid, Addr, Io, ok, err, Os, ask, log, close, create_process, process_failed,
}

-- The read end of the pipe from the worker and the write end of the pipe to it.
pub record PipeFile : Type 0 where
  pub read : ℕ
  pub write : ℕ

pub record Pipes : Type 0 where
  pub p_read : ℕ
  pub p_write : ℕ
  pub ch_read : ℕ
  pub ch_write : ℕ

abbrev pipe_error : String → String
pipe_error e = "Can not create pipe: " ++ e

second_pipe : ℕ × ℕ → Io (ℕ × ℕ) → Os → Io Pipes × Os
second_pipe (r, w) (ok (cr, cw)) os =
    (ok (record { p_read = r; p_write = w; ch_read = cr; ch_write = cw }), os)
second_pipe p (err e) os = (err (pipe_error e), os)

first_pipe : Io (ℕ × ℕ) → Os → Io Pipes × Os
unfolding second_pipe ask
first_pipe (ok p) os = second_pipe p (os.outside.pipe os.asked) (ask os)
first_pipe (err e) os = (err (pipe_error e), os)

unfoldable pub create_pipes : Os → Io Pipes × Os
unfolding first_pipe ask
create_pipes os = first_pipe (os.outside.pipe os.asked) (ask os)

-- The parent's side: it closes the ends that the child keeps.
forked : Pipes → Io Pid → Os → Io (Pid × PipeFile) × Os
unfolding log
forked p (ok child) os = (
  ok (child, record { read = p.ch_read; write = p.p_write }),
  log (close p.ch_write) (log (close p.p_read) os),
)
forked p (err e) os = (err e, os)

fork_with : Io Pipes × Os → Io (Pid × PipeFile) × Os
unfolding forked ask
fork_with (ok p, os) = forked p (os.outside.fork os.asked) (ask os)
fork_with (err e, os) = (err e, os)

unfoldable pub fork : Os → Io (Pid × PipeFile) × Os
unfolding create_pipes fork_with
fork os = fork_with (create_pipes os)

-- `ProcessInfo` of src/worker.rs: `Process::start` returns its two fields.
pub record ProcessInfo : Type 0 where
  pub pid : Pid
  pub addr : Option Addr

started : ℕ → Addr → Io (Pid × PipeFile) × Os → ProcessInfo × Os
unfolding log
started idx service (ok (pid, pipe), os) = (
  record { pid = pid; addr = some os.next_addr },
  log (create_process os.next_addr idx pid) (record os { next_addr = suc os.next_addr }),
)
started idx service (err e, os) = (
  record { pid = no_pid; addr = none },
  log (process_failed service idx no_pid (ProcessError.failed_to_start (some e))) os,
)

unfoldable pub start : ℕ → ServiceConfig → Addr → Os → ProcessInfo × Os
unfolding fork started
start idx cfg service os = started idx service (fork os)
