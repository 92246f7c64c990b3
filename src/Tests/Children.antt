-- ===== src/Tests/Children.antt =====
-- The theorems on forked children at concrete inputs. Messages are printed as single numbers.
use fectl.Prelude.{
  ℕ, ◌≡◌, ◌≢◌, refl, arith, String, true, false, Option, none, some, List, [], ◌∷◌, ◌⊎◌,
}
use fectl.Command.{CommandCenter, SignalType, State, WaitStatus, handle_signal, send_exited}
use fectl.Config.{ServiceConfig}
use fectl.Exec.{exec_worker}
use fectl.Exec.Becomes.{IsWilling, exec_worker_becomes}
use fectl.Exec.Child.{Surroundings, exited}
use fectl.Exec.Configured.{Post, plan, exec_worker-Ends}
use fectl.Exec.Exits.{exec_worker-reported}
use fectl.Exec.Reports.{Always, Greeting, exec_worker_reports, uid_before_gid}
use fectl.Process.Error.{ProcessError, worker_init_failed}
use fectl.Protocol.{WorkerCommand, WorkerMessage}
use fectl.Steps.{ended, ok}
use fectl.System.{Io}
use fectl.Transport.{encode, put_u16_be}
use fectl.Utils.{find_path, is_empty, is_whitespace, split_from, split_whitespace}

abbrev to_string : WorkerMessage → List ℕ
to_string msg = 1 ∷ []

abbrev from_slice : List ℕ → Option WorkerCommand
from_slice [] = none
from_slice (byte ∷ rest) = some WorkerCommand.prepare

-- Only a process that has kept its user may change its group.
abbrev setgid : Option ℕ → ℕ → Option String
setgid none gid = none
setgid (some user) gid = some "EPERM"

abbrev surroundings : Surroundings
surroundings = record {
  to_string = to_string;
  from_slice = from_slice;
  write_all = λ fd bytes. none;
  input = 0 ∷ 1 ∷ 5 ∷ [];
  chdir = λ dir. none;
  setuid = λ uid. none;
  setgid = setgid;
  is_file = λ path. true;
  paths = none;
  open_append = λ file. Io.ok 3;
  vars = ("LANG", "C") ∷ ("_", "/bin/sh") ∷ [];
  has_nul = λ s. false;
  format_number = λ n. "number";
  execve = λ path args env. none;
}

-- Runs as the given user.
abbrev confined : Option ℕ → ServiceConfig
confined user = record {
  name = "web";
  num = 2;
  command = "/bin/serve --quiet";
  restarts = 3;
  directory = some "/srv";
  gid = some 100;
  uid = user;
  timeout = 10;
  startup_timeout = 30;
  shutdown_timeout = 30;
  stdout = some "out.log";
  stderr = none;
}

exec_worker-Ends_example :
    Post surroundings (confined none) 11 (exec_worker surroundings 0 (confined none) 10 11 [])
exec_worker-Ends_example = exec_worker-Ends surroundings 0 (confined none) 10 11

ends_differ : ◌≢◌ {A = ℕ} 10 11
ends_differ = omega arith

exec_worker_reports_example :
    Always (Greeting 11) (exec_worker surroundings 0 (confined (some 33)) 10 11 [])
exec_worker_reports_example =
    exec_worker_reports surroundings 10 11 ends_differ 0 (confined (some 33))

refused : setgid (some 33) 100 ≢ none
refused = ground arith

fails :
    (exec_worker surroundings 0 (confined (some 33)) 10 11 []).0 ≡ ended (exited worker_init_failed)
fails = uid_before_gid surroundings 0 33 100 (confined (some 33)) 10 11 refl refl refused

abbrev center : CommandCenter
center = record {
  state = State.running;
  services = ("web", 1) ∷ [];
  stop_waiter = none;
  stopping = 0;
}

exec_worker-reported_example :
    let heard =
      handle_signal SignalType.child (WaitStatus.exited 100 worker_init_failed ∷ []) center in
    ((worker_init_failed ≡ 99)
      × (heard ≡ (center, send_exited 1 100 ProcessError.init_failed ∷ [])))
    ⊎ ((worker_init_failed ≡ 100)
        × (heard ≡ (center, send_exited 1 100 ProcessError.boot_failed ∷ [])))
exec_worker-reported_example =
    exec_worker-reported surroundings 0 (confined (some 33)) 10 11 worker_init_failed 100 center
      fails

-- Here a process of any user may change its group.
abbrev lenient : Surroundings
lenient = record surroundings { setgid = λ user gid. none }

abbrev print : WorkerCommand → List ℕ
print command = 5 ∷ []

input_framed : lenient.input ≡ encode print WorkerCommand.prepare []
unfolding encode put_u16_be
input_framed = refl

lenient-IsWilling : IsWilling lenient print
lenient-IsWilling = record {
  writes = λ fd text. refl;
  answer = input_framed;
  parses = refl;
  short = omega arith;
  enters = λ dir. refl;
  users = λ uid. refl;
  groups = λ user gid. refl;
  opens = λ file. (3, refl);
  executes = λ path args env. refl;
}

command_words : split_whitespace "/bin/serve --quiet" ≡ "/bin/serve" ∷ "--quiet" ∷ []
unfolding split_whitespace split_from is_whitespace is_empty
command_words = refl

serve_found : find_path lenient.is_file lenient.paths "/bin/serve" ≡ some "/bin/serve"
unfolding find_path
serve_found = refl

abbrev environ : List String
environ = "LANG=C" ∷ "FECTL_FD=number:number" ∷ "FECTL_SRV_NAME=web" ∷ "FECTL_PROC_IDX=number" ∷ []

exec_worker_becomes_example : exec_worker lenient 0 (confined (some 33)) 10 11 [] ≡ (
  ok (record { path = "/bin/serve"; args = "/bin/serve" ∷ "--quiet" ∷ []; env = environ }),
  plan lenient (confined (some 33)) 11,
)
exec_worker_becomes_example =
    exec_worker_becomes lenient print lenient-IsWilling 0 (confined (some 33)) 10 11 "/bin/serve"
      "/bin/serve" ("--quiet" ∷ []) command_words serve_found (refl, (refl, tt))
      (refl, (refl, (refl, (refl, tt))))
