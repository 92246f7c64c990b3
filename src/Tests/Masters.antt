-- ===== src/Tests/Masters.antt =====
-- The theorems on the start of a master, on its probe and on its configuration at concrete inputs.
-- Messages are printed as single numbers.
use fectl.Prelude.{
  All, ℕ, zero, suc, ◌≡◌, ◌↔◌, refl, arith, String, true, false, Option, none, some, List, [], ◌∷◌,
  ◌++◌,
}
use fectl.Client.{ClientCommand, request}
use fectl.Client.Cli
use fectl.Client.Cli.{IsWritten, load_config_iff}
use fectl.Client.Run.{buffered_answer_waits, run, send_command}
use fectl.Config.{default_logging, MasterConfig, Proto, SocketConfig}
use fectl.Loading.{Cli, Config, Files, TomlConfig, load_config}
use fectl.Loading.Ids.{Names}
use fectl.Loading.Paths.{FollowsFile, If, IsAbsolute}
use fectl.Main.{main, main-runs, runs}
use fectl.Master.{MasterResponse}
use fectl.Probe.{
  AliveStatus, Connection, Reading, bytes, connected, failed, first_response, is_alive, refused,
  response, timed_out,
}
use fectl.Probe.Answer
use fectl.Probe.Answer.{first_response-Answered}
use fectl.Probe.Silent
use fectl.Probe.Silent.{silent_undecided}
use fectl.Sockets.Net.{Family, Network}
use fectl.Startup.{start}
use fectl.Startup.HostCalls.{Binding, Host}
use fectl.Startup.Plan.{IsPlan}
use fectl.Startup.Second.{Never, Refused, second_start-Refused}
use fectl.Steps.Ends.{Ends}
use fectl.System.{Io}
use fectl.Transport.{encode, put_u16_be}

abbrev to_string : MasterResponse → List ℕ
to_string m = 1 ∷ []

abbrev from_slice : List ℕ → Option MasterResponse
from_slice [] = none
from_slice (byte ∷ rest) = some MasterResponse.pong

abbrev silence : List Reading
silence = failed timed_out ∷ failed timed_out ∷ []

silent_undecided_example : is_alive from_slice (connected silence) ≡ AliveStatus.undecided
silent_undecided_example = silent_undecided from_slice silence (Silent.late, (Silent.late, tt))

-- A late frame in two pieces, and the first byte of another one.
abbrev pieces : List Reading
pieces = failed timed_out ∷ bytes (0 ∷ []) ∷ bytes (1 ∷ 1 ∷ 0 ∷ []) ∷ []

pieces-IsOpen : All Answer.IsOpen pieces
pieces-IsOpen = (Answer.late, (Answer.piece 0 [], (Answer.piece 1 (1 ∷ 0 ∷ []), tt)))

stream-pieces : Answer.stream pieces ≡ encode to_string MasterResponse.pong [] ++ 0 ∷ []
unfolding Answer.stream encode put_u16_be
stream-pieces = refl

first_response-Answered_example :
    let (outcome, left, rest) = first_response from_slice [] pieces in
    (outcome ≡ response MasterResponse.pong) × (left ++ Answer.stream rest ≡ 0 ∷ [])
first_response-Answered_example =
    first_response-Answered to_string from_slice MasterResponse.pong (0 ∷ []) refl (omega arith)
      pieces pieces-IsOpen stream-pieces

sent : send_command (λ req. 2 ∷ []) (λ text. none) (request (ClientCommand.stop "web")) ≡ none
unfolding send_command
sent = refl

buffered_answer_waits_example :
    run from_slice
      (λ v. true)
      (λ req. 2 ∷ [])
      (λ text. none)
      (ClientCommand.stop "web")
      (connected (bytes (encode to_string MasterResponse.pong [] ++ 0 ∷ 1 ∷ 1 ∷ []) ∷ silence))
    ≡ none
buffered_answer_waits_example =
    buffered_answer_waits from_slice to_string (λ v. true) (λ req. 2 ∷ []) (λ text. none)
      (ClientCommand.stop "web") (0 ∷ 1 ∷ 1 ∷ []) silence refl (omega arith) sent
      (Silent.late, (Silent.late, tt))

-- A host where the local address is free in the second round.
abbrev busy : ℕ → Option String
busy zero = some "EADDRINUSE"
busy (suc n) = none

abbrev host : Binding → Connection → Host
host binding connection = record {
  chdir = λ dir. none;
  bind = busy;
  bind_socket = binding;
  connection = connection;
  from_slice = from_slice;
  bind_socket_again = none;
  write_pid = λ path. none;
  setuid = λ uid. none;
  setgid = λ user gid. none;
  daemon = none;
  open_append = λ path. Io.ok 3;
  from_std = none;
}

abbrev master : MasterConfig
master = record {
  daemon = true;
  pid = some "/srv/fectl.pid";
  sock = "/srv/fectld.sock";
  directory = "/srv";
  gid = some 100;
  uid = some 33;
  stdout = some "out.log";
  stderr = none;
}

second_start-Refused_example :
    Ends Never Refused (start (host Binding.addr_in_use (connected pieces)) master [])
second_start-Refused_example =
    second_start-Refused (host Binding.addr_in_use (connected pieces)) master to_string
      MasterResponse.pong (0 ∷ []) pieces refl refl pieces-IsOpen stream-pieces refl (omega arith)

abbrev net : Network
net = record {
  lookup = λ host port. Io.ok (
      record {
        family = Family.inet6;
        family_int = 10;
        socktype_int = 1;
        protocol_int = 6;
        sockaddr = "[::]:8080";
      }
      ∷ record {
        family = Family.inet;
        family_int = 2;
        socktype_int = 1;
        protocol_int = 6;
        sockaddr = "0.0.0.0:8080";
      }
      ∷ []);
  builder = λ addr. true;
  bind = λ addr. none;
  listen = λ addr backlog. some 7;
  local_addr = λ fd. some "0.0.0.0:8080";
  has_flags = λ fd. true;
  format_number = λ n. "number";
  to_string = λ args. "[]";
}

abbrev http : SocketConfig
http = record {
  name = "http";
  port = 8080;
  host = none;
  backlog = 256;
  proto = Proto.tcp4;
  service = [];
  app = some "aiohttp";
  arguments = "a" ∷ [];
}

abbrev file : TomlConfig
file = record { master = none; logging = none; socket = http ∷ []; service = [] }

abbrev files : Files
files = record {
  read_to_string = λ path. Io.ok "";
  from_str = λ text. some file;
  canonicalize = λ dir. none;
  current_dir = some "/srv";
}

abbrev args : Cli
args = record { config = "fectld.toml"; daemon = true }

names : Names
names = record { has_nul = λ s. false; getgrnam = λ s. some 33; getpwnam = λ s. none }

abbrev typed : Cli.Cli
typed = record { sock = "fectld.sock"; command = " stop "; name = some "web" }

load_config_iff_example :
    (Cli.load_config (λ s. s) typed ≡ some (ClientCommand.stop "web", "fectld.sock"))
    ↔ ((typed.sock ≡ "fectld.sock") × IsWritten (λ s. s) typed (ClientCommand.stop "web"))
load_config_iff_example = load_config_iff (λ s. s) typed (ClientCommand.stop "web") "fectld.sock"

abbrev config : Config
config = record {
  master = record {
    daemon = true;
    pid = none;
    sock = "/srv/fectld.sock";
    directory = "/srv";
    gid = none;
    uid = none;
    stdout = none;
    stderr = none;
  };
  sockets =
      record {
        name = "http";
        listener = 7;
        info = record {
          family = Family.inet;
          family_int = 2;
          socktype_int = 1;
          protocol_int = 6;
          sockaddr = "0.0.0.0:8080";
        };
      }
      ∷ [];
  logging = default_logging;
  services = [];
}

runs_config : main files net (host Binding.bound refused) args ≡ runs config
unfolding main load_config fectl.Loading.read_config fectl.Loading.directory_of
    fectl.Loading.master_or_default fectl.Loading.with_sockets fectl.Sockets.load_config
    fectl.Sockets.load_all fectl.Sockets.load_socket fectl.Sockets.first_listener fectl.Sockets.new
    fectl.Sockets.set_app start fectl.Startup.bind_host fectl.Startup.bind_socket
    fectl.Startup.save_pid fectl.Loading.master_config fectl.Startup.set_uid fectl.Startup.set_gid
    fectl.Loading.finish fectl.Loading.load_parsed fectl.Loading.logging_or_default
    fectl.Main.loaded fectl.Main.started fectl.Sockets.found fectl.Sockets.is_skipped
    fectl.Sockets.listen fectl.Sockets.push fectl.Sockets.set_args fectl.Startup.attempt
    fectl.Startup.daemonize fectl.Startup.redirect fectl.Utils.ends_in_slash fectl.Utils.is_empty
    fectl.Utils.join
runs_config = refl

current : If IsAbsolute files.current_dir
current = refl

main-runs_example :
    FollowsFile files net args (λ dir. tt) current config (load_config files net args []).1
    × IsPlan
        (host Binding.bound refused)
        config.master
        (start (host Binding.bound refused) config.master []).1
main-runs_example =
    main-runs files net (host Binding.bound refused) args (λ dir. tt) current config runs_config
