-- ===== src/Lib.antt =====
-- fectl, a manager of worker processes: a master process that forks the workers of its services,
-- watches them over pipes, restarts, reloads and stops them, and obeys a console client.
--
-- Parts. The command center (src/cmd.rs) owns the services (src/service.rs) and passes signals, dead
-- processes and the requests of clients on to them. A service owns its workers (src/worker.rs), each a
-- state machine over at most two processes. A process (src/process.rs) is an actor that speaks with
-- one forked process, in frames of JSON, and reports to the service. A client (client/client.rs)
-- speaks with the master (src/master.rs) over a socket, in the same frames. A master (src/main.rs)
-- loads its configuration (src/config.rs), opens the sockets of it (src/socket.rs), makes sure that it
-- is the only one (src/client.rs) and starts; the forked child (src/exec.rs) sets itself up and
-- becomes the worker.
--
-- Files.
--   Prelude     names of the libraries, Boolean tests and lists over the native numbers.
--   Steps       sequences of steps that do something and may end early, for src/exec.rs, src/master.rs,
--               src/socket.rs and src/config.rs; Ends has the rules for how they end.
--   Utils       src/utils.rs, and what the program uses of texts and paths of the standard library.
--   System      what handlers share: the answers of the operating system and the clocks, looked up by
--               the number of the question, and the log of the calls on other actors.
--   Event       src/event.rs: `Event::new` is `event`, `Events::add` is `add`.
--               Bounds and History prove.
--   Config      the settings of the master, of sockets and of services, from src/config.rs, with the
--               default values of src/config_helpers.rs.
--   Protocol    the messages of src/worker.rs between master and worker process.
--   Process     src/process.rs: Error (`ProcessError`), Start (`Process::start`, `fork` and
--               `create_pipes`), Actor (the handlers of the actor; a handler returns the effects in
--               their order). Deadlines, Descriptors, Heartbeat and Loaded
--               prove.
--   Worker      src/worker.rs: one function per method of `Worker`, with `stop` and `quit` in Ending
--               and `exited` in Exits. Methods lists the methods for sequences of calls. Custody,
--               Foreign, Frame, Reload, Restarts, Restore, Silent and Stranded prove.
--   Service     src/service.rs: `update`, `check_loading_workers` and the handlers of what processes
--               report; Queries has the handlers of `Pids` and `Status`, Commands those of `Start`,
--               `Pause`, `Resume`, `Reload` and `Stop`, Requests all messages as one type. Announce,
--               Check, Lifecycle, Livelock and Success prove, with the lemmas of Conditions, Launch,
--               Ledger, Loops, Made, Panics, Phases, Stopping and Waits.
--   Transport   the codecs, which are the same in src/process.rs, src/master.rs, src/client.rs and
--               client/client.rs; Codecs has them at the messages of the socket. Frames proves, with
--               the lemmas of Pieces.
--   Command     src/cmd.rs: `CommandCenter`, with the requests by name in Requests and sequences of
--               all that happens to it in Events. Routing, Shutdown and Unordered prove, with the
--               lemmas of Interchange and Iteration.
--   Master      the requests and responses of src/master_types.rs and the answers of src/master.rs;
--               Dispatch is the handler of a request.
--   Probe       src/client.rs: `read_response`, `try_read_response` and `is_alive`, which
--               client/client.rs has too. Answer and Silent prove.
--   Client      client/client.rs: the request of a command and the loop over the responses; Run is `run`
--               from the connection to the exit status, Cli is client/config.rs with a proof.
--               Misdirected and Waiting prove, through the service, the command center and the master.
--               Conversation proves from the request of the client to its exit status, through the
--               codecs and the master, with the lemmas of Stream and Arrivals; Verdicts has which response
--               means success.
--   Fleet       the command center and its services together while the master stops, as steps that
--               interleave in any order. Shutdown and Waiting prove, with the lemmas of Answers, Counts,
--               Members, Moves, Orders, Progress and Reports.
--   Exec        src/exec.rs: `exec_worker`, one function for each of its paragraphs. Child has the calls
--               of the system and the effects. Becomes, Configured, Exits and Reports prove, with the
--               environment of a worker written out in Environment.
--   Sockets     src/socket.rs: `Socket::load_config` and `Socket::new`. Net has the calls of the network.
--               Listening proves.
--   Loading     src/config.rs: `load_config`; Ids has the readers of users and groups of
--               src/config_helpers.rs, with a proof. Paths proves, with what a configuration has to be from
--               Sections.
--   Startup     src/master.rs: `start`. HostCalls has the calls of the system. Plan and Second prove,
--               with the lemmas of Turns.
--   Main        src/main.rs: `main`, with a proof.
--   Tests       the theorems at concrete inputs.
--
-- State. A handler takes the state of its actor and an `Os` and returns both. Every question to the
-- outside (pipe, fork, clock) has a number and is answered by the record `Outside`, a parameter of all
-- theorems: whatever the system answers, they hold. A call on another actor goes to the log of the
-- `Os`. An index out of range is a panic: the handlers of a service that index its workers return an
-- `Option`. Pids are 32-bit patterns, instants nanoseconds, and the count of restarts a `u16` that
-- wraps.
--
-- In the parts that are sequences of calls of the system, a record holds the answers, a parameter of
-- the theorems, and a step returns how it ended with the list of what has been done, the newest first.
-- A socket that is read is the list of what `read` gives; a call that has not returned at the end of
-- the list is a result of its own.
--
-- Fuel. `decode_all` takes as many messages as it is told. `try_read_response` has one round more than
-- there are readings, and each round but the last takes one (Probe.Silent). `bind_host` has the ten
-- rounds of the code. All else recurses on a list or on a number of steps.
--
-- Not modelled. Log messages, and what happens when an actor is dropped, with it the removal of the
-- pid file and the socket file. A service of the configuration whose name has been given to a later
-- one: the table of the command center forgets it. The files of src/io.rs and the reactor behind them.
-- The crates: actix is the log of calls, serde_json, toml and structopt are parameters.
-- src/addrinfo.rs is a copy of a crate, its answers are parameters. The functions of the standard
-- library on texts follow its documentation.
pub mod Prelude
pub mod Steps
pub mod Utils
pub mod Event
pub mod Config
pub mod Process
pub mod Service
pub mod System
pub mod Protocol
pub mod Worker
pub mod Transport
pub mod Command
pub mod Master
pub mod Probe
pub mod Client
pub mod Exec
pub mod Sockets
pub mod Loading
pub mod Startup
pub mod Main
pub mod Fleet
pub mod Tests
