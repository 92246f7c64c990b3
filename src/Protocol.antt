-- ===== src/Protocol.antt =====
-- src/worker.rs: the messages between the master and a worker process, without their JSON.
use fectl.Prelude.{String}

-- From the master to a worker process.
pub data WorkerCommand : Type 0 where
  prepare start pause resume stop hb : WorkerCommand

-- From a worker process to the master.
pub data WorkerMessage : Type 0 where
  forked loaded reload restart hb : WorkerMessage
  cfgerror : String → WorkerMessage
