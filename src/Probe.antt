-- ===== src/Probe.antt =====
-- src/client.rs: how a process asks the socket of a master whether it is alive. client/client.rs has
-- the same three functions. The socket is the list of what `read` gives, one entry for each call;
-- `from_slice` is the `serde_json` crate's.
pub mod Silent
pub mod Answer
use fectl.Prelude.{ℕ, suc, zero, ◌-◌, Option, List, [], ◌∷◌, ◌++◌, ltb, length, if◌then◌else◌}
use fectl.Master.{MasterResponse}
use fectl.Transport.{Decoded, incomplete, item, invalid}
use fectl.Transport.Codecs.{client_decode}

-- The kinds of an `io::Error` that the code tells apart.
pub data ErrorKind : Type 0 where
  timed_out would_block other : ErrorKind

-- `Ok` with the bytes read, none of them at the end of the stream, or `Err`.
pub data Reading : Type 0 where
  bytes : List ℕ → Reading
  failed : ErrorKind → Reading

-- `waiting` is a call that has not returned when the list is at its end.
pub data Outcome : Type 0 where
  response : MasterResponse → Outcome
  error : ErrorKind → Outcome
  waiting : Outcome

-- The outcome, the bytes left in the buffer and what is still to be read.
abbrev pub Received : Type 0
Received = Outcome × List ℕ × List Reading

module _ (from_slice : List ℕ → Option MasterResponse) where
  unfoldable pub read_response : List ℕ → List Reading → Received
  read_response buf [] = (waiting, buf, [])
  read_response buf (failed kind ∷ rs) = (error kind, buf, rs)
  read_response buf (bytes bs ∷ rs) =
      let (decoded, left) = client_decode from_slice (buf ++ bs) in
      elim decoded [
        | item resp ↦ (response resp, left, rs)
        | invalid ↦ (error other, left, rs)
        | incomplete ↦ elim bs [ [] ↦ (error other, left, rs) | _ ∷ _ ↦ read_response left rs ]
      ]

  -- One round of `try_read_response` for each unit of fuel. A timeout without a retry left goes to
  -- the next round as well: the arm of the `match` has no `else`.
  unfoldable pub try_read_response : ℕ → ℕ → List ℕ → List Reading → Received
  try_read_response zero retry buf rs = (waiting, buf, rs)
  try_read_response (suc fuel) retry buf rs =
      let (outcome, left, rest) = read_response buf rs in
      elim outcome [
        | response resp ↦ (response resp, left, rest)
        | error kind ↦ elim kind [
          | timed_out ↦ try_read_response fuel (if ltb 0 retry then retry - 1 else retry) left rest
          | would_block ↦ try_read_response fuel retry left rest
          | other ↦ (error other, left, rest)
        ]
        | waiting ↦ (waiting, left, rest)
      ]

  -- Each round but the last takes a reading.
  unfoldable pub first_response : List ℕ → List Reading → Received
  first_response buf rs = try_read_response (suc (length rs)) 5 buf rs

-- `Alive`, `NotAlive` and `NotResponding`, and a probe that has not returned.
pub data AliveStatus : Type 0 where
  alive not_alive not_responding undecided : AliveStatus

-- `connect`, then whatever is read on the socket.
pub data Connection : Type 0 where
  refused : Connection
  connected : List Reading → Connection

unfoldable pub alive_status : Outcome → AliveStatus
alive_status (response resp) = AliveStatus.alive
alive_status (error kind) = AliveStatus.not_responding
alive_status waiting = AliveStatus.undecided

unfoldable pub is_alive : (List ℕ → Option MasterResponse) → Connection → AliveStatus
is_alive from_slice refused = AliveStatus.not_alive
is_alive from_slice (connected rs) = alive_status (first_response from_slice [] rs).0
