-- ===== src/Client/Run.antt =====
-- client/client.rs, from the connection to the exit status. The functions that read the socket are
-- those of src/client.rs.
use fectl.Prelude.{
  ℕ, zero, suc, ◌≡◌, ◌<◌, arith, All, String, Bool, false, Option, none, some, List, [], ◌∷◌, ◌++◌,
  length,
}
use fectl.Client.{ClientCommand, request, Read, failure, read_loop}
use fectl.Client
use fectl.Master.{MasterRequest, MasterResponse}
use fectl.Probe.{
  Connection, Outcome, Reading, bytes, connected, error, first_response, read_response, refused,
  response, try_read_response, waiting,
}
use fectl.Probe.Silent.{IsTimeout, first_response-waits}
use fectl.Transport.{encode}
use fectl.Transport.Codecs.{console_encode}
use fectl.Transport.Frames.{decode-encode}

-- `write_all` gives the error of the socket, if any.
unfoldable pub send_command :
    (MasterRequest → List ℕ) → (List ℕ → Option String) → MasterRequest → Option String
send_command print write_all req = write_all (console_encode print req [])

unfoldable pub read_next : Outcome → List Read → List Read
read_next (response resp) next = Client.response resp ∷ next
read_next (error kind) next = failure ∷ []
read_next waiting next = []

module _ (from_slice : List ℕ → Option MasterResponse) where
  -- What the loop of `run` gets from its calls of `try_read_response`, at most so many.
  unfoldable pub reads : ℕ → List ℕ → List Reading → List Read
  reads zero buf rs = []
  reads (suc calls) buf rs =
      let (outcome, left, rest) = first_response from_slice buf rs in
      read_next outcome (reads calls left rest)

  -- `none` is a client that still waits. Each response takes a reading.
  unfoldable pub run :
      (String → Bool)
      → (MasterRequest → List ℕ)
      → (List ℕ → Option String)
      → ClientCommand
      → Connection
      → Option Bool
  run v print write_all cmd refused = some false
  run v print write_all cmd (connected rs) =
      let (outcome, left, rest) = first_response from_slice [] rs in
      elim outcome [
        | response resp ↦ elim (send_command print write_all (request cmd)) [
          | none ↦ read_loop v cmd (reads (suc (length rest)) left rest)
          | some err ↦ some false
        ]
        | error kind ↦ some false
        | waiting ↦ none
      ]

  first_message :
      (to_string : MasterResponse → List ℕ) (m : MasterResponse) (more : List ℕ) (rs : List Reading)
      → from_slice (to_string m) ≡ some m
      → length (to_string m) < 65536
      → first_response from_slice [] (bytes (encode to_string m [] ++ more) ∷ rs)
        ≡ (response m, more, rs)
  unfolding first_response try_read_response read_response
  first_message to_string m more rs parses short =
      grind (arith, decode-encode to_string from_slice m more parses short)

  -- The defect: where the answer to a command arrives in one read with the master's greeting, the client
  -- does not look at it, however long it waits, until more arrives on the socket: each call reads
  -- before it decodes what it has. The request could be sent, all further reads run into the timeout,
  -- and the text of the greeting is parsed as it and has fewer than 2^16 bytes.
  pub buffered_answer_waits :
      (to_string : MasterResponse → List ℕ) (v : String → Bool) (print : MasterRequest → List ℕ)
      (write_all : List ℕ → Option String) (cmd : ClientCommand) (answer : List ℕ)
      (rs : List Reading)
      → from_slice (to_string MasterResponse.pong) ≡ some MasterResponse.pong
      → length (to_string MasterResponse.pong) < 65536
      → send_command print write_all (request cmd) ≡ none
      → All IsTimeout rs
      → run v print write_all cmd
          (connected (bytes (encode to_string MasterResponse.pong [] ++ answer) ∷ rs))
        ≡ none
  unfolding run reads read_next read_loop
  buffered_answer_waits to_string v print write_all cmd answer rs parses short e h = grind (
    arith,
    first_message to_string MasterResponse.pong answer rs parses short,
    first_response-waits from_slice answer rs h,
  )
