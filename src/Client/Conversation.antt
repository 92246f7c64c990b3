-- ===== src/Client/Conversation.antt =====
-- A whole conversation: client/client.rs writes a request, src/master.rs reads, handles and answers
-- it, and the answer comes back, with heartbeats around it, in a stream that is cut anywhere.
use fectl.Prelude.{
  ℕ, suc, ◌≡◌, ◌∙◌, sym, ap, arith, All, ◌⊎◌, Option-cases, String, Bool, Option, some, none, List,
  [], ◌∷◌, ◌++◌, length, map, inl, inr,
}
use fectl.Client
use fectl.Client.{ClientCommand, Read, on_response, read_loop, request}
use fectl.Client.Arrivals.{Arrives, first_response-Heard, reads_all}
use fectl.Client.Run.{reads, run, send_command}
use fectl.Client.Stream.{
  Got, IsBeginning, Rest, first_response-Got, read_loop_more, reads-IsBeginning,
}
use fectl.Client.Verdicts.{Means, on_response-Means}
use fectl.Command.{CommandCenter}
use fectl.Master.{MasterRequest, MasterResponse}
use fectl.Master.Dispatch.{Replies, handle, receive}
use fectl.Probe.{Reading, connected, first_response}
use fectl.Probe.Answer.{IsOpen, stream}
use fectl.Transport.Codecs.{console_encode}
use fectl.Transport.Frames.{encode_all}
use fectl.Transport.Pieces.{IsSendable, decode_alone}

abbrev pub IsPong : MasterResponse → Type 0
IsPong m = m ≡ MasterResponse.pong

abbrev pub sent : Option MasterResponse → List MasterResponse
sent none = []
sent (some m) = m ∷ []

-- The heartbeat is skipped, and the loop ends at a response that it returns for.
loop_end :
    (v : String → Bool) (cmd : ClientCommand) (answer : MasterResponse) (result : Bool)
    (before after : List MasterResponse)
    → All IsPong before
    → on_response v cmd answer ≡ some result
    → read_loop v cmd (map Client.response (before ++ answer ∷ after)) ≡ some result
unfolding read_loop on_response
loop_end v cmd answer result [] after h e = ground (arith, e)
loop_end v cmd answer result (m ∷ before) after (p, h) e =
    ground (arith, p, loop_end v cmd answer result before after h e)

loop_faithful :
    (v : String → Bool) (cmd : ClientCommand) (b : Bool) (xs : List Read) (ms : List MasterResponse)
    → IsBeginning xs ms
    → read_loop v cmd xs ≡ some b
    → read_loop v cmd (map Client.response ms) ≡ some b
unfolding IsBeginning
loop_faithful v cmd b xs ms (unread, same) e =
    ap (read_loop v cmd) same ∙ read_loop_more v cmd b xs (map Client.response unread) e

module _ (to_string : MasterResponse → List ℕ) (from_slice : List ℕ → Option MasterResponse) where
  -- After the greeting, the client does what the loop does on all that the master has sent.
  run_faithful :
      (v : String → Bool) (print : MasterRequest → List ℕ) (write_all : List ℕ → Option String)
      (cmd : ClientCommand) (b : Bool) (greeting : MasterResponse) (ms : List MasterResponse)
      (more : List ℕ) (rs : List Reading)
      → Rest to_string from_slice more (greeting ∷ ms) [] rs
      → send_command print write_all (request cmd) ≡ none
      → run from_slice v print write_all cmd (connected rs) ≡ some b
      → read_loop v cmd (map Client.response ms) ≡ some b
  unfolding run Got
  run_faithful v print write_all cmd b greeting ms more rs h e done =
      let (outcome, left, rest) = first_response from_slice [] rs in
      ground (
        arith,
        first_response-Got to_string from_slice more (greeting ∷ ms) [] rs h,
        reads-IsBeginning to_string from_slice more (suc (length rest)) ms left rest,
        loop_faithful v cmd b (reads from_slice (suc (length rest)) left rest) ms,
      )

-- What the master sends after it has got the bytes of the request.
abbrev pub replies :
    (MasterRequest → List ℕ)
    → (List ℕ → Option MasterRequest)
    → ClientCommand
    → Replies
    → String
    → String
    → Option CommandCenter
    → List MasterResponse
replies print parse cmd r pid version c =
    sent (receive parse r pid version c (console_encode print (request cmd) []))

module _ (to_string : MasterResponse → List ℕ) (from_slice : List ℕ → Option MasterResponse)
    (print : MasterRequest → List ℕ) (parse : List ℕ → Option MasterRequest) (v : String → Bool)
    (write_all : List ℕ → Option String) (cmd : ClientCommand) (r : Replies) (pid version : String)
    (c : Option CommandCenter) (answer : MasterResponse) (result : Bool)
    (readable : IsSendable print parse (request cmd))
    (written : send_command print write_all (request cmd) ≡ none)
    (handled : handle r pid version (request cmd) c ≡ some answer)
    (meant : Means v cmd answer result) where
  final : on_response v cmd answer ≡ some result
  final = on_response-Means v cmd answer result meant

  abbrev answers : List MasterResponse
  answers = replies print parse cmd r pid version c

  answers_lem : answers ≡ answer ∷ []
  unfolding receive
  answers_lem =
      ap sent {y = some answer}
        (ground (arith, decode_alone print parse (request cmd) readable, handled))

  -- A command whose request could be written, and that the master answers by a response that ends a
  -- command. The master has sent a greeting, some heartbeats, what it answers to the bytes that the
  -- client has written, and more after that, and the stream is cut anywhere, with timeouts in between,
  -- and may lack its last part: the client still waits, or has returned, with success where the
  -- answer says so and with a failure where it says so. The text of the request and the texts of all
  -- that the master sends are parsed as what they were made from, and have fewer than 2^16 bytes each.
  pub run_obeys :
      (before after : List MasterResponse) (more : List ℕ) (rs : List Reading)
      → All IsPong before
      → All (IsSendable to_string from_slice) (MasterResponse.pong ∷ before ++ (answers ++ after))
      → All IsOpen rs
      → stream rs ++ more
        ≡ encode_all to_string (MasterResponse.pong ∷ before ++ (answers ++ after))
      → let returned = run from_slice v print write_all cmd (connected rs) in
        (returned ≡ none) ⊎ (returned ≡ some result)
  run_obeys before after more rs h good opens same =
      let ms = before ++ (answers ++ after) in
      let all = map Client.response ms in
      let ends : read_loop v cmd all ≡ some result =
        rw answers_lem (loop_end v cmd answer result before after h final) in
      let got : (b : Bool)
          → run from_slice v print write_all cmd (connected rs) ≡ some b
          → read_loop v cmd all ≡ some b =
        λ b done.
          run_faithful to_string from_slice v print write_all cmd b MasterResponse.pong ms more rs
            (unfold Rest in (same, good, opens)) written done in
      elim (Option-cases (run from_slice v print write_all cmd (connected rs))) [
        | inl e ↦ inl e
        | inr (b, e) ↦ inr (e ∙ sym (got b e) ∙ ends)
      ]

  -- A command whose request could be written, and that the master answers by a response that ends a
  -- command. The master has sent a greeting, some heartbeats, what it answers to the bytes that the
  -- client has written, and more after that, and each frame arrives in a read of its own, with timeouts
  -- in between: the client returns, with success where the answer says so and with a failure where it
  -- says so. The text of the request and the texts of all that the master sends are parsed as what
  -- they were made from, and have fewer than 2^16 bytes each.
  pub run_returns :
      (before after : List MasterResponse) (rs : List Reading)
      → All IsPong before
      → Arrives to_string from_slice (MasterResponse.pong ∷ before ++ (answers ++ after)) rs
      → run from_slice v print write_all cmd (connected rs) ≡ some result
  unfolding run
  run_returns before after rs h arrives =
      let ms = before ++ (answers ++ after) in
      let heard = first_response-Heard to_string from_slice MasterResponse.pong ms rs arrives in
      let (outcome, left, rest) = first_response from_slice [] rs in
      let all = reads_all to_string from_slice (suc (length rest)) ms rest (omega arith) heard.2 in
      let ends : read_loop v cmd (map Client.response ms) ≡ some result =
        rw answers_lem (loop_end v cmd answer result before after h final) in
      ground (arith, heard.0, heard.1, written, all, ends)
