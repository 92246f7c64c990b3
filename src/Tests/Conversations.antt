-- ===== src/Tests/Conversations.antt =====
-- The theorems on the conversation of the console client with the master at a concrete input: the
-- stop of a service, which succeeds. A message is printed as one byte or as two.
use fectl.Prelude.{ℕ, ◌≡◌, refl, arith, All, true, Option, none, some, List, [], ◌∷◌, ◌++◌, ◌⊎◌}
use fectl.Client.{ClientCommand, request}
use fectl.Client.Arrivals.{Arrives, blocked, late, silence, whole}
use fectl.Client.Conversation.{replies, run_obeys, run_returns}
use fectl.Client.Run.{run, send_command}
use fectl.Command
use fectl.Command.{CommandCenter, State, get, handle_stop, route}
use fectl.Command.Shutdown.{answers}
use fectl.Command.Requests.{Sent, stop_service}
use fectl.Master.{MasterRequest, MasterResponse, answer_stop}
use fectl.Master.Dispatch.{Replies, handle, receive}
use fectl.Probe.{Reading, bytes, connected, failed, timed_out, would_block}
use fectl.Probe.Answer
use fectl.Transport.{decode, encode, parsed, put_u16_be, read_u16}
use fectl.Transport.Frames.{encode_all}
use fectl.Transport.Pieces.{IsSendable}

abbrev print : MasterRequest → List ℕ
print req = 7 ∷ []

abbrev parse : List ℕ → Option MasterRequest
parse [] = none
parse (byte ∷ rest) = some (MasterRequest.stop "web")

abbrev to_string : MasterResponse → List ℕ
to_string MasterResponse.pong = 1 ∷ []
to_string _ = 1 ∷ 2 ∷ []

abbrev from_slice : List ℕ → Option MasterResponse
from_slice [] = none
from_slice (byte ∷ []) = some MasterResponse.pong
from_slice (byte ∷ other ∷ rest) = some MasterResponse.service_stopped

abbrev stops : Replies
stops = record {
  condition = 6;
  stopped = 1;
  start = λ addr. Sent.unreachable;
  stop = λ graceful addr. Sent.ok tt;
  pause = λ addr. Sent.unreachable;
  resume = λ addr. Sent.unreachable;
  reload = λ graceful addr. Sent.unreachable;
  status = λ addr. Sent.unreachable;
  pids = λ addr. Sent.unreachable;
}

abbrev center : CommandCenter
center = record {
  state = State.running;
  services = ("web", 2) ∷ [];
  stop_waiter = none;
  stopping = 0;
}

abbrev stop_web : ClientCommand
stop_web = ClientCommand.stop "web"

readable : IsSendable print parse (request stop_web)
unfolding request
readable = (refl, omega arith)

written : send_command print (λ text. none) (request stop_web) ≡ none
unfolding send_command
written = refl

handled :
    handle stops "1" "fectl" (request stop_web) (some center) ≡ some MasterResponse.service_stopped
unfolding handle request answer_stop stop_service route get
handled = refl

-- The stop of the center that has one service: it is over when that service has answered.
quit_waits :
    handle (record stops { stopped = 0 }) "1" "fectl" MasterRequest.quit (some center) ≡ none
unfolding handle handle_stop Command.stop answers
quit_waits = refl

quit_done : handle stops "1" "fectl" MasterRequest.quit (some center) ≡ some MasterResponse.done
unfolding handle handle_stop Command.stop answers Command.stop_answered Command.exit
    Command.stop_services
quit_done = refl

-- The frames of a greeting, a heartbeat, the answer and a heartbeat that is cut off.
abbrev pieces : List Reading
pieces =
    bytes (0 ∷ [])
    ∷ failed timed_out
    ∷ bytes (1 ∷ 1 ∷ 0 ∷ [])
    ∷ bytes (1 ∷ 1 ∷ 0 ∷ 2 ∷ [])
    ∷ bytes (1 ∷ 2 ∷ 0 ∷ [])
    ∷ []

pieces-IsOpen : All Answer.IsOpen pieces
pieces-IsOpen = (
  Answer.piece 0 [],
  (
    Answer.late,
    (
      Answer.piece 1 (1 ∷ 0 ∷ []),
      (Answer.piece 1 (1 ∷ 0 ∷ 2 ∷ []), (Answer.piece 1 (2 ∷ 0 ∷ []), tt)),
    ),
  ),
)

abbrev all_sent : List MasterResponse
all_sent =
    MasterResponse.pong ∷ (MasterResponse.pong ∷ [])
    ++ (replies print parse stop_web stops "1" "fectl" (some center) ++ MasterResponse.pong ∷ [])

all_sent-IsSendable : All (IsSendable to_string from_slice) all_sent
unfolding handle request answer_stop stop_service route get receive decode encode put_u16_be
    read_u16 parsed
all_sent-IsSendable =
    ((refl, omega arith), ((refl, omega arith), ((refl, omega arith), ((refl, omega arith), tt))))

stream-pieces : Answer.stream pieces ++ 1 ∷ 1 ∷ [] ≡ encode_all to_string all_sent
unfolding Answer.stream encode_all handle request answer_stop stop_service route get receive decode
    encode put_u16_be read_u16 parsed
stream-pieces = refl

run_obeys_example :
    let returned = run from_slice (λ v. true) print (λ text. none) stop_web (connected pieces) in
    (returned ≡ none) ⊎ (returned ≡ some true)
run_obeys_example =
    run_obeys to_string from_slice print parse (λ v. true) (λ text. none) stop_web stops "1" "fectl"
      (some center) MasterResponse.service_stopped true readable written handled refl
      (MasterResponse.pong ∷ []) (MasterResponse.pong ∷ []) (1 ∷ 1 ∷ []) pieces (refl, tt)
      all_sent-IsSendable pieces-IsOpen stream-pieces

-- The same frames, each in a read of its own.
abbrev frames : List Reading
frames =
    bytes (0 ∷ 1 ∷ 1 ∷ [])
    ∷ failed timed_out
    ∷ bytes (0 ∷ 1 ∷ 1 ∷ [])
    ∷ bytes (0 ∷ 2 ∷ 1 ∷ 2 ∷ [])
    ∷ failed would_block
    ∷ bytes (0 ∷ 1 ∷ 1 ∷ [])
    ∷ []

frames-Arrives : Arrives to_string from_slice all_sent frames
unfolding handle request answer_stop stop_service route get receive decode encode put_u16_be
    read_u16 parsed
frames-Arrives =
    let pong = MasterResponse.pong in
    let stopped = MasterResponse.service_stopped in
    whole pong (pong ∷ stopped ∷ pong ∷ []) _ (refl, omega arith)
      (late _ _ (
        whole pong (stopped ∷ pong ∷ []) _ (refl, omega arith)
          (whole stopped (pong ∷ []) _ (refl, omega arith)
            (blocked _ _ (whole pong [] _ (refl, omega arith) silence)))))

run_returns_example :
    run from_slice (λ v. true) print (λ text. none) stop_web (connected frames) ≡ some true
run_returns_example =
    run_returns to_string from_slice print parse (λ v. true) (λ text. none) stop_web stops "1"
      "fectl" (some center) MasterResponse.service_stopped true readable written handled refl
      (MasterResponse.pong ∷ []) (MasterResponse.pong ∷ []) frames (refl, tt) frames-Arrives
