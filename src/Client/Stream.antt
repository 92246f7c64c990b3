-- ===== src/Client/Stream.antt =====
-- The responses that the loop of client/client.rs gets from a stream of frames, wherever it is cut.
use mathlib.Core.List.{append_assoc}
use fectl.Prelude.{
  ℕ, zero, suc, ◌-◌, ◌≡◌, ◌≢◌, ◌∙◌, sym, ap, refl, arith, All, Option, some, List, [], ◌∷◌, ◌++◌,
  length, ltb, map, Bool, if◌then◌else◌, String,
}
use fectl.Client
use fectl.Client.{ClientCommand, Read, read_loop, on_response}
use fectl.Client.Run.{read_next, reads}
use fectl.Master.{MasterResponse}
use fectl.Probe.{
  Reading, Received, bytes, error, first_response, other, read_response, response,
  try_read_response, waiting,
}
use fectl.Probe.Answer.{IsOpen, late, blocked, piece, stream}
use fectl.Transport.{decode}
use fectl.Transport.Frames.{encode_all}
use fectl.Transport.Pieces.{IsSendable, Taken, decode-Taken}

-- The responses are a beginning of what was sent.
unfoldable pub IsBeginning : List Read → List MasterResponse → Type 0
IsBeginning xs ms =
    (unread : List MasterResponse) × (map Client.response ms ≡ xs ++ map Client.response unread)

module _ (to_string : MasterResponse → List ℕ) (from_slice : List ℕ → Option MasterResponse)
    (more : List ℕ) where
  -- `more` are the bytes that never arrive.
  unfoldable pub Rest : List MasterResponse → List ℕ → List Reading → Type 0
  Rest ms buf rs =
      (buf ++ stream rs ++ more ≡ encode_all to_string ms)
      × All (IsSendable to_string from_slice) ms
      × All IsOpen rs

  unfoldable pub Took : List MasterResponse → Received → Type 0
  Took ms (response m, left, rest) =
      (ms' : List MasterResponse) × (ms ≡ m ∷ ms') × Rest ms' left rest
  Took ms (error kind, left, rest) = (kind ≢ other) × Rest ms left rest
  Took ms (waiting, left, rest) = Unit

  append_regroup : (xs ys zs ws : List ℕ) → (xs ++ ys) ++ (zs ++ ws) ≡ (xs ++ (ys ++ zs)) ++ ws
  append_regroup xs ys zs ws =
      sym (append_assoc (xs ++ ys) zs ws) ∙ ap (λ t. t ++ ws) (append_assoc xs ys zs)

  read_piece-Took :
      (ms : List MasterResponse) (buf : List ℕ) (b : ℕ) (bs : List ℕ) (rs : List Reading)
      → All IsOpen rs
      → All (IsSendable to_string from_slice) ms
      → Taken to_string from_slice ms (stream rs ++ more) (decode from_slice (buf ++ (b ∷ bs)))
      → ((left : List ℕ) → Rest ms left rs → Took ms (read_response from_slice left rs))
      → Took ms (read_response from_slice buf (bytes (b ∷ bs) ∷ rs))
  unfolding Took read_response Rest Taken
  read_piece-Took ms buf b bs rs opens good t next =
      let (decoded, left) = decode from_slice (buf ++ (b ∷ bs)) in
      ground (arith, t, opens, good, append_assoc left (stream rs) more, next left)

  read_response-Took :
      (ms : List MasterResponse) (buf : List ℕ) (rs : List Reading)
      → Rest ms buf rs
      → Took ms (read_response from_slice buf rs)
  unfolding Rest Took read_response stream
  read_response-Took ms buf [] h = tt
  read_response-Took ms buf (_ ∷ rs) (same, good, (piece b bs, opens)) =
      read_piece-Took ms buf b bs rs opens good
        (decode-Taken to_string from_slice ms (buf ++ (b ∷ bs)) (stream rs ++ more) good
          (append_regroup buf (b ∷ bs) (stream rs) more ∙ same))
        λ left h. read_response-Took ms left rs h
  read_response-Took ms buf (_ ∷ rs) (same, good, (late, opens)) = ground arith
  read_response-Took ms buf (_ ∷ rs) (same, good, (blocked, opens)) = ground arith

  -- `try_read_response` goes on after a timeout.
  unfoldable pub Got : List MasterResponse → Received → Type 0
  Got ms (response m, left, rest) =
      (ms' : List MasterResponse) × (ms ≡ m ∷ ms') × Rest ms' left rest
  Got ms (error kind, left, rest) = ⊥
  Got ms (waiting, left, rest) = Unit

  try_read_response-Got :
      (fuel retry : ℕ) (ms : List MasterResponse) (buf : List ℕ) (rs : List Reading)
      → Rest ms buf rs
      → Got ms (try_read_response from_slice fuel retry buf rs)
  unfolding try_read_response Took Got
  try_read_response-Got zero retry ms buf rs h = tt
  try_read_response-Got (suc fuel) retry ms buf rs h =
      let (outcome, left, rest) = read_response from_slice buf rs in
      let fewer = if ltb 0 retry then retry - 1 else retry in
      ground (
        arith,
        read_response-Took ms buf rs h,
        try_read_response-Got fuel fewer ms left rest,
        try_read_response-Got fuel retry ms left rest,
      )

  pub first_response-Got :
      (ms : List MasterResponse) (buf : List ℕ) (rs : List Reading)
      → Rest ms buf rs
      → Got ms (first_response from_slice buf rs)
  unfolding first_response
  first_response-Got ms buf rs h = try_read_response-Got (suc (length rs)) 5 ms buf rs h

  read_next-IsBeginning :
      (ms : List MasterResponse) (x : Received) (next : List Read)
      → Got ms x
      → ((ms' : List MasterResponse) → Rest ms' x.1 x.2 → IsBeginning next ms')
      → IsBeginning (read_next x.0 next) ms
  unfolding Got IsBeginning read_next
  read_next-IsBeginning ms (response m, left, rest) next (ms', e, h) later =
      let (unread, same) = later ms' h in
      (unread, ap (map Client.response) e ∙ ap (λ t. Client.response m ∷ t) same)
  read_next-IsBeginning ms (error kind, left, rest) next h later = elim h [ ]
  read_next-IsBeginning ms (waiting, left, rest) next h later = (ms, refl)

  pub reads-IsBeginning :
      (calls : ℕ) (ms : List MasterResponse) (buf : List ℕ) (rs : List Reading)
      → Rest ms buf rs
      → IsBeginning (reads from_slice calls buf rs) ms
  unfolding reads
  reads-IsBeginning zero ms buf rs h = unfold IsBeginning in (ms, refl)
  reads-IsBeginning (suc calls) ms buf rs h =
      let (outcome, left, rest) = first_response from_slice buf rs in
      read_next-IsBeginning ms (first_response from_slice buf rs) (reads from_slice calls left rest)
        (first_response-Got ms buf rs h) λ ms' h'. reads-IsBeginning calls ms' left rest h'

-- A loop that has returned does not look at what comes later.
pub read_loop_more :
    (v : String → Bool) (cmd : ClientCommand) (b : Bool) (rs later : List Read)
    → read_loop v cmd rs ≡ some b
    → read_loop v cmd (rs ++ later) ≡ some b
unfolding read_loop
read_loop_more v cmd b [] later h = absurd (ground arith)
read_loop_more v cmd b (Client.failure ∷ rs) later h = h
read_loop_more v cmd b (Client.response r ∷ rs) later h =
    ground (arith, read_loop_more v cmd b rs later)
