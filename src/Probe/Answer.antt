-- ===== src/Probe/Answer.antt =====
-- A master that answers, with its frame cut in pieces and timeouts between the pieces.
use mathlib.Core.List.{append_assoc}
use fectl.Prelude.{
  Bool-cases, inl, inr, ℕ, zero, suc, ◌-◌, ◌≡◌, ◌≢◌, ◌≤◌, ◌<◌, ◌∙◌, ap, refl, arith, All, Option,
  some, List, [], ◌∷◌, ◌++◌, length, drop, length-append, ltb, if◌then◌else◌,
}
use fectl.Master.{MasterResponse}
use fectl.Transport.{decode, encode, item, incomplete}
use fectl.Transport.Pieces.{decode_part, decode_whole, left_over, length-frame}
use fectl.Probe.{
  Reading, Received, bytes, error, failed, first_response, other, read_response, response,
  timed_out, try_read_response, waiting, would_block,
}

-- A stream that is not at its end: some bytes, or a timeout.
pub data IsOpen : Reading → Type 0 where
  piece : (b : ℕ) (bs : List ℕ) → IsOpen (bytes (b ∷ bs))
  late : IsOpen (failed timed_out)
  blocked : IsOpen (failed would_block)

-- The bytes of all readings.
unfoldable pub stream : List Reading → List ℕ
stream [] = []
stream (bytes bs ∷ rs) = bs ++ stream rs
stream (failed kind ∷ rs) = stream rs

module _ (to_string : MasterResponse → List ℕ) (from_slice : List ℕ → Option MasterResponse)
    (m : MasterResponse) (extra : List ℕ) (parses : from_slice (to_string m) ≡ some m)
    (short : length (to_string m) < 65536) where
  abbrev frame : List ℕ
  frame = encode to_string m []

  -- The beginning of the frame is in the buffer, the rest is to come.
  Pending : List ℕ → List Reading → Type 0
  Pending buf rs = (buf ++ stream rs ≡ frame ++ extra) × (length buf < length frame) × All IsOpen rs

  Next : List Reading → Received → Type 0
  Next rs (response r, left, rest) = (r ≡ m) × (left ++ stream rest ≡ extra) × All IsOpen rest
  Next rs (error kind, left, rest) = (kind ≢ other) × Pending left rest × (length rest < length rs)
  Next rs (waiting, left, rest) = ⊥

  Next-weaken : (rs : List Reading) (r : Reading) (x : Received) → Next rs x → Next (r ∷ rs) x
  unfolding Next
  Next-weaken rs r (response resp, buf, rest) h = h
  Next-weaken rs r (error kind, buf, rest) (a, b, c) = (a, b, omega arith)
  Next-weaken rs r (waiting, buf, rest) h = elim h [ ]

  module _ (buf : List ℕ) (b : ℕ) (bs : List ℕ) (rs : List Reading) where
    read_whole :
        (left : List ℕ)
        → decode from_slice (buf ++ (b ∷ bs)) ≡ (item m, left)
        → read_response from_slice buf (bytes (b ∷ bs) ∷ rs) ≡ (response m, left, rs)
    unfolding read_response
    read_whole left e = grind (arith, e)

    read_part :
        decode from_slice (buf ++ (b ∷ bs)) ≡ (incomplete, buf ++ (b ∷ bs))
        → read_response from_slice buf (bytes (b ∷ bs) ∷ rs)
          ≡ read_response from_slice (buf ++ (b ∷ bs)) rs
    unfolding read_response
    read_part e = grind (arith, e)

  read_piece :
      (buf : List ℕ) (b : ℕ) (bs : List ℕ) (rs : List Reading)
      → (buf ++ (b ∷ bs)) ++ stream rs ≡ frame ++ extra
      → All IsOpen rs
      → ((left : List ℕ) → Pending left rs → Next rs (read_response from_slice left rs))
      → Next (bytes (b ∷ bs) ∷ rs) (read_response from_slice buf (bytes (b ∷ bs) ∷ rs))
  unfolding Next Pending
  read_piece buf b bs rs same opens next =
      let xs = buf ++ (b ∷ bs) in
      elim (Bool-cases (ltb (length xs) (length frame))) [
        | inl e ↦
            let partial : length xs < length frame = ground arith in
            rw
              (read_part buf b bs rs (
                decode_part to_string from_slice m extra xs (stream rs) (parses, short) same
                  partial))
              (Next-weaken rs (bytes (b ∷ bs)) (read_response from_slice xs rs)
                (next xs (same, partial, opens)))
        | inr e ↦
            let whole : length frame ≤ length xs = ground arith in
            rw
              (read_whole buf b bs rs (drop (length frame) xs) (
                decode_whole to_string from_slice m extra xs (stream rs) (parses, short) same
                  whole))
              (refl, left_over xs (stream rs) frame extra same whole, opens)
      ]

  read_response-Next :
      (buf : List ℕ) (rs : List Reading)
      → Pending buf rs
      → Next rs (read_response from_slice buf rs)
  unfolding Next Pending read_response stream
  read_response-Next buf [] h =
      absurd (omega (arith, ap length h.0, length-append buf [], length-append frame extra, h.1))
  read_response-Next buf (_ ∷ rs) (same, partial, (piece b bs, opens)) =
      read_piece buf b bs rs (append_assoc buf (b ∷ bs) (stream rs) ∙ same) opens
        λ left h. read_response-Next left rs h
  read_response-Next buf (_ ∷ rs) (same, partial, (late, opens)) = ground arith
  read_response-Next buf (_ ∷ rs) (same, partial, (blocked, opens)) = ground arith

  -- The first message of the stream, and what follows it.
  Answered : Received → Type 0
  Answered (r, left, rest) = (r ≡ response m) × (left ++ stream rest ≡ extra) × All IsOpen rest

  try_read_response-Answered :
      (fuel retry : ℕ) (buf : List ℕ) (rs : List Reading)
      → length rs < fuel
      → Pending buf rs
      → Answered (try_read_response from_slice fuel retry buf rs)
  unfolding try_read_response Next Answered
  try_read_response-Answered zero retry buf rs h p = absurd (omega arith)
  try_read_response-Answered (suc fuel) retry buf rs h p =
      let (outcome, left, rest) = read_response from_slice buf rs in
      let fewer = if ltb 0 retry then retry - 1 else retry in
      ground (
        arith,
        read_response-Next buf rs p,
        try_read_response-Answered fuel fewer left rest,
        try_read_response-Answered fuel retry left rest,
      )

  -- However the frame of a message is cut into reads, and however many timeouts come in between, the
  -- probe receives that message and loses nothing of what follows it. The text of the message is parsed
  -- as the message and has fewer than 2^16 bytes, and no read fails otherwise.
  pub first_response-Answered :
      (rs : List Reading)
      → All IsOpen rs
      → stream rs ≡ frame ++ extra
      → let (outcome, left, rest) = first_response from_slice [] rs in
        (outcome ≡ response m) × (left ++ stream rest ≡ extra)
  unfolding first_response Answered Pending
  first_response-Answered rs opens same =
      let h =
        try_read_response-Answered (suc (length rs)) 5 [] rs (omega arith)
          (same, omega (arith, length-frame to_string from_slice m), opens) in
      (h.0, h.1)
