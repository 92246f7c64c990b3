-- ===== src/Transport/Frames.antt =====
-- Frames come back as they were sent, however the stream is cut.
use fectl.Prelude.{
  ℕ, zero, suc, All, length-take-le, ◌+◌, ◌*◌, ◌/◌, ◌%◌, ◌≤◌, ◌<◌, ◌≡◌, ◌≢◌, ◌∙◌, refl, ap, arith,
  Option, none, some, List, [], ◌∷◌, ◌++◌, length, take, drop, take-append, drop-append,
  take-length, drop-length, length-append, length-drop,
}
use fectl.Transport.{
  Decoded, incomplete, invalid, item, put_u16_be, read_u16, encode, parsed, decode,
}

module _ {ℓ} {M : Type ℓ} (from_slice : List ℕ → Option M) where
  -- A length and at least as many bytes.
  decode_ready :
      (n : ℕ) (body : List ℕ)
      → n ≤ length body
      → decode from_slice (put_u16_be n ++ body) ≡ (parsed (from_slice (take n body)), drop n body)
  unfolding decode put_u16_be read_u16
  decode_ready n body h =
      let size : n / 256 * 256 + n % 256 ≡ n = omega arith in simp size (ground arith)

  -- A length and fewer bytes.
  decode_short :
      (n : ℕ) (body : List ℕ)
      → length body < n
      → decode from_slice (put_u16_be n ++ body) ≡ (incomplete, put_u16_be n ++ body)
  unfolding decode put_u16_be read_u16
  decode_short n body h =
      let size : n / 256 * 256 + n % 256 ≡ n = omega arith in simp size (ground arith)

  -- Bytes that arrive later change nothing about a message that is there, nor about an error.
  decode_extend :
      (src more : List ℕ)
      → (decode from_slice src).0 ≢ incomplete
      → decode from_slice (src ++ more)
        ≡ ((decode from_slice src).0, (decode from_slice src).1 ++ more)
  unfolding decode read_u16
  decode_extend [] more h = absurd (h refl)
  decode_extend (a ∷ []) more h = absurd (h refl)
  decode_extend (a ∷ b ∷ body) more h =
      let n = a * 256 + b in
      ground (arith, length-append body more, take-append n body more, drop-append n body more, h)

module _ {ℓ} {M : Type ℓ} (to_string : M → List ℕ) (from_slice : List ℕ → Option M) where
  -- What a decoder makes of a frame and what follows it, whatever the length of the text: the text
  -- is cut at its length modulo 2^16.
  pub decode_frame :
      (m : M) (rest : List ℕ)
      → let text = to_string m in
        let n = length text % 65536 in
        decode from_slice (encode to_string m [] ++ rest)
        ≡ (parsed (from_slice (take n text)), drop n text ++ rest)
  unfolding encode put_u16_be
  decode_frame m rest =
      let text = to_string m in
      let n = length text % 65536 in
      let fits : n ≤ length text = omega arith in
      decode_ready from_slice n (text ++ rest) (omega (arith, length-append text rest))
      ∙ rw (take-append n text rest fits, drop-append n text rest fits) refl

  -- A message whose text has fewer than 2^16 bytes comes back from its frame, and what follows the
  -- frame is left in the buffer. The parser undoes the printer at that message.
  pub decode-encode :
      (m : M) (rest : List ℕ)
      → from_slice (to_string m) ≡ some m
      → length (to_string m) < 65536
      → decode from_slice (encode to_string m [] ++ rest) ≡ (item m, rest)
  unfolding parsed
  decode-encode m rest e h =
      let text = to_string m in
      let whole : length text % 65536 ≡ length text = omega arith in
      decode_frame m rest ∙ rw (whole, take-length text, drop-length text, e) refl

  -- A beginning of a frame is not taken for a message: it is left as it is.
  pub partial_frame :
      (m : M) (k : ℕ)
      → length (to_string m) < 65536
      → k < length (to_string m) + 2
      → let src = take k (encode to_string m []) in decode from_slice src ≡ (incomplete, src)
  unfolding encode put_u16_be decode
  partial_frame m zero b h = refl
  partial_frame m (suc zero) b h = refl
  partial_frame m (suc (suc k)) b h =
      let text = to_string m in
      let whole : length text % 65536 ≡ length text = omega arith in
      unfold put_u16_be in
      rw whole
        (decode_short from_slice (length text) (take k text) (omega (arith, length-take-le k text)))

  -- The defect: a message of 2^16 bytes or more is cut. Only its first bytes, as many as its length
  -- modulo 2^16, are parsed as a message; what is cut off, at least 2^16 bytes, stays in the buffer, in
  -- front of the frames that follow.
  pub oversized_frame :
      (m : M) (rest : List ℕ)
      → 65536 ≤ length (to_string m)
      → let text = to_string m in
        let n = length text % 65536 in
        let (decoded, left) = decode from_slice (encode to_string m [] ++ rest) in
        (decoded ≡ elim (from_slice (take n text)) [ none ↦ invalid | some short ↦ item short ])
        × (left ≡ drop n text ++ rest)
        × (65536 ≤ length (drop n text))
  unfolding parsed
  oversized_frame m rest h =
      let text = to_string m in
      let n = length text % 65536 in ground (arith, decode_frame m rest, length-drop n text)

-- The frames of a sequence of messages, and the messages of a buffer, at most so many.
module _ {ℓ} {M : Type ℓ} where
  unfoldable pub encode_all : (M → List ℕ) → List M → List ℕ
  encode_all to_string [] = []
  encode_all to_string (m ∷ ms) = encode to_string m [] ++ encode_all to_string ms

  collect : Decoded M × List ℕ → (List ℕ → List M × List ℕ) → List M × List ℕ
  collect (item m, rest) next = let (ms, left) = next rest in (m ∷ ms, left)
  collect (_, rest) next = ([], rest)

  unfoldable pub decode_all : (List ℕ → Option M) → ℕ → List ℕ → List M × List ℕ
  unfolding collect
  decode_all from_slice zero src = ([], src)
  decode_all from_slice (suc k) src =
      collect (decode from_slice src) (λ rest. decode_all from_slice k rest)

  -- Short messages that are sent one after the other are received in that order, and none is left.
  pub decode_all-encode_all :
      (to_string : M → List ℕ) (from_slice : List ℕ → Option M) (ms : List M)
      → All (λ m. (from_slice (to_string m) ≡ some m) × (length (to_string m) < 65536)) ms
      → decode_all from_slice (length ms) (encode_all to_string ms) ≡ (ms, [])
  unfolding decode_all encode_all
  decode_all-encode_all to_string from_slice [] h = refl
  decode_all-encode_all to_string from_slice (m ∷ ms) h =
      let next = λ (rest : List ℕ). decode_all from_slice (length ms) rest in
      ap (λ d. collect d next)
        (decode-encode to_string from_slice m (encode_all to_string ms) h.0.0 h.0.1)
      ∙ ap (λ (r : List M × List ℕ). (m ∷ r.0, r.1))
          (decode_all-encode_all to_string from_slice ms h.1)
