-- ===== src/Transport/Pieces.antt =====
-- What a decoder makes of the first part of a sequence of frames, wherever it is cut.
use mathlib.Core.List.{append-nil}
use fectl.Prelude.{
  ◌+◌, Bool-cases, inl, inr, ℕ, zero, suc, ◌≡◌, ◌≤◌, ◌<◌, ◌∙◌, sym, ap, refl, arith, All, Option,
  some, List, [], ◌∷◌, ◌++◌, length, take, drop, take-append, drop-append, take-length, drop-length,
  ltb,
}
use fectl.Transport.{Decoded, decode, encode, incomplete, invalid, item, put_u16_be}
use fectl.Transport.Frames.{decode-encode, encode_all, partial_frame}

take-append-drop : (n : ℕ) (xs : List ℕ) → take n xs ++ drop n xs ≡ xs
take-append-drop zero xs = refl
take-append-drop (suc n) [] = refl
take-append-drop (suc n) (x ∷ xs) = ap (λ t. x ∷ t) (take-append-drop n xs)

module _ (xs ys frame extra : List ℕ) (same : xs ++ ys ≡ frame ++ extra) where
  -- Of two beginnings of one list, the shorter is a beginning of the longer.
  pub shorter : length xs ≤ length frame → xs ≡ take (length xs) frame
  shorter h =
      sym (take-length xs)
      ∙ sym (take-append (length xs) xs ys (omega arith))
      ∙ ap (take (length xs)) same
      ∙ take-append (length xs) frame extra h

  pub longer : length frame ≤ length xs → xs ≡ frame ++ drop (length frame) xs
  longer h =
      let start : take (length frame) xs ≡ frame =
        sym (take-append (length frame) xs ys h)
        ∙ ap (take (length frame)) same
        ∙ take-append (length frame) frame extra (omega arith)
        ∙ take-length frame in
      sym (take-append-drop (length frame) xs) ∙ ap (λ t. t ++ drop (length frame) xs) start

  pub left_over : length frame ≤ length xs → drop (length frame) xs ++ ys ≡ extra
  left_over h =
      sym (drop-append (length frame) xs ys h)
      ∙ ap (drop (length frame)) same
      ∙ drop-append (length frame) frame extra (omega arith)
      ∙ ap (λ t. t ++ extra) (drop-length frame)

module _ {M : Type 0} (to_string : M → List ℕ) (from_slice : List ℕ → Option M) where
  -- The parser undoes the printer at the message, whose text fits into a frame.
  abbrev pub IsSendable : M → Type 0
  IsSendable m = (from_slice (to_string m) ≡ some m) × (length (to_string m) < 65536)

  pub decode_alone :
      (m : M) → IsSendable m → decode from_slice (encode to_string m []) ≡ (item m, [])
  decode_alone m h =
      ap (decode from_slice) (sym (append-nil (encode to_string m [])))
      ∙ decode-encode to_string from_slice m [] h.0 h.1

  pub length-frame : (m : M) → length (encode to_string m []) ≡ length (to_string m) + 2
  unfolding encode put_u16_be
  length-frame m = omega arith

  module _ (m : M) (extra xs later : List ℕ) (h : IsSendable m)
      (same : xs ++ later ≡ encode to_string m [] ++ extra) where
    pub decode_whole :
        length (encode to_string m []) ≤ length xs
        → decode from_slice xs ≡ (item m, drop (length (encode to_string m [])) xs)
    decode_whole fits =
        let frame = encode to_string m [] in
        ap (decode from_slice) (longer xs later frame extra same fits)
        ∙ decode-encode to_string from_slice m (drop (length frame) xs) h.0 h.1

    pub decode_part :
        length xs < length (encode to_string m []) → decode from_slice xs ≡ (incomplete, xs)
    decode_part less =
        rw (shorter xs later (encode to_string m []) extra same (omega arith))
          (partial_frame to_string from_slice m (length xs) h.1 (omega (arith, length-frame m)))

  -- The next of the messages is taken, and the others are still to come, or nothing has changed.
  unfoldable pub Taken : List M → List ℕ → Decoded M × List ℕ → Type 0
  Taken ms later (item m, left) =
      (ms' : List M) × (ms ≡ m ∷ ms')
      × (left ++ later ≡ encode_all to_string ms')
      × All IsSendable ms'
  Taken ms later (incomplete, left) = left ++ later ≡ encode_all to_string ms
  Taken ms later (invalid, left) = ⊥

  pub decode-Taken :
      (ms : List M) (xs later : List ℕ)
      → All IsSendable ms
      → xs ++ later ≡ encode_all to_string ms
      → Taken ms later (decode from_slice xs)
  unfolding Taken encode_all
  decode-Taken [] [] later h same = unfold decode in same
  decode-Taken [] (x ∷ xs) later h same = absurd (ground (arith, ap length same))
  decode-Taken (m ∷ ms) xs later (g, h) same =
      let frame = encode to_string m [] in
      let extra = encode_all to_string ms in
      elim (Bool-cases (ltb (length xs) (length frame))) [
        | inl e ↦ rw (decode_part m extra xs later g same (ground arith)) same
        | inr e ↦
            let fits : length frame ≤ length xs = ground arith in
            rw (decode_whole m extra xs later g same fits)
              (ms, refl, left_over xs later frame extra same fits, h)
      ]
