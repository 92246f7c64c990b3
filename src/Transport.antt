-- ===== src/Transport.antt =====
-- The frames on the pipes and on the socket: two bytes of length, most significant first, and the
-- JSON text of a message. The codecs of src/process.rs, src/master.rs, src/client.rs and
-- client/client.rs are the same code at different messages. JSON is the `serde_json` crate's:
-- `to_string` and `from_slice` are parameters.
pub mod Codecs
pub mod Frames
pub mod Pieces
use fectl.Prelude.{
  ℕ, ◌+◌, ◌*◌, ◌/◌, ◌%◌, Option, none, some, List, [], ◌∷◌, ◌++◌, ltb, leb, length, take, drop,
  if◌then◌else◌,
}

-- `Ok(None)`, `Ok(Some(m))` and `Err(e)` of a decoder.
pub data Decoded {ℓ} (M : Type ℓ) : Type ℓ where
  incomplete invalid : Decoded M
  item : M → Decoded M

-- `put_u16_be` and `BigEndian::read_u16`
unfoldable pub put_u16_be : ℕ → List ℕ
put_u16_be n = (n / 256) ∷ (n % 256) ∷ []

unfoldable pub read_u16 : List ℕ → ℕ
read_u16 (a ∷ b ∷ rest) = a * 256 + b
read_u16 _ = 0

-- `msg_ref.len() as u16` keeps the low 16 bits.
unfoldable pub encode {ℓ} : {M : Type ℓ} → (M → List ℕ) → M → List ℕ → List ℕ
encode to_string m dst = let text = to_string m in (dst ++ put_u16_be (length text % 65536)) ++ text

unfoldable pub parsed {ℓ} : {M : Type ℓ} → Option M → Decoded M
parsed none = invalid
parsed (some m) = item m

-- The buffer that is left comes back too.
unfoldable pub decode {ℓ} : {M : Type ℓ} → (List ℕ → Option M) → List ℕ → Decoded M × List ℕ
decode from_slice src =
    if ltb (length src) 2
    then (incomplete, src)
    else let size = read_u16 src in
      if leb (size + 2) (length src)
      then (let body = drop 2 src in (parsed (from_slice (take size body)), drop size body))
      else (incomplete, src)
