-- ===== src/Tests/Frames.antt =====
-- The theorems on frames at concrete inputs. The messages of these tests are numbers; a number is
-- printed as the list that holds it, and a list of one number is parsed.
use fectl.Prelude.{
  ℕ, zero, suc, ◌≤◌, ◌≡◌, refl, arith, Option, none, some, List, [], ◌∷◌, ◌++◌, length, ◌%◌, take,
  drop,
}
use fectl.Transport.{encode, decode, invalid, item}
use fectl.Transport.Frames.{decode_all, decode_all-encode_all, encode_all, oversized_frame}

abbrev to_string : ℕ → List ℕ
to_string n = n ∷ []

abbrev from_slice : List ℕ → Option ℕ
from_slice (n ∷ []) = some n
from_slice _ = none

decode_all-encode_all_example :
    decode_all from_slice 2 (encode_all to_string (7 ∷ 8 ∷ [])) ≡ (7 ∷ 8 ∷ [], [])
decode_all-encode_all_example =
    decode_all-encode_all to_string from_slice (7 ∷ 8 ∷ [])
      ((refl, omega arith), ((refl, omega arith), tt))

abbrev two : List ℕ
two = 1 ∷ 2 ∷ []

-- A text of so many zeros.
unfoldable zeros : ℕ → List ℕ
zeros zero = []
zeros (suc n) = 0 ∷ zeros n

length-zeros : (n : ℕ) → length (zeros n) ≡ n
unfolding zeros
length-zeros zero = refl
length-zeros (suc n) = ground (arith, length-zeros n)

long : 65536 ≤ length (zeros 70000)
long = omega (arith, length-zeros 70000)

oversized_frame_example :
    let n = length (zeros 70000) % 65536 in
    let (decoded, left) = decode from_slice (encode zeros 70000 [] ++ two) in
    (decoded
      ≡ elim (from_slice (take n (zeros 70000))) [ none ↦ invalid | some short ↦ item short ])
    × (left ≡ drop n (zeros 70000) ++ two)
    × (65536 ≤ length (drop n (zeros 70000)))
oversized_frame_example = oversized_frame zeros from_slice 70000 two long
