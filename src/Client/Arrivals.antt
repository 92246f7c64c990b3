-- ===== src/Client/Arrivals.antt =====
-- A stream in which each frame arrives in a read of its own, with timeouts in between.
use fectl.Prelude.{
  ℕ, zero, suc, ◌-◌, ◌≡◌, ◌<◌, ◌≤◌, refl, arith, Option, List, [], ◌∷◌, length, ltb, map,
  if◌then◌else◌,
}
use fectl.Client
use fectl.Client.Run.{read_next, reads}
use fectl.Master.{MasterResponse}
use fectl.Probe.{
  Reading, Received, bytes, failed, first_response, read_response, response, timed_out,
  try_read_response, waiting, would_block,
}
use fectl.Transport.{encode}
use fectl.Transport.Pieces.{IsSendable, decode_alone}

module _ (to_string : MasterResponse → List ℕ) (from_slice : List ℕ → Option MasterResponse) where
  pub data Arrives : List MasterResponse → List Reading → Type 0 where
    silence : Arrives [] []
    whole :
        (m : MasterResponse) (ms : List MasterResponse) (rs : List Reading)
        → IsSendable to_string from_slice m
        → Arrives ms rs
        → Arrives (m ∷ ms) (bytes (encode to_string m []) ∷ rs)
    late :
        (ms : List MasterResponse) (rs : List Reading)
        → Arrives ms rs
        → Arrives ms (failed timed_out ∷ rs)
    blocked :
        (ms : List MasterResponse) (rs : List Reading)
        → Arrives ms rs
        → Arrives ms (failed would_block ∷ rs)

  -- The next message has been received, and the others are to come.
  Heard : List MasterResponse → ℕ → Received → Type 0
  Heard [] n x = x.0 ≡ waiting
  Heard (m ∷ ms) n (outcome, left, rest) =
      (outcome ≡ response m) × (left ≡ []) × Arrives ms rest × (length rest < n)

  read_whole :
      (m : MasterResponse) (rs : List Reading)
      → IsSendable to_string from_slice m
      → read_response from_slice [] (bytes (encode to_string m []) ∷ rs) ≡ (response m, [], rs)
  unfolding read_response
  read_whole m rs h = grind (arith, decode_alone to_string from_slice m h)

  try_read_response-Heard :
      (fuel retry n : ℕ) (ms : List MasterResponse) (rs : List Reading)
      → length rs < fuel
      → length rs ≤ n
      → Arrives ms rs
      → Heard ms n (try_read_response from_slice fuel retry [] rs)
  unfolding try_read_response Heard read_response
  try_read_response-Heard zero retry n ms rs h l a = absurd (omega arith)
  try_read_response-Heard (suc fuel) retry n _ _ h l silence = refl
  try_read_response-Heard (suc fuel) retry n _ _ h l (whole m ms rs g a) =
      ground (arith, read_whole m rs g)
  try_read_response-Heard (suc fuel) retry n _ _ h l (late ms rs a) =
      let fewer = if ltb 0 retry then retry - 1 else retry in
      try_read_response-Heard fuel fewer n ms rs (omega arith) (omega arith) a
  try_read_response-Heard (suc fuel) retry n _ _ h l (blocked ms rs a) =
      try_read_response-Heard fuel retry n ms rs (omega arith) (omega arith) a

  pub first_response-Heard :
      (m : MasterResponse) (ms : List MasterResponse) (rs : List Reading)
      → Arrives (m ∷ ms) rs
      → let (outcome, left, rest) = first_response from_slice [] rs in
        (outcome ≡ response m) × (left ≡ []) × Arrives ms rest × (length rest < length rs)
  unfolding first_response Heard
  first_response-Heard m ms rs a =
      try_read_response-Heard (suc (length rs)) 5 (length rs) (m ∷ ms) rs (omega arith)
        (omega arith) a

  pub reads_all :
      (calls : ℕ) (ms : List MasterResponse) (rs : List Reading)
      → length rs < calls
      → Arrives ms rs
      → reads from_slice calls [] rs ≡ map Client.response ms
  unfolding reads read_next Heard first_response
  reads_all zero ms rs h a = absurd (omega arith)
  reads_all (suc calls) [] rs h a = ground (
    arith,
    try_read_response-Heard (suc (length rs)) 5 (suc calls) [] rs (omega arith) (omega arith) a,
  )
  reads_all (suc calls) (m ∷ ms) rs h a =
      let heard = first_response-Heard m ms rs a in
      let rest = (first_response from_slice [] rs).2 in
      let later = reads_all calls ms rest (omega (arith, heard.3)) heard.2 in
      rw (heard.0, heard.1, later) refl
