-- ===== src/Probe/Silent.antt =====
-- A master that accepts the connection and says nothing.
use fectl.Prelude.{
  ℕ, zero, suc, ◌-◌, ◌≡◌, ◌<◌, refl, arith, All, Option, List, [], ◌∷◌, ◌++◌, length, ltb,
  if◌then◌else◌,
}
use fectl.Transport.{decode}
use fectl.Master.{MasterResponse}
use fectl.Probe.{
  AliveStatus, Reading, Received, bytes, alive_status, connected, error, failed, first_response,
  is_alive, read_response, response, timed_out, try_read_response, waiting, would_block,
}

-- A `read` that runs into the timeout of the socket, by either of its names.
pub data IsTimeout : Reading → Type 0 where
  late : IsTimeout (failed timed_out)
  blocked : IsTimeout (failed would_block)

module _ (from_slice : List ℕ → Option MasterResponse) where
  -- A call that waits has read everything, and one that fails has read something.
  Consumed : List Reading → Received → Type 0
  Consumed rs (response resp, buf, rest) = Unit
  Consumed rs (error kind, buf, rest) = length rest < length rs
  Consumed rs (waiting, buf, rest) = rest ≡ []

  weaken : (rs : List Reading) (r : Reading) (x : Received) → Consumed rs x → Consumed (r ∷ rs) x
  unfolding Consumed
  weaken rs r (response resp, buf, rest) h = h
  weaken rs r (error kind, buf, rest) h = omega arith
  weaken rs r (waiting, buf, rest) h = h

  read_response-Consumed :
      (buf : List ℕ) (rs : List Reading) → Consumed rs (read_response from_slice buf rs)
  unfolding Consumed read_response
  read_response-Consumed buf [] = refl
  read_response-Consumed buf (failed kind ∷ rs) = ground arith
  read_response-Consumed buf (bytes bs ∷ rs) =
      let left = (decode from_slice (buf ++ bs)).1 in
      ground (
        arith,
        weaken rs (bytes bs) (read_response from_slice left rs) (read_response-Consumed left rs),
      )

  try_read_response-Consumed :
      (fuel retry : ℕ) (buf : List ℕ) (rs : List Reading)
      → length rs < fuel
      → (try_read_response from_slice fuel retry buf rs).0 ≡ waiting
      → (try_read_response from_slice fuel retry buf rs).2 ≡ []
  unfolding try_read_response Consumed
  try_read_response-Consumed zero retry buf rs h = absurd (omega arith)
  try_read_response-Consumed (suc fuel) retry buf rs h =
      let (outcome, left, rest) = read_response from_slice buf rs in
      ground (
        arith,
        read_response-Consumed buf rs,
        try_read_response-Consumed fuel (if ltb 0 retry then retry - 1 else retry) left rest,
        try_read_response-Consumed fuel retry left rest,
      )

  silent :
      (fuel retry : ℕ) (buf : List ℕ) (rs : List Reading)
      → All IsTimeout rs
      → (try_read_response from_slice fuel retry buf rs).0 ≡ waiting
  unfolding try_read_response read_response
  silent zero retry buf rs h = refl
  silent (suc fuel) retry buf [] h = refl
  silent (suc fuel) retry buf (_ ∷ rs) (late, h) =
      silent fuel (if ltb 0 retry then retry - 1 else retry) buf rs h
  silent (suc fuel) retry buf (_ ∷ rs) (blocked, h) = silent fuel retry buf rs h

  pub first_response-waits :
      (buf : List ℕ) (rs : List Reading)
      → All IsTimeout rs
      → (first_response from_slice buf rs).0 ≡ waiting
  unfolding first_response
  first_response-waits buf rs h = silent (suc (length rs)) 5 buf rs h

  -- The defect: a master that accepts the connection and never answers is never found not to respond.
  -- However many reads have run into the timeout, the probe still waits.
  pub silent_undecided :
      (rs : List Reading)
      → All IsTimeout rs
      → is_alive from_slice (connected rs) ≡ AliveStatus.undecided
  unfolding is_alive alive_status
  silent_undecided rs h = rw (first_response-waits [] rs h) refl

  -- A probe that has not come to a decision has used up all that there was to read: the fuel is enough.
  pub first_response_complete :
      (buf : List ℕ) (rs : List Reading)
      → (first_response from_slice buf rs).0 ≡ waiting
      → (first_response from_slice buf rs).2 ≡ []
  unfolding first_response
  first_response_complete buf rs h =
      try_read_response-Consumed (suc (length rs)) 5 buf rs (omega arith) h
