-- ===== src/Transport/Codecs.antt =====
-- The codecs of the socket, each for its messages: `MasterTransportCodec` of src/master.rs and
-- `ClientTransportCodec` of src/client.rs and client/client.rs.
use fectl.Prelude.{ℕ, Option, List}
use fectl.Master.{MasterRequest, MasterResponse}
use fectl.Transport.{Decoded, decode, encode}

abbrev pub master_decode : (List ℕ → Option MasterRequest) → List ℕ → Decoded MasterRequest × List ℕ
master_decode from_slice src = decode from_slice src

abbrev pub master_encode : (MasterResponse → List ℕ) → MasterResponse → List ℕ → List ℕ
master_encode to_string msg dst = encode to_string msg dst

abbrev pub client_decode :
    (List ℕ → Option MasterResponse) → List ℕ → Decoded MasterResponse × List ℕ
client_decode from_slice src = decode from_slice src

abbrev pub console_encode : (MasterRequest → List ℕ) → MasterRequest → List ℕ → List ℕ
console_encode to_string msg dst = encode to_string msg dst
