-- ===== src/Sockets/Net.antt =====
-- What the master asks of the network, and what it does to its environment.
use fectl.Prelude.{ℕ, String, Bool, Option, List}
use fectl.System.{Io}

-- Families of addresses, as far as they are told apart.
pub data Family : Type 0 where
  inet inet6 other : Family

-- An entry of `getaddrinfo`; the numbers are what its `to_int` gives.
pub record AddrInfo : Type 0 where
  pub family : Family
  pub family_int : ℕ
  pub socktype_int : ℕ
  pub protocol_int : ℕ
  pub sockaddr : String

-- The calls, by their answers: `builder` makes a socket of the family, `bind` gives its error,
-- `listen` a descriptor. `to_string` is the JSON of arguments.
pub record Network : Type 0 where
  pub lookup : Option String → ℕ → Io (List AddrInfo)
  pub builder : AddrInfo → Bool
  pub bind : AddrInfo → Option String
  pub listen : AddrInfo → ℕ → Option ℕ
  pub local_addr : ℕ → Option String
  pub has_flags : ℕ → Bool
  pub format_number : ℕ → String
  pub to_string : List String → String

-- `inherited` is a descriptor without `FD_CLOEXEC`.
pub data Effect : Type 0 where
  set_var : String → String → Effect
  removed_var : String → Effect
  inherited : ℕ → Effect

pub data Failure : Type 0 where
  error : String → Failure
  panicked : Failure
