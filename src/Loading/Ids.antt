-- ===== src/Loading/Ids.antt =====
-- src/config_helpers.rs: users and groups in the configuration, by number or by name.
use fectl.Prelude.{
  ℕ, ◌≤◌, ◌≡◌, ◌↔◌, refl, arith, String, Bool, false, Option, none, some, leb, if◌then◌else◌,
}
use fectl.System.{Io}

-- `serde_json::Value`; of a number, its `as_u64`.
pub data Value : Type 0 where
  string : String → Value
  number : Option ℕ → Value
  other : Value

-- `u32::max_value()`
abbrev pub max_u32 : ℕ
max_u32 = 4294967295

-- `Err(custom("Unexpected value"))` unless the number fits.
unfoldable pub from_number : Option ℕ → Io (Option ℕ)
from_number none = Io.err "Unexpected value"
from_number (some num) = if leb num max_u32 then Io.ok (some num) else Io.err "Unexpected value"

-- What the C library answers for a name, and whether a text can be passed to it.
pub record Names : Type 0 where
  pub has_nul : String → Bool
  pub getgrnam : String → Option ℕ
  pub getpwnam : String → Option ℕ

module _ (names : Names) where
  unfoldable pub deserialize_gid_field : Value → Io (Option ℕ)
  unfolding from_number
  deserialize_gid_field (string s) =
      if names.has_nul s
      then Io.err "Can not convert to plain string"
      else elim (names.getgrnam s) [
        | none ↦ Io.err "Can not convert group name to group id"
        | some gid ↦ Io.ok (some gid)
      ]
  deserialize_gid_field (number num) = from_number num
  deserialize_gid_field other = Io.err "Unexpected value"

  unfoldable pub deserialize_uid_field : Value → Io (Option ℕ)
  unfolding from_number
  deserialize_uid_field (string s) =
      if names.has_nul s
      then Io.err "Can not convert to plain string"
      else elim (names.getpwnam s) [
        | none ↦ Io.err "Can not convert user name to user id"
        | some uid ↦ Io.ok (some uid)
      ]
  deserialize_uid_field (number num) = from_number num
  deserialize_uid_field other = Io.err "Unexpected value"

  -- The value denotes the identity: its name, or a 32-bit number.
  abbrev pub Denotes : (String → Option ℕ) → Value → ℕ → Type 0
  Denotes lookup (string s) id = (names.has_nul s ≡ false) × (lookup s ≡ some id)
  Denotes lookup (number num) id = (num ≡ some id) × (id ≤ max_u32)
  Denotes lookup other id = ⊥

  -- The value denotes the optional identity, which is there.
  abbrev pub Reads : (String → Option ℕ) → Value → Option ℕ → Type 0
  Reads lookup value id = (n : ℕ) × (id ≡ some n) × Denotes lookup value n

  read_gid :
      (value : Value) (id : Option ℕ)
      → deserialize_gid_field value ≡ Io.ok id
      → Reads names.getgrnam value id
  unfolding deserialize_gid_field from_number
  read_gid (string s) none e = absurd (ground arith)
  read_gid (string s) (some n) e = (n, refl, ground arith)
  read_gid (number num) none e = absurd (ground arith)
  read_gid (number num) (some n) e = (n, refl, ground arith)
  read_gid other id e = absurd (ground arith)

  denoted_gid :
      (value : Value) (id : Option ℕ)
      → Reads names.getgrnam value id
      → deserialize_gid_field value ≡ Io.ok id
  unfolding deserialize_gid_field from_number
  denoted_gid (string s) id (n, e, d) = ground arith
  denoted_gid (number num) id (n, e, d) = ground arith
  denoted_gid other id (n, e, d) = absurd d

  read_uid :
      (value : Value) (id : Option ℕ)
      → deserialize_uid_field value ≡ Io.ok id
      → Reads names.getpwnam value id
  unfolding deserialize_uid_field from_number
  read_uid (string s) none e = absurd (ground arith)
  read_uid (string s) (some n) e = (n, refl, ground arith)
  read_uid (number num) none e = absurd (ground arith)
  read_uid (number num) (some n) e = (n, refl, ground arith)
  read_uid other id e = absurd (ground arith)

  denoted_uid :
      (value : Value) (id : Option ℕ)
      → Reads names.getpwnam value id
      → deserialize_uid_field value ≡ Io.ok id
  unfolding deserialize_uid_field from_number
  denoted_uid (string s) id (n, e, d) = ground arith
  denoted_uid (number num) id (n, e, d) = ground arith
  denoted_uid other id (n, e, d) = absurd d

  -- A group is read from a value just where the value is the name of that group, or its number, and
  -- the number fits into 32 bits; and a user likewise. No value is read as no group or no user.
  deserialize_fields_iff :
      (value : Value) (id : Option ℕ)
      → ((deserialize_gid_field value ≡ Io.ok id) ↔ Reads names.getgrnam value id)
        × ((deserialize_uid_field value ≡ Io.ok id) ↔ Reads names.getpwnam value id)
  deserialize_fields_iff value id =
      ((read_gid value id, denoted_gid value id), (read_uid value id, denoted_uid value id))
