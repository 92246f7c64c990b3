-- ===== src/Utils.antt =====
-- src/utils.rs: the search for an executable and the environment of a worker; and the functions of
-- Rust's standard library on texts and paths that this and other files use.
use Prim.Native.Char.{Char, code}
use Prim.Native.String.{String, ◌++◌}
use text.Mathlib.Text.{starts_with}
use fectl.Prelude.{
  Bool, true, false, not, ◌&&◌, ◌||◌, Option, none, some, List, [], ◌∷◌, leb, if◌then◌else◌,
}
use fectl.Prelude.{◌==◌ as nat_eq}

-- `char::is_whitespace`: the property White_Space of Unicode.
unfoldable pub is_whitespace : Char → Bool
is_whitespace c =
    let n = code c in
    (leb 9 n && leb n 13)
    || nat_eq n 32
    || nat_eq n 0x85
    || nat_eq n 0xa0
    || nat_eq n 0x1680
    || (leb 0x2000 n && leb n 0x200a)
    || nat_eq n 0x2028
    || nat_eq n 0x2029
    || nat_eq n 0x202f
    || nat_eq n 0x205f
    || nat_eq n 0x3000

unfoldable pub is_empty : String → Bool
is_empty String.[] = true
is_empty (String.◌∷◌ c s) = false

-- `str::trim`
unfoldable pub trim_start : String → String
trim_start String.[] = ""
trim_start (String.◌∷◌ c s) =
    let rest = trim_start s in if is_whitespace c then rest else String.◌∷◌ c s

unfoldable pub trim_end : String → String
unfolding is_empty
trim_end String.[] = ""
trim_end (String.◌∷◌ c s) =
    let rest = trim_end s in if is_empty rest && is_whitespace c then "" else String.◌∷◌ c rest

unfoldable pub trim : String → String
trim s = trim_end (trim_start s)

-- `split_whitespace`: `word` is what has been read of the word that is not over.
unfoldable pub split_from : String → String → List String
unfolding is_empty
split_from word String.[] = if is_empty word then [] else word ∷ []
split_from word (String.◌∷◌ c s) =
    let over = if is_empty word then split_from "" s else word ∷ split_from "" s in
    let longer = split_from (word ++ String.◌∷◌ c "") s in if is_whitespace c then over else longer

unfoldable pub split_whitespace : String → List String
split_whitespace s = split_from "" s

-- `ends_with` a slash
unfoldable pub ends_in_slash : String → Bool
ends_in_slash String.[] = false
ends_in_slash (String.◌∷◌ c String.[]) = nat_eq (code c) 47
ends_in_slash (String.◌∷◌ c (String.◌∷◌ d s)) = ends_in_slash (String.◌∷◌ d s)

-- `Path::join` on Unix: an absolute path replaces the directory.
unfoldable pub join : String → String → String
unfolding ends_in_slash is_empty
join dir path =
    if starts_with path "/"
    then path
    else if is_empty dir || ends_in_slash dir
    then dir ++ path
    else dir ++ "/" ++ path

-- The first directory that has the file.
unfoldable pub find_in : (String → Bool) → String → List String → Option String
find_in is_file name [] = none
find_in is_file name (dir ∷ dirs) =
    if is_file (join dir name) then some (join dir name) else find_in is_file name dirs

-- `paths` is `PATH`, split at its colons.
unfoldable pub find_path : (String → Bool) → Option (List String) → String → Option String
unfolding find_in
find_path is_file paths name =
    if is_file name
    then some name
    else elim paths [ none ↦ none | some dirs ↦ find_in is_file name dirs ]

-- Is a variable passed on?
unfoldable pub is_passed : Bool → String → Bool
is_passed all k =
    (all && not (starts_with k "_"))
    || starts_with k "FECTL_FD"
    || starts_with k "LANG"
    || starts_with k "LC_"

unfoldable pub get_env_vars : Bool → List (String × String) → List String
unfolding is_passed
get_env_vars all [] = []
get_env_vars all ((k, v) ∷ vars) =
    if is_passed all k then (k ++ "=" ++ v) ∷ get_env_vars all vars else get_env_vars all vars
