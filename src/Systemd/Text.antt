-- ===== src/Systemd/Text.antt =====
-- The functions of the standard library that src/main.rs reads the output of `systemctl show` with.
use Prim.Native.Char.{Char, code}
use text.Mathlib.Text.{starts_with}
use deptool.Base.{
  String, ℕ, ◌+◌, ◌-◌, ◌*◌, Bool, true, false, ◌&&◌, ◌||◌, Option, none, some, List, [], ◌∷◌,
  nat_eq, leb, ltb, if◌then◌else◌, ◌==◌, string_ord,
}

-- `char::is_whitespace`
abbrev is_whitespace : ℕ → Bool
is_whitespace c =
    (leb 9 c && leb c 13)
    || nat_eq c 32
    || nat_eq c 133
    || nat_eq c 160
    || nat_eq c 5760
    || (leb 8192 c && leb c 8202)
    || nat_eq c 8232
    || nat_eq c 8233
    || nat_eq c 8239
    || nat_eq c 8287
    || nat_eq c 12288

unfoldable pub trim_start : String → String
trim_start String.[] = ""
trim_start (String.◌∷◌ c s) =
    let rest = trim_start s in if is_whitespace (code c) then rest else String.◌∷◌ c s

unfoldable pub trim_end : String → String
trim_end String.[] = ""
trim_end (String.◌∷◌ c s) =
    let rest = trim_end s in
    if is_whitespace (code c) && (rest == "") then "" else String.◌∷◌ c rest

unfoldable pub trim : String → String
unfolding trim_start trim_end
trim s = trim_start (trim_end s)

abbrev on_first : Char → List String → List String
on_first c [] = String.◌∷◌ c "" ∷ []
on_first c (s ∷ ss) = String.◌∷◌ c s ∷ ss

-- `str::lines`: a line ends at `\n` or `\r\n`.
unfoldable pub lines : String → List String
lines String.[] = []
lines (String.◌∷◌ c s) =
    let rest = lines s in
    if nat_eq (code c) 10
    then "" ∷ rest
    else if nat_eq (code c) 13 && starts_with s "\n"
    then rest
    else on_first c rest

-- `s.split("\n\n")`
unfoldable pub split_blocks : String → List String
split_blocks String.[] = "" ∷ []
split_blocks (String.◌∷◌ c String.[]) = String.◌∷◌ c "" ∷ []
split_blocks (String.◌∷◌ c (String.◌∷◌ d s)) = elim (nat_eq (code c) 10 && nat_eq (code d) 10) [
  | true ↦ "" ∷ split_blocks s
  | false ↦ on_first c (split_blocks (String.◌∷◌ d s))
]

-- `line.strip_prefix(key)`
unfoldable pub strip_key : String → String → Option String
strip_key String.[] line = some line
strip_key (String.◌∷◌ k key) String.[] = none
strip_key (String.◌∷◌ k key) (String.◌∷◌ c line) = elim (nat_eq (code k) (code c)) [
  | true ↦ strip_key key line
  | false ↦ none
]

abbrev pub is_digit : ℕ → Bool
is_digit c = leb b'0' c && leb c b'9'

-- The number that the digits stand for, behind the digits that are read already.
unfoldable pub parse_digits : ℕ → String → Option ℕ
parse_digits read String.[] = some read
parse_digits read (String.◌∷◌ c s) = elim (is_digit (code c)) [
  | true ↦ parse_digits (read * 10 + (code c - b'0')) s
  | false ↦ none
]

abbrev pub within_u64 : Option ℕ → Option ℕ
within_u64 none = none
within_u64 (some n) = if ltb n 18446744073709551616 then some n else none

abbrev pub parse_unsigned : String → Option ℕ
parse_unsigned s = if s == "" then none else within_u64 (parse_digits 0 s)

-- `str::parse::<u64>`, which takes a leading `+`.
unfoldable pub parse_u64 : String → Option ℕ
parse_u64 s = elim (strip_key "+" s) [ some rest ↦ parse_unsigned rest | none ↦ parse_unsigned s ]
