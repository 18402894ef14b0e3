-- ===== src/Net.antt =====
-- What the code uses of package net (SplitHostPort), strconv (Atoi) and fmt (%d), on byte strings.
pub mod Laws
use disco.Base.{
  Str, ℕ, ℤ, pos, negsuc, zero, suc, Bool, true, false, not, ◌&&◌, ◌||◌, List, [], ◌∷◌, ◌++◌,
  Option, none, some, if◌then◌else◌, ltb, leb, ◌==◌, any, ◌+◌, ◌*◌, ◌/◌, ◌%◌, ◌-◌, ◌^◌, is_empty,
}

abbrev pub colon : ℕ
colon = 58

abbrev pub open_bracket : ℕ
open_bracket = 91

abbrev pub close_bracket : ℕ
close_bracket = 93

-- `strings.IndexByte(s, c) >= 0`
abbrev pub contains : ℕ → Str → Bool
contains c = any (λ b. b == c)

-- The text before and after the first, and the last, occurrence of a byte.
unfoldable pub split_first : ℕ → Str → Option (Str × Str)
split_first c [] = none
split_first c (b ∷ s) =
    let rest = split_first c s in
    if b == c then some ([], s) else elim rest [ none ↦ none | some (u, v) ↦ some (b ∷ u, v) ]

unfoldable pub split_last : ℕ → Str → Option (Str × Str)
split_last c [] = none
split_last c (b ∷ s) = elim (split_last c s) [
  | some (u, v) ↦ some (b ∷ u, v)
  | none ↦ (if b == c then some ([], s) else none)
]

-- The part of SplitHostPort for `[host]:port`, after the first bracket.
unfoldable pub split_bracketed : Str → Option (Str × Str)
split_bracketed s = elim (split_first close_bracket s) [
  | none ↦ none
  | some (host, []) ↦ none
  | some (host, b ∷ port) ↦
      (if b == colon
          && not (contains colon port)
          && not (contains open_bracket s)
          && not (contains close_bracket port)
        then some (host, port)
        else none)
]

unfoldable pub split_plain : Str → Option (Str × Str)
split_plain s = elim (split_last colon s) [
  | none ↦ none
  | some (host, port) ↦
      (if contains colon host || contains open_bracket s || contains close_bracket s
        then none
        else some (host, port))
]

-- net.SplitHostPort; every error is `none`.
unfoldable pub split_host_port : Str → Option (Str × Str)
split_host_port [] = none
split_host_port (b ∷ s) = if b == open_bracket then split_bracketed s else split_plain (b ∷ s)

-- `%d` of a number, with fuel for its digits: 20 are enough for an int64.
unfoldable pub digits : ℕ → ℕ → Str
digits zero n = []
digits (suc fuel) n =
    let front = digits fuel (n / 10) in
    if ltb n 10 then (48 + n) ∷ [] else front ++ (48 + n % 10) ∷ []

unfoldable pub format_int : ℤ → Str
format_int (pos n) = digits 20 n
format_int (negsuc n) = 45 ∷ digits 20 (suc n)

-- The digits of strconv.ParseUint, after those that make up `n`: a bad byte ends it, and so does a
-- value that no uint64 holds.
pub data Parsed : Type 0 where
  number : ℕ → Parsed
  syntax_error out_of_range : Parsed

unfoldable pub parse_digits : ℕ → Str → Parsed
parse_digits n [] = number n
parse_digits n (c ∷ s) =
    let m = n * 10 + (c - 48) in
    let rest = parse_digits m s in
    if leb 48 c && leb c 57 then (if ltb m (2 ^ 64) then rest else out_of_range) else syntax_error

unfoldable pub parse_uint : Str → Parsed
parse_uint [] = syntax_error
parse_uint (c ∷ s) = parse_digits 0 (c ∷ s)

-- strconv.Atoi: the value, and whether there is no error. An out of range text gives the nearest
-- int64, a malformed one zero.
unfoldable pub positive : Parsed → ℤ × Bool
positive (number n) = if ltb n (2 ^ 63) then (pos n, true) else (pos (2 ^ 63 - 1), false)
positive syntax_error = (pos 0, false)
positive out_of_range = (pos (2 ^ 63 - 1), false)

unfoldable pub negative : Parsed → ℤ × Bool
negative (number zero) = (pos 0, true)
negative (number (suc n)) =
    if ltb n (2 ^ 63) then (negsuc n, true) else (negsuc (2 ^ 63 - 1), false)
negative syntax_error = (pos 0, false)
negative out_of_range = (negsuc (2 ^ 63 - 1), false)

unfoldable pub atoi : Str → ℤ × Bool
atoi [] = (pos 0, false)
atoi (c ∷ s) =
    if c == 45
    then negative (parse_uint s)
    else if c == 43
    then positive (parse_uint s)
    else positive (parse_uint (c ∷ s))

-- `fmt.Sprintf("%s:%d", addr, port)`
unfoldable pub host_port : Str → ℤ → Str
host_port addr port = addr ++ colon ∷ format_int port
