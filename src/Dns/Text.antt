-- ===== src/Dns/Text.antt =====
-- What the DNS server uses of package strings, and of net.ParseIP for IPv4 texts (an IPv6 text that
-- stands for an IPv4 address is left out).
use disco.Base.{
  Str, Str_eq, ℕ, Bool, false, not, ◌&&◌, List, [], ◌∷◌, ◌++◌, Option, none, some, if◌then◌else◌,
  ◌≟◌, ◌==◌, leb, is_empty,
}
use disco.Net.{number, syntax_error, out_of_range, parse_uint}

abbrev pub dot : ℕ
dot = 46

-- `strings.HasSuffix`, with what `strings.TrimSuffix` leaves.
unfoldable pub strip_suffix : Str → Str → Option Str
strip_suffix suffix [] = if is_empty suffix then some [] else none
strip_suffix suffix (c ∷ s) =
    let rest = strip_suffix suffix s in
    if (c ∷ s) ≟ suffix then some [] else elim rest [ none ↦ none | some front ↦ some (c ∷ front) ]

unfoldable pub trim_suffix : Str → Str → Str
trim_suffix suffix s = elim (strip_suffix suffix s) [ none ↦ s | some front ↦ front ]

-- `strings.TrimPrefix(s, "_")`
unfoldable pub trim_underscore : Str → Str
trim_underscore [] = []
trim_underscore (c ∷ s) = if c == 95 then s else c ∷ s

-- `strings.Split(s, ".")`, and `strings.Join` with a separator.
unfoldable pub split_dots : Str → List Str
split_dots [] = [] ∷ []
split_dots (c ∷ s) =
    let rest = split_dots s in
    if c == dot
    then [] ∷ rest
    else elim rest [ [] ↦ (c ∷ []) ∷ [] | part ∷ parts ↦ (c ∷ part) ∷ parts ]

unfoldable pub join : Str → List Str → Str
join separator [] = []
join separator (part ∷ []) = part
join separator (part ∷ next ∷ parts) = part ++ separator ++ join separator (next ∷ parts)

abbrev pub leading_zero : Str → Bool
leading_zero [] = false
leading_zero (c ∷ s) = (c == 48) && not (is_empty s)

-- A decimal number up to 255 without leading zeros.
unfoldable pub octet : Str → Option ℕ
octet s = elim (parse_uint s) [
  | number n ↦ (if leb n 255 && not (leading_zero s) then some n else none)
  | syntax_error ↦ none
  | out_of_range ↦ none
]

-- Four octets between dots.
unfoldable pub octets : List Str → Option (List ℕ)
unfolding octet
octets [] = some []
octets (part ∷ parts) = elim (octet part) [
  | none ↦ none
  | some n ↦ elim (octets parts) [ none ↦ none | some ns ↦ some (n ∷ ns) ]
]

unfoldable pub parse_ip4 : Str → Option (List ℕ)
unfolding octets split_dots
parse_ip4 s = elim (octets (split_dots s)) [
  | some (a ∷ b ∷ c ∷ d ∷ []) ↦ some (a ∷ b ∷ c ∷ d ∷ [])
  | _ ↦ none
]
