-- ===== src/Cli/Text.antt =====
-- What the command line uses of packages strings, encoding/hex and net (ParseIP).
use disco.Base.{
  Str, ℕ, Bool, false, not, ◌&&◌, List, [], ◌∷◌, if◌then◌else◌, ◌==◌, ltb, leb, ◌+◌, ◌/◌, ◌%◌,
  is_none,
}
use disco.Dns.Text.{parse_ip4}

abbrev pub in_range : ℕ → ℕ → ℕ → Bool
in_range lo hi c = leb lo c && leb c hi

abbrev pub is_digit : ℕ → Bool
is_digit = in_range 48 57

abbrev pub is_lower : ℕ → Bool
is_lower = in_range 97 122

abbrev pub is_upper : ℕ → Bool
is_upper = in_range 65 90

unfoldable pub lower : ℕ → ℕ
lower c = if is_upper c then c + 32 else c

-- `strings.ToLower`. Of the characters beyond ASCII only U+0130 (196 176) and U+212A (226 132 170)
-- have a lower case in ASCII; the others are left as they are, since no test here tells them apart.
unfoldable pub to_lower : Str → Str
unfolding lower
to_lower [] = []
to_lower (a ∷ []) = lower a ∷ []
to_lower (a ∷ b ∷ []) = if (a == 196) && (b == 176) then 105 ∷ [] else lower a ∷ to_lower (b ∷ [])
to_lower (a ∷ b ∷ c ∷ s) =
    let rest = to_lower (b ∷ c ∷ s) in
    let after_two = to_lower (c ∷ s) in
    let after_three = to_lower s in
    if (a == 196) && (b == 176)
    then 105 ∷ after_two
    else if (a == 226) && (b == 132) && (c == 170)
    then 107 ∷ after_three
    else lower a ∷ rest

-- `hex.EncodeToString`
unfoldable pub hex_digit : ℕ → ℕ
hex_digit n = if ltb n 10 then 48 + n else 87 + n

unfoldable pub hex : List ℕ → Str
unfolding hex_digit
hex [] = []
hex (b ∷ bs) = hex_digit (b / 16) ∷ hex_digit (b % 16) ∷ hex bs

-- `net.ParseIP(s) != nil`: the first dot or colon says which kind of address the text is. Whether it
-- is an IPv6 address is the parameter `is_ip6`.
unfoldable pub is_ip_from : (Str → Bool) → Str → Str → Bool
is_ip_from is_ip6 whole [] = false
is_ip_from is_ip6 whole (c ∷ s) =
    let rest = is_ip_from is_ip6 whole s in
    if c == 46 then not (is_none (parse_ip4 whole)) else if c == 58 then is_ip6 whole else rest

unfoldable pub is_ip : (Str → Bool) → Str → Bool
unfolding is_ip_from
is_ip is_ip6 s = is_ip_from is_ip6 s s
