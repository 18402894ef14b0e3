-- ===== src/Gps/Scan.antt =====
-- What the GPS broadcaster uses of packages strings (Split), fmt (Sscanf with %d) and of slices of
-- strings, which panic out of range. The blanks before a number are those of ASCII.
use disco.Base.{
  Str, ℕ, ℤ, Bool, true, false, ◌&&◌, ◌||◌, List, [], ◌∷◌, Option, none, some, if◌then◌else◌, ◌==◌,
  leb, zero, suc,
}
use disco.Net.{atoi}

pub data Scanned {ℓ} (A : Type ℓ) : Type ℓ where
  scanned : A → Scanned A
  scan_error panicked : Scanned A

infixl 5 ◌>>=◌
abbrev pub ◌>>=◌ {ℓ κ} : {A : Type ℓ} {B : Type κ} → Scanned A → (A → Scanned B) → Scanned B
scanned a >>= f = f a
scan_error >>= f = scan_error
panicked >>= f = panicked

abbrev pub or_error {ℓ} : {A : Type ℓ} → Option A → Scanned A
or_error none = scan_error
or_error (some a) = scanned a

-- `strings.Split(s, sep)` for a separator of one byte.
unfoldable pub split_on : ℕ → Str → List Str
split_on sep [] = [] ∷ []
split_on sep (c ∷ s) =
    let rest = split_on sep s in
    if c == sep
    then [] ∷ rest
    else elim rest [ [] ↦ (c ∷ []) ∷ [] | part ∷ parts ↦ (c ∷ part) ∷ parts ]

-- `fields[i]`
unfoldable pub field : ℕ → List Str → Scanned Str
field i [] = panicked
field zero (f ∷ fields) = scanned f
field (suc i) (f ∷ fields) = field i fields

-- `s[:n]` and `s[n:]`
unfoldable pub front : ℕ → Str → Scanned Str
front zero s = scanned []
front (suc n) [] = panicked
front (suc n) (c ∷ s) = do scanned (c ∷ (← front n s))

unfoldable pub back : ℕ → Str → Scanned Str
back zero s = scanned s
back (suc n) [] = panicked
back (suc n) (c ∷ s) = back n s

-- `s[i:j]`
unfoldable pub slice : ℕ → ℕ → Str → Scanned Str
unfolding front back
slice i j s = do back i (← front j s)

abbrev is_blank : ℕ → Bool
is_blank c = (c == 32) || (c == 9) || (c == 11) || (c == 12) || (c == 13)

unfoldable pub skip_blanks : Str → Str
skip_blanks [] = []
skip_blanks (c ∷ s) = if is_blank c then skip_blanks s else c ∷ s

-- The digits at the front of a text.
unfoldable pub leading_digits : Str → Str
leading_digits [] = []
leading_digits (c ∷ s) =
    let rest = leading_digits s in if leb 48 c && leb c 57 then c ∷ rest else []

-- The text of a number with its sign: what follows it is left unread.
unfoldable pub number_text : Str → Str
unfolding leading_digits
number_text [] = []
number_text (c ∷ s) =
    if (c == 43) || (c == 45) then c ∷ leading_digits s else leading_digits (c ∷ s)

unfoldable pub converted : ℤ × Bool → Scanned ℤ
converted (n, true) = scanned n
converted (n, false) = scan_error

-- `fmt.Sscanf(s, "%d", &n)`
unfoldable pub scan_int : Str → Scanned ℤ
unfolding skip_blanks number_text converted
scan_int s = converted (atoi (number_text (skip_blanks s)))
