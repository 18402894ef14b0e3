-- ===== src/Cli/Validation/Hostnames.antt =====
-- Which hostnames the command line takes, against the regular expression of its labels.
use disco.Base.{
  Str, Str_eq, ℕ, Bool, true, false, ◌&&◌, List, [], ◌∷◌, ◌++◌, none, ◌≡◌, refl, ◌∙◌, ap, ◌⊎◌, inl,
  inr, ◌↔◌, ◌≤◌, arith, length, all, All, Bool-cases,
}
use disco.Dns.Text.{split_dots}
use disco.Cli.Text.{to_lower}
use disco.Cli.Validation.{
  is_alnum, is_inner, ends_well, is_label, validate_labels, validate_hostname,
}

both_true : (a b : Bool) → (a && b) ≡ true → (a ≡ true) × (b ≡ true)
both_true true b h = (refl, h)
both_true false b h = absurd (ground arith)

both : {a b : Bool} → a ≡ true → b ≡ true → (a && b) ≡ true
both h k = rw (h, k) refl

-- The texts of `[a-z0-9-]*[a-z0-9]`.
abbrev Tail : Str → Type 0
Tail s =
    (middle : Str) × (last : ℕ) × (s ≡ middle ++ last ∷ [])
    × (all is_inner middle ≡ true)
    × (is_alnum last ≡ true)

-- The texts of `[a-z0-9]([a-z0-9-]*[a-z0-9])?`.
abbrev pub Label : Str → Type 0
Label s =
    (first : ℕ) × (rest : Str) × (s ≡ first ∷ rest)
    × (is_alnum first ≡ true)
    × ((rest ≡ []) ⊎ Tail rest)

Tail-of_ends_well : (c : ℕ) (s : Str) → ends_well (c ∷ s) ≡ true → Tail (c ∷ s)
unfolding ends_well
Tail-of_ends_well c [] h = ([], c, refl, refl, h)
Tail-of_ends_well c (d ∷ s) h =
    let (middle, last, e, inner, alnum) = Tail-of_ends_well d s (ground arith) in
    (c ∷ middle, last, rw e refl, ground arith, alnum)

ends_well-of_Tail :
    (middle : Str) (last : ℕ)
    → all is_inner middle ≡ true
    → is_alnum last ≡ true
    → ends_well (middle ++ last ∷ []) ≡ true
unfolding ends_well
ends_well-of_Tail [] last h k = k
ends_well-of_Tail (c ∷ []) last h k = ground arith
ends_well-of_Tail (c ∷ d ∷ middle) last h k =
    both (both_true (is_inner c) _ h).0
      (ends_well-of_Tail (d ∷ middle) last (both_true (is_inner c) _ h).1 k)

Rest-of_ends_well : (s : Str) → ends_well s ≡ true → (s ≡ []) ⊎ Tail s
Rest-of_ends_well [] h = inl refl
Rest-of_ends_well (c ∷ s) h = inr (Tail-of_ends_well c s h)

Label-of_is_label : (s : Str) → is_label s ≡ true → Label s
unfolding is_label
Label-of_is_label [] h = absurd (ground arith)
Label-of_is_label (c ∷ s) h =
    let (first, rest) = both_true (is_alnum c) _ h in (c, s, refl, first, Rest-of_ends_well s rest)

is_label-of_Label : (s : Str) → Label s → is_label s ≡ true
unfolding is_label ends_well
is_label-of_Label s (first, rest, e, alnum, inl nothing) =
    ap is_label (e ∙ ap (λ r. first ∷ r) nothing) ∙ both alnum refl
is_label-of_Label s (first, rest, e, alnum, inr (middle, last, f, inner, ends)) =
    ap is_label e ∙ both alnum (ap ends_well f ∙ ends_well-of_Tail middle last inner ends)

-- What the check wants of a label.
abbrev pub IsPart : Str → Type 0
IsPart part = (1 ≤ length part) × (length part ≤ 63) × Label (to_lower part)

Parts-of_validate_labels : (parts : List Str) → validate_labels parts ≡ none → All IsPart parts
unfolding validate_labels
Parts-of_validate_labels [] h = tt
Parts-of_validate_labels (part ∷ parts) h = elim (Bool-cases (is_label (to_lower part))) [
  | inl e ↦ (
    (ground arith, ground arith, Label-of_is_label (to_lower part) e),
    Parts-of_validate_labels parts (ground arith),
  )
  | inr e ↦ absurd (ground arith)
]

validate_labels-of_Parts : (parts : List Str) → All IsPart parts → validate_labels parts ≡ none
unfolding validate_labels
validate_labels-of_Parts [] h = refl
validate_labels-of_Parts (part ∷ parts) ((some_length, short, label), rest) =
    rw (validate_labels-of_Parts parts rest, is_label-of_Label (to_lower part) label) (ground arith)

Hostname-of_validate :
    (s : Str)
    → validate_hostname s ≡ none
    → (1 ≤ length s) × (length s ≤ 253) × All IsPart (split_dots s)
unfolding validate_hostname
Hostname-of_validate [] h = absurd (ground arith)
Hostname-of_validate (c ∷ s) h =
    (omega arith, ground arith, Parts-of_validate_labels (split_dots (c ∷ s)) (ground arith))

validate-of_Hostname :
    (s : Str)
    → (1 ≤ length s) × (length s ≤ 253) × All IsPart (split_dots s)
    → validate_hostname s ≡ none
unfolding validate_hostname
validate-of_Hostname [] (some_length, short, parts) = absurd (omega arith)
validate-of_Hostname (c ∷ s) (some_length, short, parts) =
    rw (validate_labels-of_Parts (split_dots (c ∷ s)) parts) (ground arith)

-- A hostname is taken just if it has 1 to 253 bytes and each label between its dots has 1 to 63, and
-- is in lower case a text of `[a-z0-9]([a-z0-9-]*[a-z0-9])?`.
pub validate_hostname_iff :
    (s : Str)
    → (validate_hostname s ≡ none) ↔ ((1 ≤ length s) × (length s ≤ 253) × All IsPart (split_dots s))
validate_hostname_iff s = (Hostname-of_validate s, validate-of_Hostname s)
