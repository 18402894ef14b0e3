-- ===== src/Net/Laws.antt =====
-- A number and an address that are written and read again.
use disco.Base.{
  Str, ℕ, pos, zero, suc, true, false, ◌||◌, [], ◌∷◌, ◌++◌, none, some, ◌≡◌, refl, ap, ◌∙◌, sym,
  subst, arith, ◌<◌, ◌≤◌, ◌*◌, ◌+◌, ◌/◌, ◌%◌, ◌^◌, Bool-cases, inl, inr, ◌==◌, ==_iff, ltb,
}
use disco.Net.{
  colon, open_bracket, close_bracket, contains, split_last, split_plain, split_host_port, digits,
  format_int, number, parse_digits, parse_uint, positive, atoi, host_port,
}

contains-append : (c : ℕ) (s t : Str) → contains c (s ++ t) ≡ (contains c s || contains c t)
contains-append c [] t = refl
contains-append c (b ∷ s) t = ground (arith, contains-append c s t)

parse_digits-cons :
    (n d : ℕ) (t : Str)
    → d < 10
    → n * 10 + d < 2 ^ 64
    → parse_digits n ((48 + d) ∷ t) ≡ parse_digits (n * 10 + d) t
unfolding parse_digits
parse_digits-cons n d t h k = ground arith

append_last : (s : Str) (b : ℕ) (t : Str) → (s ++ b ∷ []) ++ t ≡ s ++ b ∷ t
append_last [] b t = refl
append_last (a ∷ s) b t = ground (arith, append_last s b t)

-- Digits are read from left to right.
parse_digits-append :
    (fuel n : ℕ) (t : Str)
    → n < 10 ^ fuel
    → n < 2 ^ 64
    → parse_digits 0 (digits fuel n ++ t) ≡ parse_digits n t
unfolding digits
parse_digits-append zero n t b h = let none_left : n ≡ 0 = omega (arith, b) in rw none_left
parse_digits-append (suc f) n t b h = elim (Bool-cases (ltb n 10)) [
  | inl small ↦ rw small (
      parse_digits-cons 0 n t (ground arith) (omega (arith, h))
      ∙ ap (λ k. parse_digits k t) (omega arith))
  | inr large ↦
      rw (large, append_last)
        (parse_digits-append f (n / 10) _ (omega (arith, b)) (omega (arith, h))
          ∙ parse_digits-cons (n / 10) (n % 10) t (omega arith) (omega (arith, h))
          ∙ ap (λ k. parse_digits k t) (omega arith))
]

-- The first digit, and the others.
digits-tail :
    (f n c : ℕ) (s : Str)
    → digits f (n / 10) ≡ c ∷ s
    → ltb n 10 ≡ false
    → digits (suc f) n ≡ c ∷ (s ++ (48 + n % 10) ∷ [])
unfolding digits
digits-tail f n c s e large = rw (large, e, digits) refl

digits-cons :
    (f n : ℕ)
    → n < 10 ^ suc f
    → (c : ℕ) × (s : Str) × (digits (suc f) n ≡ c ∷ s) × (48 ≤ c) × (c ≤ 57)
unfolding digits
digits-cons zero n b = (48 + n, [], ground (arith, b), omega (arith, b), omega (arith, b))
digits-cons (suc f) n b = elim (Bool-cases (ltb n 10)) [
  | inl small ↦ (48 + n, [], rw small refl, ground (arith, small), ground (arith, small))
  | inr large ↦
      let (c, s, e, lo, hi) = digits-cons f (n / 10) (omega (arith, b)) in
      (c, s ++ (48 + n % 10) ∷ [], digits-tail (suc f) n c s e large, lo, hi)
]

contains-digits : (c fuel n : ℕ) → 57 < c → contains c (digits fuel n) ≡ false
unfolding digits
contains-digits c zero n h = refl
contains-digits c (suc f) n h = ground (
  arith,
  contains-append c (digits f (n / 10)) ((48 + n % 10) ∷ []),
  contains-digits c f (n / 10) h,
)

split_last-none : (c : ℕ) (t : Str) → contains c t ≡ false → split_last c t ≡ none
unfolding split_last
split_last-none c [] h = refl
split_last-none c (b ∷ t) h = ground (arith, split_last-none c t)

split_last-append :
    (c : ℕ) (s t : Str) → contains c t ≡ false → split_last c (s ++ c ∷ t) ≡ some (s, t)
unfolding split_last
split_last-append c [] t h = rw (split_last-none c t h, split_last) (ground (arith, ==_iff c c))
split_last-append c (b ∷ s) t h = rw (split_last-append c s t h, split_last) refl

-- A text that starts with a digit is read as a number without a sign.
atoi_unsigned :
    (c : ℕ) (s : Str) → 48 ≤ c → c ≤ 57 → atoi (c ∷ s) ≡ positive (parse_digits 0 (c ∷ s))
unfolding atoi parse_uint
atoi_unsigned c s lo hi = ground arith

append_none : (s : Str) → s ++ [] ≡ s
append_none [] = refl
append_none (b ∷ s) = ap (λ t. b ∷ t) (append_none s)

read_back :
    (c : ℕ) (s : Str) (n : ℕ) → digits 20 n ≡ c ∷ s → n < 2 ^ 63 → parse_digits 0 (c ∷ s) ≡ number n
unfolding parse_digits
read_back c s n e h =
    let front : c ∷ s ≡ digits 20 n ++ [] = sym e ∙ sym (append_none (digits 20 n)) in
    subst (λ k. parse_digits 0 k ≡ number n) (sym front)
      (parse_digits-append 20 n [] (omega (arith, h)) (omega (arith, h)))

-- An int that is not negative is read back as it was written.
pub atoi-format_int : (n : ℕ) → n < 2 ^ 63 → atoi (format_int (pos n)) ≡ (pos n, true)
unfolding format_int positive
atoi-format_int n h =
    let (c, s, e, lo, hi) = digits-cons 19 n (omega (arith, h)) in
    let read : parse_digits 0 (c ∷ s) ≡ number n = read_back c s n e h in
    rw (e, atoi_unsigned c s lo hi, read, positive) (ground arith)

split_plain-append :
    (s t : Str)
    → contains colon s ≡ false
    → contains open_bracket s ≡ false
    → contains close_bracket s ≡ false
    → contains colon t ≡ false
    → contains open_bracket t ≡ false
    → contains close_bracket t ≡ false
    → split_plain (s ++ colon ∷ t) ≡ some (s, t)
unfolding split_plain
split_plain-append s t a b c d e f =
    rw (split_last-append colon s t d, split_plain)
      (rw
        (
          a,
          contains-append open_bracket s (colon ∷ t),
          contains-append close_bracket s (colon ∷ t),
          b,
          c,
          e,
          f,
        )
        refl)

-- The address and the port that are written with a colon between are split again, if the address
-- has no colon and no bracket.
pub split_host_port-host_port :
    (addr : Str) (n : ℕ)
    → contains colon addr ≡ false
    → contains open_bracket addr ≡ false
    → contains close_bracket addr ≡ false
    → split_host_port (host_port addr (pos n)) ≡ some (addr, format_int (pos n))
unfolding split_host_port host_port format_int
split_host_port-host_port [] n p q r =
    split_plain-append [] (digits 20 n) p q r (contains-digits colon 20 n (omega arith))
      (contains-digits open_bracket 20 n (omega arith))
      (contains-digits close_bracket 20 n (omega arith))
split_host_port-host_port (b ∷ addr) n p q r =
    let other : (b == open_bracket) ≡ false = ground arith in
    rw other (
      split_plain-append (b ∷ addr) (digits 20 n) p q r (contains-digits colon 20 n (omega arith))
        (contains-digits open_bracket 20 n (omega arith))
        (contains-digits close_bracket 20 n (omega arith)))
