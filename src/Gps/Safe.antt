-- ===== src/Gps/Safe.antt =====
-- The slices and scans of cmd/gps-broadcaster/main.go, and when they panic.
use disco.Base.{
  Str, Str_eq, ℕ, zero, suc, ℤ, true, false, Bool, List, [], ◌∷◌, Option, none, some, ◌≡◌, refl,
  arith, length, ◌≤◌,
}
use disco.Gps.Scan.{
  Scanned, scanned, scan_error, panicked, ◌>>=◌, field, front, back, slice, scan_int, converted,
  or_error,
}

-- A result that is no panic.
abbrev pub Safe {ℓ} : {A : Type ℓ} → Scanned A → Type 0
Safe (scanned a) = Unit
Safe scan_error = Unit
Safe panicked = ⊥

pub >>=-Safe {ℓ κ} :
    {A : Type ℓ} {B : Type κ} (m : Scanned A) (f : A → Scanned B)
    → Safe m
    → ((a : A) → Safe (f a))
    → Safe (m >>= f)
>>=-Safe (scanned a) f h k = k a
>>=-Safe scan_error f h k = tt
>>=-Safe panicked f h k = elim h [ ]

front-Value :
    (n : ℕ) (s : Str) → n ≤ length s → (t : Str) × (front n s ≡ scanned t) × (length t ≡ n)
unfolding front
front-Value zero s h = ([], refl, refl)
front-Value (suc n) [] h = absurd (omega arith)
front-Value (suc n) (c ∷ s) h =
    let (t, e, l) = front-Value n s (omega arith) in (c ∷ t, rw e refl, omega (arith, l))

pub back-Safe : (n : ℕ) (s : Str) → n ≤ length s → Safe (back n s)
unfolding back
back-Safe zero s h = tt
back-Safe (suc n) [] h = absurd (omega arith)
back-Safe (suc n) (c ∷ s) h = back-Safe n s (omega arith)

pub front-Safe : (n : ℕ) (s : Str) → n ≤ length s → Safe (front n s)
front-Safe n s h = let (t, e, l) = front-Value n s h in rw e tt

pub slice-Safe : (i j : ℕ) (s : Str) → i ≤ j → j ≤ length s → Safe (slice i j s)
unfolding slice
slice-Safe i j s h k = let (t, e, l) = front-Value j s k in rw e (back-Safe i t (omega (arith, l)))

converted-Safe : (r : ℤ × Bool) → Safe (converted r)
unfolding converted
converted-Safe (n, true) = tt
converted-Safe (n, false) = tt

pub scan_int-Safe : (s : Str) → Safe (scan_int s)
unfolding scan_int
scan_int-Safe s = converted-Safe _

pub or_error-Safe {ℓ} : {A : Type ℓ} (o : Option A) → Safe (or_error o)
or_error-Safe none = tt
or_error-Safe (some a) = tt

pub field-Value :
    (i : ℕ) (fields : List Str) → suc i ≤ length fields → (s : Str) × (field i fields ≡ scanned s)
unfolding field
field-Value i [] h = absurd (omega arith)
field-Value zero (f ∷ fields) h = (f, refl)
field-Value (suc i) (f ∷ fields) h = field-Value i fields (omega arith)

-- A statement that scans a slice, and the statements after it.
pub scanning-Safe :
    {A : Type 0} (m : Scanned Str) (f : ℤ → Scanned A)
    → Safe m
    → ((n : ℤ) → Safe (f n))
    → Safe (m >>= λ s. scan_int s >>= f)
scanning-Safe m f h k =
    >>=-Safe m (λ s. scan_int s >>= f) h λ s. >>=-Safe (scan_int s) f (scan_int-Safe s) k
