-- ===== src/Discovery/Interfaces/Subnet.antt =====
-- The address `ip | ^mask` of internal/discovery/broadcast.go, bit by bit.
use disco.Base.{
  length, ℕ, zero, suc, List, [], ◌∷◌, ◌≡◌, refl, arith, ◌≤◌, ◌+◌, ◌*◌, ◌-◌, ◌/◌, ◌%◌, ◌==◌, ◌&&◌,
  if◌then◌else◌, All,
}
use disco.Discovery.Interfaces.{or_bit, or_bits, broadcast_bytes}

-- The bitwise and of the lowest bits.
unfoldable pub and_bit : ℕ → ℕ → ℕ
and_bit a b = if (a % 2 == 1) && (b % 2 == 1) then 1 else 0

unfoldable pub and_bits : ℕ → ℕ → ℕ → ℕ
and_bits zero a b = 0
and_bits (suc k) a b = and_bit a b + 2 * and_bits k (a / 2) (b / 2)

-- The number with the lowest bits set.
abbrev ones : ℕ → ℕ
ones zero = 0
ones (suc k) = 1 + 2 * ones k

or_bit-le : (a b : ℕ) → or_bit a b ≤ 1
unfolding or_bit
or_bit-le a b = ground arith

half_bit : (b r : ℕ) → b ≤ 1 → (b + 2 * r) / 2 ≡ r
half_bit b r h = omega arith

-- The complement of a mask, bit by bit.
complement_half : (n m : ℕ) → m ≤ 1 + 2 * n → (1 + 2 * n - m) / 2 ≡ n - m / 2
complement_half n m h = omega arith

and_bit-or_bit :
    (n a m r : ℕ) → m ≤ 1 + 2 * n → and_bit m (or_bit a (1 + 2 * n - m) + 2 * r) ≡ and_bit m a
unfolding and_bit or_bit
and_bit-or_bit n a m r h = ground arith

or_bit-or_bit : (n a m r : ℕ) → m ≤ 1 + 2 * n → or_bit m (or_bit a (1 + 2 * n - m) + 2 * r) ≡ 1
unfolding or_bit
or_bit-or_bit n a m r h = ground arith

and_bits-or_bits :
    (k a m : ℕ) → m ≤ ones k → and_bits k m (or_bits k a (ones k - m)) ≡ and_bits k m a
unfolding and_bits or_bits
and_bits-or_bits zero a m h = refl
and_bits-or_bits (suc k) a m h = rw (
  and_bit-or_bit (ones k) a m (or_bits k (a / 2) ((1 + 2 * ones k - m) / 2)) h,
  half_bit (or_bit a (1 + 2 * ones k - m)) (or_bits k (a / 2) ((1 + 2 * ones k - m) / 2))
      (or_bit-le a (1 + 2 * ones k - m)),
  complement_half (ones k) m h,
  and_bits-or_bits k (a / 2) (m / 2) (omega arith),
)

or_bits-or_bits : (k a m : ℕ) → m ≤ ones k → or_bits k m (or_bits k a (ones k - m)) ≡ ones k
unfolding or_bits
or_bits-or_bits zero a m h = refl
or_bits-or_bits (suc k) a m h = rw (
  or_bit-or_bit (ones k) a m (or_bits k (a / 2) ((1 + 2 * ones k - m) / 2)) h,
  half_bit (or_bit a (1 + 2 * ones k - m)) (or_bits k (a / 2) ((1 + 2 * ones k - m) / 2))
      (or_bit-le a (1 + 2 * ones k - m)),
  complement_half (ones k) m h,
  or_bits-or_bits k (a / 2) (m / 2) (omega arith),
)

-- Under the mask the two addresses are the same, and outside it the second has only ones; all three
-- are as long.
abbrev pub IsBroadcastOf : List ℕ → List ℕ → List ℕ → Type 0
IsBroadcastOf [] [] [] = Unit
IsBroadcastOf (a ∷ ip) (m ∷ mask) (t ∷ ts) =
    (and_bits 8 m t ≡ and_bits 8 m a) × (or_bits 8 m t ≡ 255) × IsBroadcastOf ip mask ts
IsBroadcastOf _ _ _ = ⊥

-- The address that is computed for an address and a mask of as many bytes has the same network bits
-- as the address, and all host bits set.
pub broadcast_bytes-IsBroadcastOf :
    (ip mask : List ℕ)
    → length ip ≡ length mask
    → All (λ m. m ≤ 255) mask
    → IsBroadcastOf ip mask (broadcast_bytes ip mask)
unfolding broadcast_bytes
broadcast_bytes-IsBroadcastOf [] [] e h = tt
broadcast_bytes-IsBroadcastOf [] (m ∷ mask) e h = absurd (ground arith)
broadcast_bytes-IsBroadcastOf (a ∷ ip) [] e h = absurd (ground arith)
broadcast_bytes-IsBroadcastOf (a ∷ ip) (m ∷ mask) e h = (
  and_bits-or_bits 8 a m h.0,
  or_bits-or_bits 8 a m h.0,
  broadcast_bytes-IsBroadcastOf ip mask (omega (arith, e)) h.1,
)
