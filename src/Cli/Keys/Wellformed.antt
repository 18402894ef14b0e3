-- ===== src/Cli/Keys/Wellformed.antt =====
-- The key files that the command line makes and extends pass its checks.
use disco.Base.{
  Str, Str_eq, ℕ, true, List, [], ◌∷◌, ◌++◌, Option, none, some, ◌≡◌, refl, ◌<◌, ◌*◌, arith, ◌/◌,
  ◌%◌, length, all, All, suc,
}
use disco.Cli.Text.{hex, hex_digit}
use disco.Cli.Keys.{
  Keys, generate, validate_hex_key, validate_peers, validate, add_trusted_peer, load, is_hex,
  KeyError, trusted_peer, private_key, public_key, wrapped, unless, peer_error,
}

hex_digit-is_hex : (n : ℕ) → n < 16 → is_hex (hex_digit n) ≡ true
unfolding hex_digit
hex_digit-is_hex n h = ground arith

all-hex : (bs : List ℕ) → All (λ b. b < 256) bs → all is_hex (hex bs) ≡ true
unfolding hex
all-hex [] h = refl
all-hex (b ∷ bs) (small, rest) =
    rw
      (
        hex_digit-is_hex (b / 16) (omega arith),
        hex_digit-is_hex (b % 16) (omega arith),
        all-hex bs rest,
      )
      refl

length-hex : (bs : List ℕ) → length (hex bs) ≡ 2 * length bs
unfolding hex
length-hex [] = refl
length-hex (b ∷ bs) = omega (arith, length-hex bs)

validate_hex_key-hex :
    (bs : List ℕ) → All (λ b. b < 256) bs → length bs ≡ 32 → validate_hex_key (hex bs) 64 ≡ none
unfolding validate_hex_key
validate_hex_key-hex bs h e = rw (length-hex bs, e, all-hex bs h) refl

-- Both parts of a check pass.
wrapped-none :
    (wrap : KeyError → KeyError) (o rest : Option KeyError)
    → wrapped wrap o rest ≡ none
    → (o ≡ none) × (rest ≡ none)
wrapped-none wrap none rest h = (refl, h)
wrapped-none wrap (some e) rest h = absurd (ground arith)

validate_peers-append :
    (i : ℕ) (keys : List Str) (key : Str)
    → validate_peers i keys ≡ none
    → validate_hex_key key 64 ≡ none
    → validate_peers i (keys ++ key ∷ []) ≡ none
unfolding validate_peers
validate_peers-append i [] key h k = rw k refl
validate_peers-append i (other ∷ keys) key h k =
    let (first, rest) = wrapped-none (trusted_peer i) (validate_hex_key other 64) _ h in
    rw first (validate_peers-append (suc i) keys key rest k)

load-validate : (k : Keys) → validate k ≡ none → load (some k) ≡ some k
unfolding load
load-validate k h = rw h refl

-- Generated keys are valid, so they are loaded again: 32 random bytes have 64 hexadecimal digits.
pub load-generate :
    (private public : List ℕ)
    → All (λ b. b < 256) private
    → All (λ b. b < 256) public
    → length private ≡ 32
    → length public ≡ 32
    → load (generate (some private) (some public)) ≡ generate (some private) (some public)
unfolding generate validate validate_peers
load-generate private public h k e f =
    load-validate _ (rw (validate_hex_key-hex private h e, validate_hex_key-hex public k f) refl)

unless-validate :
    (o : Option KeyError) (old new : Keys)
    → validate old ≡ none
    → (o ≡ none → validate new ≡ none)
    → validate (unless o old new).0 ≡ none
unless-validate none old new h k = k refl
unless-validate (some e) old new h k = h

-- Valid keys stay valid when a peer is added, or refused.
pub validate-add_trusted_peer :
    (key : Str) (k : Keys) → validate k ≡ none → validate (add_trusted_peer key k).0 ≡ none
unfolding validate add_trusted_peer
validate-add_trusted_peer key k h =
    let (private, others) = wrapped-none private_key (validate_hex_key k.private_key 64) _ h in
    let (public, peers) = wrapped-none public_key (validate_hex_key k.public_key 64) _ others in
    unless-validate (peer_error key k) k (record k { public_keys = k.public_keys ++ key ∷ [] }) h
      λ none_wrong.
        let (well_formed, fresh) = wrapped-none (λ e. e) (validate_hex_key key 64) _ none_wrong in
        rw (private, public) (validate_peers-append 0 k.public_keys key peers well_formed)
