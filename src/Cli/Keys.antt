-- ===== src/Cli/Keys.antt =====
-- cmd/disco/internal/keys/keys.go: the key files that the command line makes and changes. Random
-- bytes are arguments, encoding/json is left to the caller.
pub mod Wellformed
pub mod Trusted
use disco.Base.{
  Str, Str_eq, ℕ, Bool, true, false, not, ◌&&◌, ◌||◌, List, [], ◌∷◌, ◌++◌, Option, none, some,
  if◌then◌else◌, ◌==◌, ◌≟◌, ltb, length, all, any, suc, is_none,
}
use disco.Security.{KeyFile}
use disco.Cli.Text.{hex, in_range}

pub record Keys : Type 0 where
  pub public_key : Str
  pub private_key : Str
  pub public_keys : List Str

abbrev pub key_size : ℕ
key_size = 32

abbrev pub hex_key_length : ℕ
hex_key_length = 64

-- Generate, with the random bytes of the private and of the public key; `none` if the system has
-- none.
unfoldable pub generate : Option (List ℕ) → Option (List ℕ) → Option Keys
generate none public = none
generate (some private) none = none
generate (some private) (some public) =
    some
      (record { public_key = hex public; private_key = hex private; public_keys = hex public ∷ [] })

pub data KeyError : Type 0 where
  wrong_length not_hexadecimal already_trusted : KeyError
  private_key public_key : KeyError → KeyError
  trusted_peer : ℕ → KeyError → KeyError

-- The test on each character: a byte beyond ASCII is part of a character that is no digit.
abbrev pub is_hex : ℕ → Bool
is_hex c = in_range 48 57 c || in_range 97 102 c || in_range 65 70 c

unfoldable pub validate_hex_key : Str → ℕ → Option KeyError
validate_hex_key key expected_len =
    if not (length key == expected_len)
    then some wrong_length
    else if not (all is_hex key)
    then some not_hexadecimal
    else none

-- `if err := ...; err != nil { return wrap(err) }`, before the other checks.
abbrev pub wrapped : (KeyError → KeyError) → Option KeyError → Option KeyError → Option KeyError
wrapped wrap none rest = rest
wrapped wrap (some e) rest = some (wrap e)

-- The loop over the trusted peers, from a place on.
unfoldable pub validate_peers : ℕ → List Str → Option KeyError
validate_peers i [] = none
validate_peers i (key ∷ rest) =
    wrapped (trusted_peer i) (validate_hex_key key hex_key_length) (validate_peers (suc i) rest)

unfoldable pub validate : Keys → Option KeyError
validate k = wrapped private_key (validate_hex_key k.private_key hex_key_length) (
    wrapped public_key (validate_hex_key k.public_key hex_key_length)
      (validate_peers 0 k.public_keys))

-- The two checks of AddTrustedPeer.
unfoldable pub peer_error : Str → Keys → Option KeyError
peer_error pub_key k =
    wrapped (λ e. e) (validate_hex_key pub_key hex_key_length)
      (if any (λ key. key ≟ pub_key) k.public_keys then some already_trusted else none)

-- The changed value with no error, or the old one with the error.
abbrev pub unless : Option KeyError → Keys → Keys → Keys × Option KeyError
unless none old new = (new, none)
unless (some e) old new = (old, some e)

unfoldable pub add_trusted_peer : Str → Keys → Keys × Option KeyError
unfolding peer_error
add_trusted_peer pub_key k =
    unless (peer_error pub_key k) k (record k { public_keys = k.public_keys ++ pub_key ∷ [] })

-- Load, from what the file is decoded to.
unfoldable pub load : Option Keys → Option Keys
load none = none
load (some k) = if is_none (validate k) then some k else none

-- The file that Save writes, as the daemon decodes it: the fields that it does not have are empty.
unfoldable pub saved : Keys → KeyFile
saved k = record {
  public_key = k.public_key;
  private_key = k.private_key;
  shared_secret = [];
  node_id = [];
  trusted_peers = [];
  public_keys = k.public_keys;
}
