-- ===== src/Security.antt =====
-- internal/security/signing.go: KeyManager, which signs messages with a shared secret and checks
-- the signatures of trusted peers. The hexadecimal HMAC-SHA256 of a text under a key is the
-- parameter `mac` (package crypto/hmac), random bytes and the clock are arguments.
pub mod Checks
pub mod Files
pub mod Loading
use disco.Base.{
  Str, Str_eq, ℕ, ℤ, pos, Bool, true, false, not, List, [], ◌∷◌, ◌++◌, Option, none, some,
  if◌then◌else◌, ltb_ℤ, ◌-ℤ◌, wrap64, is_empty, str_eq, ◌==◌, ◌%◌,
}
use disco.Clock.{Time, unix}
use disco.Dict.{Dict, lookup, insert}

pub record MessageSecurity : Type 0 where
  pub signature : Str
  pub signer : Str
  pub nonce : Str
  pub timestamp : ℤ

pub record KeyManager : Type 0 where
  pub shared_secret : Str
  pub node_id : Str
  pub trusted_peers : Dict Str Str

abbrev pub replay_ttl : ℤ
replay_ttl = pos 300

-- The keys file, as decoded from JSON.
pub record KeyFile : Type 0 where
  pub public_key : Str
  pub private_key : Str
  pub shared_secret : Str
  pub node_id : Str
  pub trusted_peers : Dict Str Str
  pub public_keys : List Str

abbrev pub fresh_manager : KeyManager
fresh_manager = record { shared_secret = []; node_id = []; trusted_peers = [] }

-- AddTrustedPeer and AddTrustedPeerByID, which do the same.
unfoldable pub add_trusted_peer : Str → Str → KeyManager → KeyManager
add_trusted_peer node_id secret km = record km {
  trusted_peers = insert node_id secret km.trusted_peers;
}

-- The loop over the trusted peers of a keys file.
unfoldable pub add_peers : Dict Str Str → Dict Str Str → Dict Str Str
add_peers [] m = m
add_peers ((node_id, secret) ∷ rest) m = add_peers rest (insert node_id secret m)

-- The loop over the public keys of a keys file of the old form: one secret for all.
unfoldable pub add_public_keys : Str → List Str → Dict Str Str → Dict Str Str
add_public_keys secret [] m = m
add_public_keys secret (key ∷ rest) m = add_public_keys secret rest (insert key secret m)

-- `parseKeyData`, after the JSON is decoded.
unfoldable pub parse_keys : KeyFile → KeyManager → KeyManager
parse_keys keys km =
    if is_empty keys.shared_secret
    then record {
      shared_secret = keys.private_key;
      node_id = keys.public_key;
      trusted_peers = add_public_keys keys.private_key keys.public_keys km.trusted_peers;
    }
    else record {
      shared_secret = keys.shared_secret;
      node_id = keys.node_id;
      trusted_peers = add_peers keys.trusted_peers km.trusted_peers;
    }

-- `generateKeys` with the two random hexadecimal texts.
unfoldable pub generate_keys : Str → Str → KeyManager → KeyManager
generate_keys secret node_id km = record {
  shared_secret = secret;
  node_id = node_id;
  trusted_peers = insert node_id secret km.trusted_peers;
}

unfoldable pub key_names : Dict Str Str → List Str
key_names [] = []
key_names ((k, v) ∷ m) = k ∷ key_names m

-- What `SaveKeys` writes, before it is encoded as JSON.
unfoldable pub saved_keys : KeyManager → KeyFile
saved_keys km = record {
  public_key = km.node_id;
  private_key = km.shared_secret;
  shared_secret = km.shared_secret;
  node_id = km.node_id;
  trusted_peers = km.trusted_peers;
  public_keys = key_names km.trusted_peers;
}

-- The timestamp of a signature against the clock, as int64 arithmetic gives it.
unfoldable pub is_timely : Time → ℤ → Bool
is_timely now ts =
    if ltb_ℤ replay_ttl (wrap64 (unix now -ℤ ts)) then false else not (ltb_ℤ (unix now) ts)

module _ (mac : Str → Str → Str) where
  unfoldable pub sign : KeyManager → Str → Time → Str → MessageSecurity
  sign km nonce now message = record {
    signature = mac km.shared_secret (nonce ++ message);
    signer = km.node_id;
    nonce = nonce;
    timestamp = unix now;
  }

  unfoldable pub verify : KeyManager → Time → Str → Option MessageSecurity → Bool
  unfolding is_timely
  verify km now message none = false
  verify km now message (some ms) = elim (lookup ms.signer km.trusted_peers) [
    | none ↦ false
    | some secret ↦
        (if is_timely now ms.timestamp
          then str_eq ms.signature (mac secret (ms.nonce ++ message))
          else false)
  ]
