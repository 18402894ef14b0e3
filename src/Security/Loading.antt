-- ===== src/Security/Loading.antt =====
-- internal/security/signing.go: where a key manager gets its keys from, and ValidateMessage. What the
-- system finds under a path, and random bytes, are arguments; an error is `none`.
use disco.Base.{
  Str, Str_eq, ℕ, ℤ, pos, not, ◌&&◌, Option, none, some, if◌then◌else◌, ltb_ℤ, ◌-ℤ◌, ◌+ℤ◌, wrap64,
  is_empty, is_none, ◌==◌, ◌%◌,
}
use disco.Clock.{Time, unix}
use disco.Dict.{lookup}
use disco.Security.{KeyManager, KeyFile, fresh_manager, parse_keys, generate_keys, replay_ttl}

-- A keys file: nothing there, no way to read it, no JSON text, or the decoded keys.
pub data KeysRead : Type 0 where
  no_file unreadable malformed : KeysRead
  decoded : KeyFile → KeysRead

-- generateKeys, with the two random texts if the system has random bytes.
unfoldable pub generated : Option (Str × Str) → Option KeyManager
generated none = none
generated (some (secret, node_id)) = some (generate_keys secret node_id fresh_manager)

-- parseKeyData on what is read.
unfoldable pub parsed : KeyFile → Option KeyManager
parsed keys = some (parse_keys keys fresh_manager)

-- NewKeyManager, by loadOrGenerateKeys: new keys if there is no path or the file cannot be read.
unfoldable pub new_key_manager : (Str → KeysRead) → Option (Str × Str) → Str → Option KeyManager
unfolding generated parsed
new_key_manager read random key_path =
    if is_empty key_path then generated random else elim (read key_path) [
      | no_file ↦ generated random
      | unreadable ↦ generated random
      | malformed ↦ none
      | decoded keys ↦ parsed keys
    ]

-- LoadKeyManager, with the permission bits that os.Stat gives (`none` is an error): none of the bits
-- of the group and of others (0o077) may be set.
unfoldable pub load_key_manager : (Str → Option ℕ) → (Str → KeysRead) → Str → Option KeyManager
unfolding parsed
load_key_manager stat read key_path = elim (stat key_path) [
  | none ↦ none
  | some permissions ↦
      (if not (permissions % 64 == 0) then none else elim (read key_path) [
        | no_file ↦ none
        | unreadable ↦ none
        | malformed ↦ none
        | decoded keys ↦ parsed keys
      ])
]

-- The map that ValidateMessage is given: the timestamp if it is a number, as an int64, and the texts,
-- empty where they are missing. Anything else is no map.
pub record MessageMap : Type 0 where
  pub timestamp : Option ℤ
  pub signature : Str
  pub signer : Str
  pub nonce : Str

pub data MessageError : Type 0 where
  no_map too_old in_future unknown_signer : MessageError

unfoldable pub timestamp_error : Time → Option ℤ → Option MessageError
timestamp_error now none = none
timestamp_error now (some ts) =
    if ltb_ℤ replay_ttl (wrap64 (unix now -ℤ ts))
    then some too_old
    else if ltb_ℤ (wrap64 (unix now +ℤ pos 60)) ts
    then some in_future
    else none

-- ValidateMessage: nothing checks the signature itself.
unfoldable pub validate_message : Time → Option MessageMap → KeyManager → Option MessageError
unfolding timestamp_error
validate_message now none km = some no_map
validate_message now (some msg) km = elim (timestamp_error now msg.timestamp) [
  | some e ↦ some e
  | none ↦
      (if not (is_empty msg.signature)
          && not (is_empty msg.signer)
          && not (is_empty msg.nonce)
          && is_none (lookup msg.signer km.trusted_peers)
        then some unknown_signer
        else none)
]
