-- ===== src/Cli/Keys/Trusted.antt =====
-- Whom a daemon trusts whose key file the command line has made, once its trusted peers file is
-- loaded.
use disco.Base.{
  Str, Str_eq, true, List, [], ◌∷◌, ◌++◌, Option, none, some, ◌≡◌, refl, sym, ◌∙◌, ap, ◌⊎◌, inl,
  inr, arith, ◌≟◌, Bool-cases, Option-cases, or_else, if◌then◌else◌, subst, is_empty, ◌||◌,
}
use disco.Clock.{Time}
use disco.Dict.{Dict, lookup, insert}
use disco.Dict.Laws.{lookup-insert}
use disco.Daemon.{
  PeerEntry, PeersFile, missing, unreadable, malformed, entries, load_trusted_peers, add_entries,
}
use disco.Daemon.Trust.{last_entry, lookup-load_trusted_peers}
use disco.Security.{
  KeyManager, add_trusted_peer, parse_keys, fresh_manager, add_public_keys, sign, verify,
}
use disco.Security.Checks.{verify_sound}
use disco.Cli.Keys.{Keys, saved}

some_eq : {s t : Str} → some s ≡ some t → s ≡ t
some_eq h = ground arith

-- The daemon holds its own secret for every public key of such a file.
lookup-add_public_keys :
    (secret : Str) (keys : List Str) (m : Dict Str Str) (id s : Str)
    → lookup id (add_public_keys secret keys m) ≡ some s
    → (s ≡ secret) ⊎ (lookup id m ≡ some s)
unfolding add_public_keys
lookup-add_public_keys secret [] m id s h = inr h
lookup-add_public_keys secret (key ∷ keys) m id s h =
    elim (lookup-add_public_keys secret keys (insert key secret m) id s h) [
      | inl e ↦ inl e
      | inr e ↦ elim (Bool-cases (key ≟ id)) [
        | inl same ↦ inl (some_eq (sym e ∙ lookup-insert key id secret m ∙ rw same refl))
        | inr other ↦ inr (sym (lookup-insert key id secret m ∙ rw other refl) ∙ e)
      ]
    ]

-- The private key that the trusted peers file gives for a public key.
abbrev pub file_entry : Str → PeersFile → Option Str
file_entry key missing = none
file_entry key unreadable = none
file_entry key malformed = none
file_entry key (entries peers) = last_entry key peers

-- The keys of a daemon with such a key file, once New has loaded the trusted peers file.
abbrev pub keys_of : Keys → PeersFile → KeyManager
keys_of k file = (load_trusted_peers file (parse_keys (saved k) fresh_manager)).0

lookup-loaded :
    (key : Str) (file : PeersFile) (km : KeyManager)
    → lookup key (load_trusted_peers file km).0.trusted_peers
      ≡ or_else
          (file_entry key file)
          (if km.node_id ≟ key then some km.shared_secret else lookup key km.trusted_peers)
unfolding load_trusted_peers add_trusted_peer
lookup-loaded key missing km = lookup-insert km.node_id key km.shared_secret km.trusted_peers
lookup-loaded key unreadable km = lookup-insert km.node_id key km.shared_secret km.trusted_peers
lookup-loaded key malformed km = lookup-insert km.node_id key km.shared_secret km.trusted_peers
lookup-loaded key (entries peers) km = lookup-load_trusted_peers key peers km

identity-add_entries :
    (peers : List PeerEntry) (km : KeyManager)
    → ((add_entries peers km).node_id ≡ km.node_id)
      × ((add_entries peers km).shared_secret ≡ km.shared_secret)
unfolding add_entries add_trusted_peer
identity-add_entries [] km = (refl, refl)
identity-add_entries (p ∷ rest) km =
    elim (Bool-cases (is_empty p.hostname || is_empty p.public_key || is_empty p.private_key)) [
      | inl e ↦ rw (e, add_entries) (identity-add_entries rest km)
      | inr e ↦
          rw (e, add_entries)
            (identity-add_entries rest (add_trusted_peer p.public_key p.private_key km))
    ]

-- The file does not change what the daemon signs with.
identity-loaded :
    (file : PeersFile) (km : KeyManager)
    → ((load_trusted_peers file km).0.node_id ≡ km.node_id)
      × ((load_trusted_peers file km).0.shared_secret ≡ km.shared_secret)
unfolding load_trusted_peers add_trusted_peer
identity-loaded missing km = (refl, refl)
identity-loaded unreadable km = (refl, refl)
identity-loaded malformed km = (refl, refl)
identity-loaded (entries peers) km = identity-add_entries peers _

identity-keys_of :
    (k : Keys) (file : PeersFile)
    → ((keys_of k file).node_id ≡ k.public_key) × ((keys_of k file).shared_secret ≡ k.private_key)
unfolding parse_keys saved
identity-keys_of k file = identity-loaded file (parse_keys (saved k) fresh_manager)

-- The secret that the daemon holds for a key is its own, or that of the file.
secret-keys_of :
    (k : Keys) (file : PeersFile) (key secret : Str)
    → lookup key (keys_of k file).trusted_peers ≡ some secret
    → (secret ≡ k.private_key) ⊎ (file_entry key file ≡ some secret)
unfolding parse_keys saved lookup
secret-keys_of k file key secret known =
    let found = sym (lookup-loaded key file (parse_keys (saved k) fresh_manager)) ∙ known in
    elim (Option-cases (file_entry key file)) [
      | inr (s, e) ↦ inr (e ∙ rw e at found)
      | inl e ↦ elim (Bool-cases (k.public_key ≟ key)) [
        | inl own ↦ inl (some_eq (sym (rw (e, own) at found)))
        | inr other ↦
            elim (lookup-add_public_keys k.private_key k.public_keys [] key secret
              (rw (e, other) at found)) [ inl same ↦ inl same | inr absent ↦ absurd (ground arith) ]
      ]
    ]

-- Two daemons whose key files come from the command line, with their trusted peers files loaded: a
-- message that one signs is accepted by the other only if the private key of the other gives the
-- same MAC of it, or the private key does that its trusted peers file has for the public key of
-- the signer.
pub verify-sign_keys :
    (mac : Str → Str → Str) (sender receiver : Keys) (sent_file received_file : PeersFile)
    (nonce message : Str) (sent heard : Time)
    → verify mac
        (keys_of receiver received_file)
        heard
        message
        (some (sign mac (keys_of sender sent_file) nonce sent message))
      ≡ true
    → (mac sender.private_key (nonce ++ message) ≡ mac receiver.private_key (nonce ++ message))
      ⊎ ((secret : Str) × (file_entry sender.public_key received_file ≡ some secret)
          × (mac sender.private_key (nonce ++ message) ≡ mac secret (nonce ++ message)))
unfolding sign
verify-sign_keys mac sender receiver sent_file received_file nonce message sent heard h =
    let (secret, known, signed, timely) = verify_sound mac _ heard message _ h in
    let (id, own) = identity-keys_of sender sent_file in
    let made : mac sender.private_key (nonce ++ message) ≡ mac secret (nonce ++ message) =
      subst (λ s. mac s (nonce ++ message) ≡ mac secret (nonce ++ message)) own signed in
    elim (secret-keys_of receiver received_file sender.public_key secret (
      subst (λ n. lookup n (keys_of receiver received_file).trusted_peers ≡ some secret) id
        known)) [
          | inl same ↦ inl (made ∙ ap (λ s. mac s (nonce ++ message)) same)
          | inr e ↦ inr (secret, e, made)
        ]
