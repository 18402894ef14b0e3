-- ===== src/Daemon/Trust.antt =====
-- Whom the daemon trusts once the trusted peers file is loaded.
use disco.Base.{
  Str, Str_eq, Bool, ◌||◌, not, List, [], ◌∷◌, Option, none, some, ◌≡◌, refl, arith, is_empty,
  or_else, if◌then◌else◌, ◌≟◌, Bool-cases, inl, inr,
}
use disco.Dict.{lookup}
use disco.Dict.Laws.{lookup-insert}
use disco.Security.{KeyManager, add_trusted_peer}
use disco.Daemon.{PeerEntry, add_entries, entries, load_trusted_peers}

-- The entry has a hostname and both keys.
abbrev pub is_complete : PeerEntry → Bool
is_complete p = not (is_empty p.hostname || is_empty p.public_key || is_empty p.private_key)

-- The secret of the last complete entry for the key.
abbrev pub last_entry : Str → List PeerEntry → Option Str
last_entry k [] = none
last_entry k (p ∷ rest) =
    or_else (last_entry k rest)
      (if is_complete p then (if p.public_key ≟ k then some p.private_key else none) else none)

lookup-add_entries :
    (k : Str) (ps : List PeerEntry) (km : KeyManager)
    → lookup k (add_entries ps km).trusted_peers
      ≡ or_else (last_entry k ps) (lookup k km.trusted_peers)
unfolding add_entries add_trusted_peer
lookup-add_entries k [] km = refl
lookup-add_entries k (p ∷ rest) km =
    elim (Bool-cases (is_empty p.hostname || is_empty p.public_key || is_empty p.private_key)) [
      | inl e ↦ rw (e, lookup-add_entries k rest km) (ground arith)
      | inr e ↦
          rw
            (
              e,
              lookup-add_entries k rest (add_trusted_peer p.public_key p.private_key km),
              lookup-insert p.public_key k p.private_key km.trusted_peers,
            )
            (ground arith)
    ]

-- With the trusted peers file loaded, a key is trusted with the secret of its last complete entry;
-- without one the own id is trusted with the own secret, and every other key as before.
pub lookup-load_trusted_peers :
    (k : Str) (ps : List PeerEntry) (km : KeyManager)
    → lookup k (load_trusted_peers (entries ps) km).0.trusted_peers
      ≡ or_else
          (last_entry k ps)
          (if km.node_id ≟ k then some km.shared_secret else lookup k km.trusted_peers)
unfolding load_trusted_peers add_trusted_peer
lookup-load_trusted_peers k ps km =
    rw (lookup-add_entries k ps _, lookup-insert km.node_id k km.shared_secret km.trusted_peers)
      refl
