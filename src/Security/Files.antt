-- ===== src/Security/Files.antt =====
-- The key manager and its keys file: what is saved is loaded again.
use mathlib.Core.Option
use disco.Base.{Str, Str_eq, [], ◌∷◌, ◌≡◌, refl, ◌∙◌, or_else, is_empty, false}
use disco.Dict.{Dict, lookup, IsUnique}
use disco.Dict.Laws.{lookup-insert_step, map_or_none}
use disco.Security.{KeyManager, parse_keys, saved_keys, fresh_manager, add_peers}

lookup-add_peers :
    (k : Str) (peers m : Dict Str Str)
    → IsUnique peers
    → lookup k (add_peers peers m) ≡ or_else (Option.map (λ v. v) (lookup k peers)) (lookup k m)
unfolding add_peers
lookup-add_peers k [] m u = unfold lookup in refl
lookup-add_peers k ((node_id, secret) ∷ rest) m u =
    lookup-add_peers k rest _ u.1 ∙ lookup-insert_step (λ h v. v) k node_id secret rest m u.0

-- What SaveKeys writes, parsed by a fresh manager, gives the secret, the identity and the trust in
-- every peer again, if there is a shared secret.
pub parse_keys-saved_keys :
    (km : KeyManager)
    → IsUnique km.trusted_peers
    → is_empty km.shared_secret ≡ false
    → ((parse_keys (saved_keys km) fresh_manager).shared_secret ≡ km.shared_secret)
      × ((parse_keys (saved_keys km) fresh_manager).node_id ≡ km.node_id)
      × ((k : Str)
          → lookup k (parse_keys (saved_keys km) fresh_manager).trusted_peers
            ≡ lookup k km.trusted_peers)
unfolding parse_keys saved_keys lookup
parse_keys-saved_keys km u h =
    rw h (refl, refl, λ k. lookup-add_peers k km.trusted_peers [] u ∙ map_or_none _)
