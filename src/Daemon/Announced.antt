-- ===== src/Daemon/Announced.antt =====
-- What an announcement leaves in the store.
use disco.Base.{
  Str, Str_eq, Bool, true, false, List, [], ◌∷◌, ◌++◌, Option, none, some, ◌≡◌, refl, arith, any,
  ◌≟◌, Bool-cases, inl, inr, ◌||◌, str_eq_iff, subst, ◌⊎◌, ltb_ℤ, ◌∙◌,
}
use disco.Clock.{Time, sub_time, unix_time}
use disco.Dict.{lookup}
use disco.Nss.{Record}
use disco.Health.{is_static_host, update_record_status}
use disco.Store.{RecordStore, get, stored_record}
use disco.Store.Reads.{get-announced, NamesHost}
use disco.Discovery.{ServiceInfo, BroadcastMessage}
use disco.Daemon.{add_aliases, message_aliases, message_record, handle_discovery_message}

-- No text stands twice.
abbrev pub Distinct : List Str → Type 0
Distinct [] = Unit
Distinct (x ∷ xs) = (any (λ a. a ≟ x) xs ≡ false) × Distinct xs

any-append : (p : Str → Bool) (xs ys : List Str) → any p (xs ++ ys) ≡ (any p xs || any p ys)
any-append p [] ys = refl
any-append p (x ∷ xs) ys = ground (arith, any-append p xs ys)

Distinct-append :
    (xs : List Str) (x : Str) → any (λ a. a ≟ x) xs ≡ false → Distinct xs → Distinct (xs ++ x ∷ [])
Distinct-append [] x h d = (refl, tt)
Distinct-append (y ∷ ys) x h d = ground (
  arith,
  Distinct-append ys x,
  any-append (λ a. a ≟ y) ys (x ∷ []),
  str_eq_iff x y,
  str_eq_iff y x,
)

add_aliases-Distinct : (seen xs : List Str) → Distinct seen → Distinct (add_aliases seen xs)
unfolding add_aliases
add_aliases-Distinct seen [] d = d
add_aliases-Distinct seen (x ∷ xs) d = elim (Bool-cases (any (λ a. a ≟ x) seen)) [
  | inl h ↦ rw h (add_aliases-Distinct seen xs d)
  | inr h ↦ rw h (add_aliases-Distinct (seen ++ x ∷ []) xs (Distinct-append seen x h d))
]

-- The aliases of all the services, in order, with repetitions.
abbrev pub all_aliases : List ServiceInfo → List Str
all_aliases [] = []
all_aliases (svc ∷ rest) = svc.aliases ++ all_aliases rest

-- An alias that is met again changes nothing.
already :
    (name x : Str) (seen xs : List Str)
    → any (λ a. a ≟ x) seen ≡ true
    → (any (λ a. a ≟ name) seen || any (λ a. a ≟ name) xs)
      ≡ (any (λ a. a ≟ name) seen || any (λ a. a ≟ name) (x ∷ xs))
already name x seen xs h = elim (Bool-cases (x ≟ name)) [
  | inl e ↦
      let there : any (λ a. a ≟ name) seen ≡ true =
        subst (λ n. any (λ a. a ≟ n) seen ≡ true) ((str_eq_iff x name).0 e) h in
      ground arith
  | inr e ↦ ground arith
]

any-add_aliases :
    (name : Str) (seen xs : List Str)
    → any (λ a. a ≟ name) (add_aliases seen xs)
      ≡ (any (λ a. a ≟ name) seen || any (λ a. a ≟ name) xs)
unfolding add_aliases
any-add_aliases name seen [] = ground arith
any-add_aliases name seen (x ∷ xs) = elim (Bool-cases (any (λ a. a ≟ x) seen)) [
  | inl h ↦ rw (h, any-add_aliases name seen xs) (already name x seen xs h)
  | inr h ↦
      rw (h, any-add_aliases name (seen ++ x ∷ []) xs, any-append _ seen (x ∷ [])) (ground arith)
]

any-message_aliases :
    (name : Str) (seen : List Str) (xs : List ServiceInfo)
    → any (λ a. a ≟ name) (message_aliases seen xs)
      ≡ (any (λ a. a ≟ name) seen || any (λ a. a ≟ name) (all_aliases xs))
unfolding message_aliases
any-message_aliases name seen [] = ground arith
any-message_aliases name seen (svc ∷ rest) =
    rw
      (
        any-message_aliases name (add_aliases seen svc.aliases) rest,
        any-add_aliases name seen svc.aliases,
        any-append (λ a. a ≟ name) svc.aliases (all_aliases rest),
      )
      (ground arith)

message_aliases-Distinct :
    (seen : List Str) (xs : List ServiceInfo) → Distinct seen → Distinct (message_aliases seen xs)
unfolding message_aliases
message_aliases-Distinct seen [] d = d
message_aliases-Distinct seen (svc ∷ rest) d =
    message_aliases-Distinct (add_aliases seen svc.aliases) rest
      (add_aliases-Distinct seen svc.aliases d)

-- The aliases of the record of an announcement are those of its services, each once.
pub message_record-aliases :
    (msg : BroadcastMessage)
    → Distinct (message_record msg).aliases
      × ((name : Str)
          → any (λ a. a ≟ name) (message_record msg).aliases
            ≡ any (λ a. a ≟ name) (all_aliases msg.services))
unfolding message_record
message_record-aliases msg =
    (message_aliases-Distinct [] msg.services tt, λ name. any-message_aliases name [] msg.services)

-- What a client is told of a record: its host and addresses.
abbrev pub told : Option Record → Option (Str × List Str)
told none = none
told (some r) = some (r.hostname, r.addresses)

-- After an announcement of a host that is not static, within the grace period, the name of the host
-- and every alias of its services that is the name of no other host answer with the host and the
-- announced addresses.
pub get-handle_discovery_message :
    (s : RecordStore) (now t : Time) (msg : BroadcastMessage) (name : Str)
    → is_static_host s.health msg.hostname ≡ false
    → ((msg.hostname ≟ name) ≡ true)
      ⊎ ((any (λ a. a ≟ name) (all_aliases msg.services) ≡ true) × (lookup name s.records ≡ none))
    → ltb_ℤ (sub_time t (unix_time now.sec)) s.health.config.grace_period ≡ true
    → told (get (handle_discovery_message now msg s) t name) ≡ some (msg.hostname, msg.ips)
unfolding handle_discovery_message stored_record message_record update_record_status
get-handle_discovery_message s now t msg name dynamic named within =
    rw (get-announced s now t (message_record msg) dynamic name (named_record named), within) refl
  where
    named_record :
        ((msg.hostname ≟ name) ≡ true)
          ⊎ ((any (λ a. a ≟ name) (all_aliases msg.services) ≡ true)
              × (lookup name s.records ≡ none))
        → NamesHost s now t (message_record msg) dynamic name
    named_record (inl h) = inl h
    named_record (inr (h, absent)) = inr ((message_record-aliases msg).1 name ∙ h, absent)
