-- ===== src/Store/Reads.antt =====
-- What the read methods of the record store answer.
use disco.Base.{
  Str, Str_eq, Bool, true, false, not, ◌||◌, ◌⊎◌, none, some, ◌≡◌, arith, ◌≟◌, In, find-In, In-find,
  if◌then◌else◌, ltb_ℤ, any, beq_refl, Bool-cases, inl, inr,
}
use disco.Clock.{Time, sub_time, unix_time}
use disco.Dict.{lookup, values}
use disco.Dict.Laws.{lookup-insert}
use disco.Health.{compute_status, is_static_host, update_record_status, age}
use disco.Nss.{Record}
use disco.Store.{
  RecordStore, get, resolve, get_by_addr, is_lost, has_address, add_or_update, stored_record,
}
use disco.Store.Aliases.{lookup-index_aliases}

get_by_addr_sound :
    (s : RecordStore) (now : Time) (addr : Str) {r : Record}
    → get_by_addr s now addr ≡ some r
    → In r (values s.records) × (has_address addr r ≡ true) × (is_lost s.health now r ≡ false)
unfolding get_by_addr
get_by_addr_sound s now addr {r} h =
    let (place, passes) = find-In _ (values s.records) h in (place, ground arith, ground arith)

get_by_addr_complete :
    (s : RecordStore) (now : Time) (addr : Str) {r : Record}
    → In r (values s.records)
    → has_address addr r ≡ true
    → is_lost s.health now r ≡ false
    → (q : Record) × (get_by_addr s now addr ≡ some q)
unfolding get_by_addr
get_by_addr_complete s now addr {r} i held seen = In-find _ (values s.records) i (ground arith)

-- `GetByAddr` answers only with a stored record that has the address and is not lost, and it does
-- answer whenever there is one, in whatever order the map is met.
pub get_by_addr-exact :
    (s : RecordStore) (now : Time) (addr : Str)
    → ((r : Record)
        → get_by_addr s now addr ≡ some r
        → In r (values s.records) × (has_address addr r ≡ true) × (is_lost s.health now r ≡ false))
      × ((r : Record)
          → In r (values s.records)
          → has_address addr r ≡ true
          → is_lost s.health now r ≡ false
          → (q : Record) × (get_by_addr s now addr ≡ some q))
get_by_addr-exact s now addr =
    (λ r. get_by_addr_sound s now addr, λ r. get_by_addr_complete s now addr)

-- The stored record of an announcement is lost exactly when both limits are past.
stored_is_lost :
    (s : RecordStore) (now t : Time) (r : Record)
    → is_lost s.health t (stored_record s now r)
      ≡ not (
          ltb_ℤ (sub_time t (unix_time now.sec)) s.health.config.grace_period
          || ltb_ℤ (sub_time t (unix_time now.sec)) s.health.config.expire_after)
unfolding is_lost stored_record compute_status update_record_status age
stored_is_lost s now t r = ground arith

module _ (s : RecordStore) (now t : Time) (r : Record)
    (dynamic : is_static_host s.health r.hostname ≡ false) where
  -- Still within the grace period or the expiry of an announcement heard at `now`.
  abbrev pub is_fresh : Bool
  is_fresh =
      ltb_ℤ (sub_time t (unix_time now.sec)) s.health.config.grace_period
      || ltb_ℤ (sub_time t (unix_time now.sec)) s.health.config.expire_after

  -- The name is the host's own, or one of its aliases and the name of no other host.
  abbrev pub NamesHost : Str → Type 0
  NamesHost name =
      ((r.hostname ≟ name) ≡ true)
      ⊎ ((any (λ a. a ≟ name) r.aliases ≡ true) × (lookup name s.records ≡ none))

  lookup-announced :
      (k : Str)
      → lookup k (add_or_update now r s).records
        ≡ (if r.hostname ≟ k then some (stored_record s now r) else lookup k s.records)
  unfolding add_or_update
  lookup-announced k = rw (dynamic, lookup-insert)

  lookup-announced_alias :
      (a : Str)
      → any (λ x. x ≟ a) r.aliases ≡ true
      → lookup a (add_or_update now r s).alias_index ≡ some r.hostname
  unfolding add_or_update
  lookup-announced_alias a h = rw (dynamic, lookup-index_aliases, h)

  resolve-announced :
      (name : Str)
      → NamesHost name
      → resolve (add_or_update now r s) name ≡ some (stored_record s now r)
  unfolding resolve
  resolve-announced name (inl own) = rw (lookup-announced name, own, resolve)
  resolve-announced name (inr (alias, free)) = elim (Bool-cases (r.hostname ≟ name)) [
    | inl own ↦ rw (lookup-announced name, own, resolve)
    | inr other ↦
        rw (lookup-announced name, other, free, resolve)
          (rw (lookup-announced_alias name alias, resolve)
            (rw (lookup-announced r.hostname, beq_refl r.hostname)))
  ]

  -- After an announcement of a host that is not static, its name and its aliases answer with the
  -- stored record until both the grace period and the expiry are past, and with nothing from then.
  pub get-announced :
      (name : Str)
      → NamesHost name
      → get (add_or_update now r s) t name
        ≡ (if is_fresh then some (stored_record s now r) else none)
  unfolding get add_or_update
  get-announced name h =
      rw (resolve-announced name h, get) (rw (dynamic, stored_is_lost s now t r) (ground arith))
