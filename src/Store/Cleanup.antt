-- ===== src/Store/Cleanup.antt =====
-- One tick of the cleanup goroutine, read through lookups.
use disco.Base.{
  Str, Str_eq, str_eq_iff, Bool, false, [], ◌∷◌, Option, none, some, if◌then◌else◌, ◌≡◌, refl,
  arith, retain, not, Option-cases, Bool-cases, inl, inr,
}
use disco.Clock.{Time}
use disco.Dict.{Dict, lookup, IsUnique}
use disco.Health.{HealthTracker, should_expire, update_record_status}
use disco.Nss.{Record}
use disco.Store.{RecordStore, cleanup_expired_records, sweep, remove_aliases_for_host}
use disco.Store.Aliases.{lookup-remove_aliases_for_host, remove_aliases_for_host-IsUnique}

module _ (ht : HealthTracker) (now : Time) where
  abbrev pub surviving : Option Record → Option Record
  surviving none = none
  surviving (some r) = if should_expire ht now r then none else some (update_record_status ht now r)

  pub lookup-sweep :
      (k : Str) (m : Dict Str Record) (index : Dict Str Str)
      → IsUnique m
      → lookup k (sweep ht now m index).0 ≡ surviving (lookup k m)
  unfolding sweep lookup
  lookup-sweep k [] index u = refl
  lookup-sweep k ((j, r) ∷ m) index u = elim (Bool-cases (should_expire ht now r)) [
    | inl gone ↦ rw gone (
        ground
          (arith, str_eq_iff j k, gone, lookup-sweep k m (remove_aliases_for_host j index) u.1))
    | inr kept ↦ rw kept (ground (arith, str_eq_iff j k, kept, lookup-sweep k m index u.1))
  ]

  -- A name whose host is stored and expired.
  abbrev pub expired : Dict Str Record → Str → Bool
  expired m h = elim (lookup h m) [ none ↦ false | some r ↦ should_expire ht now r ]

  pub lookup-sweep_aliases :
      (a : Str) (m : Dict Str Record) (index : Dict Str Str)
      → IsUnique m
      → IsUnique index
      → lookup a (sweep ht now m index).1 ≡ retain (λ t. not (expired m t)) (lookup a index)
  unfolding sweep lookup
  lookup-sweep_aliases a [] index u v = ground arith
  lookup-sweep_aliases a ((j, r) ∷ m) index u v = elim (Bool-cases (should_expire ht now r)) [
    | inl gone ↦
        rw
          (
            gone,
            lookup-sweep_aliases a m (remove_aliases_for_host j index) u.1
                (remove_aliases_for_host-IsUnique j index v),
            lookup-remove_aliases_for_host a j index v,
          )
          (elim (Option-cases (lookup a index)) [
            | inl e ↦ rw e
            | inr (t, e) ↦ rw e (ground (arith, str_eq_iff t j, str_eq_iff j t))
          ])
    | inr kept ↦
        rw (kept, lookup-sweep_aliases a m index u.1 v)
          (elim (Option-cases (lookup a index)) [
            | inl e ↦ rw e
            | inr (t, e) ↦ rw e (ground (arith, str_eq_iff j t))
          ])
  ]

  pub sweep-IsUnique :
      (m : Dict Str Record) (index : Dict Str Str)
      → IsUnique m
      → IsUnique index
      → IsUnique (sweep ht now m index).0 × IsUnique (sweep ht now m index).1
  unfolding sweep
  sweep-IsUnique [] index u v = (tt, v)
  sweep-IsUnique ((j, r) ∷ m) index u v =
      let index' = if should_expire ht now r then remove_aliases_for_host j index else index in
      ground (
        arith,
        sweep-IsUnique m (remove_aliases_for_host j index),
        sweep-IsUnique m index,
        remove_aliases_for_host-IsUnique j index,
        lookup-sweep j m (remove_aliases_for_host j index) u.1,
        lookup-sweep j m index u.1,
      )

-- A tick of the cleanup removes exactly the records that are expired, writes the status of every
-- other one, and removes exactly the aliases of the hosts that it removes, if no key stands twice.
pub cleanup-exact :
    (s : RecordStore) (now : Time)
    → IsUnique s.records
    → IsUnique s.alias_index
    → ((k : Str)
        → lookup k (cleanup_expired_records now s).records
          ≡ surviving s.health now (lookup k s.records))
      × ((a : Str)
          → lookup a (cleanup_expired_records now s).alias_index
            ≡ retain (λ h. not (expired s.health now s.records h)) (lookup a s.alias_index))
unfolding cleanup_expired_records
cleanup-exact s now u v = (
  λ k. lookup-sweep s.health now k s.records s.alias_index u,
  λ a. lookup-sweep_aliases s.health now a s.records s.alias_index u v,
)
