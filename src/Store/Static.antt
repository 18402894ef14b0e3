-- ===== src/Store/Static.antt =====
-- Static hosts: what the configuration says of them outlives every step.
use mathlib.Core.Option
use disco.Base.{
  Str, Str_eq, str_eq_iff, Bool, true, false, List, [], ◌∷◌, Option, none, some, ◌≡◌, arith, ◌≟◌,
  Option-cases, Bool-cases, inl, inr, subst, sym, ◌∙◌, refl,
}
use disco.Clock.{Time}
use disco.Dict.{Dict, lookup}
use disco.Dict.Laws.{lookup-insert, lookup-delete, lookup-update_all}
use disco.Health.{HealthTracker, update_record_status, should_expire, is_static_host}
use disco.Nss.{Record}
use disco.Store.{
  RecordStore, add_or_update, list_all, mark_lost, forget, delete_host, cleanup_expired_records,
  get, is_lost,
}
use disco.Store.Cleanup.{surviving, lookup-sweep}
use disco.Store.Invariant.{step-IsValid}
use disco.Store.Valid.{IsValid, Fits}
use disco.Store.Steps.{Step, step, run}

module _ (addresses : List Str) (services : Dict Str Str) where
  -- A static record with these addresses and services.
  abbrev pub Serves : Option Record → Type 0
  Serves none = ⊥
  Serves (some r) = (r.addresses ≡ addresses) × (r.services ≡ services) × (r.is_static ≡ true)

  flag-Serves : (k : Str) (flag : Bool) (o : Option Record) → Fits k flag o → Serves o → flag ≡ true
  flag-Serves k flag none f h = absurd h
  flag-Serves k flag (some r) f h = sym f.1 ∙ h.2

  Serves-update :
      (ht : HealthTracker) (now : Time) (o : Option Record)
      → Serves o
      → Serves (Option.map (update_record_status ht now) o)
  unfolding update_record_status
  Serves-update ht now none h = h
  Serves-update ht now (some r) h = h

  Serves-surviving :
      (ht : HealthTracker) (now : Time) (o : Option Record) → Serves o → Serves (surviving ht now o)
  unfolding should_expire update_record_status
  Serves-surviving ht now none h = h
  Serves-surviving ht now (some r) h = ground arith

  module _ (s : RecordStore) (v : IsValid s) (k : Str) (h : Serves (lookup k s.records)) where
    announced-Serves : (now : Time) (r : Record) → Serves (lookup k (add_or_update now r s).records)
    unfolding add_or_update
    announced-Serves now r = elim (Bool-cases (is_static_host s.health r.hostname)) [
      | inl st ↦ rw st h
      | inr dynamic ↦ rw dynamic (
          rw lookup-insert (elim (Bool-cases (r.hostname ≟ k)) [
            | inl same ↦
                absurd (ground (arith, str_eq_iff r.hostname k, flag-Serves k _ _ (v.fitting k) h))
            | inr other ↦ rw other h
          ]))
    ]

    -- At a host whose record is not static a step changes nothing under a static name.
    other_host :
        (host : Str) (r : Record)
        → lookup host s.records ≡ some r
        → r.is_static ≡ false
        → (host ≟ k) ≡ false
    other_host host r e dynamic = elim (Bool-cases (host ≟ k)) [
      | inl same ↦ absurd (
          let at_host : Serves (some r) =
            subst Serves e
              (subst (λ x. Serves (lookup x s.records)) (sym ((str_eq_iff host k).0 same)) h) in
          ground arith)
      | inr other ↦ other
    ]

    marked-Serves : (host : Str) → Serves (lookup k (mark_lost host s).records)
    unfolding mark_lost
    marked-Serves host = elim (Option-cases (lookup host s.records)) [
      | inl e ↦ rw (e, mark_lost) h
      | inr (r, e) ↦ elim (Bool-cases r.is_static) [
        | inl st ↦ rw (e, mark_lost) (simp st h)
        | inr dynamic ↦
            rw (e, mark_lost) (simp dynamic (rw (lookup-insert, other_host host r e dynamic) h))
      ]
    ]

    forgotten-Serves : (host : Str) → Serves (lookup k (forget host s).records)
    unfolding forget delete_host
    forgotten-Serves host = elim (Option-cases (lookup host s.records)) [
      | inl e ↦ rw (e, forget) h
      | inr (r, e) ↦ elim (Bool-cases r.is_static) [
        | inl st ↦ rw (e, forget) (simp st h)
        | inr dynamic ↦
            rw (e, forget) (simp dynamic (rw (lookup-delete, other_host host r e dynamic) h))
      ]
    ]

  step-Serves :
      (x : Step) (s : RecordStore) (k : Str)
      → IsValid s
      → Serves (lookup k s.records)
      → Serves (lookup k (step x s).records)
  unfolding step list_all cleanup_expired_records
  step-Serves (Step.announced now r) s k v h = announced-Serves s v k h now r
  step-Serves (Step.listed now) s k v h = rw lookup-update_all (Serves-update s.health now _ h)
  step-Serves (Step.marked host) s k v h = marked-Serves s v k h host
  step-Serves (Step.forgotten host) s k v h = forgotten-Serves s v k h host
  step-Serves (Step.ticked now) s k v h =
      rw (lookup-sweep s.health now k s.records s.alias_index v.unique_records)
        (Serves-surviving s.health now _ h)

  pub run-Serves :
      (xs : List Step) (s : RecordStore) (k : Str)
      → IsValid s
      → Serves (lookup k s.records)
      → Serves (lookup k (run xs s).records)
  unfolding run
  run-Serves [] s k v h = h
  run-Serves (x ∷ xs) s k v h =
      run-Serves xs (step x s) k (step-IsValid x s v) (step-Serves x s k v h)

  -- `Get` answers with a static record at every instant.
  pub get-Serves :
      (s : RecordStore) (now : Time) (k : Str) → Serves (lookup k s.records) → Serves (get s now k)
  unfolding get is_lost
  get-Serves s now k h = elim (Option-cases (lookup k s.records)) [
    | inl e ↦ absurd (subst Serves e h)
    | inr (r, e) ↦
        let (same_addresses, same_services, st) = subst Serves e h in
        rw (e, get) (simp st (same_addresses, same_services, refl))
  ]
