-- ===== src/Store/Invariant.antt =====
-- Every step keeps the record store well formed.
use disco.Base.{
  Str, Str_eq, Bool, true, List, [], ◌∷◌, Option, none, some, ◌≡◌, arith, not, Option-cases,
  Bool-cases, inl, inr, subst, sym, ◌∙◌, beq_refl,
}
use disco.Clock.{Time}
use disco.Dict.{lookup, IsUnique, has_key}
use disco.Dict.Laws.{
  lookup-insert, insert-IsUnique, delete-IsUnique, lookup-update_all, update_all-IsUnique,
}
use disco.Health.{should_expire, update_record_status, is_static_host}
use disco.Nss.{Record}
use disco.Store.{
  RecordStore, add_or_update, stored_record, list_all, mark_lost, forget, cleanup_expired_records,
  kept_aliases, lost_record, delete_host, sweep,
}
use disco.Store.Aliases.{
  index_aliases-IsUnique, lookup-remove_aliases_for_host, remove_aliases_for_host-IsUnique,
}
use disco.Store.Cleanup.{surviving, expired, lookup-sweep, lookup-sweep_aliases, sweep-IsUnique}
use disco.Store.Steps.{Step, step, run}
use disco.Store.Valid.{
  Fits, Live, IsValid, Fits-update, Fits-lost, Live-mono, Fits-insert, has_key-insert,
  Live-index_aliases, Live-retain, has_key-delete, Fits-delete,
}

module _ (s : RecordStore) (v : IsValid s) where
  list_all-IsValid : (now : Time) → IsValid (list_all now s).0
  unfolding list_all
  list_all-IsValid now = record {
    unique_records =
        update_all-IsUnique (update_record_status s.health now) s.records v.unique_records;
    unique_aliases = v.unique_aliases;
    fitting = λ k. rw lookup-update_all (Fits-update s.health now k _ _ (v.fitting k));
    live = λ a.
        Live-mono _ _
          (λ h q. ground (arith, lookup-update_all (update_record_status s.health now) h s.records))
          _ (v.live a);
  }

  mark_lost-IsValid : (host : Str) → IsValid (mark_lost host s)
  unfolding mark_lost
  mark_lost-IsValid host = elim (Option-cases (lookup host s.records)) [
    | inl e ↦ rw (e, mark_lost) v
    | inr (r, e) ↦ elim (Bool-cases r.is_static) [
      | inl st ↦ rw (e, mark_lost) (rw st v)
      | inr dynamic ↦
          rw (e, mark_lost)
            (simp dynamic (record {
              unique_records = insert-IsUnique host (lost_record r) s.records v.unique_records;
              unique_aliases = v.unique_aliases;
              fitting = λ k.
                  Fits-insert k host _ (lost_record r) s.records
                    (λ same. Fits-lost k _ r (
                      subst (λ x. Fits x (is_static_host s.health x) (some r)) same
                        (subst (Fits host _) e (v.fitting host))))
                    (v.fitting k);
              live =
                  λ a. Live-mono _ _ (has_key-insert host (lost_record r) s.records) _ (v.live a);
            }))
    ]
  ]

  forget-IsValid : (host : Str) → IsValid (forget host s)
  unfolding forget delete_host
  forget-IsValid host = elim (Option-cases (lookup host s.records)) [
    | inl e ↦ rw (e, forget) v
    | inr (r, e) ↦
        let at_host : Fits host (is_static_host s.health host) (some r) =
          subst (Fits host _) e (v.fitting host) in
        elim (Bool-cases r.is_static) [
          | inl st ↦ rw (e, forget) (rw st v)
          | inr dynamic ↦
              rw (e, forget)
                (rw dynamic (record {
                  unique_records = delete-IsUnique host s.records v.unique_records;
                  unique_aliases =
                      remove_aliases_for_host-IsUnique host s.alias_index v.unique_aliases;
                  fitting = λ k.
                      Fits-delete k host _ s.records (λ same. rw (← same) (sym at_host.1 ∙ dynamic))
                        (v.fitting k);
                  live = λ a.
                      rw (lookup-remove_aliases_for_host, v.unique_aliases)
                        (Live-retain _ _ _ (has_key-delete s.records host) _ (v.live a));
                }))
        ]
  ]

  kept_aliases-IsUnique : (host : Str) → IsUnique (kept_aliases s host)
  unfolding kept_aliases
  kept_aliases-IsUnique host = elim (Option-cases (lookup host s.records)) [
    | inl e ↦ rw (e, kept_aliases) v.unique_aliases
    | inr (r, e) ↦
        rw (e, kept_aliases) (remove_aliases_for_host-IsUnique host s.alias_index v.unique_aliases)
  ]

  Live-kept_aliases : (host a : Str) → Live s.records (lookup a (kept_aliases s host))
  unfolding kept_aliases
  Live-kept_aliases host a = elim (Option-cases (lookup host s.records)) [
    | inl e ↦ rw (e, kept_aliases) (v.live a)
    | inr (r, e) ↦
        rw (e, kept_aliases)
          (rw (lookup-remove_aliases_for_host, v.unique_aliases)
            (Live-retain _ _ _ (λ h q e. q) _ (v.live a)))
  ]

  add_or_update-IsValid : (now : Time) (r : Record) → IsValid (add_or_update now r s)
  unfolding add_or_update stored_record update_record_status
  add_or_update-IsValid now r = elim (Bool-cases (is_static_host s.health r.hostname)) [
    | inl st ↦ rw st v
    | inr dynamic ↦ rw dynamic (record {
      unique_records = insert-IsUnique r.hostname _ s.records v.unique_records;
      unique_aliases =
          index_aliases-IsUnique r.hostname r.aliases _ (kept_aliases-IsUnique r.hostname);
      fitting = λ k.
          Fits-insert k r.hostname _ _ s.records (λ same. (same, rw (← same) (sym dynamic)))
            (v.fitting k);
      live = λ a.
          Live-index_aliases a r.hostname r.aliases _ _ (rw (lookup-insert, beq_refl r.hostname)) (
            Live-mono _ _ (has_key-insert r.hostname _ s.records) _
              (Live-kept_aliases r.hostname a));
    })
  ]

  Fits-surviving :
      (now : Time) (k : Str) (flag : Bool) (o : Option Record)
      → Fits k flag o
      → Fits k flag (surviving s.health now o)
  unfolding update_record_status should_expire
  Fits-surviving now k flag none f = f
  Fits-surviving now k flag (some r) f = ground arith

  has_key-sweep :
      (now : Time) (h : Str)
      → has_key h s.records ≡ true
      → not (expired s.health now s.records h) ≡ true
      → has_key h (sweep s.health now s.records s.alias_index).0 ≡ true
  has_key-sweep now h q e =
      rw (lookup-sweep s.health now h s.records s.alias_index v.unique_records)
        (elim (Option-cases (lookup h s.records)) [
          | inl a ↦ absurd (ground arith)
          | inr (r, a) ↦ rw a (ground arith)
        ])

  cleanup-IsValid : (now : Time) → IsValid (cleanup_expired_records now s)
  unfolding cleanup_expired_records
  cleanup-IsValid now =
      let (records, aliases) =
        sweep-IsUnique s.health now s.records s.alias_index v.unique_records v.unique_aliases in
      record {
        unique_records = records;
        unique_aliases = aliases;
        fitting = λ k.
            rw (lookup-sweep s.health now k s.records s.alias_index v.unique_records)
              (Fits-surviving now k _ _ (v.fitting k));
        live = λ a.
            rw
              (lookup-sweep_aliases s.health now a s.records s.alias_index v.unique_records
                v.unique_aliases)
              (Live-retain _ _ _ (has_key-sweep now) _ (v.live a));
      }

-- Every step keeps the store well formed: no key twice, each record under its own hostname, no
-- alias for a host that is gone, and the static records are exactly those of the static hosts.
pub step-IsValid : (x : Step) (s : RecordStore) → IsValid s → IsValid (step x s)
unfolding step
step-IsValid (Step.announced now r) s v = add_or_update-IsValid s v now r
step-IsValid (Step.listed now) s v = list_all-IsValid s v now
step-IsValid (Step.marked host) s v = mark_lost-IsValid s v host
step-IsValid (Step.forgotten host) s v = forget-IsValid s v host
step-IsValid (Step.ticked now) s v = cleanup-IsValid s v now

pub run-IsValid : (xs : List Step) (s : RecordStore) → IsValid s → IsValid (run xs s)
unfolding run
run-IsValid [] s v = v
run-IsValid (x ∷ xs) s v = run-IsValid xs (step x s) (step-IsValid x s v)
