-- ===== src/Store/Refined.antt =====
-- The record store (internal/daemon/store.go) against Store.Abstract.
use mathlib.Core.Option
use disco.Base.{
  Str, Str_eq, str_eq_iff, true, false, none, some, ◌≡◌, ◌⊎◌, refl, sym, ◌∙◌, ap, subst, arith,
  retain, not, ◌≟◌, if◌then◌else◌, Option-cases, Bool-cases, inl, inr,
}
use disco.Clock.{Time}
use disco.Dict.{lookup, has_key}
use disco.Dict.Laws.{lookup-insert, lookup-delete, lookup-update_all}
use disco.Health.{update_record_status, is_static_host}
use disco.Nss.{Record}
use disco.Store.{
  RecordStore, get, resolve, add_or_update, stored_record, kept_aliases, list_all, mark_lost,
  forget, delete_host, lost_record, cleanup_expired_records,
}
use disco.Store.Abstract.{Names, named, freed, answer, survives, kept, apply}
use disco.Store.Aliases.{lookup-index_aliases, lookup-remove_aliases_for_host}
use disco.Store.Cleanup.{cleanup-exact, surviving, expired}
use disco.Store.Steps.{Step, step}
use disco.Store.Valid.{IsValid, Fits, Live}

-- The two functions are the lookups in the two maps.
pub record Shows (s : RecordStore) (v : Names) : Type 0 where
  pub hosts : (k : Str) → lookup k s.records ≡ v.host k
  pub aliases : (a : Str) → lookup a s.alias_index ≡ v.alias a

module _ (s : RecordStore) (v : Names) (valid : IsValid s) (shows : Shows s v) where
  Shows-list_all :
      (now : Time) → Shows (list_all now s).0 (apply s.health s.ttl (Step.listed now) v)
  unfolding list_all
  Shows-list_all now = record {
    hosts = λ k. rw (lookup-update_all, shows.hosts k) refl;
    aliases = shows.aliases;
  }

  -- What stands under a hostname: a static record if the host is static, else no static one.
  at_host :
      (host : Str)
      → ((is_static_host s.health host ≡ true)
          × ((r : Record) × (lookup host s.records ≡ some r) × (r.is_static ≡ true)))
        ⊎ ((is_static_host s.health host ≡ false)
            × ((lookup host s.records ≡ none)
                ⊎ ((r : Record) × (lookup host s.records ≡ some r) × (r.is_static ≡ false))))
  at_host host = elim (Option-cases (lookup host s.records)) [
    | inl e ↦ inr (subst (Fits host (is_static_host s.health host)) e (valid.fitting host), inl e)
    | inr (r, e) ↦
        let fits : Fits host (is_static_host s.health host) (some r) =
          subst (Fits host (is_static_host s.health host)) e (valid.fitting host) in
        elim (Bool-cases (is_static_host s.health host)) [
          | inl st ↦ inl (st, (r, e, fits.1 ∙ st))
          | inr dynamic ↦ inr (dynamic, inr (r, e, fits.1 ∙ dynamic))
        ]
  ]

  -- No alias stands for a host that is not there.
  freed-absent :
      (host a : Str) → lookup host s.records ≡ none → freed host v.alias a ≡ lookup a s.alias_index
  freed-absent host a e = elim (Option-cases (lookup a s.alias_index)) [
    | inl f ↦ rw (← shows.aliases a, f) refl
    | inr (h, f) ↦
        let held : has_key h s.records ≡ true = subst (Live s.records) f (valid.live a) in
        rw (← shows.aliases a, f) (ground (arith, str_eq_iff h host, ap (λ k. lookup k s.records)))
  ]

  lookup-kept_aliases : (host a : Str) → lookup a (kept_aliases s host) ≡ freed host v.alias a
  unfolding kept_aliases
  lookup-kept_aliases host a = elim (Option-cases (lookup host s.records)) [
    | inl e ↦ rw (e, kept_aliases) (sym (freed-absent host a e))
    | inr (r, e) ↦
        rw (e, kept_aliases)
          (rw (lookup-remove_aliases_for_host, valid.unique_aliases, shows.aliases a) refl)
  ]

  absent :
      (host k : Str)
      → lookup host s.records ≡ none
      → lookup k s.records ≡ (if host ≟ k then none else lookup k s.records)
  absent host k e = ground (arith, str_eq_iff host k, ap (λ j. lookup j s.records))

  marked_absent :
      (host k : Str)
      → lookup host s.records ≡ none
      → lookup k s.records
        ≡ (if host ≟ k then Option.map lost_record (lookup k s.records) else lookup k s.records)
  marked_absent host k e = ground (arith, str_eq_iff host k, ap (λ j. lookup j s.records))

  surviving-survives :
      (now : Time) (k : Str)
      → surviving s.health now (lookup k s.records)
        ≡ Option.map
            (update_record_status s.health now)
            (retain (survives s.health s.ttl now) (v.host k))
  surviving-survives now k = rw (← shows.hosts k) (elim (Option-cases (lookup k s.records)) [
    | inl e ↦ rw e refl
    | inr (r, e) ↦ rw e (ground arith)
  ])

  expired-kept :
      (now : Time) (a : Str)
      → retain (λ h. not (expired s.health now s.records h)) (lookup a s.alias_index)
        ≡ retain (kept s.health s.ttl now v) (v.alias a)
  expired-kept now a = rw (← shows.aliases a) (elim (Option-cases (lookup a s.alias_index)) [
    | inl e ↦ rw e refl
    | inr (h, e) ↦ rw e (elim (Option-cases (lookup h s.records)) [
      | inl f ↦ ground (arith, f, shows.hosts h)
      | inr (r, f) ↦ ground (arith, f, shows.hosts h)
    ])
  ])

  Shows-forget :
      (hostname : Str)
      → Shows (forget hostname s) (apply s.health s.ttl (Step.forgotten hostname) v)
  unfolding forget delete_host
  Shows-forget host = elim (at_host host) [
    | inl (st, (r, e, static)) ↦ rw (e, forget, st, static) shows
    | inr (dynamic, inl e) ↦
        rw (e, forget, dynamic)
          (record {
            hosts = λ k. absent host k e ∙ rw (shows.hosts k) refl;
            aliases = λ a. sym (freed-absent host a e);
          })
    | inr (dynamic, inr (r, e, stays)) ↦
        rw (e, forget, dynamic, stays)
          (record {
            hosts = λ k. rw (lookup-delete, shows.hosts k) refl;
            aliases = λ a.
                rw (lookup-remove_aliases_for_host, valid.unique_aliases, shows.aliases a) refl;
          })
  ]

  Shows-mark_lost :
      (hostname : Str)
      → Shows (mark_lost hostname s) (apply s.health s.ttl (Step.marked hostname) v)
  unfolding mark_lost
  Shows-mark_lost host = elim (at_host host) [
    | inl (st, (r, e, static)) ↦ rw (e, mark_lost, st, static) shows
    | inr (dynamic, inl e) ↦
        rw (e, mark_lost, dynamic)
          (record {
            hosts = λ k. marked_absent host k e ∙ rw (shows.hosts k) refl;
            aliases = shows.aliases;
          })
    | inr (dynamic, inr (r, e, stays)) ↦
        rw (e, mark_lost, dynamic)
          (simp stays (record {
            hosts = λ k.
                rw (lookup-insert, ← shows.hosts k)
                  (ground (arith, e, str_eq_iff host k, ap (λ j. lookup j s.records)));
            aliases = shows.aliases;
          }))
  ]

  Shows-add_or_update :
      (now : Time) (r : Record)
      → Shows (add_or_update now r s) (apply s.health s.ttl (Step.announced now r) v)
  unfolding add_or_update stored_record
  Shows-add_or_update now r = elim (Bool-cases (is_static_host s.health r.hostname)) [
    | inl st ↦ rw st shows
    | inr dynamic ↦ rw dynamic (record {
      hosts = λ k. rw (lookup-insert, shows.hosts r.hostname, shows.hosts k) refl;
      aliases = λ a. rw (lookup-index_aliases, lookup-kept_aliases r.hostname a) refl;
    })
  ]

  Shows-cleanup :
      (now : Time)
      → Shows (cleanup_expired_records now s) (apply s.health s.ttl (Step.ticked now) v)
  Shows-cleanup now =
      let (left, gone) = cleanup-exact s now valid.unique_records valid.unique_aliases in
      record {
        hosts = λ k. left k ∙ surviving-survives now k;
        aliases = λ a. gone a ∙ expired-kept now a;
      }

  pub Shows-step : (x : Step) → Shows (step x s) (apply s.health s.ttl x v)
  unfolding step
  Shows-step (Step.announced now r) = Shows-add_or_update now r
  Shows-step (Step.listed now) = Shows-list_all now
  Shows-step (Step.marked host) = Shows-mark_lost host
  Shows-step (Step.forgotten host) = Shows-forget host
  Shows-step (Step.ticked now) = Shows-cleanup now

  resolve-named : (name : Str) → resolve s name ≡ named v name
  unfolding resolve
  resolve-named name = elim (Option-cases (v.host name)) [
    | inr (r, e) ↦ rw (e, named) (rw (shows.hosts name ∙ e, resolve) refl)
    | inl e ↦
        rw (e, named)
          (rw (shows.hosts name ∙ e, resolve)
            (elim (Option-cases (v.alias name)) [
              | inl f ↦ ground (arith, f, shows.aliases name)
              | inr (h, f) ↦ ground (arith, f, shows.aliases name, shows.hosts h)
            ]))
  ]

  pub get-answer : (now : Time) (name : Str) → get s now name ≡ answer s.health s.ttl now name v
  unfolding get
  get-answer now name = rw (← resolve-named name) (elim (Option-cases (resolve s name)) [
    | inl e ↦ rw (e, get) refl
    | inr (r, e) ↦ rw (e, get) (ground arith)
  ])

pub step-kept :
    (x : Step) (s : RecordStore) → ((step x s).health ≡ s.health) × ((step x s).ttl ≡ s.ttl)
unfolding step add_or_update list_all mark_lost forget delete_host cleanup_expired_records
step-kept (Step.announced now r) s = ground arith
step-kept (Step.listed now) s = (refl, refl)
step-kept (Step.marked host) s = ground arith
step-kept (Step.forgotten host) s = ground arith
step-kept (Step.ticked now) s = (refl, refl)
