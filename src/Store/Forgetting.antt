-- ===== src/Store/Forgetting.antt =====
-- What a forget leaves of a host.
use disco.Base.{
  Str, Str_eq, false, none, some, ◌≡◌, ◌≢◌, refl, arith, ◌∙◌, sym, Option-cases, Bool-cases, inl,
  inr, subst, beq_refl, ap,
}
use disco.Clock.{Time}
use disco.Dict.{lookup}
use disco.Dict.Laws.{lookup-delete}
use disco.Nss.{Record}
use disco.Health.{is_static_host}
use disco.Store.{RecordStore, resolve, get, is_lost, forget, delete_host}
use disco.Store.Steps.{Step, step}
use disco.Store.Invariant.{step-IsValid}
use disco.Store.Valid.{IsValid, Fits}

forget-absent :
    (s : RecordStore) (host : Str)
    → IsValid s
    → is_static_host s.health host ≡ false
    → lookup host (forget host s).records ≡ none
unfolding forget delete_host
forget-absent s host v d = elim (Option-cases (lookup host s.records)) [
  | inl e ↦ rw (e, forget) e
  | inr (r, e) ↦
      let fits : Fits host (is_static_host s.health host) (some r) =
        subst (Fits host (is_static_host s.health host)) e (v.fitting host) in
      rw (e, forget) (rw (fits.1 ∙ d) (rw (lookup-delete host host s.records, beq_refl host) refl))
]

kept_under :
    (s : RecordStore) (k : Str) (r : Record)
    → IsValid s
    → lookup k s.records ≡ some r
    → lookup r.hostname s.records ≡ some r
kept_under s k r v h =
    let fits : Fits k (is_static_host s.health k) (some r) =
      subst (Fits k (is_static_host s.health k)) h (v.fitting k) in
    ap (λ j. lookup j s.records) fits.0 ∙ h

-- What a name resolves to is the record of the host under which it is kept.
resolved_kept :
    (s : RecordStore) (name : Str) (r : Record)
    → IsValid s
    → resolve s name ≡ some r
    → lookup r.hostname s.records ≡ some r
unfolding resolve
resolved_kept s name r v h = elim (Option-cases (lookup name s.records)) [
  | inr (q, e) ↦
      let same : resolve s name ≡ some q = rw (e, resolve) refl in
      kept_under s name r v (e ∙ sym same ∙ h)
  | inl e ↦ elim (Option-cases (lookup name s.alias_index)) [
    | inl f ↦ let same : resolve s name ≡ none = rw (e, resolve, f) refl in absurd (ground arith)
    | inr (canonical, f) ↦
        let same : resolve s name ≡ lookup canonical s.records = rw (e, resolve, f) refl in
        kept_under s canonical r v (sym same ∙ h)
  ]
]

get-resolve :
    (s : RecordStore) (now : Time) (name : Str) (r : Record)
    → get s now name ≡ some r
    → resolve s name ≡ some r
unfolding get
get-resolve s now name r h = elim (Option-cases (resolve s name)) [
  | inl e ↦ let same : get s now name ≡ none = rw (e, get) refl in absurd (ground arith)
  | inr (q, e) ↦ elim (Bool-cases (is_lost s.health now q)) [
    | inl g ↦ let same : get s now name ≡ none = rw (e, get, g) refl in absurd (ground arith)
    | inr g ↦ let same : get s now name ≡ some q = rw (e, get, g) refl in e ∙ sym same ∙ h
  ]
]

-- After HOSTS_FORGET of a host that is not static, no name answers with the host, by its hostname
-- or by an alias, if the store was well formed.
pub get-forget :
    (s : RecordStore) (now : Time) (host name : Str) (r : Record)
    → IsValid s
    → is_static_host s.health host ≡ false
    → get (forget host s) now name ≡ some r
    → r.hostname ≢ host
unfolding step
get-forget s now host name r v d h same =
    let kept =
      resolved_kept (forget host s) name r (step-IsValid (Step.forgotten host) s v)
        (get-resolve (forget host s) now name r h) in
    let gone : lookup r.hostname (forget host s).records ≡ none =
      ap (λ k. lookup k (forget host s).records) same ∙ forget-absent s host v d in
    absurd (ground arith)
