-- ===== src/Store/View.antt =====
-- The record store (internal/daemon/store.go) up to the layout of its two maps: stores of one
-- configuration with the same lookups are one view.
use mathlib.Core.Quot
use mathlib.Core.Quot.{Quot, Quot-set}
use disco.Base.{Str, Str_eq, List, [], ◌∷◌, Option, ◌≡◌, refl, sym, ap, ◌∙◌}
use disco.Clock.{Time}
use disco.Dict.{lookup}
use disco.Nss.{Record, HostStatus}
use disco.Store.{RecordStore, get}
use disco.Store.Abstract.{Names, answer, apply}
use disco.Store.Invariant.{step-IsValid}
use disco.Store.Refined.{Shows, Shows-step, step-kept, get-answer}
use disco.Store.Steps.{Step, step, run}
use disco.Store.Valid.{IsValid}

HostStatus-set : IsSet HostStatus
HostStatus-set = hlevel

pub Record-set : IsSet (Option Record)
Record-set = hlevel HostStatus-set

-- A well-formed store.
abbrev pub ValidStore : Type 0
ValidStore = (s : RecordStore) × IsValid s

-- The same configuration, and the same entry under each key of either map.
pub record SameView (p q : ValidStore) : Type 0 where
  pub health : p.0.health ≡ q.0.health
  pub ttl : p.0.ttl ≡ q.0.ttl
  pub hosts : (k : Str) → lookup k p.0.records ≡ lookup k q.0.records
  pub aliases : (a : Str) → lookup a p.0.alias_index ≡ lookup a q.0.alias_index

-- What the lookups of a store show.
abbrev shown : RecordStore → Names
shown s = record { host = λ k. lookup k s.records; alias = λ a. lookup a s.alias_index }

Shows-self : (s : RecordStore) → Shows s (shown s)
Shows-self s = record { hosts = λ k. refl; aliases = λ a. refl }

Shows-SameView : (p q : ValidStore) → SameView p q → Shows p.0 (shown q.0)
Shows-SameView p q same = record { hosts = same.hosts; aliases = same.aliases }

abbrev pub step_valid : Step → ValidStore → ValidStore
step_valid x p = (step x p.0, step-IsValid x p.0 p.1)

apply-SameView :
    (x : Step) (p q : ValidStore)
    → SameView p q
    → apply p.0.health p.0.ttl x (shown q.0) ≡ apply q.0.health q.0.ttl x (shown q.0)
apply-SameView x p q same =
    ap (λ h. apply h p.0.ttl x (shown q.0)) same.health
    ∙ ap (λ t. apply q.0.health t x (shown q.0)) same.ttl

pub step-SameView :
    (x : Step) (p q : ValidStore) → SameView p q → SameView (step_valid x p) (step_valid x q)
step-SameView x p q same =
    let a = Shows-step p.0 (shown q.0) p.1 (Shows-SameView p q same) x in
    let b = Shows-step q.0 (shown q.0) q.1 (Shows-self q.0) x in
    let (p_health, p_ttl) = step-kept x p.0 in
    let (q_health, q_ttl) = step-kept x q.0 in
    record {
      health = p_health ∙ same.health ∙ sym q_health;
      ttl = p_ttl ∙ same.ttl ∙ sym q_ttl;
      hosts = λ k.
          a.hosts k ∙ ap (λ (v : Names). v.host k) (apply-SameView x p q same) ∙ sym (b.hosts k);
      aliases = λ k.
          a.aliases k
          ∙ ap (λ (v : Names). v.alias k) (apply-SameView x p q same)
          ∙ sym (b.aliases k);
    }

pub get-SameView :
    (now : Time) (name : Str) (p q : ValidStore)
    → SameView p q
    → get p.0 now name ≡ get q.0 now name
get-SameView now name p q same =
    get-answer p.0 (shown q.0) p.1 (Shows-SameView p q same) now name
    ∙ ap (λ h. answer h p.0.ttl now name (shown q.0)) same.health
    ∙ ap (λ t. answer q.0.health t now name (shown q.0)) same.ttl
    ∙ (sym (get-answer q.0 (shown q.0) q.1 (Shows-self q.0) now name))

abbrev pub View : Type 0
View = Quot SameView

abbrev pub view : ValidStore → View
view = Quot.mk

unfoldable pub get_view : Time → Str → View → Option Record
get_view now name = Quot.lift Record-set (λ p. get p.0 now name) (get-SameView now name)

unfoldable pub step_view : Step → View → View
step_view x =
    Quot.lift Quot-set (λ p. view (step_valid x p)) λ p q h. Quot.sound (step-SameView x p q h)

unfoldable pub run_view : List Step → View → View
run_view [] w = w
run_view (x ∷ xs) w = run_view xs (step_view x w)

get_view-run_view :
    (xs : List Step) (now : Time) (name : Str) (p : ValidStore)
    → get_view now name (run_view xs (view p)) ≡ get (run xs p.0) now name
unfolding get_view step_view run_view run
get_view-run_view [] now name p = refl
get_view-run_view (x ∷ xs) now name p = get_view-run_view xs now name (step_valid x p)

-- The steps and `Get` are functions on views: run on the view of a well-formed store they answer as
-- on the store. So two well-formed stores with the same configuration, whose maps hold the same
-- entry under each key in whatever order, answer alike for every name after the same steps.
pub get-run-view :
    (xs : List Step) (now : Time) (name : Str) (p q : ValidStore)
    → SameView p q
    → (get_view now name (run_view xs (view p)) ≡ get (run xs p.0) now name)
      × (get (run xs p.0) now name ≡ get (run xs q.0) now name)
get-run-view xs now name p q same =
    let as_view = get_view-run_view xs now name in
    (
      as_view p,
      sym (as_view p) ∙ ap (λ w. get_view now name (run_view xs w)) (Quot.sound same) ∙ as_view q,
    )
