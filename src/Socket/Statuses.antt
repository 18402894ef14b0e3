-- ===== src/Socket/Statuses.antt =====
-- The status of a record has no part in what the store answers for a name.
use mathlib.Core.Option
use disco.Base.{
  Str, Str_eq, str_eq_iff, Option, none, some, ◌≡◌, refl, ap, sym, Option-cases, Bool-cases, inl,
  inr, ◌≟◌, if◌then◌else◌, or_else, subst,
}
use disco.Clock.{Time}
use disco.Dict.{lookup, insert}
use disco.Dict.Laws.{lookup-insert, lookup-update_all}
use disco.Nss.{Record, HostStatus}
use disco.Health.{compute_status, age, update_record_status}
use disco.Protocol.{Query}
use disco.Store.{RecordStore, resolve, get, is_lost, list_all, mark_lost, lost_record}
use disco.Timesync.Floats.{Floats}
use disco.Socket.Handlers.{answer_record, handle_query_by_name}

-- The same record, but for its status.
abbrev pub SameButStatus : Option Record → Option Record → Type 0
SameButStatus none none = Unit
SameButStatus none (some r) = ⊥
SameButStatus (some r) none = ⊥
SameButStatus (some r) (some r') = r' ≡ record r { status = r'.status }

-- What `Get` answers for a resolved record.
abbrev found : RecordStore → Time → Option Record → Option Record
found s t none = none
found s t (some r) = if is_lost s.health t r then none else some r

-- Two stores with the same names and records, but for the statuses.
pub record Agree (s s' : RecordStore) : Type 0 where
  pub same_health : s'.health ≡ s.health
  pub same_index : s'.alias_index ≡ s.alias_index
  pub same_records : (k : Str) → SameButStatus (lookup k s.records) (lookup k s'.records)

-- The record under the hostname that an alias stands for.
abbrev canonical_record : RecordStore → Option Str → Option Record
canonical_record s none = none
canonical_record s (some host) = lookup host s.records

resolve-or_else :
    (s : RecordStore) (name : Str)
    → resolve s name
      ≡ or_else (lookup name s.records) (canonical_record s (lookup name s.alias_index))
unfolding resolve
resolve-or_else s name = elim (Option-cases (lookup name s.records)) [
  | inr (r, e) ↦ rw (e, resolve) refl
  | inl e ↦ elim (Option-cases (lookup name s.alias_index)) [
    | inl f ↦ rw (e, resolve, f) refl
    | inr (host, f) ↦ rw (e, resolve, f) refl
  ]
]

SameButStatus-or_else :
    (o p o' p' : Option Record)
    → SameButStatus o o'
    → SameButStatus p p'
    → SameButStatus (or_else o p) (or_else o' p')
SameButStatus-or_else none p none p' h k = k
SameButStatus-or_else none p (some r') p' h k = absurd h
SameButStatus-or_else (some r) p none p' h k = absurd h
SameButStatus-or_else (some r) p (some r') p' h k = h

same_canonical :
    (s s' : RecordStore)
    → Agree s s'
    → (o : Option Str) → SameButStatus (canonical_record s o) (canonical_record s' o)
same_canonical s s' a none = tt
same_canonical s s' a (some host) = a.same_records host

same_resolve :
    (s s' : RecordStore) (name : Str)
    → Agree s s'
    → SameButStatus (resolve s name) (resolve s' name)
same_resolve s s' name a =
    rw (resolve-or_else s name, resolve-or_else s' name, a.same_index)
      (SameButStatus-or_else _ _ _ _ (a.same_records name) (same_canonical s s' a _))

-- A status has no part in whether a record is lost, nor in the answer that a client gets.
is_lost_status :
    (s : RecordStore) (t : Time) (r : Record) (x : HostStatus)
    → is_lost s.health t (record r { status = x }) ≡ is_lost s.health t r
unfolding is_lost compute_status age
is_lost_status s t r x = refl

status_answer :
    (fl : Floats) (s : RecordStore) (t : Time) (q : Query) (r : Record) (x : HostStatus)
    → answer_record fl t q (found s t (some (record r { status = x })))
      ≡ answer_record fl t q (found s t (some r))
unfolding answer_record
status_answer fl s t q r x = elim (Bool-cases (is_lost s.health t r)) [
  | inl e ↦ rw (is_lost_status s t r x, e) refl
  | inr e ↦ rw (is_lost_status s t r x, e) refl
]

same_answer :
    (fl : Floats) (s : RecordStore) (t : Time) (q : Query) (o o' : Option Record)
    → SameButStatus o o'
    → answer_record fl t q (found s t o') ≡ answer_record fl t q (found s t o)
same_answer fl s t q none none h = refl
same_answer fl s t q none (some r') h = absurd h
same_answer fl s t q (some r) none h = absurd h
same_answer fl s t q (some r) (some r') h =
    subst
      (λ x. answer_record fl t q (found s t (some x)) ≡ answer_record fl t q (found s t (some r)))
      (sym h) (status_answer fl s t q r r'.status)

get-found : (s : RecordStore) (t : Time) (name : Str) → get s t name ≡ found s t (resolve s name)
unfolding get
get-found s t name = elim (Option-cases (resolve s name)) [
  | inl e ↦ rw (e, get) refl
  | inr (r, e) ↦ rw (e, get) refl
]

same_health_found :
    (s s' : RecordStore) (t : Time) (o : Option Record)
    → s'.health ≡ s.health
    → found s' t o ≡ found s t o
same_health_found s s' t none h = refl
same_health_found s s' t (some r) h = ap (λ ht. if is_lost ht t r then none else some r) h

pub Agree-answer :
    (fl : Floats) (s s' : RecordStore) (t : Time) (q : Query)
    → Agree s s'
    → handle_query_by_name fl t q s' ≡ handle_query_by_name fl t q s
unfolding handle_query_by_name
Agree-answer fl s s' t q a =
    rw
      (
        get-found s' t q.name,
        get-found s t q.name,
        same_health_found s s' t (resolve s' q.name) a.same_health,
      )
      (same_answer fl s t q _ _ (same_resolve s s' q.name a))

SameButStatus-refl : (o : Option Record) → SameButStatus o o
SameButStatus-refl none = tt
SameButStatus-refl (some r) = refl

pub Agree-refl : (s : RecordStore) → Agree s s
Agree-refl s = record {
  same_health = refl;
  same_index = refl;
  same_records = λ k. SameButStatus-refl _;
}

updated :
    (s : RecordStore) (now : Time) (o : Option Record)
    → SameButStatus o (Option.map (update_record_status s.health now) o)
unfolding update_record_status
updated s now none = tt
updated s now (some r) = refl

pub Agree-list_all : (s : RecordStore) (now : Time) → Agree s (list_all now s).0
unfolding list_all
Agree-list_all s now = record {
  same_health = refl;
  same_index = refl;
  same_records =
      λ k. rw (lookup-update_all (update_record_status s.health now) k s.records) (updated s now _);
}

marked_record :
    (s : RecordStore) (host k : Str) (r : Record)
    → lookup host s.records ≡ some r
    → SameButStatus (lookup k s.records) (lookup k (insert host (lost_record r) s.records))
unfolding lost_record
marked_record s host k r e = elim (Bool-cases (host ≟ k)) [
  | inl same ↦
      rw (lookup-insert host k (lost_record r) s.records, same, sym ((str_eq_iff host k).0 same), e)
        refl
  | inr other ↦ rw (lookup-insert host k (lost_record r) s.records, other) (SameButStatus-refl _)
]

pub Agree-mark_lost : (s : RecordStore) (host : Str) → Agree s (mark_lost host s)
unfolding mark_lost
Agree-mark_lost s host = elim (Option-cases (lookup host s.records)) [
  | inl e ↦ rw (e, mark_lost) (Agree-refl s)
  | inr (r, e) ↦ elim (Bool-cases r.is_static) [
    | inl st ↦ rw (e, mark_lost) (simp st (Agree-refl s))
    | inr dynamic ↦
        rw (e, mark_lost)
          (simp dynamic (record {
            same_health = refl;
            same_index = refl;
            same_records = λ k. marked_record s host k r e;
          }))
  ]
]
