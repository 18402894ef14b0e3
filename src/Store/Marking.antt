-- ===== src/Store/Marking.antt =====
-- `MarkLost` against the operations that read the cache again.
use disco.Base.{
  Str, Str_eq, str_eq_iff, [], ◌∷◌, some, ◌≡◌, arith, ◌≟◌, refl, Option-cases, Bool-cases, inl, inr,
}
use disco.Clock.{Time}
use disco.Dict.{Dict, lookup, insert, update_all}
use disco.Health.{HealthTracker, update_record_status, compute_status, should_expire, age}
use disco.Nss.{Record}
use disco.Store.{RecordStore, mark_lost, lost_record, list_all, sweep, cleanup_expired_records}

-- A status that is computed again forgets what it was.
update_record_status-lost :
    (ht : HealthTracker) (now : Time) (r : Record)
    → update_record_status ht now (lost_record r) ≡ update_record_status ht now r
unfolding update_record_status lost_record compute_status age
update_record_status-lost ht now r = refl

should_expire-lost :
    (ht : HealthTracker) (now : Time) (r : Record)
    → should_expire ht now (lost_record r) ≡ should_expire ht now r
unfolding should_expire lost_record age
should_expire-lost ht now r = refl

update_all-insert :
    (f : Record → Record) (k : Str) (r q : Record) (m : Dict Str Record)
    → lookup k m ≡ some r
    → f q ≡ f r
    → update_all f (insert k q m) ≡ update_all f m
unfolding update_all insert lookup
update_all-insert f k r q [] h e = absurd (ground arith)
update_all-insert f k r q ((j, p) ∷ m) h e = elim (Bool-cases (j ≟ k)) [
  | inl same ↦
      let held : p ≡ r = ground arith in
      let name : j ≡ k = (str_eq_iff j k).0 same in rw same (rw (e, held, name))
  | inr other ↦ rw other (rw (update_all-insert f k r q m (ground arith) e))
]

sweep-insert :
    (ht : HealthTracker) (now : Time) (k : Str) (r q : Record) (m : Dict Str Record)
    (index : Dict Str Str)
    → lookup k m ≡ some r
    → update_record_status ht now q ≡ update_record_status ht now r
    → should_expire ht now q ≡ should_expire ht now r
    → sweep ht now (insert k q m) index ≡ sweep ht now m index
unfolding sweep insert lookup
sweep-insert ht now k r q [] index h e g = absurd (ground arith)
sweep-insert ht now k r q ((j, p) ∷ m) index h e g = elim (Bool-cases (j ≟ k)) [
  | inl same ↦
      let held : p ≡ r = ground arith in
      let name : j ≡ k = (str_eq_iff j k).0 same in rw same (rw (e, g, held, name))
  | inr other ↦ rw other (rw (sweep-insert ht now k r q m _ (ground arith) e g))
]

-- Whatever host is marked as lost, the next `ListAll` (HOSTS_LIST, HOSTS_SHOW, the service lists)
-- answers with the records, and leaves the store, that it would without the mark.
pub list_all-mark_lost :
    (s : RecordStore) (host : Str) (now : Time) → list_all now (mark_lost host s) ≡ list_all now s
unfolding list_all mark_lost
list_all-mark_lost s host now = elim (Option-cases (lookup host s.records)) [
  | inl e ↦ rw (e, mark_lost)
  | inr (r, e) ↦ elim (Bool-cases r.is_static) [
    | inl st ↦ rw (e, mark_lost) (simp st)
    | inr dynamic ↦
        rw (e, mark_lost)
          (simp dynamic (
            rw (
              update_all-insert (update_record_status s.health now) host r (lost_record r) s.records
                e (update_record_status-lost s.health now r))))
  ]
]

-- Whatever host is marked as lost, the next tick of the cleanup leaves the store that it would
-- leave without the mark.
pub cleanup-mark_lost :
    (s : RecordStore) (host : Str) (now : Time)
    → cleanup_expired_records now (mark_lost host s) ≡ cleanup_expired_records now s
unfolding cleanup_expired_records mark_lost
cleanup-mark_lost s host now = elim (Option-cases (lookup host s.records)) [
  | inl e ↦ rw (e, mark_lost)
  | inr (r, e) ↦ elim (Bool-cases r.is_static) [
    | inl st ↦ rw (e, mark_lost) (simp st)
    | inr dynamic ↦
        rw (e, mark_lost)
          (simp dynamic (
            rw (
              sweep-insert s.health now host r (lost_record r) s.records s.alias_index e
                (update_record_status-lost s.health now r) (should_expire-lost s.health now r))))
  ]
]
