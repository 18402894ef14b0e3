-- ===== src/Store/Aging.antt =====
-- The status of a record as it ages, and what the cleanup leaves.
use disco.Base.{
  Str, ℕ, ◌≤◌, false, not, ◌≡◌, arith, ℤ, pos, ◌≤ℤ◌, clamp64, ◌-ℤ◌, +ℤ_parts, -ℤ_parts, scale_parts,
  [], ◌∷◌, refl, select, Bool-cases, inl, inr,
}
use disco.Clock.{Time, sub_time, nanos_between, unix_time, second}
use disco.Health.{HealthTracker, compute_status, age, should_expire, update_record_status}
use disco.Dict.{Dict, values}
use disco.Store.{RecordStore, is_lost, sweep, list, cleanup_expired_records}
use disco.Nss.{Record, HostStatus}

-- The order in which a record that is not static grows old.
abbrev pub rank : HostStatus → ℕ
rank HostStatus.healthy = 0
rank HostStatus.stale = 1
rank HostStatus.lost = 2
rank HostStatus.static = 3
rank HostStatus.unset = 4

-- `a` is not later than `b`.
abbrev pub NotLater : Time → Time → Type 0
NotLater a b = nanos_between a (unix_time (pos 0)) ≤ℤ nanos_between b (unix_time (pos 0))

clamp64_mono : (a b : ℤ) → a ≤ℤ b → clamp64 a ≤ℤ clamp64 b
unfolding clamp64
clamp64_mono a b h = ground arith

nanos_mono : (a b c : Time) → NotLater a b → nanos_between a c ≤ℤ nanos_between b c
unfolding nanos_between
nanos_mono a b c h = omega (
  arith,
  +ℤ_parts,
  -ℤ_parts,
  scale_parts second (a.sec -ℤ c.sec),
  scale_parts second (b.sec -ℤ c.sec),
  scale_parts second (a.sec -ℤ pos 0),
  scale_parts second (b.sec -ℤ pos 0),
)

-- With a growing clock a record only moves from healthy to stale to lost.
pub compute_status-grows :
    (ht : HealthTracker) (now later : Time) (r : Record)
    → NotLater now later
    → rank (compute_status ht now r) ≤ rank (compute_status ht later r)
unfolding compute_status age sub_time
compute_status-grows ht now later r h = ground (
  arith,
  clamp64_mono (nanos_between now (unix_time r.timestamp))
      (nanos_between later (unix_time r.timestamp)),
  nanos_mono now later (unix_time r.timestamp),
)

-- What a tick of the cleanup leaves is not lost at that instant.
kept_is_lost :
    (ht : HealthTracker) (now : Time) (r : Record)
    → should_expire ht now r ≡ false
    → is_lost ht now (update_record_status ht now r) ≡ false
unfolding should_expire is_lost update_record_status compute_status age
kept_is_lost ht now r h = ground arith

select-sweep :
    (ht : HealthTracker) (now : Time) (m : Dict Str Record) (index : Dict Str Str)
    → select (λ r. not (is_lost ht now r)) (values (sweep ht now m index).0)
      ≡ values (sweep ht now m index).0
unfolding sweep values
select-sweep ht now [] index = refl
select-sweep ht now ((k, q) ∷ m) index = elim (Bool-cases (should_expire ht now q)) [
  | inl gone ↦ rw gone (select-sweep ht now m _)
  | inr kept ↦ rw kept (rw (kept_is_lost ht now q kept, select-sweep ht now m index))
]

-- Right after a tick of the cleanup every record left in the cache is listed: none is lost.
pub list-cleanup :
    (s : RecordStore) (now : Time)
    → list (cleanup_expired_records now s) now ≡ values (cleanup_expired_records now s).records
unfolding list cleanup_expired_records
list-cleanup s now = select-sweep s.health now s.records s.alias_index
