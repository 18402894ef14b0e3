-- ===== src/Timesync/Sources.antt =====
-- internal/timesync/store.go: the last message of each time source, with the instant it was heard.
use disco.Base.{
  Str, Str_eq, ℕ, ℤ, suc, Bool, true, false, List, [], ◌∷◌, Option, leb_ℤ, leb, select,
  if◌then◌else◌, length,
}
use disco.Clock.{Time, Duration, sub_time}
use disco.Dict.{Dict, insert, delete, values}
use disco.Security.{MessageSecurity}
use disco.Timesync.Floats.{Floats}

module _ (fl : Floats) where
  open fl use {Float}

  -- discovery.ClockInfo
  pub record ClockInfo : Type 0 where
    pub stratum : ℤ
    pub precision : ℤ
    pub root_delay : Float
    pub root_dispersion : Float
    pub reference_id : Str
    pub reference_time : ℤ

  -- discovery.TimeAnnounceMessage
  pub record TimeAnnounceMessage : Type 0 where
    pub message_type : Str
    pub message_id : Str
    pub timestamp : ℤ
    pub clock_info : ClockInfo
    pub leap_indicator : ℤ
    pub source_id : Str
    pub signature : Option MessageSecurity

  pub record TimeSource : Type 0 where
    pub source_id : Str
    pub timestamp : ℤ
    pub received_at : Time
    pub clock_info : ClockInfo
    pub leap_indicator : ℤ

  pub record TimeSourceStore : Type 0 where
    pub sources : Dict Str TimeSource
    pub max_stale : Duration

  unfoldable pub new_time_source_store : Duration → TimeSourceStore
  new_time_source_store max_stale = record { sources = []; max_stale = max_stale }

  -- `Add`: the entry of the source is overwritten field by field, or made.
  unfoldable pub add : Time → TimeAnnounceMessage → TimeSourceStore → TimeSourceStore
  add now msg s = record s {
    sources =
        insert msg.source_id
          (record {
            source_id = msg.source_id;
            timestamp = msg.timestamp;
            received_at = now;
            clock_info = msg.clock_info;
            leap_indicator = msg.leap_indicator;
          })
          s.sources;
  }

  unfoldable pub is_fresh : TimeSourceStore → Time → TimeSource → Bool
  is_fresh s now src = leb_ℤ (sub_time now src.received_at) s.max_stale

  unfoldable pub get_valid_sources : TimeSourceStore → Time → List TimeSource
  get_valid_sources s now = select (is_fresh s now) (values s.sources)

  -- The loop of HasMinimumSources: it stops at the source that makes the count large enough.
  unfoldable pub count_up_to : (TimeSource → Bool) → ℕ → ℕ → List TimeSource → Bool
  count_up_to fresh least count [] = false
  count_up_to fresh least count (src ∷ rest) =
      let next = count_up_to fresh least (suc count) rest in
      let same = count_up_to fresh least count rest in
      if fresh src then (if leb least (suc count) then true else next) else same

  unfoldable pub has_minimum_sources : TimeSourceStore → Time → ℕ → Bool
  unfolding count_up_to
  has_minimum_sources s now least = count_up_to (is_fresh s now) least 0 (values s.sources)

  unfoldable pub count : TimeSourceStore → ℕ
  count s = length (values s.sources)

  unfoldable pub remove : Str → TimeSourceStore → TimeSourceStore
  remove source_id s = record s { sources = delete source_id s.sources }

  unfoldable pub clear : TimeSourceStore → TimeSourceStore
  clear s = record s { sources = [] }
