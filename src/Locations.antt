-- ===== src/Locations.antt =====
-- internal/daemon/location_store.go: the last location that each source announced.
use disco.Base.{Str, Str_eq, pos, List, [], ◌∷◌, Option, none, some, eqb_ℤ, if◌then◌else◌}
use disco.Clock.{Time, unix, unix_time, sub_time}
use disco.Dict.{Dict, insert, lookup, values}
use disco.Timesync.Floats.{Floats}
use disco.Discovery.{LocationAnnounceMessage}
use disco.Protocol.{LocationHealth, format_duration}

module _ (fl : Floats) where
  pub record LocationStore : Type 0 where
    pub records : Dict Str (LocationHealth fl)

  unfoldable pub new_location_store : LocationStore
  new_location_store = record { records = [] }

  -- `AddOrUpdate`: a message without a timestamp gets the clock's.
  unfoldable pub add_location : Time → LocationAnnounceMessage fl → LocationStore → LocationStore
  add_location now msg ls = record ls {
    records =
        insert msg.source_id
          (record {
            source_id = msg.source_id;
            latitude = msg.location.latitude;
            longitude = msg.location.longitude;
            altitude = msg.location.altitude;
            satellites = msg.location.satellites;
            fixed = msg.location.fixed;
            last_seen = if eqb_ℤ msg.timestamp (pos 0) then unix now else msg.timestamp;
            last_seen_ago = [];
          })
          ls.records;
  }

  -- The copy that is given out, with its age as text.
  unfoldable pub aged : Time → LocationHealth fl → LocationHealth fl
  aged now r = record r { last_seen_ago = format_duration (sub_time now (unix_time r.last_seen)) }

  -- `Get` and `List`
  unfoldable pub get_location : Time → Str → LocationStore → Option (LocationHealth fl)
  unfolding aged
  get_location now source_id ls = elim (lookup source_id ls.records) [
    | none ↦ none
    | some r ↦ some (aged now r)
  ]

  unfoldable pub aged_all : Time → List (LocationHealth fl) → List (LocationHealth fl)
  aged_all now [] = []
  aged_all now (r ∷ rest) = aged now r ∷ aged_all now rest

  unfoldable pub list_locations : Time → LocationStore → List (LocationHealth fl)
  unfolding aged_all
  list_locations now ls = aged_all now (values ls.records)
