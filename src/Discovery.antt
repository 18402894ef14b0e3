-- ===== src/Discovery.antt =====
-- internal/discovery/broadcast.go: the announcements on the network, the Announcer that makes them
-- and the Listener that takes them in. Packets are bytes (Str); encoding/json is the parameters
-- `decode…` and `encode…`, a failed decoding is `none`.
pub mod Interfaces
pub mod Announcer
pub mod Listener
pub mod Delivery
pub mod Channels
use disco.Base.{Str, bytes, ℤ, Bool, List, Option, none}
use disco.Security.{MessageSecurity}
use disco.Timesync.Floats.{Floats}
use disco.Timesync.Sources.{TimeAnnounceMessage, ClockInfo}

abbrev pub message_announce : Str
message_announce = bytes "ANNOUNCE"

abbrev pub message_time_announce : Str
message_time_announce = bytes "TIME_ANNOUNCE"

abbrev pub message_location_announce : Str
message_location_announce = bytes "LOCATION_ANNOUNCE"

pub record ServiceInfo : Type 0 where
  pub name : Str
  pub port : ℤ
  pub addr : Str
  pub aliases : List Str

pub record BroadcastMessage : Type 0 where
  pub message_type : Str
  pub message_id : Str
  pub timestamp : ℤ
  pub hostname : Str
  pub machine_id : Str
  pub ips : List Str
  pub services : List ServiceInfo
  pub signature : Option MessageSecurity
  pub ttl : ℤ

-- The anonymous struct that is signed: without the machine id and the signature.
pub record SignedFields : Type 0 where
  pub message_type : Str
  pub message_id : Str
  pub timestamp : ℤ
  pub hostname : Str
  pub ips : List Str
  pub services : List ServiceInfo
  pub ttl : ℤ

unfoldable pub signed_fields : BroadcastMessage → SignedFields
signed_fields msg = record {
  message_type = msg.message_type;
  message_id = msg.message_id;
  timestamp = msg.timestamp;
  hostname = msg.hostname;
  ips = msg.ips;
  services = msg.services;
  ttl = msg.ttl;
}

pub record RawMessage : Type 0 where
  pub message_type : Str
  pub message_id : Str

module _ (fl : Floats) where
  open fl use {Float}

  pub record LocationInfo : Type 0 where
    pub latitude : Float
    pub longitude : Float
    pub altitude : Float
    pub fixed : Bool
    pub satellites : ℤ

  pub record LocationAnnounceMessage : Type 0 where
    pub message_type : Str
    pub message_id : Str
    pub timestamp : ℤ
    pub source_id : Str
    pub location : LocationInfo
    pub signature : Option MessageSecurity

  -- The struct of a time message that is signed: without the signature.
  pub record SignedTimeFields : Type 0 where
    pub message_type : Str
    pub message_id : Str
    pub timestamp : ℤ
    pub clock_info : ClockInfo fl
    pub leap_indicator : ℤ
    pub source_id : Str

  unfoldable pub signed_time_fields : TimeAnnounceMessage fl → SignedTimeFields
  signed_time_fields msg = record {
    message_type = msg.message_type;
    message_id = msg.message_id;
    timestamp = msg.timestamp;
    clock_info = msg.clock_info;
    leap_indicator = msg.leap_indicator;
    source_id = msg.source_id;
  }

-- Packages crypto/hmac and encoding/json, as far as the messages need them.
pub record Codec (fl : Floats) : Type 0 where
  pub mac : Str → Str → Str
  pub encode_signed : SignedFields → Str
  pub encode_signed_time : SignedTimeFields fl → Str
  pub encode : BroadcastMessage → Str
  pub decode_raw : Str → Option RawMessage
  pub decode : Str → Option BroadcastMessage
  pub decode_time : Str → Option (TimeAnnounceMessage fl)
  pub decode_location : Str → Option (LocationAnnounceMessage fl)
