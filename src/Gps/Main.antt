-- ===== src/Gps/Main.antt =====
-- The start of main in cmd/gps-broadcaster/main.go: from the flags to the broadcaster. What the
-- system has (the host name, the serial device, the network) is an argument.
use disco.Base.{Str, bytes, Bool, List, [], Option, none, some, if◌then◌else◌, is_empty}
use disco.Gps.Broadcaster.{Broadcaster, new_broadcaster}
use disco.Gps.Scan.{split_on}

-- The flags that the start reads.
pub record Flags : Type 0 where
  pub device : Str
  pub broadcast : Str
  pub source_id : Str
  pub interfaces : Str

abbrev pub default_flags : Flags
default_flags = record {
  device = bytes "/dev/ttyACM0";
  broadcast = bytes "255.255.255.255:5354";
  source_id = [];
  interfaces = [];
}

-- The source of the time messages: the flag, else the host name, else a fixed name.
unfoldable pub source_of : Str → Option Str → Str
source_of flag hostname =
    if is_empty flag then elim hostname [ none ↦ bytes "gps-broadcaster" | some h ↦ h ] else flag

-- The interfaces, between commas.
unfoldable pub interface_list : Str → List Str
interface_list flag = if is_empty flag then [] else split_on 44 flag

pub data Failure : Type 0 where
  no_device no_broadcaster : Failure

pub data Begun : Type 0 where
  failed : Failure → Begun
  ready : Broadcaster → Begun

-- The device is opened before the broadcaster is made; either error exits.
unfoldable pub begin : (Str → Bool) → Option Str → (Str → Option Str) → (Str → Bool) → Flags → Begun
unfolding source_of interface_list
begin opens hostname resolve dials flags =
    if opens flags.device
    then elim (new_broadcaster resolve dials flags.broadcast (source_of flags.source_id hostname)
        (interface_list flags.interfaces)) [ none ↦ failed no_broadcaster | some b ↦ ready b ]
    else failed no_device
