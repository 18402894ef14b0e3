-- ===== src/Detector.antt =====
-- internal/service/detector.go: the scan for open ports. Whether a port takes a connection, and the
-- local address of the connection, is an argument (`none` is no connection).
pub mod Found
use disco.Base.{Str, Str_eq, ℕ, ℤ, length, List, [], ◌∷◌, ◌++◌, Option, none, some}
use disco.Clock.{Duration}
use disco.Dict.{Dict, insert, values}
use disco.Net.{host_port}

-- ServiceInfo of package service.
pub record FoundService : Type 0 where
  pub name : Str
  pub port : ℤ
  pub addr : Str

pub record Detector : Type 0 where
  pub port_mapping : Dict Str (List ℤ)
  pub interval : Duration
  pub services : Dict Str FoundService

unfoldable pub new_detector : Dict Str (List ℤ) → Duration → Detector
new_detector port_mapping interval = record {
  port_mapping = port_mapping;
  interval = interval;
  services = [];
}

-- The loop over the ports of a service; the key is the name and the port.
unfoldable pub scan_ports :
    (ℤ → Option Str) → Str → List ℤ → Dict Str FoundService → Dict Str FoundService
scan_ports check name [] m = m
scan_ports check name (port ∷ rest) m = scan_ports check name rest (elim (check port) [
  | none ↦ m
  | some addr ↦ insert (host_port name port) (record { name = name; port = port; addr = addr }) m
])

unfoldable pub scan_services :
    (ℤ → Option Str) → Dict Str (List ℤ) → Dict Str FoundService → Dict Str FoundService
unfolding scan_ports
scan_services check [] m = m
scan_services check ((name, ports) ∷ rest) m =
    scan_services check rest (scan_ports check name ports m)

unfoldable pub scan : (ℤ → Option Str) → Detector → Detector
unfolding scan_services
scan check d = record d { services = scan_services check d.port_mapping [] }

unfoldable pub get_services : Detector → List FoundService
get_services d = values d.services

unfoldable pub get_service_count : Detector → ℕ
get_service_count d = length d.services

-- `Stop`
unfoldable pub stop : Detector → Detector
stop d = record d { services = [] }
