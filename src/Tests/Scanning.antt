-- ===== src/Tests/Scanning.antt =====
-- A scan that finds one of two ports open, internal/service/detector.go.
use disco.Base.{
  Str, bytes, ℤ, pos, [], ◌∷◌, Option, none, some, or_else, Str_eq, str_eq, In, here, eqb_ℤ,
  if◌then◌else◌, ◌≡◌, refl,
}
use disco.Dict.{insert, values}
use disco.Discovery.Announcer.{Announcer, opened_announcer, add_service}
use disco.Startup.{System}
use disco.Startup.Detected
use disco.Startup.Run.{update_service_announcements}
use disco.Tests.Starting.{system}
use disco.Tests.Time.{whole}
use disco.Detector.{Detector, FoundService, scan, scan_ports, scan_services, get_services}

abbrev check : ℤ → Option Str
check port = if eqb_ℤ port (pos 80) then some (bytes "127.0.0.1") else none

abbrev detector : Detector
detector = record {
  port_mapping = (bytes "http", pos 80 ∷ pos 8080 ∷ []) ∷ [];
  interval = pos 60000000000;
  services = [];
}

abbrev http : FoundService
http = record { name = bytes "http"; port = pos 80; addr = bytes "127.0.0.1" }

found : get_services (scan check detector) ≡ http ∷ []
unfolding scan scan_services scan_ports insert values get_services
found = refl

http_place : In http (get_services (scan check detector))
unfolding scan scan_services scan_ports insert values get_services
http_place = here refl

-- The daemon announces its configured service of that name, with an alias.
abbrev announcer : Announcer
announcer = add_service (bytes "http") (pos 80) (bytes "10.0.0.2") (bytes "www" ∷ []) (
    opened_announcer (bytes "255.255.255.255:5354") (bytes "255.255.255.255:5354") (bytes "5354")
      (bytes "node2") (bytes "m2") (pos 30000000000) none [] (record { sec = pos 900; nsec = 0 }))

abbrev scanned : System whole
scanned = record system {
  detector = some (scan check detector);
  daemon = record system.daemon { announcer = some announcer };
}

announces-update_service_announcements_example :
    Detected.announces (update_service_announcements scanned) (bytes "http")
    ≡ or_else
        (Detected.detected (bytes "http") (get_services (scan check detector)))
        (Detected.announces scanned (bytes "http"))
announces-update_service_announcements_example =
    Detected.announces-update_service_announcements scanned (scan check detector) announcer
      (bytes "http") refl refl

-- The alias is gone.
alias_lost :
    Detected.announces (update_service_announcements scanned) (bytes "http")
    ≡ some (Detected.bare http)
unfolding scan scan_services scan_ports insert values get_services str_eq
alias_lost =
    Detected.announces-update_service_announcements scanned (scan check detector) announcer
      (bytes "http") refl refl
