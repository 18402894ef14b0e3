-- ===== src/Startup/Detected.antt =====
-- What a tick of updateServiceAnnouncements (internal/daemon/daemon.go) makes of the services that
-- the daemon announces.
use disco.Base.{
  Str, Str_eq, List, [], ◌∷◌, Option, none, some, ◌≡◌, refl, arith, ◌≟◌, if◌then◌else◌, or_else,
}
use disco.Dict.{lookup}
use disco.Dict.Laws.{lookup-insert}
use disco.Timesync.Floats.{Floats}
use disco.Discovery.{ServiceInfo}
use disco.Discovery.Announcer.{Announcer, add_service}
use disco.Detector.{FoundService, Detector, get_services}
use disco.Startup.{System}
use disco.Startup.Run.{add_detected, update_service_announcements}

-- The service as it is announced once it is found: without aliases.
abbrev pub bare : FoundService → ServiceInfo
bare svc = record { name = svc.name; port = svc.port; addr = svc.addr; aliases = [] }

-- The last service of a name that is found.
abbrev pub detected : Str → List FoundService → Option ServiceInfo
detected name [] = none
detected name (svc ∷ rest) =
    or_else (detected name rest) (if svc.name ≟ name then some (bare svc) else none)

lookup-add_detected :
    (name : Str) (found : List FoundService) (a : Announcer)
    → lookup name (add_detected found a).services
      ≡ or_else (detected name found) (lookup name a.services)
unfolding add_detected add_service
lookup-add_detected name [] a = refl
lookup-add_detected name (svc ∷ rest) a = ground (
  arith,
  lookup-add_detected name rest (add_service svc.name svc.port svc.addr [] a),
  lookup-insert svc.name name (bare svc) a.services,
)

-- The services that a daemon announces.
abbrev pub announces : {fl : Floats} → System fl → Str → Option ServiceInfo
announces s name = elim s.daemon.announcer [ none ↦ none | some a ↦ lookup name a.services ]

-- A tick of updateServiceAnnouncements, in a daemon with a detector and an announcer, replaces
-- exactly the services of the names that the detector has found: such a service is announced with
-- the port and the address that were found and without aliases, those that the configuration or
-- `disco service add` gave it included; every other service is announced as before.
pub announces-update_service_announcements :
    {fl : Floats} (s : System fl) (det : Detector) (a : Announcer) (name : Str)
    → s.detector ≡ some det
    → s.daemon.announcer ≡ some a
    → announces (update_service_announcements s) name
      ≡ or_else (detected name (get_services det)) (announces s name)
unfolding update_service_announcements
announces-update_service_announcements s det a name has_detector has_announcer =
    rw (has_detector, has_announcer) (lookup-add_detected name (get_services det) a)
