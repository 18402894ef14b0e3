-- ===== src/Startup/Run.antt =====
-- internal/daemon/daemon.go (Run and the loops that it starts): what the daemon does at its start,
-- and with the packets that it hears.
use disco.Base.{Str, Str_eq, List, [], ◌∷◌, Option, none, some}
use disco.Clock.{Time}
use disco.Timesync.Floats.{Floats}
use disco.Timesync.Service.{process_message}
use disco.Discovery.{Codec}
use disco.Discovery.Interfaces.{Interface}
use disco.Discovery.Announcer.{Announcer, add_service, get_local_ips}
use disco.Discovery.Listener.{Listener, Delivery, receive}
use disco.Detector.{FoundService, get_services}
use disco.Locations.{add_location}
use disco.Daemon.{Daemon, ServiceConfig, handle_discovery_message, self_register, first_ip}
use disco.Startup.{System}

-- The loop of Run over the configured services.
unfoldable pub add_configured :
    Option (List Interface) → Time → List ServiceConfig → Announcer → Announcer
add_configured system now [] a = a
add_configured system now (svc ∷ rest) a =
    let (a', ips) = get_local_ips system now a in
    add_configured system now rest (add_service svc.name svc.port (first_ip ips) svc.aliases a')

unfoldable pub with_configured : Option (List Interface) → Time → Daemon → Daemon
unfolding add_configured
with_configured system now d = record d {
  announcer = elim d.announcer [
    | none ↦ none
    | some a ↦ some (add_configured system now d.services a)
  ];
}

-- A tick of updateServiceAnnouncements.
unfoldable pub add_detected : List FoundService → Announcer → Announcer
add_detected [] a = a
add_detected (svc ∷ rest) a = add_detected rest (add_service svc.name svc.port svc.addr [] a)

module _ {fl : Floats} where
  -- Run, up to where it waits for a signal.
  unfoldable pub run_start : Option (List Interface) → Time → System fl → System fl
  unfolding with_configured
  run_start system now s = record s {
    daemon = self_register system now (with_configured system now s.daemon);
  }

  unfoldable pub update_service_announcements : System fl → System fl
  unfolding add_detected
  update_service_announcements s = elim s.detector [
    | none ↦ s
    | some det ↦ record s {
      daemon = record s.daemon {
        announcer = elim s.daemon.announcer [
          | none ↦ none
          | some a ↦ some (add_detected (get_services det) a)
        ];
      };
    }
  ]

  -- The loops over the listener's channels: each kind of message goes to its part of the daemon.
  -- (Without time synchronisation nothing reads the channel of time messages: a message stays in it,
  -- which Discovery.Channels models.)
  unfoldable pub process_delivery : Time → Delivery fl → System fl → System fl
  process_delivery now (Delivery.announcement msg) s = record s {
    daemon = record s.daemon { store = handle_discovery_message now msg s.daemon.store };
  }
  process_delivery now (Delivery.time_message msg) s = elim s.time_sync [
    | none ↦ s
    | some ts ↦ record s { time_sync = some (process_message fl now msg ts) }
  ]
  process_delivery now (Delivery.location_message msg) s = record s {
    location_store = add_location fl now msg s.location_store;
  }

  unfoldable pub process_delivered : Time → Option (Delivery fl) → System fl → System fl
  unfolding process_delivery
  process_delivered now none s = s
  process_delivered now (some d) s = process_delivery now d s

  -- A packet on the network: the listener, if there is one, takes it in, and what it delivers is
  -- processed.
  unfoldable pub heard :
      Codec fl → Time → Str → System fl → Option Listener → System fl × Option (Delivery fl)
  unfolding process_delivered
  heard codec now packet s none = (s, none)
  heard codec now packet s (some l) =
      let (l', delivered) = receive codec now packet l in
      (process_delivered now delivered (record s { listener = some l' }), delivered)

  unfoldable pub on_packet : Codec fl → Time → Str → System fl → System fl × Option (Delivery fl)
  unfolding heard
  on_packet codec now packet s = heard codec now packet s s.listener

  -- Packets at their instants, with what is delivered of each.
  unfoldable pub on_packets :
      Codec fl → List (Time × Str) → System fl → List (Time × Option (Delivery fl))
  unfolding on_packet
  on_packets codec [] s = []
  on_packets codec ((now, packet) ∷ rest) s =
      let (s', delivered) = on_packet codec now packet s in
      (now, delivered) ∷ on_packets codec rest s'
