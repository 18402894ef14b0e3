-- ===== src/Startup/Named.antt =====
-- What a daemon that has started (internal/daemon/daemon.go) answers about itself.
use disco.Base.{Str_eq, List, Option, none, some, ◌≡◌, refl, ap, ◌⊎◌, inl, inr, Option-cases}
use disco.Clock.{Time}
use disco.Timesync.Floats.{Floats}
use disco.Discovery.Announcer.{Announcer}
use disco.Discovery.Interfaces.{Interface}
use disco.Store.{add_or_update}
use disco.Daemon.{Daemon, daemon_ips, own_record, self_register}

store-daemon_ips :
    (system : Option (List Interface)) (now : Time) (d : Daemon)
    → (daemon_ips system now d).0.store ≡ d.store
unfolding daemon_ips
store-daemon_ips system now d = elim (Option-cases d.announcer) [
  | inl e ↦ rw e refl
  | inr (a, e) ↦ rw e refl
]

pub store-self_register :
    (system : Option (List Interface)) (now : Time) (d : Daemon)
    → (self_register system now d).store
      ≡ add_or_update now (own_record now (daemon_ips system now d).1 d) d.store
unfolding self_register
store-self_register system now d =
    ap (add_or_update now (own_record now (daemon_ips system now d).1 d))
      (store-daemon_ips system now d)

-- The announcer has seen no interfaces yet, or these.
abbrev Saw : List Interface → Announcer → Type 0
Saw ifaces a = (a.iface_cache ≡ none) ⊎ (a.iface_cache ≡ some ifaces)
