-- ===== src/Tests/Starting.antt =====
-- A daemon that starts, internal/daemon/daemon.go, and the packets that it hears.
use disco.Base.{
  Str_eq, str_eq, bytes, ℕ, pos, true, [], ◌∷◌, none, some, ◌≡◌, refl, All, suc, false, ltb, ◌≤◌,
  arith, ◌<◌, ◌+◌, length, length-append, zero,
}
use disco.Clock.{Time}
use disco.Dict.{insert}
use disco.Net.{digits, format_int}
use disco.Config.{Config, set_defaults}
use disco.Security.{KeyManager, generate_keys, add_trusted_peer}
use disco.Security.Loading.{no_file, new_key_manager}
use disco.Timesync.Sources.{TimeAnnounceMessage}
use disco.Discovery.Announcer.{
  Announcer, opened_announcer, new_announcer, local_ips, local_addresses,
}
use disco.Discovery.Interfaces.{format_ip4}
use disco.Discovery.Channels
use disco.Discovery.Channels.{
  Channels, new_channels, capacity, Run, done, next, deliver, send, time_deliveries,
}
use disco.Discovery.Delivery.{Authentic}
use disco.Discovery.Listener.{open_listener, new_listener, Delivery}
use disco.Daemon.{load_trusted_peers, missing}
use disco.Startup.Named
use disco.Startup.{trusting, Env, System, new_daemon, system_of, start_keys, start_discovery}
use disco.Startup.Run.{on_packets, run_start}
use disco.Startup.Secured
use disco.Entry.{start_daemon, after_new, running, setup_logging}
use disco.Entry.Composed
use disco.Logging.{setup, output_of, initial}
use disco.Config.Validation.{validate}
use disco.Tests.Network.{message, alice, codec, ethernet, packet}
use disco.Tests.Settings.{program, filled}
use disco.Tests.Time.{whole}

abbrev pub at : ℕ → Time
at s = record { sec = pos s; nsec = 0 }

-- A configuration that requires signatures.
abbrev pub cfg : Config whole
cfg = record filled {
  security = record {
    enabled = true;
    key_path = bytes "/etc/disco/key";
    trusted_peers = bytes "/etc/disco/peers.json";
    require_signed = true;
  };
}

-- A host without a keys file, where every address can be used.
abbrev pub env : Env
env = record {
  hostname = some (bytes "node2");
  machine_id = bytes "m2";
  read_keys = λ path. no_file;
  random = some (bytes "s3", bytes "id");
  read_peers = λ path. missing;
  resolve = λ addr. some addr;
  opens = true;
  listens = λ addr. true;
  now = at 900;
}

-- What New makes of a configuration with the keys and the network of this host.
abbrev pub system_with : Config whole → System whole
system_with c = system_of whole env c (bytes "node2") (some alice) (
    some (record {
      announcer =
          opened_announcer (bytes "255.255.255.255:5354") (bytes "255.255.255.255:5354")
            (bytes "5354") (bytes "node2") (bytes "m2") (pos 30000000000) (some alice) [] (at 900);
      listener = new_listener (some alice) true;
      detector = none;
    }))

abbrev pub system : System whole
system = system_with cfg

-- The text of the file is accepted, and changed only by the defaults.
accepted : validate whole cfg ≡ (cfg, none)
unfolding program
accepted = refl

runs :
    start_daemon whole true (some ethernet) (λ path. true) env (some cfg)
    ≡ running
        (run_start (some ethernet) (at 900) system)
        (setup_logging (λ path. true) cfg.logging).0
unfolding program new_daemon start_keys start_discovery new_key_manager generate_keys new_announcer
    open_listener insert start_daemon after_new setup_logging setup output_of initial trusting
    load_trusted_peers add_trusted_peer
runs = refl

start_daemon-Authentic_example :
    (k : KeyManager) × Secured.Requires k (run_start (some ethernet) (at 900) system)
    × All
        (λ p. Authentic codec k p.0 p.1)
        (on_packets codec
          ((at 1002, packet) ∷ (at 1003, packet) ∷ [])
          (run_start (some ethernet) (at 900) system))
unfolding set_defaults run_start system_of
start_daemon-Authentic_example =
    Composed.start_daemon-Authentic codec true (some ethernet) (λ path. true) env cfg
      (run_start (some ethernet) (at 900) system) (setup_logging (λ path. true) cfg.logging).0
      ((at 1002, packet) ∷ (at 1003, packet) ∷ []) runs refl refl

-- The announcer that New makes.
abbrev announcer : Announcer
announcer =
    opened_announcer (bytes "255.255.255.255:5354") (bytes "255.255.255.255:5354") (bytes "5354")
      (bytes "node2") (bytes "m2") (pos 30000000000) (some alice) [] (at 900)

-- The address that it answers with.
own_address : local_ips [] ethernet ≡ bytes "10.0.0.1" ∷ []
unfolding local_ips local_addresses format_ip4 format_int digits str_eq
own_address = refl

-- A time message from a host with a clock.
abbrev time_message : TimeAnnounceMessage whole
time_message = record {
  message_type = bytes "TIME_ANNOUNCE";
  message_id = bytes "t1";
  timestamp = pos 1000;
  clock_info = record {
    stratum = pos 1;
    precision = pos 0;
    root_delay = pos 0;
    root_dispersion = pos 0;
    reference_id = bytes "GPS";
    reference_time = pos 1000;
  };
  leap_indicator = pos 0;
  source_id = bytes "gps1";
  signature = none;
}

abbrev sent : Channels whole → Channels whole
sent c = send whole (Delivery.time_message time_message) c

-- A time message that there is room for does not wait.
sent_idle :
    (c : Channels whole)
    → length c.time_messages < capacity
    → c.pending ≡ none
    → ((sent c).pending ≡ none) × (length (sent c).time_messages ≡ length c.time_messages + 1)
unfolding send
sent_idle c h idle =
    let room : ltb (length c.time_messages) capacity ≡ true = ground arith in
    rw room (idle, length-append c.time_messages (time_message ∷ []))

-- So many time messages can be delivered one after the other.
delivering :
    (n : ℕ) (c : Channels whole)
    → c.pending ≡ none
    → length c.time_messages + n ≤ suc capacity
    → (d : Channels whole) × (r : Run whole false c d) × (time_deliveries whole r ≡ n)
unfolding time_deliveries
delivering zero c idle h = (c, done, refl)
delivering (suc zero) c idle h =
    (sent c, next (deliver (Delivery.time_message time_message) idle) done, refl)
delivering (suc (suc n)) c idle h =
    let (idle', longer) = sent_idle c (omega arith) idle in
    let (d, r, count) = delivering (suc n) (sent c) idle' (omega (arith, longer)) in
    (d, next (deliver (Delivery.time_message time_message) idle) r, omega (arith, count))

-- The channels after one announcement.
abbrev after_announcement : Channels whole
after_announcement = send whole (Delivery.announcement message) (new_channels whole)

announced_idle : (after_announcement.pending ≡ none) × (length after_announcement.time_messages ≡ 0)
unfolding send new_channels
announced_idle = (refl, refl)

new_idle : (new_channels whole).pending ≡ none
unfolding new_channels
new_idle = refl

-- An announcement, and then 101 time messages.
abbrev stopped :
    (c : Channels whole) × (r : Run whole false after_announcement c) × (time_deliveries whole r
      ≡ suc capacity)
stopped =
    delivering (suc capacity) after_announcement announced_idle.0 (omega (arith, announced_idle.1))

abbrev stopped_run : Run whole false (new_channels whole) stopped.0
stopped_run = next (deliver (Delivery.announcement message) new_idle) stopped.1

many_deliveries : suc capacity ≤ time_deliveries whole stopped_run
unfolding time_deliveries
many_deliveries = omega (arith, stopped.2)

time_messages-stop_listener_example :
    (m : TimeAnnounceMessage whole) × (stopped.0.pending ≡ some (Delivery.time_message m))
    × (time_deliveries whole stopped_run ≡ suc capacity)
time_messages-stop_listener_example =
    Channels.time_messages-stop_listener whole stopped.0 stopped_run many_deliveries
