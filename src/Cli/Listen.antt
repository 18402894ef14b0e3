-- ===== src/Cli/Listen.antt =====
-- cmd/disco/commands/listen.go: what `disco listen` shows of the announcements, and the paths and
-- addresses that cmd/disco/commands/root.go and listen.go take from flags and the configuration.
pub mod Tags
use disco.Base.{
  Str, Str_eq, bytes, ℕ, ℤ, Bool, ◌&&◌, true, false, not, List, [], ◌∷◌, ◌++◌, Option, none, some,
  if◌then◌else◌, leb, length, is_empty, is_none, ltb,
}
use disco.Base.Options.{◌>>=◌, ◌>>◌, require}
use disco.Security.Loading.{KeysRead, load_key_manager}
use disco.Discovery.{BroadcastMessage, ServiceInfo}
use disco.Security.{KeyManager, MessageSecurity}
use disco.Discovery.Listener.{Listener, open_listener}
use disco.Cli.Output.{prefix}

-- The tag of printListenText; `key_file` is the flag.
pub data Tag : Type 0 where
  no_tag signed verified : Tag

unfoldable pub sig_tag : Str → Option MessageSecurity → Tag
sig_tag key_file none = no_tag
sig_tag key_file (some ms) = if is_empty key_file then signed else verified

unfoldable pub tag_text : Tag → Str
tag_text no_tag = []
tag_text signed = bytes " [signed]"
tag_text verified = bytes " [verified]"

pub record ListenServiceInfo : Type 0 where
  pub name : Str
  pub port : ℤ
  pub aliases : List Str

-- The event that printListenJSON prints; the time is the timestamp of the message.
pub record ListenEvent : Type 0 where
  pub time : ℤ
  pub hostname : Str
  pub machine_id : Str
  pub addresses : List Str
  pub services : List ListenServiceInfo
  pub signed : Bool
  pub verified : Option Bool

unfoldable pub listen_services : List ServiceInfo → List ListenServiceInfo
listen_services [] = []
listen_services (s ∷ rest) =
    record { name = s.name; port = s.port; aliases = s.aliases } ∷ listen_services rest

unfoldable pub listen_event : Str → BroadcastMessage → ListenEvent
unfolding listen_services
listen_event key_file msg = record {
  time = msg.timestamp;
  hostname = msg.hostname;
  machine_id = msg.machine_id;
  addresses = msg.ips;
  services = listen_services msg.services;
  signed = not (is_none msg.signature);
  verified = if is_empty key_file then none else some (not (is_none msg.signature));
}

-- formatAddrs
unfoldable pub joined_addrs : Bool → List Str → Str
joined_addrs first [] = []
joined_addrs first (ip ∷ ips) = (if first then [] else bytes ", ") ++ ip ++ joined_addrs false ips

unfoldable pub format_addrs : List Str → Str
unfolding joined_addrs
format_addrs [] = []
format_addrs (ip ∷ ips) = bytes "  " ++ joined_addrs true (ip ∷ ips)

-- The name of printListenText, with the start of the machine id.
unfoldable pub listen_name : BroadcastMessage → Str
listen_name msg =
    let short = if leb (length msg.machine_id) 8 then msg.machine_id else prefix 8 msg.machine_id in
    msg.hostname ++ (if is_empty msg.machine_id then [] else bytes " (" ++ short ++ bytes ")")

-- resolveBroadcastAddr; `configured` is the broadcast address of a configuration that is loaded.
unfoldable pub resolve_broadcast_addr : Str → Str → (Str → Option Str) → Str
resolve_broadcast_addr flag config_path configured =
    let default = bytes "255.255.255.255:5354" in
    if not (is_empty flag)
    then flag
    else if is_empty config_path
    then default
    else elim (configured config_path) [
      | none ↦ default
      | some addr ↦ (if is_empty addr then default else addr)
    ]

-- getSocketPath of root.go, with DISCO_SOCKET and the socket path of a loaded configuration.
unfoldable pub get_socket_path : Str → Str → Str → (Str → Option Str) → Str
get_socket_path flag env config_path configured =
    let default = bytes "/run/disco/disco.sock" in
    if not (is_empty flag)
    then flag
    else if not (is_empty env)
    then env
    else if is_empty config_path
    then default
    else elim (configured config_path) [
      | none ↦ default
      | some path ↦ (if is_empty path then default else path)
    ]

-- runListen, up to its loop: the listener, or none for an error. `stat` and `read` are those of
-- LoadKeyManager, `listens` that of NewListener.
unfoldable pub run_listen :
    (Str → Option ℕ) → (Str → KeysRead) → (Str → Bool) → Bool → Str → Str → Option Listener
run_listen stat read listens require_signed key_file addr = do
  require (not (require_signed && is_empty key_file))
  km ←
      if is_empty key_file
      then some none
      else elim (load_key_manager stat read key_file) [ none ↦ none | some k ↦ some (some k) ]
  open_listener listens addr km require_signed
