-- ===== src/Dns/Listening.antt =====
-- internal/dns/server.go (Start): the names that the server handles and the addresses that it
-- listens on. A listener that fails only writes a log line.
use disco.Base.{Str, bytes, ℤ, List, [], ◌∷◌, ◌++◌, if◌then◌else◌}
use disco.Config.{DnsConfig}
use disco.Net.{host_port}

-- The handlers, each with the name that it is for.
pub data Handler : Type 0 where
  query_handler reverse_handler : Handler

unfoldable pub handlers : DnsConfig → List (Str × Handler)
handlers cfg =
    (cfg.domain ++ bytes ".", query_handler) ∷ (bytes "in-addr.arpa.", reverse_handler) ∷ []

unfoldable pub bind_addrs : ℤ → List Str → List Str
bind_addrs port [] = []
bind_addrs port (addr ∷ addrs) = host_port addr port ∷ bind_addrs port addrs

unfoldable pub start : DnsConfig → List Str
unfolding bind_addrs
start cfg = if cfg.enabled then bind_addrs cfg.port cfg.bind_addresses else []
