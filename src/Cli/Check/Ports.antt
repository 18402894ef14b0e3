-- ===== src/Cli/Check/Ports.antt =====
-- The ports that `disco check` (cmd/disco/commands/check.go) reads from a daemon's answer.
use disco.Base.{Str, ℕ, pos, false, ◌≡◌, refl, ◌<◌, ◌^◌}
use disco.Net.{contains, colon, open_bracket, close_bracket, host_port}
use disco.Net.Laws.{split_host_port-host_port, atoi-format_int}
use disco.Cli.Check.{parse_service_addr, port_or_zero}

-- The value that a daemon stores for a service, an address without a colon or brackets and a port, is
-- taken apart into the two again.
pub parse_service_addr-host_port :
    (addr : Str) (port : ℕ)
    → contains colon addr ≡ false
    → contains open_bracket addr ≡ false
    → contains close_bracket addr ≡ false
    → port < 2 ^ 63
    → parse_service_addr (host_port addr (pos port)) ≡ (pos port, addr)
unfolding parse_service_addr port_or_zero
parse_service_addr-host_port addr port p q r h =
    rw (split_host_port-host_port addr port p q r, parse_service_addr)
      (rw (atoi-format_int port h) refl)
