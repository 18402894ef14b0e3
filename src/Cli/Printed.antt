-- ===== src/Cli/Printed.antt =====
-- What commands of cmd/disco/commands print: check.go (printCheckResults), hosts.go
-- (printHostDetail) and key.go, as tables and lines. `terminal` says whether the standard output is
-- one; the errors that `-v` adds to the checks are left out.
use disco.Base.{
  Str, bytes, ℕ, pos, suc, Bool, true, false, List, [], ◌∷◌, ◌++◌, Option, none, some,
  if◌then◌else◌, is_empty, length,
}
use disco.Dict.{Dict}
use disco.Net.{format_int}
use disco.Protocol.{HostHealth}
use disco.Cli.Check.{ServiceCheck, summary}
use disco.Cli.Hosts.{short_id}
use disco.Cli.Keys.{Keys}
use disco.Cli.Output.{
  Table, new_table, add_row, colorize, colorize_status, green, red, join_strings,
}

-- `%d` of a number that is not negative, and `%v` of a truth value.
abbrev pub decimal : ℕ → Str
decimal n = format_int (pos n)

abbrev pub truth : Bool → Str
truth true = bytes "true"
truth false = bytes "false"

unfoldable pub check_row : Bool → ServiceCheck → List Str
check_row terminal c =
    short_id c.machine_id
    ∷ c.host
    ∷ c.service
    ∷ c.address
    ∷ format_int c.port
    ∷ (if c.reachable
        then colorize terminal (bytes "UP") green
        else colorize terminal (bytes "DOWN") red)
    ∷ []

unfoldable pub check_rows : Bool → List ServiceCheck → Table → Table
unfolding check_row
check_rows terminal [] t = t
check_rows terminal (c ∷ cs) t = check_rows terminal cs (add_row (check_row terminal c) t)

unfoldable pub check_summary : Bool → ℕ × ℕ → ℕ → Str
check_summary terminal (up, down) total =
    bytes "Summary: "
    ++ colorize terminal (decimal up) green
    ++ bytes " up, "
    ++ colorize terminal (decimal down) red
    ++ bytes " down, "
    ++ decimal total
    ++ bytes " total"

-- printCheckResults: the table, and the line below it.
unfoldable pub check_results : Bool → List ServiceCheck → Table × Str
unfolding check_rows check_summary
check_results terminal checks =
    let headers =
      bytes "ID"
      ∷ bytes "HOST"
      ∷ bytes "SERVICE"
      ∷ bytes "ADDRESS"
      ∷ bytes "PORT"
      ∷ bytes "STATUS"
      ∷ [] in
    (
      check_rows terminal checks (new_table headers),
      check_summary terminal (summary checks) (length checks),
    )

unfoldable pub service_lines : Dict Str Str → List Str
service_lines [] = []
service_lines ((svc, proto) ∷ rest) =
    (bytes "  - " ++ svc ++ bytes " (" ++ proto ++ bytes ")") ∷ service_lines rest

-- printHostDetail
unfoldable pub host_detail : Bool → HostHealth → List Str
unfolding service_lines
host_detail terminal h =
    ((bytes "Hostname:    " ++ h.hostname) ∷ [])
    ++ (if is_empty h.machine_id then [] else (bytes "Machine ID:  " ++ h.machine_id) ∷ [])
    ++ ((bytes "Addresses:   " ++ join_strings h.addresses (bytes ", "))
        ∷ (bytes "Status:      " ++ colorize_status terminal h.status)
        ∷ (bytes "Last Seen:   " ++ h.last_seen_ago)
        ∷ (bytes "Static:      " ++ truth h.is_static)
        ∷ [])
    ++ elim h.services [
      | [] ↦ []
      | svc ∷ rest ↦ [] ∷ bytes "Services:" ∷ service_lines (svc ∷ rest)
    ]

-- generateKeys, once the keys are saved.
unfoldable pub generated_lines : Str → Keys → List Str
generated_lines path k =
    (bytes "Keys generated and saved to " ++ path)
    ∷ (bytes "Public Key: " ++ k.public_key)
    ∷ (bytes "Private Key: " ++ k.private_key)
    ∷ []
    ∷ bytes "Share the public key with peers you want to trust."
    ∷ bytes "Keep the private key secret!"
    ∷ []

-- The loop of showKeys over the trusted peers, counted from one.
unfoldable pub peer_lines : ℕ → List Str → List Str
peer_lines n [] = []
peer_lines n (key ∷ keys) = (bytes "  " ++ decimal n ++ bytes ": " ++ key) ∷ peer_lines (suc n) keys

-- showKeys, once the keys are loaded.
unfoldable pub key_lines : Keys → List Str
unfolding peer_lines
key_lines k =
    bytes "Public Key:"
    ∷ k.public_key
    ∷ []
    ∷ bytes "Private Key:"
    ∷ k.private_key
    ∷ []
    ∷ (bytes "Trusted Peers (" ++ decimal (length k.public_keys) ++ bytes "):")
    ∷ peer_lines 1 k.public_keys

-- addTrustedKey, once the keys are saved.
unfoldable pub added_lines : Str → Keys → List Str
added_lines pub_key k =
    bytes "Added trusted peer:"
    ∷ pub_key
    ∷ []
    ∷ (bytes "Total trusted peers: " ++ decimal (length k.public_keys))
    ∷ []

-- The path of the key file: the last argument if there is one.
unfoldable pub key_path : Option Str → Str
key_path none = bytes "/etc/disco/keys.json"
key_path (some path) = path
