-- ===== src/Cli/Validation.antt =====
-- cmd/disco/internal/cli/validation.go: the checks of arguments. An error is one of the messages.
pub mod Hostnames
use disco.Base.{
  Str, Str_eq, bytes, ℕ, ℤ, pos, Bool, true, false, not, ◌&&◌, ◌||◌, List, [], ◌∷◌, Option, none,
  some, if◌then◌else◌, ltb, leb, ltb_ℤ, length, is_empty, all, any, ◌==◌, ◌%◌, ◌/◌,
}
use disco.Net.{split_host_port, atoi}
use disco.Dns.Text.{split_dots}
use disco.Cli.Text.{is_digit, is_lower, is_upper, in_range, to_lower, is_ip}

pub data Invalid : Type 0 where
  hostname_empty hostname_long label_length hostname_characters : Invalid
  key_length key_characters : Invalid
  address_format address_ip port_number port_range : Invalid
  path_unresolved config_inaccessible config_irregular : Invalid
  target_empty target_long : Invalid
  service_empty service_long service_characters : Invalid

abbrev pub max_hostname_length : ℕ
max_hostname_length = 253

abbrev pub max_label_length : ℕ
max_label_length = 63

abbrev pub is_alnum : ℕ → Bool
is_alnum c = is_lower c || is_digit c

abbrev pub is_inner : ℕ → Bool
is_inner c = is_alnum c || (c == 45)

-- The rest of `([a-z0-9-]*[a-z0-9])?$`, and the same of `[a-z0-9-]*[a-z0-9]$`.
unfoldable pub ends_well : Str → Bool
ends_well [] = true
ends_well (c ∷ []) = is_alnum c
ends_well (c ∷ d ∷ s) = is_inner c && ends_well (d ∷ s)

-- `^[a-z0-9]([a-z0-9-]*[a-z0-9])?$`
unfoldable pub is_label : Str → Bool
unfolding ends_well
is_label [] = false
is_label (c ∷ s) = is_alnum c && ends_well s

-- The loop over the labels.
unfoldable pub validate_labels : List Str → Option Invalid
validate_labels [] = none
validate_labels (part ∷ parts) =
    let rest = validate_labels parts in
    if is_empty part || ltb max_label_length (length part)
    then some label_length
    else if not (is_label (to_lower part))
    then some hostname_characters
    else rest

unfoldable pub validate_hostname : Str → Option Invalid
unfolding validate_labels
validate_hostname hostname =
    if is_empty hostname
    then some hostname_empty
    else if ltb max_hostname_length (length hostname)
    then some hostname_long
    else validate_labels (split_dots hostname)

abbrev pub is_hex_lower : ℕ → Bool
is_hex_lower c = is_digit c || in_range 97 102 c

abbrev pub is_hex : ℕ → Bool
is_hex c = is_hex_lower c || in_range 65 70 c

unfoldable pub validate_hex_key : Str → ℕ → Option Invalid
validate_hex_key key expected_len =
    if not (length key == expected_len)
    then some key_length
    else if is_empty key || not (all is_hex key)
    then some key_characters
    else none

unfoldable pub is_hex_prefix : Str → Bool
is_hex_prefix s = if is_empty s || leb 32 (length s) then false else all is_hex_lower s

unfoldable pub validate_port : ℤ → Option Invalid
validate_port port = if ltb_ℤ port (pos 1) || ltb_ℤ (pos 65535) port then some port_range else none

-- The number of a port text, once the host is known to be an address.
unfoldable pub validate_port_text : ℤ × Bool → Option Invalid
unfolding validate_port
validate_port_text (port, true) = validate_port port
validate_port_text (port, false) = some port_number

unfoldable pub validate_broadcast_addr : (Str → Bool) → Str → Option Invalid
unfolding validate_port_text
validate_broadcast_addr is_ip6 addr = elim (split_host_port addr) [
  | none ↦ some address_format
  | some (host, port) ↦
      (if not (is_ip is_ip6 host) then some address_ip else validate_port_text (atoi port))
]

-- What os.Stat says of a path.
pub record FileInfo : Type 0 where
  pub is_regular : Bool
  pub permissions : ℕ

-- ValidateConfigPath, where `absolute` is filepath.Abs and `stat` os.Stat; the second result says
-- whether it warns that the file is world-writable.
unfoldable pub validate_config_path :
    (Str → Option Str) → (Str → Option FileInfo) → Str → Option Invalid × Bool
validate_config_path absolute stat path = elim (absolute path) [
  | none ↦ (some path_unresolved, false)
  | some abs_path ↦ elim (stat abs_path) [
    | none ↦ (some config_inaccessible, false)
    | some info ↦
        (if not info.is_regular
          then (some config_irregular, false)
          else (none, info.permissions / 2 % 2 == 1))
  ]
]

unfoldable pub validate_ping_target : (Str → Bool) → Str → Option Invalid
unfolding validate_hostname
validate_ping_target is_ip6 target =
    if is_empty target
    then some target_empty
    else if ltb max_hostname_length (length target)
    then some target_long
    else if is_ip is_ip6 target
    then none
    else validate_hostname target

-- `^[a-z][a-z0-9-]*[a-z0-9]$`
unfoldable pub is_service_name : Str → Bool
unfolding ends_well
is_service_name [] = false
is_service_name (c ∷ s) = is_lower c && not (is_empty s) && ends_well s

unfoldable pub validate_service_name : Str → Option Invalid
unfolding is_service_name
validate_service_name name =
    if is_empty name
    then some service_empty
    else if ltb max_label_length (length name)
    then some service_long
    else if not (is_service_name name)
    then some service_characters
    else none
