-- ===== src/Discovery/Interfaces.antt =====
-- The network interfaces as the announcer (internal/discovery/broadcast.go) and the GPS broadcaster
-- (cmd/gps-broadcaster/main.go) see them, and the addresses that a packet is sent to. A write to a
-- socket is seen as the addresses that the packet really goes to.
pub mod Subnet
pub mod Covered
pub mod Targets
use disco.Base.{
  Str, Str_eq, bytes, ℕ, zero, suc, Bool, true, false, not, ◌&&◌, ◌||◌, List, [], ◌∷◌, ◌++◌, Option,
  none, some, if◌then◌else◌, any, select, ◌≟◌, ◌==◌, ◌+◌, ◌*◌, ◌/◌, ◌%◌, ◌-◌, length, map, pos,
}
use disco.Net.{format_int, colon}

-- `len(a.ifaceFilter) == 0`
abbrev pub is_nil {ℓ} : {A : Type ℓ} → List A → Bool
is_nil [] = true
is_nil (x ∷ xs) = false

-- An address of an interface: the four bytes if it is an IPv4 address, and the mask of a *net.IPNet
-- (none for a *net.IPAddr).
pub record Address : Type 0 where
  pub ip4 : Option (List ℕ)
  pub mask : List ℕ
  pub is_loopback : Bool

-- The addresses are `none` when the system fails to list them.
pub record Interface : Type 0 where
  pub name : Str
  pub is_up : Bool
  pub is_loopback : Bool
  pub addresses : Option (List Address)

-- `ip.String()` of an IPv4 address.
unfoldable pub format_ip4 : List ℕ → Str
format_ip4 [] = []
format_ip4 (n ∷ []) = format_int (pos n)
format_ip4 (n ∷ next ∷ rest) = format_int (pos n) ++ 46 ∷ format_ip4 (next ∷ rest)

-- The bitwise or of the lowest bits.
unfoldable pub or_bit : ℕ → ℕ → ℕ
or_bit a b = if (a % 2 == 1) || (b % 2 == 1) then 1 else 0

unfoldable pub or_bits : ℕ → ℕ → ℕ → ℕ
or_bits zero a b = 0
or_bits (suc k) a b = or_bit a b + 2 * or_bits k (a / 2) (b / 2)

-- `ip[i] | ^mask[i]`, for each byte.
unfoldable pub broadcast_bytes : List ℕ → List ℕ → List ℕ
unfolding or_bits
broadcast_bytes [] mask = []
broadcast_bytes (a ∷ ip) [] = []
broadcast_bytes (a ∷ ip) (m ∷ mask) = or_bits 8 a (255 - m) ∷ broadcast_bytes ip mask

-- The broadcast address of the network of an address, if there is one.
unfoldable pub address_target : Address → Option (List ℕ)
unfolding broadcast_bytes
address_target a = elim a.ip4 [
  | none ↦ none
  | some ip ↦ (if length a.mask == 4 then some (broadcast_bytes ip a.mask) else none)
]

unfoldable pub address_targets : List Address → List (List ℕ)
unfolding address_target
address_targets [] = []
address_targets (a ∷ rest) = elim (address_target a) [
  | none ↦ address_targets rest
  | some t ↦ t ∷ address_targets rest
]

abbrev pub is_filtered : List Str → Str → Bool
is_filtered filter name = not (is_nil filter) && not (any (λ n. n ≟ name) filter)

unfoldable pub is_skipped : List Str → Interface → Bool
is_skipped filter iface = not iface.is_up || iface.is_loopback || is_filtered filter iface.name

-- The loop over the interfaces.
unfoldable pub targets : List Str → List Interface → List (List ℕ)
unfolding address_targets is_skipped
targets filter [] = []
targets filter (iface ∷ rest) =
    let others = targets filter rest in
    if is_skipped filter iface
    then others
    else elim iface.addresses [ none ↦ others | some addrs ↦ address_targets addrs ++ others ]

-- The texts of the targets, without those that net.ResolveUDPAddr refuses.
unfoldable pub target_texts : (Str → Bool) → Str → List (List ℕ) → List Str
unfolding format_ip4
target_texts resolves port ts = select resolves (map (λ t. format_ip4 t ++ colon ∷ port) ts)

-- A *net.UDPConn: one made by DialUDP has a peer.
pub record UdpConn : Type 0 where
  pub peer : Option Str

-- `WriteTo` and `WriteToUDP`: an error on a connection with a peer (net.ErrWriteToConnected).
unfoldable pub write_to : UdpConn → Str → List Str
write_to conn address = elim conn.peer [ none ↦ address ∷ [] | some peer ↦ [] ]

-- `Write`: an error on a connection without one.
unfoldable pub write : UdpConn → List Str
write conn = elim conn.peer [ none ↦ [] | some peer ↦ peer ∷ [] ]

unfoldable pub write_all : UdpConn → List Str → List Str
unfolding write_to
write_all conn [] = []
write_all conn (a ∷ rest) = write_to conn a ++ write_all conn rest
