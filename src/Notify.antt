-- ===== src/Notify.antt =====
-- internal/notify/notify.go: the text for the service manager, and the socket that it goes to.
use disco.Base.{Str, Str_eq, bytes, Bool, [], ◌∷◌, Option, none, some, if◌then◌else◌, ◌==◌}

-- The name of a socket of the abstract namespace starts with a zero byte in place of the `@`.
unfoldable pub socket_name : Str → Str
socket_name [] = []
socket_name (c ∷ rest) = if c == 64 then 0 ∷ rest else c ∷ rest

-- `send`, with $NOTIFY_SOCKET (empty if it is not set) and whether the socket takes a connection: the
-- socket and the text that is written to it.
unfoldable pub send : (Str → Bool) → Str → Str → Option (Str × Str)
unfolding socket_name
send dials [] payload = none
send dials (c ∷ rest) payload =
    let socket = socket_name (c ∷ rest) in if dials socket then some (socket, payload) else none

unfoldable pub ready : (Str → Bool) → Str → Option (Str × Str)
unfolding send
ready dials env = send dials env (bytes "READY=1\n")

unfoldable pub stopping : (Str → Bool) → Str → Option (Str × Str)
unfolding send
stopping dials env = send dials env (bytes "STOPPING=1\n")
