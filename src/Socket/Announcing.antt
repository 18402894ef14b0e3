-- ===== src/Socket/Announcing.antt =====
-- The SERVICE_ANNOUNCE query of internal/daemon/socket.go.
use disco.Base.{
  Str_eq, pos, false, ◌||◌, none, some, ◌≡◌, refl, arith, Bool-cases, Option-cases, inl, inr,
  is_empty, ◌≤ℤ◌, ltb_ℤ, leb_ℤ,
}
use disco.Clock.{Time}
use disco.Protocol.{Query, response_ok, ok_response, new_ok_response, new_error_response}
use disco.Store.{RecordStore}
use disco.Timesync.Floats.{Floats}
use disco.Socket.{Announce}
use disco.Socket.Handlers.{handle_service_announce}

-- A successful SERVICE_ANNOUNCE has a name and a port from 1 to 65535, its callback reports no error,
-- and it leaves the store that the callback leaves.
pub handle_service_announce-ok :
    (fl : Floats) (now : Time) (q : Query) (announce : Announce) (s : RecordStore)
    → (handle_service_announce fl now q (some announce) s).1.response_type ≡ response_ok
    → (is_empty q.name ≡ false)
      × (pos 1 ≤ℤ q.port)
      × (q.port ≤ℤ pos 65535)
      × ((announce q.name q.port q.aliases s).1 ≡ none)
      × ((handle_service_announce fl now q (some announce) s).0
          ≡ (announce q.name q.port q.aliases s).0)
unfolding handle_service_announce new_error_response new_ok_response ok_response
handle_service_announce-ok fl now q announce s h = elim (Bool-cases (is_empty q.name)) [
  | inl e ↦ absurd (ground arith)
  | inr e ↦ elim (Bool-cases (leb_ℤ q.port (pos 0) || ltb_ℤ (pos 65535) q.port)) [
    | inl g ↦ absurd (ground arith)
    | inr g ↦ elim (Option-cases (announce q.name q.port q.aliases s).1) [
      | inl ok ↦ (e, ground arith, ground arith, ok, rw (e, g) refl)
      | inr (text, failed) ↦ absurd (ground arith)
    ]
  ]
]
