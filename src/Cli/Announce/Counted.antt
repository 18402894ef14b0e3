-- ===== src/Cli/Announce/Counted.antt =====
-- How often `disco announce` announces, and what.
use disco.Base.{
  ℕ, ℤ, Option, some, eqb_ℤ, pos, suc, Bool, true, false, not, ◌&&◌, List, [], ◌∷◌, none, ◌≡◌, refl,
  arith, ◌≤◌, ◌<◌, ◌+◌, length, is_empty, ltb_ℤ, leb_ℤ, if◌then◌else◌, ◌≤ℤ◌, ◌<ℤ◌, ◌⊎◌, Bool-cases,
  inl, inr,
}
use disco.Clock.{Time}
use disco.Discovery.{BroadcastMessage}
use disco.Cli.Validation.{Invalid, validate_port}
use disco.Cli.Announce.{
  Signal, tick, announce_loop, send_announcements, renewed, AnnounceFlags, validate_announce_args,
  build_services, port_check, service_check, AnnounceError, wrapped, invalid_hostname,
  invalid_service, invalid_port,
}

-- Only ticks, no interrupt.
abbrev pub ticks : List Time → List Signal
ticks [] = []
ticks (t ∷ ts) = tick t ∷ ticks ts

-- After `sent` of at least `n` wanted messages, with a tick for each that is left and one more.
loop-counts :
    (n sent : ℕ) (ts : List Time) (msg : BroadcastMessage)
    → 1 ≤ n
    → sent ≤ n
    → n < sent + length ts
    → (length (announce_loop (pos n) sent (ticks ts) msg).0 + sent ≡ n)
      × ((announce_loop (pos n) sent (ticks ts) msg).1 ≡ true)
unfolding announce_loop
loop-counts n sent [] msg some_wanted h enough = absurd (omega arith)
loop-counts n sent (t ∷ ts) msg some_wanted h enough =
    let wanted : ltb_ℤ (pos 0) (pos n) ≡ true = ground arith in
    elim (Bool-cases (leb_ℤ (pos n) (pos sent))) [
      | inl e ↦ rw (wanted, e) (ground arith, refl)
      | inr e ↦
          let (more, returned) =
            loop-counts n (suc sent) ts (renewed t msg) some_wanted (ground arith) (omega arith) in
          rw (wanted, e) (omega (arith, more), returned)
    ]

-- With a count of at least one, and enough ticks and no interrupt, the command returns, and has sent
-- as many messages as the count says.
pub send_announcements-counts :
    (n : ℕ) (ts : List Time) (msg : BroadcastMessage)
    → 1 ≤ n
    → n ≤ length ts
    → (length (send_announcements (pos n) (ticks ts) msg).0 ≡ n)
      × ((send_announcements (pos n) (ticks ts) msg).1 ≡ true)
unfolding send_announcements
send_announcements-counts n ts msg h enough =
    let (sent, returned) = loop-counts n 1 ts msg h h (omega arith) in
    (omega (arith, sent), returned)

-- Both parts of a check pass.
wrapped-none :
    (wrap : Invalid → AnnounceError) (o : Option Invalid) (rest : Option AnnounceError)
    → wrapped wrap o rest ≡ none
    → (o ≡ none) × (rest ≡ none)
wrapped-none wrap none rest h = (refl, h)
wrapped-none wrap (some e) rest h = absurd (ground arith)

if_none :
    (b : Bool) (e : AnnounceError) (rest : Option AnnounceError)
    → (if b then some e else rest) ≡ none
    → (b ≡ false) × (rest ≡ none)
if_none true e rest h = absurd (ground arith)
if_none false e rest h = (refl, h)

port_checked : (port : ℤ) → validate_port port ≡ none → (pos 1 ≤ℤ port) × (port ≤ℤ pos 65535)
unfolding validate_port
port_checked port h = (ground arith, ground arith)

-- What passes the checks announces the service that is named, at its port, if the port is not
-- negative: a negative port is not refused, and the service is left out.
pub build_services-validated :
    (f : AnnounceFlags)
    → validate_announce_args f ≡ none
    → is_empty f.service ≡ false
    → ((pos 1 ≤ℤ f.port)
        × (f.port ≤ℤ pos 65535)
        × (build_services f
            ≡ record { name = f.service; port = f.port; addr = []; aliases = f.aliases } ∷ []))
      ⊎ ((f.port <ℤ pos 0) × (build_services f ≡ []))
unfolding build_services validate_announce_args
build_services-validated f h named =
    let (named_host, after_name) = if_none (is_empty f.hostname) _ _ h in
    let (valid_host, after_host) = wrapped-none invalid_hostname _ _ after_name in
    let (some_port, after_port) =
      if_none (not (is_empty f.service) && eqb_ℤ f.port (pos 0)) _ _ after_host in
    let (some_service, services) =
      if_none (ltb_ℤ (pos 0) f.port && is_empty f.service) _ (service_check f) after_port in
    let (valid_service, port_part) =
      wrapped-none invalid_service _ (port_check f) (rw named at services) in
    elim (Bool-cases (ltb_ℤ (pos 0) f.port)) [
      | inl e ↦
          let (valid_port, nothing) =
            wrapped-none invalid_port (validate_port f.port) none (rw e at port_part) in
          let (low, high) = port_checked f.port valid_port in inl (low, high, rw (named, e) refl)
      | inr e ↦
          let other : eqb_ℤ f.port (pos 0) ≡ false = rw named at some_port in
          inr (ground arith, rw (named, e) refl)
    ]
