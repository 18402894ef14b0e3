-- ===== src/Startup/Secured.antt =====
-- A daemon that is configured to require signatures.
use disco.Base.{
  Str, Bool, true, List, [], ◌∷◌, Option, none, some, ◌≡◌, refl, sym, ◌∙◌, ap, subst, All, arith,
  bytes, ◌++◌, Option-cases, inl, inr,
}
use disco.Base.Options.{require, >>=-some, some_eq}
use disco.Clock.{Time}
use disco.Timesync.Floats.{Floats}
use disco.Config.{Config}
use disco.Security.{KeyManager}
use disco.Net.{split_host_port}
use disco.Discovery.{Codec}
use disco.Discovery.Announcer.{new_announcer}
use disco.Discovery.Listener.{Listener, Delivery, open_listener, receive}
use disco.Discovery.Delivery.{Authentic, receive-Authentic}
use disco.Startup.{Env, System, new_daemon, start_keys, start_discovery, system_of, Discovering}
use disco.Startup.Run.{on_packet, on_packets, heard, process_delivered, process_delivery}

-- A listener that NewListener makes for required signatures has keys.
open_listener-keys :
    (listens : Str → Bool) (addr : Str) (km : Option KeyManager) (l : Listener)
    → open_listener listens addr km true ≡ some l
    → (k : KeyManager) × (l.key_manager ≡ some k) × (l.require_signed ≡ true)
unfolding open_listener
open_listener-keys listens addr none l h = absurd (ground arith)
open_listener-keys listens addr (some k) l h =
    let (parts, e, rest) = >>=-some (split_host_port addr) _ h in
    let (u, listening, made) = >>=-some (require (listens (bytes "0.0.0.0:" ++ parts.1))) _ rest in
    (
      k,
      ap (λ x. x.key_manager) (sym (some_eq made)),
      ap (λ x. x.require_signed) (sym (some_eq made)),
    )

module _ {fl : Floats} where
  -- The system has a listener that has the keys and requires signatures.
  abbrev pub Requires : KeyManager → System fl → Type 0
  Requires k s =
      (l : Listener) × (s.listener ≡ some l) × (l.key_manager ≡ some k) × (l.require_signed ≡ true)

  abbrev listener_of : Option (Discovering fl) → Option Listener
  listener_of parts = elim parts [ none ↦ none | some p ↦ some p.listener ]

  start_discovery-Requires :
      (env : Env) (cfg : Config fl) (hostname : Str) (km : Option KeyManager)
      (parts : Option (Discovering fl))
      → cfg.discovery.enabled ≡ true
      → cfg.security.require_signed ≡ true
      → start_discovery fl env cfg hostname km ≡ some parts
      → (p : Discovering fl) × (parts ≡ some p)
        × ((k : KeyManager) × (p.listener.key_manager ≡ some k)
            × (p.listener.require_signed ≡ true))
  unfolding start_discovery
  start_discovery-Requires env cfg hostname km parts on r h =
      let (a, announcing, rest) =
        >>=-some
          (new_announcer env.resolve env.opens cfg.network.broadcast_addr hostname env.machine_id
            cfg.daemon.broadcast_interval km cfg.network.interfaces env.now)
          _ (rw (on, start_discovery) at h) in
      let (l, listening, made) =
        >>=-some
          (open_listener env.listens cfg.network.broadcast_addr km cfg.security.require_signed) _
          rest in
      (
        _,
        sym (some_eq made),
        open_listener-keys env.listens cfg.network.broadcast_addr km l (rw r at listening),
      )

  receive_keeps :
      (codec : Codec fl) (now : Time) (packet : Str) (l : Listener)
      → ((receive codec now packet l).0.key_manager ≡ l.key_manager)
        × ((receive codec now packet l).0.require_signed ≡ l.require_signed)
  unfolding receive
  receive_keeps codec now packet l = elim (Option-cases (codec.decode_raw packet)) [
    | inl e ↦ rw (e, receive) (refl, refl)
    | inr (raw, e) ↦ rw (e, receive) (refl, refl)
  ]

  listener-process_delivered :
      (now : Time) (d : Option (Delivery fl)) (s : System fl)
      → (process_delivered now d s).listener ≡ s.listener
  unfolding process_delivered process_delivery
  listener-process_delivered now none s = refl
  listener-process_delivered now (some (Delivery.announcement msg)) s = refl
  listener-process_delivered now (some (Delivery.time_message msg)) s =
      elim (Option-cases s.time_sync) [ inl e ↦ rw e refl | inr (ts, e) ↦ rw e refl ]
  listener-process_delivered now (some (Delivery.location_message msg)) s = refl

  -- What a packet is to a system that requires signatures: authentic, and the system still requires
  -- them.
  on_packet-Requires :
      (codec : Codec fl) (k : KeyManager) (now : Time) (packet : Str) (s : System fl)
      → Requires k s
      → Authentic codec k now (on_packet codec now packet s).1
        × Requires k (on_packet codec now packet s).0
  unfolding on_packet
  on_packet-Requires codec k now packet s (l, here_is, keys, signed) =
      let l' = (receive codec now packet l).0 in
      let (same_keys, same_signed) = receive_keeps codec now packet l in
      subst
        (λ o.
          Authentic codec k now (heard codec now packet s o).1
          × Requires k (heard codec now packet s o).0)
        (sym here_is)
        (
          receive-Authentic codec k l now packet keys signed,
          (
            l',
            listener-process_delivered now (receive codec now packet l).1
                (record s { listener = some l' }),
            same_keys ∙ keys,
            same_signed ∙ signed,
          ),
        )

  -- Whatever packets come in, what the listener delivers of them is authentic.
  pub on_packets-Authentic :
      (codec : Codec fl) (k : KeyManager) (packets : List (Time × Str)) (s : System fl)
      → Requires k s
      → All (λ p. Authentic codec k p.0 p.1) (on_packets codec packets s)
  unfolding on_packets
  on_packets-Authentic codec k [] s r = tt
  on_packets-Authentic codec k ((now, packet) ∷ rest) s r =
      let (authentic, still) = on_packet-Requires codec k now packet s r in
      (authentic, on_packets-Authentic codec k rest (on_packet codec now packet s).0 still)

  -- A daemon that New makes of a configuration with discovery on and signatures required.
  pub new_daemon-Requires :
      (env : Env) (cfg : Config fl) (s : System fl)
      → new_daemon fl env cfg ≡ some s
      → cfg.discovery.enabled ≡ true
      → cfg.security.require_signed ≡ true
      → (k : KeyManager) × Requires k s
  unfolding new_daemon system_of
  new_daemon-Requires env cfg s made on r =
      let (hostname, named, with_name) = >>=-some env.hostname _ made in
      let (km, keyed, with_keys) = >>=-some (start_keys fl env cfg) _ with_name in
      let (parts, started, built) = >>=-some (start_discovery fl env cfg hostname km) _ with_keys in
      let (p, some_parts, (k, keys, signed)) =
        start_discovery-Requires env cfg hostname km parts on r started in
      let listening : s.listener ≡ some p.listener =
        ap (λ x. x.listener) (sym (some_eq built)) ∙ ap listener_of some_parts in
      (k, (p.listener, listening, keys, signed))
