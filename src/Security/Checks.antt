-- ===== src/Security/Checks.antt =====
-- What a signature that `Verify` accepts shows, and what it does not show.
use disco.Base.{
  Str, Str_eq, str_eq_iff, ℤ, true, ◌++◌, some, ◌≡◌, arith, ◌≤ℤ◌, int_laws, false, pos, ltb_ℤ,
  leb_ℤ, leb_ℤ→le, ◌⊎◌, ◌^◌, Bool-cases, ◌-ℤ◌, -ℤ_parts, +ℤ_parts, ◌+ℤ◌, wrap64, wrap64_id,
  Option-cases, inl, inr, refl,
}
use disco.Clock.{Time, unix}
use disco.Dict.{lookup}
use disco.Security.{KeyManager, MessageSecurity, sign, verify, is_timely, replay_ttl}

-- A timestamp that is not in the future and at most the replay window old is timely.
timely_within :
    (now : Time) (ts : ℤ) → ts ≤ℤ unix now → unix now ≤ℤ ts +ℤ replay_ttl → is_timely now ts ≡ true
unfolding is_timely
timely_within now ts h k =
    let fits : wrap64 (unix now -ℤ ts) ≡ unix now -ℤ ts =
      wrap64_id _ (omega int_laws) (omega int_laws) in
    rw fits (ground (arith, -ℤ_parts (unix now) ts, +ℤ_parts ts replay_ttl))

-- What the time check shows: not after the instant, and at most 300 seconds before it unless the
-- int64 difference overflows.
abbrev pub InWindow : ℤ → ℤ → Type 0
InWindow now ts = (ts ≤ℤ now) × ((now ≤ℤ ts +ℤ pos 300) ⊎ (ts +ℤ pos (2 ^ 63) ≤ℤ now))

InWindow-split :
    (now ts : ℤ)
    → ltb_ℤ (pos 300) (wrap64 (now -ℤ ts)) ≡ false
    → ts ≤ℤ now
    → (now ≤ℤ ts +ℤ pos 300) ⊎ (ts +ℤ pos (2 ^ 63) ≤ℤ now)
InWindow-split now ts h before = elim (Bool-cases (leb_ℤ (ts +ℤ pos (2 ^ 63)) now)) [
  | inl over ↦ inr (leb_ℤ→le (ts +ℤ pos (2 ^ 63)) now over)
  | inr fits ↦
      let same : wrap64 (now -ℤ ts) ≡ now -ℤ ts =
        wrap64_id _ (omega int_laws)
          (ground (arith, -ℤ_parts now ts, +ℤ_parts ts (pos (2 ^ 63)))) in
      inl (near (rw same at h))
]
  where
    near : ltb_ℤ (pos 300) (now -ℤ ts) ≡ false → now ≤ℤ ts +ℤ pos 300
    near k = ground (arith, -ℤ_parts now ts, +ℤ_parts ts (pos 300))

is_timely-InWindow : (now : Time) (ts : ℤ) → is_timely now ts ≡ true → InWindow (unix now) ts
unfolding is_timely
is_timely-InWindow now ts h =
    let before : ts ≤ℤ unix now = ground arith in
    (before, InWindow-split (unix now) ts (ground arith) before)

timely_now : (now : Time) → is_timely now (unix now) ≡ true
timely_now now = timely_within now (unix now) (omega arith) (omega int_laws)

module _ (mac : Str → Str → Str) where
  -- A message that a peer signs is accepted by whoever trusts the peer with the peer's secret, if
  -- the clock of the receiver is not behind the sender's and at most 300 seconds ahead.
  pub verify-sign :
      (sender receiver : KeyManager) (nonce message : Str) (sent heard : Time)
      → lookup sender.node_id receiver.trusted_peers ≡ some sender.shared_secret
      → unix sent ≤ℤ unix heard
      → unix heard ≤ℤ unix sent +ℤ replay_ttl
      → verify mac receiver heard message (some (sign mac sender nonce sent message)) ≡ true
  unfolding verify sign
  verify-sign sender receiver nonce message sent heard trusted h k =
      rw (trusted, verify) (rw (timely_within heard (unix sent) h k) ((str_eq_iff _ _).1 refl))

  -- An accepted message is signed by a trusted peer: the signature is the MAC of the nonce and the
  -- message under the secret that the receiver holds for the signer, and its timestamp is in the
  -- window.
  pub verify_sound :
      (km : KeyManager) (now : Time) (message : Str) (ms : MessageSecurity)
      → verify mac km now message (some ms) ≡ true
      → (secret : Str) × (lookup ms.signer km.trusted_peers ≡ some secret)
        × (ms.signature ≡ mac secret (ms.nonce ++ message))
        × InWindow (unix now) ms.timestamp
  unfolding verify
  verify_sound km now message ms h = elim (Option-cases (lookup ms.signer km.trusted_peers)) [
    | inl e ↦ absurd (ground arith)
    | inr (secret, e) ↦ (
      secret,
      e,
      ground (arith, str_eq_iff ms.signature (mac secret (ms.nonce ++ message))),
      is_timely-InWindow now ms.timestamp (ground arith),
    )
  ]

  -- The MAC does not cover the timestamp of the signature: once a message is accepted, its
  -- signature with the timestamp replaced by the current second is accepted at every later (and
  -- earlier) instant, however old the message is.
  pub verify-restamped :
      (km : KeyManager) (now later : Time) (message : Str) (ms : MessageSecurity)
      → verify mac km now message (some ms) ≡ true
      → verify mac km later message (some (record ms { timestamp = unix later })) ≡ true
  unfolding verify
  verify-restamped km now later message ms h =
      let (secret, known, signed, timely) = verify_sound km now message ms h in
      restamped secret known signed
    where
      restamped :
          (secret : Str)
          → lookup ms.signer km.trusted_peers ≡ some secret
          → ms.signature ≡ mac secret (ms.nonce ++ message)
          → verify mac km later message (some (record ms { timestamp = unix later })) ≡ true
      restamped secret known signed =
          rw (known, verify) (rw (timely_now later, signed) ((str_eq_iff _ _).1 refl))
