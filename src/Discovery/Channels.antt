-- ===== src/Discovery/Channels.antt =====
-- The three channels of the Listener (internal/discovery/broadcast.go) and the loops of the daemon
-- that read them (internal/daemon/daemon.go), as steps: the listener's one goroutine waits while the
-- channel of the kind that it wants to send on is full.
use disco.Base.{
  ℕ, Bool, true, false, List, [], ◌∷◌, ◌++◌, Option, none, some, if◌then◌else◌, ltb, length, ◌≡◌,
  refl, subst, ap, arith, ◌≤◌, ◌+◌, ◌*◌, suc, length-append, Bool-cases, inl, inr, ltb→lt,
  ltb-false→le,
}
use disco.Timesync.Floats.{Floats}
use disco.Timesync.Sources.{TimeAnnounceMessage}
use disco.Discovery.{BroadcastMessage, LocationAnnounceMessage}
use disco.Discovery.Listener.{Delivery}

-- The capacity of each channel.
abbrev pub capacity : ℕ
capacity = 100

module _ (fl : Floats) where
  -- What waits in the channels, and what the listener waits to send.
  pub record Channels : Type 0 where
    pub messages : List BroadcastMessage
    pub time_messages : List (TimeAnnounceMessage fl)
    pub location_messages : List (LocationAnnounceMessage fl)
    pub pending : Option (Delivery fl)

  -- NewListener makes them empty.
  unfoldable pub new_channels : Channels
  new_channels = record {
    messages = [];
    time_messages = [];
    location_messages = [];
    pending = none;
  }

  -- The select that sends: the message goes into its channel, or waits.
  unfoldable pub send : Delivery fl → Channels → Channels
  send (Delivery.announcement msg) c =
      if ltb (length c.messages) capacity
      then record c { messages = c.messages ++ msg ∷ [] }
      else record c { pending = some (Delivery.announcement msg) }
  send (Delivery.time_message msg) c =
      if ltb (length c.time_messages) capacity
      then record c { time_messages = c.time_messages ++ msg ∷ [] }
      else record c { pending = some (Delivery.time_message msg) }
  send (Delivery.location_message msg) c =
      if ltb (length c.location_messages) capacity
      then record c { location_messages = c.location_messages ++ msg ∷ [] }
      else record c { pending = some (Delivery.location_message msg) }

  -- After a message is read, what waits is sent if there is room for it now.
  unfoldable pub resumed : Option (Delivery fl) → Channels → Channels
  unfolding send
  resumed none c = c
  resumed (some d) c = send d (record c { pending = none })

  unfoldable pub resume : Channels → Channels
  unfolding resumed
  resume c = resumed c.pending c

  -- The listener delivers a message, or one of the daemon's loops reads one. The loop for time
  -- messages runs only if time synchronisation is on.
  pub data Step (time_sync : Bool) : Channels → Channels → Type 0 where
    deliver : {c : Channels} (d : Delivery fl) → c.pending ≡ none → Step time_sync c (send d c)
    read_message :
        {c : Channels} (m : BroadcastMessage) (ms : List BroadcastMessage)
        → c.messages ≡ m ∷ ms
        → Step time_sync c (resume (record c { messages = ms }))
    read_time_message :
        {c : Channels} (m : TimeAnnounceMessage fl) (ms : List (TimeAnnounceMessage fl))
        → time_sync ≡ true
        → c.time_messages ≡ m ∷ ms
        → Step time_sync c (resume (record c { time_messages = ms }))
    read_location_message :
        {c : Channels} (m : LocationAnnounceMessage fl) (ms : List (LocationAnnounceMessage fl))
        → c.location_messages ≡ m ∷ ms
        → Step time_sync c (resume (record c { location_messages = ms }))

  pub data Run (time_sync : Bool) : Channels → Channels → Type 0 where
    done : {c : Channels} → Run time_sync c c
    next : {c d e : Channels} → Step time_sync c d → Run time_sync d e → Run time_sync c e

  abbrev is_time : Delivery fl → ℕ
  is_time (Delivery.announcement msg) = 0
  is_time (Delivery.time_message msg) = 1
  is_time (Delivery.location_message msg) = 0

  abbrev waiting : Option (Delivery fl) → ℕ
  waiting none = 0
  waiting (some d) = is_time d

  unfoldable time_delivered : {time_sync : Bool} {c d : Channels} → Step time_sync c d → ℕ
  time_delivered (deliver d idle) = is_time d
  time_delivered (read_message m ms e) = 0
  time_delivered (read_time_message m ms on e) = 0
  time_delivered (read_location_message m ms e) = 0

  -- How many time messages the listener delivers in a run, the one that waits included.
  unfoldable pub time_deliveries : {time_sync : Bool} {c d : Channels} → Run time_sync c d → ℕ
  unfolding time_delivered
  time_deliveries done = 0
  time_deliveries (next s r) = time_delivered s + time_deliveries r

  -- The time messages in the channel, with the one that waits, are so many, and one waits only while
  -- the channel is full.
  abbrev Holds : ℕ → Channels → Type 0
  Holds n c =
      (length c.time_messages + waiting c.pending ≡ n)
      × (length c.time_messages ≤ capacity)
      × (capacity * waiting c.pending ≤ length c.time_messages)

  Holds-send :
      (d : Delivery fl) (c : Channels) (n : ℕ)
      → waiting c.pending ≡ 0
      → length c.time_messages + is_time d ≡ n
      → length c.time_messages ≤ capacity
      → Holds n (send d c)
  unfolding send
  Holds-send (Delivery.announcement msg) c n idle h fits =
      elim (Bool-cases (ltb (length c.messages) capacity)) [
        | inl e ↦ rw e (omega (arith, idle), fits, omega (arith, idle))
        | inr e ↦ rw e (omega arith, fits, omega arith)
      ]
  Holds-send (Delivery.time_message msg) c n idle h fits =
      elim (Bool-cases (ltb (length c.time_messages) capacity)) [
        | inl e ↦
            let longer = length-append c.time_messages (msg ∷ []) in
            let room = ltb→lt _ _ e in
            rw e (omega (arith, longer, idle), omega (arith, longer), omega (arith, longer, idle))
        | inr e ↦ let full = ltb-false→le _ _ e in rw e (omega arith, fits, omega arith)
      ]
  Holds-send (Delivery.location_message msg) c n idle h fits =
      elim (Bool-cases (ltb (length c.location_messages) capacity)) [
        | inl e ↦ rw e (omega (arith, idle), fits, omega (arith, idle))
        | inr e ↦ rw e (omega arith, fits, omega arith)
      ]

  Holds-resumed :
      (o : Option (Delivery fl)) (c : Channels) (n : ℕ)
      → c.pending ≡ o
      → Holds n c
      → Holds n (resumed o c)
  unfolding resumed
  Holds-resumed none c n e h = h
  Holds-resumed (some d) c n e (count, fits, full) =
      Holds-send d (record c { pending = none }) n refl
        (subst (λ o. length c.time_messages + waiting o ≡ n) e count) fits

  Holds-Step :
      {c d : Channels} (n : ℕ) (s : Step false c d) → Holds n c → Holds (n + time_delivered s) d
  unfolding time_delivered resume
  Holds-Step {c = c} n (deliver x idle) (count, fits, full) =
      let none_waits : waiting c.pending ≡ 0 = ap waiting idle in
      Holds-send x c (n + is_time x) none_waits (omega arith) fits
  Holds-Step {c = c} n (read_message x xs e) h =
      subst (λ k. Holds k (resume (record c { messages = xs }))) (omega arith)
        (Holds-resumed c.pending (record c { messages = xs }) n refl h)
  Holds-Step n (read_time_message x xs off e) h = absurd (ground arith)
  Holds-Step {c = c} n (read_location_message x xs e) h =
      subst (λ k. Holds k (resume (record c { location_messages = xs }))) (omega arith)
        (Holds-resumed c.pending (record c { location_messages = xs }) n refl h)

  Holds-Run :
      {c d : Channels} (n : ℕ) (r : Run false c d) → Holds n c → Holds (n + time_deliveries r) d
  unfolding time_deliveries
  Holds-Run {d = d} n done h = subst (λ k. Holds k d) (omega arith) h
  Holds-Run {d = d} n (next s r) h =
      subst (λ k. Holds k d) (omega arith) (Holds-Run (n + time_delivered s) r (Holds-Step n s h))

  Holds-stopped :
      (c : Channels) (o : Option (Delivery fl)) (n : ℕ)
      → c.pending ≡ o
      → Holds n c
      → suc capacity ≤ n
      → (m : TimeAnnounceMessage fl) × (c.pending ≡ some (Delivery.time_message m))
        × (n ≡ suc capacity)
  Holds-stopped c none n e (count, fits, full) h =
      let none_waits : waiting c.pending ≡ 0 = ap waiting e in absurd (omega arith)
  Holds-stopped c (some (Delivery.announcement msg)) n e (count, fits, full) h =
      let none_waits : waiting c.pending ≡ 0 = ap waiting e in absurd (omega arith)
  Holds-stopped c (some (Delivery.time_message msg)) n e (count, fits, full) h =
      let one_waits : waiting c.pending ≡ 1 = ap waiting e in (msg, e, omega arith)
  Holds-stopped c (some (Delivery.location_message msg)) n e (count, fits, full) h =
      let none_waits : waiting c.pending ≡ 0 = ap waiting e in absurd (omega arith)

  -- In every run from empty channels without time synchronisation, the listener is stopped once
  -- it has delivered 101 time messages, the one that it then waits to send included, whatever
  -- else is delivered and read before and after: it still waits to send a time message, and has
  -- delivered no other.
  pub time_messages-stop_listener :
      (c : Channels) (r : Run false new_channels c)
      → suc capacity ≤ time_deliveries r
      → (m : TimeAnnounceMessage fl) × (c.pending ≡ some (Delivery.time_message m))
        × (time_deliveries r ≡ suc capacity)
  unfolding new_channels
  time_messages-stop_listener c r h =
      Holds-stopped c c.pending (time_deliveries r) refl
        (subst (λ n. Holds n c) (omega arith) (Holds-Run 0 r (refl, omega arith, omega arith))) h
