-- ===== src/RateLimit/Replay.antt =====
-- The duplicate filter against a message that arrives again.
use disco.Base.{
  Str, Str_eq, str_eq_iff, true, false, List, [], ◌∷◌, none, some, ◌≡◌, refl, ◌∙◌, arith, ltb_ℤ,
  if◌then◌else◌,
}
use disco.Clock.{Time, Duration, sub_time}
use disco.Dict.{lookup, IsUnique}
use disco.Dict.Laws.{lookup-insert, insert-IsUnique, lookup-keep, keep-IsUnique}
use disco.RateLimit.{DuplicateFilter, seen, cleanup}

-- A message with an id arrives, or the filter is cleaned.
pub data Event : Type 0 where
  arrives : Time → Str → Event
  tick : Time → Event

unfoldable pub after : Event → DuplicateFilter → DuplicateFilter
after (arrives now id) df = (seen now id df).0
after (tick now) df = cleanup now df

unfoldable pub after_all : List Event → DuplicateFilter → DuplicateFilter
after_all [] df = df
after_all (x ∷ xs) df = after_all xs (after x df)

-- No tick is more than the filter's ttl after the instant.
abbrev pub TicksWithin : Duration → Time → List Event → Type 0
TicksWithin ttl at [] = Unit
TicksWithin ttl at (arrives now id ∷ xs) = TicksWithin ttl at xs
TicksWithin ttl at (tick now ∷ xs) = (ltb_ℤ ttl (sub_time now at) ≡ false) × TicksWithin ttl at xs

after-ttl : (x : Event) (df : DuplicateFilter) → (after x df).ttl ≡ df.ttl
unfolding after seen cleanup
after-ttl (arrives now id) df = ground arith
after-ttl (tick now) df = refl

after-IsUnique :
    (x : Event) (df : DuplicateFilter) → IsUnique df.seen_ids → IsUnique (after x df).seen_ids
unfolding after seen cleanup
after-IsUnique (arrives now id) df u = ground (arith, insert-IsUnique id now df.seen_ids u)
after-IsUnique (tick now) df u = keep-IsUnique _ df.seen_ids u

-- An id keeps its first instant while others arrive.
after-arrives :
    (now at : Time) (j id : Str) (df : DuplicateFilter)
    → lookup id df.seen_ids ≡ some at
    → lookup id (after (arrives now j) df).seen_ids ≡ some at
unfolding after seen
after-arrives now at j id df h = ground (arith, lookup-insert j id now df.seen_ids, str_eq_iff j id)

after-tick :
    (now at : Time) (id : Str) (df : DuplicateFilter)
    → IsUnique df.seen_ids
    → lookup id df.seen_ids ≡ some at
    → lookup id (after (tick now) df).seen_ids
      ≡ (if ltb_ℤ df.ttl (sub_time now at) then none else some at)
unfolding after cleanup
after-tick now at id df u h = rw (lookup-keep, u, h) (ground arith)

still_seen :
    (xs : List Event) (at : Time) (id : Str) (df : DuplicateFilter)
    → IsUnique df.seen_ids
    → lookup id df.seen_ids ≡ some at
    → TicksWithin df.ttl at xs
    → lookup id (after_all xs df).seen_ids ≡ some at
unfolding after_all
still_seen [] at id df u h w = h
still_seen (arrives now j ∷ xs) at id df u h w =
    still_seen xs at id _ (after-IsUnique (arrives now j) df u) (after-arrives now at j id df h)
      (rw (after-ttl (arrives now j) df) w)
still_seen (tick now ∷ xs) at id df u h w =
    still_seen xs at id _ (after-IsUnique (tick now) df u) (rw (after-tick now at id df u h, w.0))
      (rw (after-ttl (tick now) df) w.1)

seen_present :
    (now at : Time) (id : Str) (df : DuplicateFilter)
    → lookup id df.seen_ids ≡ some at
    → (seen now id df).1 ≡ true
unfolding seen
seen_present now at id df h = rw (h, seen)

seen_absent :
    (now : Time) (id : Str) (df : DuplicateFilter)
    → lookup id df.seen_ids ≡ none
    → (seen now id df).1 ≡ false
unfolding seen
seen_absent now id df h = rw (h, seen)

seen_first :
    (at : Time) (id : Str) (df : DuplicateFilter)
    → (seen at id df).1 ≡ false
    → lookup id (after (arrives at id) df).seen_ids ≡ some at
unfolding seen after
seen_first at id df h = ground (arith, lookup-insert id id at df.seen_ids, str_eq_iff id id)

-- A message that was let through is dropped whenever it comes again, through any messages and
-- ticks between, as long as no tick comes more than the ttl after its first arrival.
pub seen_again :
    (df : DuplicateFilter) (at now : Time) (id : Str) (xs : List Event)
    → IsUnique df.seen_ids
    → (seen at id df).1 ≡ false
    → TicksWithin df.ttl at xs
    → (seen now id (after_all xs (seen at id df).0)).1 ≡ true
unfolding after
seen_again df at now id xs u first w = seen_present now at id _ (
    still_seen xs at id _ (after-IsUnique (arrives at id) df u) (seen_first at id df first)
      (rw (after-ttl (arrives at id) df) w))

-- A tick more than the ttl after its arrival forgets a message: it is let through again.
pub seen_after_ttl :
    (df : DuplicateFilter) (at now : Time) (id : Str)
    → IsUnique df.seen_ids
    → lookup id df.seen_ids ≡ some at
    → ltb_ℤ df.ttl (sub_time now at) ≡ true
    → (seen now id (cleanup now df)).1 ≡ false
unfolding after
seen_after_ttl df at now id u h late = seen_absent now id _ (after-tick now at id df u h ∙ rw late)
