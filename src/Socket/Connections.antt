-- ===== src/Socket/Connections.antt =====
-- internal/daemon/socket.go: acceptLoop and the deferred steps of handleConnection, as the order in
-- which the goroutines can run them. A handler closes its connection, gives its place in the
-- semaphore back, and leaves the wait group. (Failed accepts change nothing and are left out.)
use disco.Base.{ℕ, suc, ◌≡◌, refl, arith, ◌≤◌, ◌<◌, ◌+◌}

abbrev pub max_connections : ℕ
max_connections = 100

-- The places taken in the semaphore, the count of the wait group, and the handlers that still
-- have their connection, that have closed it, and that have given their place back.
pub record Connections : Type 0 where
  pub semaphore : ℕ
  pub wait_group : ℕ
  pub open_handlers : ℕ
  pub closed_handlers : ℕ
  pub released_handlers : ℕ

pub data Transition : Connections → Connections → Type 0 where
  -- `case s.connSemaphore <- struct{}{}`: there is a place. The send and the `s.wg.Add(1)` after it are
  -- one step.
  accept :
      (s : Connections)
      → s.semaphore < max_connections
      → Transition s (record s {
        semaphore = suc s.semaphore;
        wait_group = suc s.wait_group;
        open_handlers = suc s.open_handlers;
      })
  -- `default`: the connection is closed at once.
  turn_away : (s : Connections) → s.semaphore ≡ max_connections → Transition s s
  -- `conn.Close()`
  close :
      (s : Connections) (n : ℕ)
      → s.open_handlers ≡ suc n
      → Transition s (record s { open_handlers = n; closed_handlers = suc s.closed_handlers })
  -- `<-s.connSemaphore`: waits until there is something to take.
  release :
      (s : Connections) (n m : ℕ)
      → s.closed_handlers ≡ suc n
      → s.semaphore ≡ suc m
      → Transition s (record s {
        semaphore = m;
        closed_handlers = n;
        released_handlers = suc s.released_handlers;
      })
  -- `s.wg.Done()`: panics if the count is zero.
  done :
      (s : Connections) (n m : ℕ)
      → s.released_handlers ≡ suc n
      → s.wait_group ≡ suc m
      → Transition s (record s { wait_group = m; released_handlers = n })

abbrev pub no_connections : Connections
no_connections = record {
  semaphore = 0;
  wait_group = 0;
  open_handlers = 0;
  closed_handlers = 0;
  released_handlers = 0;
}

pub data Reachable : Connections → Type 0 where
  initially : Reachable no_connections
  next : {s t : Connections} → Reachable s → Transition s t → Reachable t

-- The semaphore counts the handlers that have not given their place back, the wait group all that
-- are not done, and no more than 100 places are taken.
abbrev pub Counted : Connections → Type 0
Counted s =
    (s.semaphore ≡ s.open_handlers + s.closed_handlers)
    × (s.wait_group ≡ s.semaphore + s.released_handlers)
    × (s.semaphore ≤ max_connections)

pub Transition-Counted : {s t : Connections} → Transition s t → Counted s → Counted t
Transition-Counted (accept s h) (a, b, c) = (omega (arith, a), omega (arith, b), omega (arith, h))
Transition-Counted (turn_away s h) i = i
Transition-Counted (close s n h) (a, b, c) = (omega (arith, a, h), b, c)
Transition-Counted (release s n m h k) (a, b, c) =
    (omega (arith, a, h, k), omega (arith, b, k), omega (arith, c, k))
Transition-Counted (done s n m h k) (a, b, c) = (a, omega (arith, b, h, k), c)

-- In every order of steps: the places taken in the semaphore are the handlers that have not given
-- theirs back, at most 100, and the wait group counts the handlers that are not done. So no more than
-- 100 connections are served at once, and neither giving a place back nor leaving the wait group
-- ever finds it empty.
pub Reachable-Counted : (s : Connections) → Reachable s → Counted s
Reachable-Counted s initially = (refl, refl, omega arith)
Reachable-Counted s (next r x) = Transition-Counted x (Reachable-Counted _ r)
