-- ===== src/Socket/Stopping.antt =====
-- internal/daemon/socket.go: acceptLoop against Stop, which runs in another goroutine: the loop
-- looks at the stop channel, waits for a connection, and serves it or turns it away; Stop closes the
-- channel, closes the listener, and waits for the handlers.
use disco.Base.{ℕ, ◌≡◌, refl, arith, ◌≤◌, ◌+◌, ◌≢◌, subst, sym, Bool, true, false, suc}
use disco.Socket.Connections.{Connections, Transition, no_connections, Counted, Transition-Counted}

-- Where acceptLoop stands; `holding` is past Accept with a connection.
pub data Loop : Type 0 where
  checking accepting holding ended : Loop

-- Where Stop stands; `running` is before it is called.
pub data Stopper : Type 0 where
  running signalled closed stopped : Stopper

pub record Server : Type 0 where
  pub connections : Connections
  pub loop : Loop
  pub stopper : Stopper

-- A transition that acceptLoop makes, and not a handler.
abbrev pub by_loop : {c d : Connections} → Transition c d → Bool
by_loop (Transition.accept s h) = true
by_loop (Transition.turn_away s h) = true
by_loop (Transition.close s n h) = false
by_loop (Transition.release s n m h k) = false
by_loop (Transition.done s n m h k) = false

pub data ServerStep : Server → Server → Type 0 where
  -- `default`: the stop channel is not closed.
  go_on :
      (s : Server)
      → s.loop ≡ checking
      → s.stopper ≡ running
      → ServerStep s (record s { loop = accepting })
  -- `case <-s.stopChan`
  leave :
      (s : Server)
      → s.loop ≡ checking
      → s.stopper ≢ running
      → ServerStep s (record s { loop = ended })
  -- Accept gives a connection: the listener is open.
  got :
      (s : Server)
      → s.loop ≡ accepting
      → s.stopper ≢ closed
      → s.stopper ≢ stopped
      → ServerStep s (record s { loop = holding })
  -- The deadline cannot be set or is past, or the listener is closed.
  got_none : (s : Server) → s.loop ≡ accepting → ServerStep s (record s { loop = checking })
  -- The connection gets a handler, or is turned away.
  dispatched :
      (s : Server) (c : Connections) (x : Transition s.connections c)
      → s.loop ≡ holding
      → by_loop x ≡ true
      → ServerStep s (record s { loop = checking; connections = c })
  -- A step of a handler.
  handled :
      (s : Server) (c : Connections) (x : Transition s.connections c)
      → by_loop x ≡ false
      → ServerStep s (record s { connections = c })
  -- `close(s.stopChan)`
  signal : (s : Server) → s.stopper ≡ running → ServerStep s (record s { stopper = signalled })
  -- `s.listener.Close()`
  close_listener :
      (s : Server) → s.stopper ≡ signalled → ServerStep s (record s { stopper = closed })
  -- `s.wg.Wait()` returns.
  waited :
      (s : Server)
      → s.stopper ≡ closed
      → s.connections.wait_group ≡ 0
      → ServerStep s (record s { stopper = stopped })

pub data Served : Server → Type 0 where
  started :
      (s : Server)
      → s.connections ≡ no_connections
      → s.loop ≡ checking
      → s.stopper ≡ running
      → Served s
  next : {s t : Server} → Served s → ServerStep s t → Served t

-- The connection that acceptLoop has taken and not yet handed on.
abbrev pub held : Loop → ℕ
held checking = 0
held accepting = 0
held holding = 1
held ended = 0

-- The handlers are counted, and once Stop is back there is at most one, that of the connection that
-- acceptLoop had in hand.
abbrev pub Quiet : Server → Type 0
Quiet s = Counted s.connections × (s.stopper ≡ stopped → s.connections.wait_group + held s.loop ≤ 1)

loop_adds : {c d : Connections} (x : Transition c d) → d.wait_group ≤ suc c.wait_group
loop_adds (Transition.accept s h) = omega arith
loop_adds (Transition.turn_away s h) = omega arith
loop_adds (Transition.close s n h) = omega arith
loop_adds (Transition.release s n m h k) = omega arith
loop_adds (Transition.done s n m h k) = omega (arith, k)

handlers_leave :
    {c d : Connections} (x : Transition c d) → by_loop x ≡ false → d.wait_group ≤ c.wait_group
handlers_leave (Transition.accept s h) e = absurd (ground arith)
handlers_leave (Transition.turn_away s h) e = omega arith
handlers_leave (Transition.close s n h) e = omega arith
handlers_leave (Transition.release s n m h k) e = omega arith
handlers_leave (Transition.done s n m h k) e = omega (arith, k)

held_most : (l : Loop) → held l ≤ 1
held_most checking = omega arith
held_most accepting = omega arith
held_most holding = omega arith
held_most ended = omega arith

ServerStep-Quiet : {s t : Server} → ServerStep s t → Quiet s → Quiet t
ServerStep-Quiet (go_on s l r) (c, q) = (c, λ e. absurd (ground arith))
ServerStep-Quiet (leave s l r) (c, q) = (c, λ e. omega (arith, q e))
ServerStep-Quiet (got s l r u) (c, q) = (c, λ e. absurd (u e))
ServerStep-Quiet (got_none s l) (c, q) = (c, λ e. omega (arith, q e))
ServerStep-Quiet (dispatched s d x l b) (c, q) = (
  Transition-Counted x c,
  λ e. omega (arith, loop_adds x, subst (λ l. s.connections.wait_group + held l ≤ 1) l (q e)),
)
ServerStep-Quiet (handled s d x b) (c, q) =
    (Transition-Counted x c, λ e. omega (arith, handlers_leave x b, q e))
ServerStep-Quiet (signal s r) (c, q) = (c, λ e. absurd (ground arith))
ServerStep-Quiet (close_listener s r) (c, q) = (c, λ e. absurd (ground arith))
ServerStep-Quiet (waited s r z) (c, q) = (c, λ e. omega (arith, z, held_most s.loop))

started-Quiet : (s : Server) → s.connections ≡ no_connections → s.stopper ≡ running → Quiet s
started-Quiet s none_yet r =
    (subst Counted (sym none_yet) (refl, refl, omega arith), λ e. absurd (ground arith))

-- In every order of the steps of acceptLoop, of the handlers and of Stop: the places taken in the
-- semaphore are the handlers that have not given theirs back, at most 100, the wait group counts the
-- handlers that are not done, and once Stop is back no more than one connection is being served or
-- about to be: that of the connection that acceptLoop had accepted before the listener was closed.
pub Served-Quiet : (s : Server) → Served s → Quiet s
Served-Quiet s (started t none_yet l r) = started-Quiet s none_yet r
Served-Quiet s (next before x) = ServerStep-Quiet x (Served-Quiet _ before)
