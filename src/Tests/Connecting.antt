-- ===== src/Tests/Connecting.antt =====
-- A connection of the socket server that is accepted while the server is stopped.
use disco.Base.{refl, arith}
use disco.Socket.Connections.{Transition, no_connections}
use disco.Socket.Stopping
use disco.Socket.Stopping.{
  Server, ServerStep, Served, Quiet, checking, accepting, holding, running, signalled, closed,
  stopped,
}

abbrev idle : Server
idle = record { connections = no_connections; loop = checking; stopper = running }

abbrev waiting : Server
waiting = record idle { loop = accepting }

abbrev in_hand : Server
in_hand = record idle { loop = holding }

in_hand-Served : Served in_hand
in_hand-Served =
    Served.next {s = waiting}
      (Served.next {s = idle} (Served.started idle refl refl refl)
        (ServerStep.go_on idle refl refl))
      (ServerStep.got waiting refl (λ e. absurd (ground arith)) λ e. absurd (ground arith))

-- Stop is back, without the connection that the loop has in hand.
stopped-Served : Served (record in_hand { stopper = stopped })
stopped-Served =
    Served.next {s = record in_hand { stopper = closed }}
      (Served.next {s = record in_hand { stopper = signalled }}
        (Served.next {s = in_hand} in_hand-Served (ServerStep.signal in_hand refl))
        (ServerStep.close_listener (record in_hand { stopper = signalled }) refl))
      (ServerStep.waited (record in_hand { stopper = closed }) refl refl)

-- Its handler starts then.
abbrev late : Server
late = record {
  connections = record no_connections { semaphore = 1; wait_group = 1; open_handlers = 1 };
  loop = checking;
  stopper = stopped;
}

late-Served : Served late
late-Served = Served.next {s = record in_hand { stopper = stopped }} stopped-Served (
    ServerStep.dispatched (record in_hand { stopper = stopped }) late.connections
      (Transition.accept no_connections (omega arith)) refl refl)

Served-Quiet_example : Quiet late
Served-Quiet_example = Stopping.Served-Quiet late late-Served
