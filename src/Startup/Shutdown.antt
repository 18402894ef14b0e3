-- ===== src/Startup/Shutdown.antt =====
-- internal/daemon/daemon.go (waitForShutdown): what the daemon does once a signal comes, in order.
use disco.Base.{Str, List, [], ◌∷◌, ◌++◌, Option, none, some}
use disco.Timesync.Floats.{Floats}
use disco.Startup.{System}

pub data Action : Type 0 where
  notify_stopping close_stop_channel stop_announcer stop_listener stop_detector stop_time_sync :
      Action
  stop_socket stop_dns stop_store : Action
  remove_socket : Str → Action

-- An action on a part, if the daemon has the part.
abbrev pub if_there {ℓ} : {A : Type ℓ} → Option A → Action → List Action
if_there none action = []
if_there (some x) action = action ∷ []

-- The socket server and the store are there in every daemon.
unfoldable pub shutdown : {fl : Floats} → System fl → List Action
shutdown s =
    (notify_stopping ∷ close_stop_channel ∷ [])
    ++ if_there s.daemon.announcer stop_announcer
    ++ if_there s.listener stop_listener
    ++ if_there s.detector stop_detector
    ++ if_there s.time_sync stop_time_sync
    ++ (stop_socket ∷ [])
    ++ if_there s.dns stop_dns
    ++ (stop_store ∷ remove_socket s.config.daemon.socket_path ∷ [])
