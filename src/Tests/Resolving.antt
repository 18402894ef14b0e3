-- ===== src/Tests/Resolving.antt =====
-- A name query to a daemon that has heard an announcement: internal/discovery, internal/daemon.
use disco.Base.{Str_eq, str_eq, bytes, ℕ, pos, true, [], none, some, ◌≡◌, refl, arith, inr}
use disco.Clock.{Time}
use disco.Net.{digits}
use disco.Discovery.Announcer.{get_local_ips}
use disco.Discovery.Listener.{new_listener}
use disco.Config.{set_defaults}
use disco.Protocol.{Query, QueryType, new_ok_response}
use disco.Socket.Handlers.{handle_query}
use disco.Startup.{System, system_of, socket_of}
use disco.Startup.Run.{on_packet}
use disco.Startup.Resolved
use disco.Store.{get}
use disco.Cli.Commands.{do_lookup}
use disco.Cli.Commands.Looked
use disco.Cli.Text.{to_lower}
use disco.Cli.Validation.{validate_hostname, validate_labels, is_label, ends_well}
use disco.Dns.Text.{split_dots}
use disco.Tests.Network.{program, alice, announcer, codec, ethernet, packet}
use disco.Tests.Starting.{system}
use disco.Tests.Time.{whole}

abbrev at : ℕ → Time
at s = record { sec = pos s; nsec = 0 }

-- A client asks for an alias of the announced service.
abbrev query : Query
query = record {
  query_type = QueryType.query_by_name;
  name = bytes "web";
  addr = [];
  family = pos 2;
  port = pos 0;
  aliases = [];
  request_id = bytes "q1";
}

abbrev has_heard : System whole
has_heard = (on_packet codec (at 1002) packet system).0

handle_query-on_packet_example :
    handle_query whole (at 1030) query (λ call. none) none (socket_of whole has_heard)
    ≡ some (
      socket_of whole has_heard,
      new_ok_response whole
          (bytes "q1")
          (bytes "node1")
          (get_local_ips (some ethernet) (at 1000) announcer).1,
    )
unfolding program system_of set_defaults digits
handle_query-on_packet_example =
    Resolved.handle_query-on_packet codec (λ call. none) none announcer alice alice (some ethernet)
      (λ a. true) (bytes "n1") (at 1000) (at 1002) (at 1030) system (new_listener (some alice) true)
      query refl refl refl refl (omega arith) (omega arith) (refl, refl) refl refl refl
      (inr (refl, refl)) refl

do_lookup-handle_query_example :
    do_lookup whole
      (λ q.
        Looked.answer_in
          (handle_query whole (at 1030) q (λ call. none) none (socket_of whole has_heard)))
      (bytes "lookup-1")
      (bytes "web")
    ≡ Looked.shown (get (socket_of whole has_heard).store (at 1030) (bytes "web"))
unfolding validate_hostname validate_labels split_dots to_lower str_eq is_label ends_well
do_lookup-handle_query_example =
    Looked.do_lookup-handle_query (λ call. none) none (socket_of whole has_heard) (at 1030)
      (bytes "lookup-1") (bytes "web") refl
