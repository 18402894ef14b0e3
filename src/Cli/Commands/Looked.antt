-- ===== src/Cli/Commands/Looked.antt =====
-- What `disco lookup` prints, with the daemon's socket server at the other end.
use disco.Base.{Str, List, Option, none, some, ◌≡◌, refl}
use disco.Clock.{Time}
use disco.Nss.{Record}
use disco.Timesync.Floats.{Floats}
use disco.Timesync.Service.{System}
use disco.Protocol.{
  Query, QueryType, Response, new_ok_response, new_not_found_response, ok_response,
}
use disco.Socket.{SocketServer, Announce}
use disco.Socket.Handlers.{answer_record, handle_query, handle_query_by_name}
use disco.Store.{get}
use disco.Cli.Commands.{Ending, done, not_found, answered, addresses_of, do_lookup}
use disco.Cli.Hosts.{name_query}
use disco.Cli.Ping.{handle_response}
use disco.Cli.Validation.{validate_hostname}

-- The addresses of a record, or that there is none.
abbrev pub shown : Option Record → Ending (List Str)
shown none = not_found
shown (some r) = done r.addresses

module _ {fl : Floats} where
  -- What the client reads of a daemon that has handled its query.
  abbrev pub answer_in : Option (SocketServer fl × Response fl) → Option (Response fl)
  answer_in none = none
  answer_in (some (srv, r)) = some r

  shown-answer_record :
      (ask : Query → Option (Response fl)) (id : Str) (now : Time) (q : Query) (o : Option Record)
      → answered {fl = fl}
          (handle_response fl (some (answer_record fl now q o)))
          (addresses_of fl ask id)
        ≡ shown o
  unfolding answer_record handle_response addresses_of new_ok_response new_not_found_response
      ok_response
  shown-answer_record ask id now q none = refl
  shown-answer_record ask id now q (some r) = refl

  -- For a name that passes the checks, `disco lookup` prints the addresses of the record that the
  -- daemon's store has for the name or the alias, and says that there is no such host just if the
  -- store has none.
  pub do_lookup-handle_query :
      (sys : System fl) (announce : Option Announce) (srv : SocketServer fl) (now : Time)
      (id hostname : Str)
      → validate_hostname hostname ≡ none
      → do_lookup fl (λ q. answer_in (handle_query fl now q sys announce srv)) id hostname
        ≡ shown (get srv.store now hostname)
  unfolding do_lookup handle_query handle_query_by_name
  do_lookup-handle_query sys announce srv now id hostname valid =
      rw (valid, do_lookup)
        (shown-answer_record (λ q. answer_in (handle_query fl now q sys announce srv)) id now
          (name_query QueryType.query_by_name hostname id) (get srv.store now hostname))
