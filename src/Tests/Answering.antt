-- ===== src/Tests/Answering.antt =====
-- Queries to the socket and to the DNS server, on a cache with one host.
use disco.Base.{
  ℕ, Str, Str_eq, str_eq, bytes, ℤ, pos, true, false, List, [], ◌∷◌, ◌++◌, none, some, ◌≡◌, ◌≢◌,
  refl, arith, In, here, ◌-ℤ◌, ◌+ℤ◌, scale, clamp64, wrap64,
}
use disco.Clock.{Time, sub_time, whole_seconds}
use disco.Dict.{lookup, insert, values, update_all, delete, keep}
use disco.Net.{
  digits, format_int, host_port, split_host_port, split_plain, split_last, atoi, parse_uint,
  parse_digits, positive,
}
use disco.Nss.{Record, healthy}
use disco.Health.{
  HealthConfig, new_health_tracker, is_static_host, compute_status, update_record_status, age,
}
use disco.Protocol.{
  Query, QueryType, Response, ResponseType, ok_response, new_ok_response, new_error_response,
}
use disco.Store.{
  RecordStore, new_record_store, get, resolve, is_lost, stored_record, add_or_update, kept_aliases,
  index_aliases, seed, remove_aliases_for_host, forget, delete_host, mark_lost, lost_record, list,
  list_all,
}
use disco.Store.Forgetting
use disco.Store.Initial
use disco.Store.Valid.{IsValid}
use disco.Store.Steps.{Step, step, run}
use disco.Socket.{SocketServer, Announce}
use disco.Socket.Answers
use disco.Socket.Effects
use disco.Socket.Handlers.{
  handle_query, handle_query_by_name, handle_service_announce, handle_hosts_mark_lost,
}
use disco.Socket.Services
use disco.Socket.Views.{service_hosts}
use disco.Dns.{DnsRecord, get_all_records, dns_records, dns_record, dns_services, dns_service}
use disco.Dns.Text.{strip_suffix, parse_ip4, octets, octet, split_dots}
use disco.Dns.Handlers.{
  Settings, Answer, a, ptr, handle_a_query, a_answers, address_answers, is_called, domain_suffix,
  get_ttl, record_ttl, ptr_answers,
}
use disco.Dns.Lookup
use disco.Dns.View
use disco.Tests.Time.{whole, service, willing}

program : Unit {0}
unfolding str_eq ◌-ℤ◌ ◌+ℤ◌ scale clamp64 wrap64 sub_time whole_seconds lookup insert values
    update_all delete keep digits format_int host_port split_host_port split_plain split_last atoi
    parse_uint parse_digits positive new_health_tracker is_static_host compute_status
    update_record_status age new_record_store get resolve is_lost stored_record add_or_update
    kept_aliases index_aliases remove_aliases_for_host seed forget delete_host mark_lost lost_record
    list list_all ok_response new_ok_response new_error_response handle_query handle_query_by_name
    handle_service_announce handle_hosts_mark_lost step run get_all_records dns_records dns_record
    dns_services dns_service strip_suffix parse_ip4 octets octet split_dots handle_a_query a_answers
    address_answers is_called get_ttl ptr_answers
program = tt

abbrev at : ℕ → Time
at s = record { sec = pos s; nsec = 0 }

abbrev cfg : HealthConfig
cfg = record {
  grace_period = pos 60000000000;
  expire_after = pos 3600000000000;
  cleanup_interval = pos 30000000000;
}

abbrev node : Record
node = record {
  hostname = bytes "node1";
  machine_id = [];
  aliases = bytes "www" ∷ [];
  addresses = bytes "10.0.0.1" ∷ [];
  timestamp = pos 1000;
  first_seen = pos 1000;
  ttl = pos 3600;
  services = (bytes "http", host_port (bytes "10.0.0.1") (pos 80)) ∷ [];
  status = healthy;
  is_static = false;
}

abbrev history : List Step
history = Step.announced (at 1000) node ∷ []

abbrev store : RecordStore
store = run history (new_record_store (pos 3600000000000) cfg [])

store-IsValid : IsValid store
store-IsValid = Initial.run-start-IsValid (pos 3600000000000) cfg [] tt history

abbrev server : SocketServer whole
server = record { store = store; time_sync = some service; location_store = none }

abbrev query : QueryType → Str → ℤ → Query
query kind name port = record {
  query_type = kind;
  name = name;
  addr = [];
  family = pos 2;
  port = port;
  aliases = [];
  request_id = bytes "r1";
}

abbrev accepting : Announce
accepting name port aliases s = (s, none)

handle_query-answers_example :
    (out : SocketServer whole × Response whole) × (handle_query whole
        (at 1005)
        (query QueryType.time_force_update (bytes "true") (pos 0))
        willing
        (some accepting)
        server
      ≡ some out)
    × (out.1.request_id ≡ bytes "r1")
handle_query-answers_example =
    Answers.handle_query-answers whole (at 1005)
      (query QueryType.time_force_update (bytes "true") (pos 0)) willing (some accepting) server
      (omega arith)

abbrev mark : Query
mark = query QueryType.hosts_mark_lost (bytes "node1") (pos 0)

abbrev marked : SocketServer whole
marked = record server { store = mark_lost (bytes "node1") store }

marking :
    handle_query whole (at 1005) mark willing (some accepting) server
    ≡ some (marked, new_ok_response whole (bytes "r1") (bytes "node1") [])
unfolding program
marking = refl

handle_query-keeps_names_example :
    handle_query_by_name whole
      (at 1010)
      (query QueryType.query_by_name (bytes "www") (pos 0))
      marked.store
    ≡ handle_query_by_name whole
        (at 1010)
        (query QueryType.query_by_name (bytes "www") (pos 0))
        store
handle_query-keeps_names_example =
    Effects.handle_query-keeps_names (at 1005) mark willing (some accepting) server (at 1010)
      (query QueryType.query_by_name (bytes "www") (pos 0)) refl marking

abbrev announce : Query
announce = query QueryType.service_announce (bytes "http") (pos 80)

announces :
    (handle_service_announce whole (at 1005) announce (some accepting) store).1.response_type
    ≡ ResponseType.response_ok
unfolding program
announces = refl

-- Port 0 is refused.
refused_port :
    (handle_service_announce whole
      (at 1005)
      (query QueryType.service_announce (bytes "http") (pos 0))
      (some accepting)
      store).1
    ≡ new_error_response whole (bytes "r1") (bytes "valid port required")
unfolding program
refused_port = refl

service_hosts-host_port_example :
    Services.Lists
      (bytes "http")
      (record { hostname = bytes "node1"; address = bytes "10.0.0.1"; port = pos 80 })
      (service_hosts (node ∷ []) [])
unfolding program
service_hosts-host_port_example =
    Services.service_hosts-host_port (bytes "http") (bytes "10.0.0.1") 80 node (node ∷ [])
      (here refl) refl refl refl refl (omega arith)

-- An IPv6 address between its colons is no address and port.
no_ipv6 : split_host_port (host_port (bytes "fe80::1") (pos 80)) ≡ none
unfolding program
no_ipv6 = refl

abbrev other_node : Record
other_node = record node { hostname = bytes "node2"; aliases = bytes "ftp" ∷ [] }

abbrev pair : RecordStore
pair =
    run (Step.announced (at 1000) node ∷ Step.announced (at 1000) other_node ∷ [])
      (new_record_store (pos 3600000000000) cfg [])

pair-IsValid : IsValid pair
pair-IsValid =
    Initial.run-start-IsValid (pos 3600000000000) cfg [] tt
      (Step.announced (at 1000) node ∷ Step.announced (at 1000) other_node ∷ [])

abbrev kept_node : Record
kept_node = stored_record pair (at 1000) other_node

still_there : get (forget (bytes "node1") pair) (at 1005) (bytes "ftp") ≡ some kept_node
unfolding program
still_there = refl

get-forget_example : kept_node.hostname ≢ bytes "node1"
unfolding program
get-forget_example =
    Forgetting.get-forget pair (at 1005) (bytes "node1") (bytes "ftp") kept_node pair-IsValid refl
      still_there

abbrev listing : Query
listing = query QueryType.query_list [] (pos 0)

abbrev settings : Settings
settings = record { domain = bytes "disco"; ttl_healthy = pos 30; ttl_stale = pos 10 }

abbrev www_answer : Answer
www_answer = record { name = bytes "www.disco."; ttl = 30; resource = a (10 ∷ 0 ∷ 0 ∷ 1 ∷ []) }

answered : (handle_a_query settings (at 1005) (bytes "www.disco.") store).1 ≡ www_answer ∷ []
unfolding program
answered = refl

answer_place :
    In www_answer
      (handle_a_query settings (at 1005) (bytes "www" ++ domain_suffix settings) store).1
unfolding program
answer_place = here refl

a_query-called_example :
    (r : DnsRecord) × In r (get_all_records (at 1005) store).1
    × (is_called (bytes "www") r ≡ true)
    × Lookup.AnswersFor r.addresses (record_ttl settings r) www_answer
a_query-called_example =
    Lookup.a_query-called settings (at 1005) (bytes "www") store www_answer refl answer_place

abbrev reverse_answer : Answer
reverse_answer = record {
  name = bytes "1.0.0.10.in-addr.arpa.";
  ttl = 30;
  resource = ptr (bytes "node1.disco.");
}

reverse_place : In reverse_answer (
    ptr_answers settings
      (bytes "1.0.0.10.in-addr.arpa.")
      (bytes "10.0.0.1")
      (get_all_records (at 1005) store).1)
unfolding program
reverse_place = here refl
