-- ===== src/Dns/Handlers.antt =====
-- internal/dns/server.go: the handlers of the question types.
use disco.Base.{
  Str, Str_eq, bytes, ℕ, ℤ, Bool, false, ◌&&◌, ◌||◌, List, [], ◌∷◌, ◌++◌, Option, none, some,
  if◌then◌else◌, any, find, ◌≟◌, is_empty, pos_part, neg_part, ◌+◌, ◌-◌, ◌%◌, ◌^◌,
}
use disco.Clock.{Time, unix}
use disco.Dict.{Dict}
use disco.Net.{format_int, colon}
use disco.Store.{RecordStore}
use disco.Dns.{DnsRecord, DnsService, get_all_records}
use disco.Dns.Text.{dot, strip_suffix, trim_suffix, trim_underscore, split_dots, join, parse_ip4}

-- Config of package dns.
pub record Settings : Type 0 where
  pub domain : Str
  pub ttl_healthy : ℤ
  pub ttl_stale : ℤ

pub data Resource : Type 0 where
  a : List ℕ → Resource
  txt : List Str → Resource
  srv : ℕ → Str → Resource
  cname : Str → Resource
  ptr : Str → Resource

-- An SRV answer has priority 10 and weight 60.
pub record Answer : Type 0 where
  pub name : Str
  pub ttl : ℕ
  pub resource : Resource

-- The conversions uint16 and uint32 of an int.
abbrev pub unsigned : ℕ → ℤ → ℕ
unsigned w x = (pos_part x + 2 ^ w - neg_part x % 2 ^ w) % 2 ^ w

unfoldable pub get_ttl : Settings → Str → ℤ
get_ttl cfg status = if status ≟ bytes "stale" then cfg.ttl_stale else cfg.ttl_healthy

abbrev pub record_ttl : Settings → DnsRecord → ℕ
record_ttl cfg r = unsigned 32 (get_ttl cfg r.status)

-- `s.config.Domain + "."`, and the suffix of the names in it.
abbrev pub full_domain : Settings → Str
full_domain cfg = cfg.domain ++ dot ∷ []

abbrev pub domain_suffix : Settings → Str
domain_suffix cfg = dot ∷ full_domain cfg

-- The hostname or an alias is the name.
unfoldable pub is_called : Str → DnsRecord → Bool
is_called name r = (r.hostname ≟ name) || any (λ alias. alias ≟ name) r.aliases

-- The answers with that of one more address, if it is an IPv4 address.
abbrev pub add_answer : Str → ℕ → Option (List ℕ) → List Answer → List Answer
add_answer question ttl none others = others
add_answer question ttl (some ip) others =
    record { name = question; ttl = ttl; resource = a ip } ∷ others

unfoldable pub address_answers : Str → ℕ → List Str → List Answer
address_answers question ttl [] = []
address_answers question ttl (addr ∷ rest) =
    add_answer question ttl (parse_ip4 addr) (address_answers question ttl rest)

unfoldable pub a_answers : Settings → Str → Str → List DnsRecord → List Answer
unfolding address_answers
a_answers cfg question name records = elim (find (is_called name) records) [
  | none ↦ []
  | some r ↦ address_answers question (record_ttl cfg r) r.addresses
]

unfoldable pub service_texts : Dict Str DnsService → List Str
service_texts [] = []
service_texts ((name, svc) ∷ rest) = (name ++ colon ∷ format_int svc.port) ∷ service_texts rest

unfoldable pub record_texts : DnsRecord → List Str
unfolding service_texts
record_texts r =
    (bytes "status=" ++ r.status)
      ∷ (bytes "last_seen=" ++ format_int (unix r.last_seen))
      ∷ (if r.is_static then bytes "static=true" ∷ [] else [])
    ++ elim (service_texts r.services) [
      | [] ↦ []
      | t ∷ ts ↦ (bytes "services=" ++ join (bytes ",") (t ∷ ts)) ∷ []
    ]

unfoldable pub txt_answers : Settings → Str → Str → List DnsRecord → List Answer
unfolding record_texts
txt_answers cfg question name records = elim (find (λ r. r.hostname ≟ name) records) [
  | none ↦ []
  | some r ↦
      record { name = question; ttl = record_ttl cfg r; resource = txt (record_texts r) } ∷ []
]

unfoldable pub record_services :
    Settings → Str → Str → Str → DnsRecord → Dict Str DnsService → List Answer
record_services cfg question name proto r [] = []
record_services cfg question name proto r ((svc_name, svc) ∷ rest) =
    let others = record_services cfg question name proto r rest in
    if (svc_name ≟ name) && (svc.protocol ≟ proto)
    then record {
      name = question;
      ttl = record_ttl cfg r;
      resource = srv (unsigned 16 svc.port) (r.hostname ++ domain_suffix cfg);
    }
      ∷ others
    else others

unfoldable pub srv_answers : Settings → Str → Str → Str → List DnsRecord → List Answer
unfolding record_services
srv_answers cfg question name proto [] = []
srv_answers cfg question name proto (r ∷ rest) =
    record_services cfg question name proto r r.services ++ srv_answers cfg question name proto rest

-- A service and its host, with a dot between, make the name.
unfoldable pub has_service : Str → Str → Dict Str DnsService → Bool
has_service name hostname [] = false
has_service name hostname ((svc_name, svc) ∷ rest) =
    (name ≟ (svc_name ++ dot ∷ hostname)) || has_service name hostname rest

unfoldable pub cname_answers : Settings → Str → Str → List DnsRecord → List Answer
unfolding has_service
cname_answers cfg question name records =
    elim (find (λ r. has_service name r.hostname r.services) records) [
      | none ↦ []
      | some r ↦
          record {
            name = question;
            ttl = record_ttl cfg r;
            resource = cname (r.hostname ++ domain_suffix cfg);
          }
          ∷ []
    ]

unfoldable pub ptr_answers : Settings → Str → Str → List DnsRecord → List Answer
ptr_answers cfg question ip records =
    elim (find (λ r. any (λ addr. addr ≟ ip) r.addresses) records) [
      | none ↦ []
      | some r ↦
          record {
            name = question;
            ttl = record_ttl cfg r;
            resource = ptr (r.hostname ++ domain_suffix cfg);
          }
          ∷ []
    ]

module _ (cfg : Settings) (now : Time) where
  -- The answers that are made of the records, which are asked for only now.
  abbrev pub from_records : RecordStore → (List DnsRecord → List Answer) → RecordStore × List Answer
  from_records s f = let (s', records) = get_all_records now s in (s', f records)

  unfoldable pub handle_a_query : Str → RecordStore → RecordStore × List Answer
  unfolding a_answers
  handle_a_query question s = elim (strip_suffix (domain_suffix cfg) question) [
    | none ↦ (s, [])
    | some name ↦ (if is_empty name then (s, []) else from_records s (a_answers cfg question name))
  ]

  unfoldable pub handle_txt_query : Str → RecordStore → RecordStore × List Answer
  unfolding txt_answers
  handle_txt_query question s = elim (strip_suffix (domain_suffix cfg) question) [
    | none ↦ (s, [])
    | some name ↦ from_records s (txt_answers cfg question name)
  ]

  unfoldable pub handle_srv_query : Str → RecordStore → RecordStore × List Answer
  unfolding srv_answers
  handle_srv_query question s = elim (split_dots (trim_suffix (dot ∷ []) question)) [
    | service ∷ proto ∷ part ∷ parts ↦
        (if (join (dot ∷ []) (part ∷ parts) ++ dot ∷ []) ≟ full_domain cfg
          then from_records s
              (srv_answers cfg question (trim_underscore service) (trim_underscore proto))
          else (s, []))
    | _ ↦ (s, [])
  ]

  unfoldable pub handle_cname_query : Str → RecordStore → RecordStore × List Answer
  unfolding cname_answers
  handle_cname_query question s = elim (strip_suffix (domain_suffix cfg) question) [
    | none ↦ (s, [])
    | some name ↦ from_records s (cname_answers cfg question name)
  ]

  unfoldable pub handle_ptr_query : Str → RecordStore → RecordStore × List Answer
  unfolding ptr_answers
  handle_ptr_query question s = elim (split_dots (trim_suffix (dot ∷ []) question)) [
    | p0 ∷ p1 ∷ p2 ∷ p3 ∷ parts ↦
        from_records s (ptr_answers cfg question (p3 ++ dot ∷ p2 ++ dot ∷ p1 ++ dot ∷ p0))
    | _ ↦ (s, [])
  ]

pub data QuestionType : Type 0 where
  type_a type_aaaa type_txt type_srv type_cname type_ptr other_type : QuestionType

-- The bodies of the loops of handleQuery and handleReverse over the questions.
unfoldable pub answer_question :
    Settings → Time → QuestionType → Str → RecordStore → RecordStore × List Answer
unfolding handle_a_query handle_txt_query handle_srv_query handle_cname_query
answer_question cfg now QuestionType.type_a name s = handle_a_query cfg now name s
answer_question cfg now QuestionType.type_txt name s = handle_txt_query cfg now name s
answer_question cfg now QuestionType.type_srv name s = handle_srv_query cfg now name s
answer_question cfg now QuestionType.type_cname name s = handle_cname_query cfg now name s
answer_question cfg now QuestionType.type_aaaa name s = (s, [])
answer_question cfg now QuestionType.type_ptr name s = (s, [])
answer_question cfg now QuestionType.other_type name s = (s, [])

unfoldable pub answer_reverse :
    Settings → Time → QuestionType → Str → RecordStore → RecordStore × List Answer
unfolding handle_ptr_query
answer_reverse cfg now QuestionType.type_ptr name s = handle_ptr_query cfg now name s
answer_reverse cfg now _ name s = (s, [])

unfoldable pub answer_all :
    (QuestionType → Str → RecordStore → RecordStore × List Answer)
    → List (QuestionType × Str)
    → RecordStore
    → RecordStore × List Answer
answer_all one [] s = (s, [])
answer_all one ((kind, name) ∷ rest) s =
    let (s', answers) = one kind name s in
    let (s'', others) = answer_all one rest s' in (s'', answers ++ others)
