-- ===== src/Store/Initial.antt =====
-- The store that the daemon starts with (NewRecordStore, NewHealthTracker), and what holds after
-- any steps from there.
use mathlib.Core.Option
use disco.Base.{
  Str, Str_eq, List, [], ◌∷◌, Option, none, some, ◌≡◌, arith, ◌∙◌, refl, or_else, not, is_none,
}
use disco.Clock.{Time, Duration}
use disco.Dict.{Dict, lookup, insert, IsUnique}
use disco.Dict.Laws.{insert-IsUnique, lookup-insert_step, map_or_none, or_none}
use disco.Health.{
  HealthConfig, StaticHost, static_record, static_services, add_static_hosts, new_health_tracker,
  is_static_host,
}
use disco.Nss.{Record}
use disco.Store.{RecordStore, seed, new_record_store, index_aliases, get}
use disco.Store.Invariant.{run-IsValid}
use disco.Store.Valid.{IsValid, Fits}
use disco.Store.Static.{Serves, run-Serves, get-Serves}
use disco.Store.Steps.{Step, run}

pub lookup-add_static_hosts :
    (k : Str) (hosts : Dict Str StaticHost) (m : Dict Str Record)
    → IsUnique hosts
    → lookup k (add_static_hosts hosts m)
      ≡ or_else (Option.map (static_record k) (lookup k hosts)) (lookup k m)
unfolding add_static_hosts
lookup-add_static_hosts k [] m u = unfold lookup in refl
lookup-add_static_hosts k ((host, sh) ∷ rest) m u =
    lookup-add_static_hosts k rest _ u.1 ∙ lookup-insert_step static_record k host sh rest m u.0

add_static_hosts-IsUnique :
    (hosts : Dict Str StaticHost) (m : Dict Str Record)
    → IsUnique m
    → IsUnique (add_static_hosts hosts m)
unfolding add_static_hosts
add_static_hosts-IsUnique [] m u = u
add_static_hosts-IsUnique ((host, sh) ∷ rest) m u =
    add_static_hosts-IsUnique rest _ (insert-IsUnique host _ m u)

-- What NewRecordStore puts in.
lookup-seed :
    (k : Str) (m : Dict Str Record) (s : RecordStore)
    → IsUnique m
    → lookup k (seed m s).records ≡ or_else (Option.map (λ r. r) (lookup k m)) (lookup k s.records)
unfolding seed
lookup-seed k [] s u = unfold lookup in refl
lookup-seed k ((host, r) ∷ rest) s u =
    lookup-seed k rest _ u.1 ∙ lookup-insert_step (λ h q. q) k host r rest s.records u.0

seed-IsUnique :
    (m : Dict Str Record) (s : RecordStore) → IsUnique s.records → IsUnique (seed m s).records
unfolding seed
seed-IsUnique [] s u = u
seed-IsUnique ((host, r) ∷ rest) s u = seed-IsUnique rest _ (insert-IsUnique host r _ u)

seed-health : (m : Dict Str Record) (s : RecordStore) → (seed m s).health ≡ s.health
unfolding seed
seed-health [] s = refl
seed-health ((host, r) ∷ rest) s = seed-health rest _

seed-ttl : (m : Dict Str Record) (s : RecordStore) → (seed m s).ttl ≡ s.ttl
unfolding seed
seed-ttl [] s = refl
seed-ttl ((host, r) ∷ rest) s = seed-ttl rest _

-- Static records come with no alias.
abbrev Bare : Dict Str Record → Type 0
Bare [] = Unit
Bare ((host, r) ∷ rest) = (r.aliases ≡ []) × Bare rest

seed-alias_index :
    (m : Dict Str Record) (s : RecordStore) → Bare m → (seed m s).alias_index ≡ s.alias_index
unfolding seed index_aliases
seed-alias_index [] s b = refl
seed-alias_index ((host, r) ∷ rest) s b = seed-alias_index rest _ b.1 ∙ rw b.0 refl

Bare-insert :
    (k : Str) (r : Record) (m : Dict Str Record) → r.aliases ≡ [] → Bare m → Bare (insert k r m)
unfolding insert
Bare-insert k r [] e b = (e, tt)
Bare-insert k r ((host, q) ∷ rest) e b = ground (arith, Bare-insert k r rest e b.1)

Bare-add_static_hosts :
    (hosts : Dict Str StaticHost) (m : Dict Str Record) → Bare m → Bare (add_static_hosts hosts m)
unfolding add_static_hosts static_record
Bare-add_static_hosts [] m b = b
Bare-add_static_hosts ((host, sh) ∷ rest) m b =
    Bare-add_static_hosts rest _ (Bare-insert host _ m refl b)

module _ (ttl : Duration) (cfg : HealthConfig) (hosts : Dict Str StaticHost)
    (u : IsUnique hosts) where
  abbrev pub start : RecordStore
  start = new_record_store ttl cfg hosts

  pub start-records :
      (k : Str) → lookup k start.records ≡ Option.map (static_record k) (lookup k hosts)
  unfolding new_record_store new_health_tracker lookup
  start-records k =
      lookup-seed k (add_static_hosts hosts []) _ (add_static_hosts-IsUnique hosts [] tt)
      ∙ map_or_none _
      ∙ lookup-add_static_hosts k hosts [] u
      ∙ or_none _

  pub start-health : start.health ≡ new_health_tracker cfg hosts
  unfolding new_record_store
  start-health =
      seed-health (new_health_tracker cfg hosts).static_hosts (record {
        records = [];
        alias_index = [];
        ttl = ttl;
        health = new_health_tracker cfg hosts;
      })

  pub start-ttl : start.ttl ≡ ttl
  unfolding new_record_store
  start-ttl =
      seed-ttl (new_health_tracker cfg hosts).static_hosts (record {
        records = [];
        alias_index = [];
        ttl = ttl;
        health = new_health_tracker cfg hosts;
      })

  start-flag :
      (k : Str)
      → is_static_host start.health k
        ≡ not (is_none (Option.map (static_record k) (lookup k hosts)))
  unfolding new_record_store new_health_tracker is_static_host lookup
  start-flag k = rw (
    seed-health (add_static_hosts hosts []) (record {
      records = [];
      alias_index = [];
      ttl = ttl;
      health = new_health_tracker cfg hosts;
    }),
    lookup-add_static_hosts k hosts [] u,
    or_none (Option.map (static_record k) (lookup k hosts)),
  )

  pub start-alias_index : start.alias_index ≡ []
  unfolding new_record_store new_health_tracker
  start-alias_index = seed-alias_index _ _ (Bare-add_static_hosts hosts [] tt)

  start-Fits :
      (k : Str) (o : Option StaticHost)
      → Fits k (not (is_none (Option.map (static_record k) o))) (Option.map (static_record k) o)
  unfolding static_record
  start-Fits k none = refl
  start-Fits k (some sh) = (refl, refl)

  -- The store that the daemon starts with is well formed.
  pub start-IsValid : IsValid start
  unfolding new_record_store new_health_tracker lookup
  start-IsValid = record {
    unique_records = seed-IsUnique (add_static_hosts hosts []) _ tt;
    unique_aliases = rw start-alias_index tt;
    fitting = λ k. rw (start-records k, start-flag k) (start-Fits k (lookup k hosts));
    live = λ a. rw start-alias_index tt;
  }

  -- From the configured start, with no static host configured twice, the store is well formed
  -- after any steps.
  pub run-start-IsValid : (xs : List Step) → IsValid (run xs start)
  run-start-IsValid xs = run-IsValid xs start start-IsValid

  -- A configured static host, if no name is configured twice, is found under its name after any
  -- steps and at any instant, with its configured addresses and services: no announcement replaces it, it never counts as lost, and
  -- neither the cleanup, nor a forget, nor a mark-lost touches it.
  pub static_host_answers :
      (xs : List Step) (now : Time) (k : Str) (sh : StaticHost)
      → lookup k hosts ≡ some sh
      → Serves sh.addresses (static_services sh.services []) (get (run xs start) now k)
  static_host_answers xs now k sh h = get-Serves _ _ (run xs start) now k (
      run-Serves _ _ xs start k start-IsValid
        (rw (start-records k, h) (unfold static_record in (refl, refl, refl))))
