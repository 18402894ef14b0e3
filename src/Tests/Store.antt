-- ===== src/Tests/Store.antt =====
-- The record store, internal/daemon/store.go and health.go, on a small network.
use disco.Base.{
  Str, Str_eq, str_eq, str_eq_iff, arith, bytes, ℤ, pos, true, false, List, [], ◌∷◌, none, some,
  ◌≡◌, refl, In, retain, not, ◌-ℤ◌, ◌+ℤ◌, scale, clamp64,
}
use disco.Clock.{Time, sub_time, whole_seconds}
use disco.Dict.{Dict, lookup, insert, delete, values, keep, update_all, IsUnique}
use disco.Health.{
  HealthConfig, StaticHost, new_health_tracker, static_record, compute_status, update_record_status,
  is_static_host, should_expire, age,
}
use disco.Nss.{Record, healthy, unset}
use disco.Store.{
  RecordStore, new_record_store, index_aliases, remove_aliases_for_host, is_lost, get, get_by_addr,
  has_address, stored_record, kept_aliases, add_or_update, list, list_all, mark_lost, lost_record,
  forget, cleanup_expired_records,
}
use disco.Store.Abstract
use disco.Store.Cleanup
use disco.Store.Initial
use disco.Store.Valid.{IsValid}
use disco.Store.Marking
use disco.Store.Reads
use disco.Store.Simulated
use disco.Store.View
use disco.Store.Steps.{Step, step, run}

program : Unit {0}
unfolding str_eq ◌-ℤ◌ ◌+ℤ◌ scale clamp64 sub_time whole_seconds lookup insert delete values keep
    update_all new_health_tracker compute_status update_record_status is_static_host should_expire
    age new_record_store index_aliases remove_aliases_for_host get is_lost has_address get_by_addr
    stored_record kept_aliases add_or_update list list_all mark_lost lost_record forget
    cleanup_expired_records static_record step run
program = tt

abbrev cfg : HealthConfig
cfg = record {
  grace_period = pos 60000000000;
  expire_after = pos 3600000000000;
  cleanup_interval = pos 30000000000;
}

abbrev nas : StaticHost
nas = record { addresses = bytes "10.0.0.9" ∷ []; services = [] }

abbrev hosts : Dict Str StaticHost
hosts = (bytes "nas", nas) ∷ []

abbrev start : RecordStore
start = new_record_store (pos 3600000000000) cfg hosts

abbrev at : ℤ → Time
at s = record { sec = s; nsec = 0 }

abbrev heard : Record
heard = record {
  hostname = bytes "node1";
  machine_id = [];
  aliases = bytes "www" ∷ [];
  addresses = bytes "10.0.0.1" ∷ [];
  timestamp = pos 5;
  first_seen = pos 0;
  ttl = pos 0;
  services = [];
  status = unset;
  is_static = false;
}

abbrev impostor : Record
impostor = record heard { hostname = bytes "nas" }

abbrev history : List Step
history =
    Step.announced (at (pos 1000)) heard
    ∷ Step.announced (at (pos 1001)) impostor
    ∷ Step.forgotten (bytes "nas")
    ∷ Step.marked (bytes "node1")
    ∷ Step.listed (at (pos 1030))
    ∷ []

abbrev after : RecordStore
after = run history start

unique : IsUnique hosts
unfolding program
unique = (refl, tt)

resolves_by_alias :
    (get after (at (pos 1040)) (bytes "www")
      ≡ some (record heard {
        timestamp = pos 1000;
        first_seen = pos 1000;
        ttl = pos 3600;
        status = healthy;
      }))
unfolding program
resolves_by_alias = refl

lost_after_an_hour : get after (at (pos 4600)) (bytes "node1") ≡ none
unfolding program
lost_after_an_hour = refl

after-IsValid : IsValid (run history start)
after-IsValid = Initial.run-start-IsValid (pos 3600000000000) cfg hosts unique history

program_dynamic : is_static_host start.health (bytes "node1") ≡ false
unfolding program
program_dynamic = refl

cleanup-mark_lost_example :
    cleanup_expired_records (at (pos 1040)) (mark_lost (bytes "node1") after)
    ≡ cleanup_expired_records (at (pos 1040)) after
cleanup-mark_lost_example = Marking.cleanup-mark_lost after (bytes "node1") (at (pos 1040))

cleanup-exact_example :
    ((k : Str)
      → lookup k (cleanup_expired_records (at (pos 4600)) after).records
        ≡ Cleanup.surviving after.health (at (pos 4600)) (lookup k after.records))
    × ((a : Str)
        → lookup a (cleanup_expired_records (at (pos 4600)) after).alias_index
          ≡ retain
              (λ h. not (Cleanup.expired after.health (at (pos 4600)) after.records h))
              (lookup a after.alias_index))
cleanup-exact_example =
    Cleanup.cleanup-exact after (at (pos 4600)) after-IsValid.unique_records
      after-IsValid.unique_aliases

get_by_addr-exact_example :
    ((r : Record)
      → get_by_addr after (at (pos 1040)) (bytes "10.0.0.1") ≡ some r
      → In r (values after.records)
        × (has_address (bytes "10.0.0.1") r ≡ true)
        × (is_lost after.health (at (pos 1040)) r ≡ false))
    × ((r : Record)
        → In r (values after.records)
        → has_address (bytes "10.0.0.1") r ≡ true
        → is_lost after.health (at (pos 1040)) r ≡ false
        → (q : Record) × (get_by_addr after (at (pos 1040)) (bytes "10.0.0.1") ≡ some q))
get_by_addr-exact_example = Reads.get_by_addr-exact after (at (pos 1040)) (bytes "10.0.0.1")

get-run-new_record_store_example :
    get (run history (new_record_store (pos 3600000000000) cfg hosts)) (at (pos 1040)) (bytes "www")
    ≡ Abstract.answer
        (new_health_tracker cfg hosts)
        (pos 3600000000000)
        (at (pos 1040))
        (bytes "www")
        (Abstract.apply_all
          (new_health_tracker cfg hosts)
          (pos 3600000000000)
          history
          (Abstract.configured hosts))
get-run-new_record_store_example =
    Simulated.get-run-new_record_store (pos 3600000000000) cfg hosts history (at (pos 1040))
      (bytes "www") unique

-- Two hosts, in both orders.
abbrev peer : Record
peer = record heard { hostname = bytes "node2"; aliases = []; addresses = bytes "10.0.0.2" ∷ [] }

abbrev one_way : List Step
one_way = Step.announced (at (pos 1000)) heard ∷ Step.announced (at (pos 1000)) peer ∷ []

abbrev other_way : List Step
other_way = Step.announced (at (pos 1000)) peer ∷ Step.announced (at (pos 1000)) heard ∷ []

abbrev left_store : View.ValidStore
left_store =
    (run one_way start, Initial.run-start-IsValid (pos 3600000000000) cfg hosts unique one_way)

abbrev right_store : View.ValidStore
right_store =
    (run other_way start, Initial.run-start-IsValid (pos 3600000000000) cfg hosts unique other_way)

same_view : View.SameView left_store right_store
unfolding program
same_view = record {
  health = refl;
  ttl = refl;
  hosts = λ k. ground (arith, str_eq_iff (bytes "node1") k, str_eq_iff (bytes "node2") k);
  aliases = λ a. refl;
}

get-run-view_example :
    (View.get_view (at (pos 1040)) (bytes "www") (View.run_view history (View.view left_store))
      ≡ get (run history left_store.0) (at (pos 1040)) (bytes "www"))
    × (get (run history left_store.0) (at (pos 1040)) (bytes "www")
        ≡ get (run history right_store.0) (at (pos 1040)) (bytes "www"))
get-run-view_example =
    View.get-run-view history (at (pos 1040)) (bytes "www") left_store right_store same_view
