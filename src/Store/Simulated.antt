-- ===== src/Store/Simulated.antt =====
-- The daemon's record store from its start (internal/daemon/store.go) against Store.Abstract.
use disco.Base.{Str, Str_eq, List, [], ◌∷◌, ◌≡◌, refl, ◌∙◌, ap}
use disco.Clock.{Time, Duration}
use disco.Dict.{Dict, lookup, IsUnique}
use disco.Health.{HealthConfig, StaticHost, new_health_tracker}
use disco.Store.{RecordStore, new_record_store, get}
use disco.Store.Abstract.{Names, answer, apply, apply_all, configured}
use disco.Store.Initial.{
  start, start-records, start-alias_index, start-health, start-ttl, start-IsValid,
}
use disco.Store.Invariant.{step-IsValid}
use disco.Store.Refined.{Shows, Shows-step, step-kept, get-answer}
use disco.Store.Steps.{Step, step, run}
use disco.Store.Valid.{IsValid}

get-run :
    (xs : List Step) (s : RecordStore) (v : Names) (now : Time) (name : Str)
    → IsValid s
    → Shows s v
    → get (run xs s) now name ≡ answer s.health s.ttl now name (apply_all s.health s.ttl xs v)
unfolding run
get-run [] s v now name valid shows = get-answer s v valid shows now name
get-run (x ∷ xs) s v now name valid shows =
    let (same_health, same_ttl) = step-kept x s in
    get-run xs (step x s) (apply s.health s.ttl x v) now name (step-IsValid x s valid)
      (Shows-step s v valid shows x)
    ∙ rw (same_health, same_ttl) refl

-- From the configured start, with no static host configured twice, and after any announcements,
-- listings, mark-losts, forgets and cleanup ticks, `Get` answers for every name as the
-- specification does: two functions, from host names to records and from aliases to host names,
-- that each step changes as a whole, with no map and no order.
pub get-run-new_record_store :
    (ttl : Duration) (cfg : HealthConfig) (hosts : Dict Str StaticHost) (xs : List Step)
    (now : Time) (name : Str)
    → IsUnique hosts
    → get (run xs (new_record_store ttl cfg hosts)) now name ≡ (
        let ht = new_health_tracker cfg hosts in
        answer ht ttl now name (apply_all ht ttl xs (configured hosts)))
unfolding lookup
get-run-new_record_store ttl cfg hosts xs now name u =
    get-run xs (start ttl cfg hosts u) (configured hosts) now name (start-IsValid ttl cfg hosts u)
      (record {
        hosts = start-records ttl cfg hosts u;
        aliases = λ a. ap (lookup a) (start-alias_index ttl cfg hosts u);
      })
    ∙ rw (start-health ttl cfg hosts u, start-ttl ttl cfg hosts u) refl
