-- ===== src/Store/Steps.antt =====
-- The steps that the daemon makes on the record store: a received or own announcement, and the
-- socket's and DNS server's calls, each under the store's mutex, and the ticks of the cleanup.
-- (Nothing calls `Delete`.)
use disco.Base.{Str, List, [], ◌∷◌}
use disco.Clock.{Time}
use disco.Nss.{Record}
use disco.Store.{RecordStore, add_or_update, list_all, mark_lost, forget, cleanup_expired_records}

pub data Step : Type 0 where
  announced : Time → Record → Step
  listed : Time → Step
  marked : Str → Step
  forgotten : Str → Step
  ticked : Time → Step

unfoldable pub step : Step → RecordStore → RecordStore
step (Step.announced now r) s = add_or_update now r s
step (Step.listed now) s = (list_all now s).0
step (Step.marked hostname) s = mark_lost hostname s
step (Step.forgotten hostname) s = forget hostname s
step (Step.ticked now) s = cleanup_expired_records now s

unfoldable pub run : List Step → RecordStore → RecordStore
run [] s = s
run (x ∷ xs) s = run xs (step x s)
