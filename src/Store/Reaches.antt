-- ===== src/Store/Reaches.antt =====
-- A store that some steps (internal/daemon/store.go) make of another.
use disco.Base.{List, [], ◌∷◌, ◌++◌, ◌≡◌, refl, ◌∙◌, ap}
use disco.Store.{RecordStore}
use disco.Store.Steps.{Step, step, run}

abbrev pub Reaches : RecordStore → RecordStore → Type 0
Reaches s t = (xs : List Step) × (run xs s ≡ t)

pub Reaches-refl : (s : RecordStore) → Reaches s s
unfolding run
Reaches-refl s = ([], refl)

pub Reaches-step : (x : Step) (s : RecordStore) → Reaches s (step x s)
unfolding run
Reaches-step x s = (x ∷ [], refl)

run-append : (xs ys : List Step) (s : RecordStore) → run (xs ++ ys) s ≡ run ys (run xs s)
unfolding run
run-append [] ys s = refl
run-append (x ∷ xs) ys s = run-append xs ys (step x s)

pub Reaches-trans : (s t u : RecordStore) → Reaches s t → Reaches t u → Reaches s u
Reaches-trans s t u (xs, e) (ys, f) = (xs ++ ys, run-append xs ys s ∙ ap (run ys) e ∙ f)
