-- ===== src/Store/Aliases.antt =====
-- The alias index of the record store under its two loops.
use disco.Base.{
  Str, Str_eq, List, [], ◌∷◌, some, if◌then◌else◌, ◌≡◌, refl, arith, ◌≟◌, any, retain, not,
}
use disco.Dict.{Dict, lookup, insert, IsUnique}
use disco.Dict.Laws.{lookup-insert, insert-IsUnique, lookup-keep, keep-IsUnique}
use disco.Store.{index_aliases, remove_aliases_for_host}

-- Each of the aliases stands for the host afterwards, the other names for what they stood for.
pub lookup-index_aliases :
    (a h : Str) (aliases : List Str) (m : Dict Str Str)
    → lookup a (index_aliases h aliases m)
      ≡ (if any (λ x. x ≟ a) aliases then some h else lookup a m)
unfolding index_aliases
lookup-index_aliases a h [] m = refl
lookup-index_aliases a h (x ∷ xs) m =
    ground (arith, lookup-index_aliases a h xs (insert x h m), lookup-insert x a h m)

pub index_aliases-IsUnique :
    (h : Str) (aliases : List Str) (m : Dict Str Str)
    → IsUnique m
    → IsUnique (index_aliases h aliases m)
unfolding index_aliases
index_aliases-IsUnique h [] m u = u
index_aliases-IsUnique h (x ∷ xs) m u =
    index_aliases-IsUnique h xs (insert x h m) (insert-IsUnique x h m u)

-- The names that stood for the host stand for nothing afterwards, and no other name changes.
pub lookup-remove_aliases_for_host :
    (a h : Str) (m : Dict Str Str)
    → IsUnique m
    → lookup a (remove_aliases_for_host h m) ≡ retain (λ t. not (t ≟ h)) (lookup a m)
unfolding remove_aliases_for_host
lookup-remove_aliases_for_host a h m u = lookup-keep (λ alias t. not (t ≟ h)) a m u

pub remove_aliases_for_host-IsUnique :
    (h : Str) (m : Dict Str Str) → IsUnique m → IsUnique (remove_aliases_for_host h m)
unfolding remove_aliases_for_host
remove_aliases_for_host-IsUnique h m u = keep-IsUnique (λ alias t. not (t ≟ h)) m u
