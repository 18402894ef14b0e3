-- ===== src/Store/Valid.antt =====
-- The well-formedness of a record store, and what the map operations keep of it.
use mathlib.Core.Option
use disco.Base.{
  Str, Str_eq, str_eq_iff, Bool, true, false, List, Option, none, some, ◌≡◌, arith, ◌≟◌, retain,
  not, any, Bool-cases, inl, inr,
}
use disco.Clock.{Time}
use disco.Dict.{Dict, lookup, insert, delete, IsUnique, has_key}
use disco.Dict.Laws.{lookup-insert, lookup-delete}
use disco.Health.{HealthTracker, update_record_status, is_static_host}
use disco.Nss.{Record}
use disco.Store.{RecordStore, index_aliases, lost_record}
use disco.Store.Aliases.{lookup-index_aliases}

-- What stands under a hostname: nothing, which a static host cannot be, or a record of that name
-- that is static exactly if the host is.
abbrev pub Fits : Str → Bool → Option Record → Type 0
Fits k flag none = flag ≡ false
Fits k flag (some r) = (r.hostname ≡ k) × (r.is_static ≡ flag)

-- An alias that stands for a host stands for one that is in the cache.
abbrev pub Live : Dict Str Record → Option Str → Type 0
Live m none = Unit
Live m (some h) = has_key h m ≡ true

pub record IsValid (s : RecordStore) : Type 0 where
  pub unique_records : IsUnique s.records
  pub unique_aliases : IsUnique s.alias_index
  pub fitting : (k : Str) → Fits k (is_static_host s.health k) (lookup k s.records)
  pub live : (a : Str) → Live s.records (lookup a s.alias_index)

pub Fits-update :
    (ht : HealthTracker) (now : Time) (k : Str) (flag : Bool) (o : Option Record)
    → Fits k flag o
    → Fits k flag (Option.map (update_record_status ht now) o)
unfolding update_record_status
Fits-update ht now k flag none f = f
Fits-update ht now k flag (some r) f = f

pub Fits-lost :
    (k : Str) (flag : Bool) (r : Record) → Fits k flag (some r) → Fits k flag (some (lost_record r))
unfolding lost_record
Fits-lost k flag r f = f

-- Where no key is lost, live aliases stay live.
pub Live-mono :
    (m n : Dict Str Record)
    → ((h : Str) → has_key h m ≡ true → has_key h n ≡ true)
    → (o : Option Str) → Live m o
    → Live n o
Live-mono m n f none l = tt
Live-mono m n f (some h) l = f h l

-- A record put under its own name, with the flag of the name.
pub Fits-insert :
    (k j : Str) (flag : Bool) (r : Record) (m : Dict Str Record)
    → (j ≡ k → Fits k flag (some r))
    → Fits k flag (lookup k m)
    → Fits k flag (lookup k (insert j r m))
Fits-insert k j flag r m new old = rw lookup-insert (elim (Bool-cases (j ≟ k)) [
  | inl same ↦ rw same (new ((str_eq_iff j k).0 same))
  | inr other ↦ rw other old
])

pub has_key-insert :
    (j : Str) (r : Record) (m : Dict Str Record) (h : Str)
    → has_key h m ≡ true
    → has_key h (insert j r m) ≡ true
has_key-insert j r m h q = ground (arith, lookup-insert j h r m)

pub Live-index_aliases :
    (a h : Str) (aliases : List Str) (index : Dict Str Str) (m : Dict Str Record)
    → has_key h m ≡ true
    → Live m (lookup a index)
    → Live m (lookup a (index_aliases h aliases index))
Live-index_aliases a h aliases index m held old =
    rw lookup-index_aliases (elim (Bool-cases (any (λ x. x ≟ a) aliases)) [
      | inl named ↦ rw named held
      | inr other ↦ rw other old
    ])

-- Where the test holds only of hosts that stay, the aliases that are kept stay live.
pub Live-retain :
    (m n : Dict Str Record) (p : Str → Bool)
    → ((h : Str) → has_key h m ≡ true → p h ≡ true → has_key h n ≡ true)
    → (o : Option Str) → Live m o
    → Live n (retain p o)
Live-retain m n p f none l = tt
Live-retain m n p f (some h) l = elim (Bool-cases (p h)) [
  | inl e ↦ rw e (f h l e)
  | inr e ↦ rw e tt
]

pub has_key-delete :
    (m : Dict Str Record) (host h : Str)
    → has_key h m ≡ true
    → not (h ≟ host) ≡ true
    → has_key h (delete host m) ≡ true
has_key-delete m host h q e =
    ground (arith, lookup-delete host h m, str_eq_iff h host, str_eq_iff host h)

pub Fits-delete :
    (k j : Str) (flag : Bool) (m : Dict Str Record)
    → (j ≡ k → flag ≡ false)
    → Fits k flag (lookup k m)
    → Fits k flag (lookup k (delete j m))
Fits-delete k j flag m gone old = rw lookup-delete (elim (Bool-cases (j ≟ k)) [
  | inl same ↦ rw same (gone ((str_eq_iff j k).0 same))
  | inr other ↦ rw other old
])
