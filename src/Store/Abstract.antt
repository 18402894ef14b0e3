-- ===== src/Store/Abstract.antt =====
-- What the record store (internal/daemon/store.go) promises, without its maps: a function from host
-- names to records and one from aliases to host names, and what each step makes of the two.
use mathlib.Core.Option
use disco.Base.{
  Str, Str_eq, Bool, true, false, not, List, [], ◌∷◌, Option, none, some, if◌then◌else◌, eqb_ℤ, pos,
  ◌≟◌, any, retain,
}
use disco.Clock.{Time, Duration, unix, whole_seconds}
use disco.Dict.{Dict, lookup}
use disco.Health.{
  HealthTracker, StaticHost, static_record, update_record_status, is_static_host, should_expire,
}
use disco.Nss.{Record}
use disco.Store.{is_lost, lost_record}
use disco.Store.Steps.{Step}

pub record Names : Type 0 where
  pub host : Str → Option Record
  pub alias : Str → Option Str

-- The record of the host of a name: its own, else that of the host that it is an alias of.
abbrev pub named : Names → Str → Option Record
named v name = elim (v.host name) [
  | some r ↦ some r
  | none ↦ elim (v.alias name) [ none ↦ none | some h ↦ v.host h ]
]

-- Every alias of a host is gone.
abbrev pub freed : Str → (Str → Option Str) → Str → Option Str
freed hostname alias a = retain (λ h. not (h ≟ hostname)) (alias a)

module _ (ht : HealthTracker) (ttl : Duration) where
  abbrev pub answer : Time → Str → Names → Option Record
  answer now name v = retain (λ r. not (is_lost ht now r)) (named v name)

  -- A record that is announced, where an earlier one of the host may be known.
  abbrev pub received : Time → Record → Option Record → Record
  received now r old = update_record_status ht now (record r {
    ttl = if eqb_ℤ r.ttl (pos 0) then whole_seconds ttl else r.ttl;
    first_seen = elim old [ some o ↦ o.first_seen | none ↦ unix now ];
    timestamp = unix now;
    is_static = false;
  })

  -- The host has the new record, and the aliases of the new record and no others.
  abbrev pub announce : Time → Record → Names → Names
  announce now r v = record {
    host = λ k. if r.hostname ≟ k then some (received now r (v.host r.hostname)) else v.host k;
    alias = λ a. if any (λ x. x ≟ a) r.aliases then some r.hostname else freed r.hostname v.alias a;
  }

  abbrev pub survives : Time → Record → Bool
  survives now r = not (should_expire ht now r)

  -- An alias of a host that is known and expires.
  abbrev pub kept : Time → Names → Str → Bool
  kept now v h = elim (v.host h) [ none ↦ true | some r ↦ survives now r ]

  -- Static hosts are as configured, whatever step is made.
  abbrev pub apply : Step → Names → Names
  apply (Step.announced now r) v = if is_static_host ht r.hostname then v else announce now r v
  apply (Step.listed now) v = record {
    host = λ k. Option.map (update_record_status ht now) (v.host k);
    alias = v.alias;
  }
  apply (Step.marked hostname) v = if is_static_host ht hostname then v else record {
    host = λ k. if hostname ≟ k then Option.map lost_record (v.host k) else v.host k;
    alias = v.alias;
  }
  apply (Step.forgotten hostname) v = if is_static_host ht hostname then v else record {
    host = λ k. if hostname ≟ k then none else v.host k;
    alias = freed hostname v.alias;
  }
  apply (Step.ticked now) v = record {
    host = λ k. Option.map (update_record_status ht now) (retain (survives now) (v.host k));
    alias = λ a. retain (kept now v) (v.alias a);
  }

  abbrev pub apply_all : List Step → Names → Names
  apply_all [] v = v
  apply_all (x ∷ xs) v = apply_all xs (apply x v)

-- Only the configured static hosts are known, and no alias.
abbrev pub configured : Dict Str StaticHost → Names
configured hosts = record {
  host = λ k. Option.map (static_record k) (lookup k hosts);
  alias = λ a. none;
}
