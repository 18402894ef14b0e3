-- ===== src/Timesync/Floats.antt =====
-- The float64 operations that the time synchronisation uses, as an interface: what it computes
-- with them is stated for every such arithmetic. `zero`, `one`, `tiny` and `giga` are the
-- constants 0, 1.0, 0.0001 and 1e9.
use disco.Base.{ℤ, Bool}

pub record Floats : Type 1 where
  pub Float : Type 0
  pub zero : Float
  pub one : Float
  pub tiny : Float
  pub giga : Float
  pub add : Float → Float → Float
  pub sub : Float → Float → Float
  pub mul : Float → Float → Float
  pub div : Float → Float → Float
  pub gt : Float → Float → Bool
  pub eq : Float → Float → Bool
  pub of_int : ℤ → Float
  pub to_int : Float → ℤ
