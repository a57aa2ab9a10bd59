-- ===== src/Platform/Policy/Tri.antt =====
-- The three truth values of a condition.
use mathlib.Core.Bool.{Bool}

pub data Tri : Type 0 where
  true false unknown : Tri

abbrev pub of_bool : Bool → Tri
of_bool Bool.true = true
of_bool Bool.false = false

-- `v === "unknown" ? "unknown" : !v`
abbrev pub negate : Tri → Tri
negate true = false
negate false = true
negate unknown = unknown

-- The strongest and the weakest of two.
abbrev pub both : Tri → Tri → Tri
both false w = false
both true w = w
both unknown false = false
both unknown _ = unknown

abbrev pub either : Tri → Tri → Tri
either true w = true
either false w = w
either unknown true = true
either unknown _ = unknown
