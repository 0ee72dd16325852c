-- ===== src/Stats/Floats.antt =====
-- Go's float64, as far as the aggregates use it: a type with its operations, taken as a parameter.
use go_salt_events.Base.{Bool, ltb, ℕ, ◌*◌, ◌+◌, ◌/◌}

pub record Floats : Type 1 where
  pub Float : Type 0
  pub of_uint : ℕ → Float
  pub div : Float → Float → Float
  pub mul : Float → Float → Float
  pub add : Float → Float → Float
  pub lt : Float → Float → Bool

-- Whole numbers, with division rounded down, for tests.
abbrev pub whole : Floats
whole = record {
  Float = ℕ;
  of_uint = λ n. n;
  div = λ a b. a / b;
  mul = λ a b. a * b;
  add = λ a b. a + b;
  lt = ltb;
}
