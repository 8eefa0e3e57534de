-- ===== src/Rng.antt =====
-- gegelatilib/src/mutator/rng.cpp: the source of random numbers, as an interface over the state R
-- of its engine. The distributions are a copy of a standard library's (deterministicRandom.h).
use gegelati.Base.{ℕ, ℤ, arith, ◌+◌, ◌≤◌}

pub record Rng (D R : Type 0) : Type 0 where
  -- getUnsignedInt64(min, max)
  pub uint64 : ℕ → ℕ → R → ℕ × R
  -- getInt32(min, max)
  pub int32 : ℤ → ℤ → R → ℤ × R
  -- getDouble(0.0, 1.0)
  pub unit_double : R → D × R

-- A number is drawn from a range that is not empty.
pub record RngLaws {D R : Type 0} (rng : Rng D R) : Type 0 where
  pub uint64_range :
      (min max : ℕ) (r : R)
      → min ≤ max
      → (min ≤ (rng.uint64 min max r).0) × ((rng.uint64 min max r).0 ≤ max)

-- Always the least number, for examples.
abbrev pub lowest : {D : Type 0} → D → Rng D ℕ
lowest d0 = record {
  uint64 = λ min max r. (min, r + 1);
  int32 = λ min max r. (min, r + 1);
  unit_double = λ r. (d0, r + 1);
}

pub lowest-RngLaws : {D : Type 0} (d0 : D) → RngLaws (lowest d0)
lowest-RngLaws d0 = record { uint64_range = λ min max r h. (omega arith, h) }
