-- ===== src/Doubles.antt =====
-- The operations of type double that the C++ code uses, as an interface: an abstract type with
-- the comparisons and the arithmetic of IEEE 754, which no file of the repository defines.
use gegelati.Base.{Bool, false, leb, ltb, ℕ, ◌*◌, ◌+◌, ◌-◌, ◌/◌, ◌==◌, arith, refl, true, ◌≡◌}

pub record Doubles (D : Type 0) : Type 0 where
  pub eq : D → D → Bool
  pub le : D → D → Bool
  pub lt : D → D → Bool
  pub add : D → D → D
  pub sub : D → D → D
  pub mul : D → D → D
  pub div : D → D → D
  pub abs : D → D
  pub of_nat : ℕ → D
  pub neg_infinity : D
  pub is_nan : D → Bool

-- Whole numbers in place of doubles, for examples.
abbrev pub whole_numbers : Doubles ℕ
whole_numbers = record {
  eq = ◌==◌;
  le = leb;
  lt = ltb;
  add = ◌+◌;
  sub = ◌-◌;
  mul = ◌*◌;
  div = ◌/◌;
  abs = λ n. n;
  of_nat = λ n. n;
  neg_infinity = 0;
  is_nan = λ n. false;
}

-- What IEEE 754 says of `<=`: it is transitive, it compares any two values that are no NaN, and
-- minus infinity is no NaN.
pub record DoubleLaws {D : Type 0} (F : Doubles D) : Type 0 where
  pub le_trans : (a b c : D) → F.le a b ≡ true → F.le b c ≡ true → F.le a c ≡ true
  pub le_total :
      (a b : D) → F.is_nan a ≡ false → F.is_nan b ≡ false → F.le a b ≡ false → F.le b a ≡ true
  pub infinity_number : F.is_nan F.neg_infinity ≡ false

pub whole_numbers-DoubleLaws : DoubleLaws whole_numbers
whole_numbers-DoubleLaws = record {
  le_trans = λ a b c p q. ground arith;
  le_total = λ a b p q r. ground arith;
  infinity_number = refl;
}
