-- ===== src/Program/Behavior/Constants.antt =====
-- The constants that hasIdenticalBehavior compares (gegelatilib/src/program/program.cpp).
use gegelati.Base.{
  ==ℤ, ==ℤ_sound, Bool, List, Result, [], ap, arith, bind_ok, elem_at, false, if◌then◌else◌, length,
  ok, ok-injective, out_of_range, refl, subst, suc, sym, true, zero, ℕ, ℤ, ◌<◌, ◌==◌, ◌∙◌, ◌∷◌, ◌≡◌,
}
use gegelati.Data.{TypeInfo, array, scalar, scale}
use gegelati.Environment.{Instruction}
use gegelati.Program.{Flagged, Line, line_eq, operands_eq}
use gegelati.Program.Introns.Clear.{useful_lines}
use gegelati.Data.Arrays.{space_of}
use gegelati.Program.Behavior.{scaled_constant}
use gegelati.Program.Engine.{next}
use gegelati.Program.Engine.Reads.{scale-lt}

-- Every line has as many operands as the environment allots.
abbrev pub IsSized : ℕ → List Flagged → Type 0
IsSized n [] = Unit {0}
IsSized n (e ∷ lines) = (length e.0.operands ≡ n) × IsSized n lines

-- No operand is an array of constants, which the comparison does not look into.
abbrev pub is_constant_array : TypeInfo → Bool
is_constant_array (array s n) = s == 1
is_constant_array (scalar s) = false

abbrev pub NoConstantArray : List TypeInfo → Type 0
NoConstantArray [] = Unit {0}
NoConstantArray (t ∷ types) = (is_constant_array t ≡ false) × NoConstantArray types

abbrev pub NoConstantArrays : {D : Type 0} → List (Instruction D) → Type 0
NoConstantArrays [] = Unit {0}
NoConstantArrays (i ∷ is) = NoConstantArray i.operand_types × NoConstantArrays is

pub IsSized-useful :
    (n : ℕ) (lines : List Flagged) → IsSized n lines → IsSized n (useful_lines lines)
IsSized-useful n [] h = tt
IsSized-useful n ((line, true) ∷ lines) h = IsSized-useful n lines h.1
IsSized-useful n ((line, false) ∷ lines) h = (h.0, IsSized-useful n lines h.1)

operands_eq_sound :
    (n : ℕ) (xs ys : List (ℕ × ℕ))
    → length xs ≡ n
    → length ys ≡ n
    → operands_eq n xs ys ≡ true
    → xs ≡ ys
unfolding operands_eq
operands_eq_sound zero [] [] h k e = refl
operands_eq_sound zero [] (y ∷ ys) h k e = absurd (omega arith)
operands_eq_sound zero (x ∷ xs) ys h k e = absurd (omega arith)
operands_eq_sound (suc n) [] ys h k e = absurd (omega arith)
operands_eq_sound (suc n) (x ∷ xs) [] h k e = absurd (omega arith)
operands_eq_sound (suc n) ((a, b) ∷ xs) ((c, d) ∷ ys) h k e =
    ground (arith, operands_eq_sound n xs ys)

pub line_eq_sound :
    (n : ℕ) (l m : Line)
    → length l.operands ≡ n
    → length m.operands ≡ n
    → line_eq n l m ≡ true
    → l ≡ m
unfolding line_eq
line_eq_sound n l m h k e = ground (arith, operands_eq_sound n l.operands m.operands)

pub NoConstantArray-elem_at :
    {D : Type 0} (is : List (Instruction D)) (i : ℕ) (instruction : Instruction D)
    → NoConstantArrays is
    → elem_at is i out_of_range ≡ ok instruction
    → NoConstantArray instruction.operand_types
NoConstantArray-elem_at [] i instruction h e = cc
NoConstantArray-elem_at (x ∷ is) zero instruction h e =
    subst (λ j. NoConstantArray j.operand_types) (ok-injective e) h.0
NoConstantArray-elem_at (x ∷ is) (suc i) instruction h e =
    NoConstantArray-elem_at is i instruction h.1 e

pub ==ℤ-same : (b c : ℤ) → ok (==ℤ b c) ≡ ok true → b ≡ c
==ℤ-same b c h = ==ℤ_sound b c (ok-injective h)

pub both_true :
    (b : Bool) (rest : Result Bool)
    → (if b then rest else ok false) ≡ ok true
    → (b ≡ true) × (rest ≡ ok true)
both_true true rest h = (refl, h)
both_true false rest h = absurd (ground arith)

-- Both programs hold the same constant at a location.
pub record SameConstant (here there : List ℤ) (location : ℕ) : Type 0 where
  pub index : ℕ
  pub value : ℤ
  pub scaled : scale location (length here) ≡ ok index
  pub inside : index < length here
  pub first : elem_at here index out_of_range ≡ ok value
  pub second : elem_at there index out_of_range ≡ ok value

scaled_constant-inverse :
    (constants : List ℤ) (location : ℕ) (value : ℤ)
    → scaled_constant constants location ≡ ok value
    → (index : ℕ) × (scale location (length constants) ≡ ok index)
      × (elem_at constants index out_of_range ≡ ok value)
unfolding scaled_constant
scaled_constant-inverse constants location value h =
    let (index, scaled, next) = bind_ok (scale location (length constants)) _ h in
    (index, scaled, ground arith)

pub SameConstant-scaled_constant :
    (here there : List ℤ) (location : ℕ) (value : ℤ)
    → length here ≡ length there
    → scaled_constant here location ≡ ok value
    → scaled_constant there location ≡ ok value
    → SameConstant here there location
SameConstant-scaled_constant here there location value size h k =
    let (index, scaled, first) = scaled_constant-inverse here location value h in
    let (other, scaled', second) = scaled_constant-inverse there location value k in
    let same : index ≡ other = ok-injective (sym scaled ∙ ap (scale location) size ∙ scaled') in
    record {
      index = index;
      value = value;
      scaled = scaled;
      inside = scale-lt location (length here) index scaled;
      first = first;
      second = rw same second;
    }

pub no_space-array :
    (constants : List ℤ) (s n : ℕ)
    → (s == 1) ≡ false
    → space_of 1 (length constants) (array s n) ≡ 0
unfolding space_of
no_space-array constants s n h = rw h

pub no_space-scalar :
    (constants : List ℤ) (s : ℕ) → (s == 1) ≡ false → space_of 1 (length constants) (scalar s) ≡ 0
unfolding space_of
no_space-scalar constants s h = rw h
