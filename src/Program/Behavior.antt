-- ===== src/Program/Behavior.antt =====
-- Program::hasIdenticalBehavior (gegelatilib/src/program/program.cpp).
pub mod Compare
pub mod Constants
pub mod Operands
pub mod Sound
use gegelati.Base.{
  ==ℤ, Bool, List, Result, [], elem_at, false, guard, if◌then◌else◌, invalid_argument, length, ltb,
  not, ok, out_of_range, suc, true, xor, zero, ℕ, ℤ, ◌&&◌, ◌+◌, ◌==◌, ◌>>=◌, ◌>>◌, ◌∷◌,
}
use gegelati.Data.{TypeInfo, scale}
use gegelati.Environment.{Environment}
use gegelati.Program.{Flagged, Line, Program, get_operand, line_eq, line_of}
use gegelati.Program.Engine.{skip_introns}

-- The lambda nextNonIntronIdx.
unfoldable pub next_non_intron : List Flagged → ℕ → ℕ
unfolding skip_introns
next_non_intron lines idx = skip_introns (length lines) lines idx

-- getConstantAt(index)
unfoldable pub get_constant_at : List ℤ → ℕ → Result ℤ
get_constant_at constants index = do
  guard (ltb 0 (length constants)) invalid_argument
  elem_at constants index out_of_range

-- The constant that a location stands for.
unfoldable pub scaled_constant : List ℤ → ℕ → Result ℤ
unfolding get_constant_at scale
scaled_constant constants location = do
  index ← scale location (length constants)
  get_constant_at constants index

module _ {D : Type 0} (env : Environment D) (here there : List ℤ) where
  -- One operand of two equal lines: constants that it refers to must be equal.
  unfoldable pub same_operand : Line → Line → ℕ → Result Bool
  unfolding scaled_constant get_operand
  same_operand this_line other_line idx = do
    operand ← get_operand env this_line idx
    if operand.0 == 1
        then (do
          this_constant ← scaled_constant here operand.1
          other_operand ← get_operand env other_line idx
          other_constant ← scaled_constant there other_operand.1
          ok (==ℤ this_constant other_constant))
        else ok true

  -- The loop over the operands, from `idx` on, for as many as there are types left.
  unfoldable pub same_operands : Line → Line → ℕ → List TypeInfo → Result Bool
  unfolding same_operand
  same_operands this_line other_line idx [] = ok true
  same_operands this_line other_line idx (t ∷ types) = do
    same ← same_operand this_line other_line idx
    let rest = same_operands this_line other_line (idx + 1) types
    if same then rest else ok false

  -- The comparison of two lines that are no introns.
  unfoldable pub same_lines : Line → Line → Result Bool
  unfolding same_operands line_eq
  same_lines this_line other_line =
      if line_eq env.max_nb_operands this_line other_line
      then (if ltb 0 env.nb_constants
          then (do
            instruction ← elem_at env.instruction_set this_line.instruction_index out_of_range
            same_operands this_line other_line 0 instruction.operand_types)
          else ok true)
      else ok false

  -- The loop over both programs.
  unfoldable pub compare_from : ℕ → List Flagged → List Flagged → ℕ → ℕ → Result Bool
  unfolding same_lines next_non_intron
  compare_from zero these others i j = ok true
  compare_from (suc fuel) these others i j =
      if ltb i (length these) && ltb j (length others)
      then (do
        this_line ← line_of (elem_at these i out_of_range)
        other_line ← line_of (elem_at others j out_of_range)
        same ← same_lines this_line other_line
        let rest =
            compare_from fuel these others (next_non_intron these (i + 1))
              (next_non_intron others (j + 1))
        if same then rest else ok false)
      else ok (not (xor (ltb i (length these)) (ltb j (length others))))

-- One round for each line of the first program, and one more to find the end.
unfoldable pub has_identical_behavior :
    {D : Type 0} → Environment D → Program → Program → Result Bool
unfolding compare_from
has_identical_behavior env p q =
    compare_from env p.constants q.constants (suc (length p.lines)) p.lines q.lines
      (next_non_intron p.lines 0) (next_non_intron q.lines 0)
