-- ===== src/ProgramMutator/Samples.antt =====
-- Correct lines and a valid program of the sample environment.
use gegelati.Base.{
  Each, [], arith, negsuc, not, pos, refl, suc, zero, ℕ, ◌<◌, ◌==◌, ◌∷◌, ◌≡◌, false,
}
use gegelati.Data.{real, double_type}
use gegelati.Data.Arrays.{handler}
use gegelati.Program.{Line, Program}
use gegelati.Program.Samples.{sample_array, line, sample_environment}
use gegelati.Mutator.Sources.{handles}
use gegelati.Mutator.Operands.{Handled, Sound}
use gegelati.ProgramMutator.{ProgramParameters}
use gegelati.Mutator.Indexes.{Correct}
use gegelati.ProgramMutator.Mutate.{Sized}
use gegelati.Data.Reading.{IsReadable, handler-IsReadable}

abbrev pub sample_parameters : ProgramParameters ℕ
sample_parameters = record {
  max_program_size = 4;
  p_delete = 1;
  p_add = 1;
  p_mutate = 1;
  p_swap = 1;
  p_constant_mutation = 1;
  min_const_value = negsuc 9;
  max_const_value = pos 10;
}

abbrev pub first_line : Line
first_line = line 0 1 (2, 0) (2, 1)

handles_sample : (j : ℕ) → j < 3 → handles sample_environment j double_type ≡ not (j == 1)
unfolding handler
handles_sample zero h = refl
handles_sample (suc zero) h = refl
handles_sample (suc (suc zero)) h = refl
handles_sample (suc (suc (suc j))) h = absurd (omega arith)

pub first_line-Sound : Sound sample_environment first_line
first_line-Sound = record {
  instruction_valid = omega arith;
  destination_valid = omega arith;
  operands_counted = refl;
  operands_valid = λ k operand at_k. ground arith;
}

two_doubles :
    (k : ℕ) → Handled sample_environment (double_type ∷ double_type ∷ []) ((2, 0) ∷ (2, 1) ∷ []) k
unfolding handler
two_doubles zero operand t at_k typed = ground (arith, handles_sample 2 (omega arith))
two_doubles (suc zero) operand t at_k typed = ground (arith, handles_sample 2 (omega arith))
two_doubles (suc (suc k)) operand t at_k typed = absurd (ground arith)

pub first_line-Correct : Correct sample_environment first_line
first_line-Correct = record {
  sound = first_line-Sound;
  handled = λ i at_i k operand t at_k typed.
      let same : double_type ∷ double_type ∷ [] ≡ i.operand_types = ground arith in
      two_doubles k operand t at_k (rw (← same) at typed);
}

-- A program of this one line.
abbrev pub short_program : Program
short_program = record { lines = (first_line, false) ∷ []; constants = pos 1 ∷ pos 2 ∷ [] }

pub short_program-Sized : Sized sample_environment 4 short_program
short_program-Sized = record {
  valid = record { lines_correct = (first_line-Correct, tt); constants_counted = refl };
  some_line = omega arith;
  bounded = omega arith;
}

sample_array-IsReadable : IsReadable (handler sample_array)
sample_array-IsReadable =
    handler-IsReadable sample_array (real 5 ∷ real 6 ∷ []) refl refl (omega arith)

pub sample_sources-IsReadable : Each IsReadable sample_environment.data_sources
sample_sources-IsReadable = (sample_array-IsReadable, tt)
