-- ===== src/ProgramMutator/Tests.antt =====
-- Lines and programs of the sample environment, drawn and changed with the least random numbers.
use gegelati.Base.{[], arith, refl, suc, zero, ℕ, ◌∷◌, ◌≡◌, Bool, false, ok, if◌then◌else◌, leb}
use gegelati.Data.{double_type}
use gegelati.Data.Arrays.{handler}
use gegelati.Program.{Line, Program}
use gegelati.Program.Samples.{
  line, sample_environment, sample_environment-IsEnvironment, sample_instructions, sample_sources,
}
use gegelati.Mutator.Operands.{Handled}
use gegelati.Mutator.OneRegister.{alter_correct_line-one_register}
use gegelati.ProgramMutator.{init_random_program, mutate_program}
use gegelati.Doubles.{whole_numbers}
use gegelati.Mutator.{alter_correct_line, init_random_correct_line}
use gegelati.Mutator.Alter.{alter_correct_line-Correct}
use gegelati.Mutator.Indexes.{Correct}
use gegelati.Mutator.Lines.{init_random_correct_line-Correct}
use gegelati.ProgramMutator.Init.{init_random_program-Sized}
use gegelati.ProgramMutator.Mutate.{Sized, mutate_program-Sized}
use gegelati.Rng.{lowest, lowest-RngLaws}
use gegelati.Environment.{Environment, fake_sources, new_environment}
use gegelati.ProgramMutator.Samples.{
  first_line, first_line-Correct, sample_parameters, short_program, short_program-Sized,
  sample_sources-IsReadable,
}
use gegelati.Program.Engine.{execute_program}
use gegelati.ProgramMutator.Providers.{sources_of}
use gegelati.ProgramMutator.Runs.{execute_program-Valid}

-- A line with nothing within the bounds.
abbrev stray_line : Line
stray_line = record {
  instruction_index = 9;
  destination_index = 7;
  operands = (8, 9) ∷ (6, 5) ∷ [];
}

init_random_correct_line-Correct_example :
    (res : Line × ℕ) × (init_random_correct_line (lowest 0) sample_environment stray_line 0
      ≡ ok res)
    × Correct sample_environment res.0
init_random_correct_line-Correct_example =
    init_random_correct_line-Correct (lowest 0) (lowest-RngLaws 0) 0 sample_environment
      sample_environment-IsEnvironment stray_line 0 refl

alter_correct_line-Correct_example :
    (res : Line × ℕ) × (alter_correct_line (lowest 0) sample_environment first_line 0 ≡ ok res)
    × Correct sample_environment res.0
alter_correct_line-Correct_example =
    alter_correct_line-Correct (lowest 0) (lowest-RngLaws 0) 0 sample_environment
      sample_environment-IsEnvironment first_line first_line-Correct 0

mutate_program-Sized_example :
    (res : Program × Bool × ℕ) × (mutate_program whole_numbers
        (lowest 0)
        sample_environment
        sample_parameters
        short_program
        0
      ≡ ok res)
    × Sized sample_environment 4 res.0
mutate_program-Sized_example =
    mutate_program-Sized whole_numbers (lowest 0) (lowest-RngLaws 0) 0 sample_environment
      sample_environment-IsEnvironment sample_parameters short_program 0 short_program-Sized

init_random_program-Sized_example :
    (res : Program × ℕ) × (init_random_program whole_numbers
        (lowest 0)
        sample_environment
        sample_parameters
        short_program
        0
      ≡ ok res)
    × Sized sample_environment 4 res.0
init_random_program-Sized_example =
    init_random_program-Sized whole_numbers (lowest 0) (lowest-RngLaws 0) 0 sample_environment
      sample_environment-IsEnvironment sample_parameters short_program 0 short_program-Sized.valid
      (omega arith)

-- The least random numbers change the first line's instruction from 0 to 1, and its second operand
-- to a source of constants.
abbrev altered_line : Line
altered_line = line 1 1 (2, 0) (1, 1)

altered : alter_correct_line (lowest 0) sample_environment first_line 0 ≡ ok (altered_line, 4)
unfolding alter_correct_line handler
altered = refl

-- The same environment with a single register.
abbrev log2 : ℕ → ℕ
log2 n = if leb n 1 then 0 else if leb n 2 then 1 else 2

abbrev one_register : Environment ℕ
one_register = record {
  instruction_set = sample_instructions;
  data_sources = sample_sources;
  nb_registers = 1;
  nb_constants = 2;
  fake_data_sources = fake_sources 0 sample_sources 1 2;
  nb_instructions = 3;
  max_nb_operands = 2;
  nb_data_sources = 3;
  largest_address_space = 2;
  line_size = record {
    nb_instruction_bits = 0;
    nb_destination_bits = 2;
    nb_operands_bits = 6;
    nb_operand_data_source_index_bits = 2;
    nb_operand_location_bits = 1;
    total_nb_bits = 8;
  };
}

one_register-is_constructed :
    new_environment 0 log2 sample_instructions sample_sources 1 2 ≡ ok one_register
unfolding new_environment handler
one_register-is_constructed = refl

abbrev lone_line : Line
lone_line = line 0 0 (2, 0) (2, 1)

lone_line-Correct : Correct one_register lone_line
unfolding handler
lone_line-Correct = record {
  sound = record {
    instruction_valid = omega arith;
    destination_valid = omega arith;
    operands_counted = refl;
    operands_valid = λ k operand at_k. ground arith;
  };
  handled = λ i at_i k operand t at_k typed.
      let same : double_type ∷ double_type ∷ [] ≡ i.operand_types = ground arith in
      lone_doubles k operand t at_k (rw (← same) at typed);
}
  where
    lone_doubles :
        (k : ℕ) → Handled one_register (double_type ∷ double_type ∷ []) ((2, 0) ∷ (2, 1) ∷ []) k
    lone_doubles zero operand t at_k typed = ground arith
    lone_doubles (suc zero) operand t at_k typed = ground arith
    lone_doubles (suc (suc k)) operand t at_k typed = absurd (ground arith)

abbrev moved_line : Line
moved_line = line 0 0 (2, 0) (2, 1)

lone_altered : alter_correct_line (lowest 0) one_register lone_line 0 ≡ ok (moved_line, 2)
unfolding alter_correct_line handler
lone_altered = refl

alter_correct_line-one_register_example : moved_line.instruction_index ≡ 0
alter_correct_line-one_register_example =
    alter_correct_line-one_register 0 log2 sample_instructions sample_sources 2 one_register
      (lowest 0) (lowest-RngLaws 0) refl one_register-is_constructed lone_line 0 (moved_line, 2)
      lone_line-Correct lone_altered

execute_program-Valid_example :
    (d : ℕ) × (execute_program 0 sample_environment
        (sources_of sample_environment short_program)
        false
        short_program.lines
      ≡ ok d)
execute_program-Valid_example =
    execute_program-Valid 0 sample_environment sample_environment-IsEnvironment
      sample_sources-IsReadable short_program short_program-Sized.valid false
