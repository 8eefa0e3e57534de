-- ===== src/Program/Samples.antt =====
-- A small environment over whole numbers in place of doubles, and two programs for it.
use gegelati.Base.{
  List, [], false, if◌then◌else◌, leb, negsuc, ok, pos, refl, some, true, ℕ, ◌+◌, ◌∷◌, ◌≡◌,
}
use gegelati.Data.{Cell, DataHandler, Untyped, array, constant_type, double_type, int, real}
use gegelati.Data.Arrays.{ArrayWrapper, handler}
use gegelati.Environment.{Environment, Instruction, fake_sources, new_environment}
use gegelati.Environment.Laws.{IsEnvironment, new_environment-IsEnvironment}
use gegelati.Program.{Line, Program}

abbrev pub number_of : Cell ℕ → ℕ
number_of (real n) = n
number_of (int (pos n)) = n
number_of (int (negsuc n)) = 0

abbrev pub total : List (Cell ℕ) → ℕ
total [] = 0
total (c ∷ cells) = number_of c + total cells

abbrev pub total_of : List (Untyped ℕ) → ℕ
total_of [] = 0
total_of (u ∷ values) = total u.cells + total_of values

-- The sum of two doubles, of a double and a constant, and of a pair of doubles.
abbrev pub sample_instructions : List (Instruction ℕ)
sample_instructions =
    record { operand_types = double_type ∷ double_type ∷ []; execute = total_of }
    ∷ record { operand_types = double_type ∷ constant_type ∷ []; execute = total_of }
    ∷ record { operand_types = array 0 2 ∷ []; execute = total_of }
    ∷ []

abbrev pub sample_array : ArrayWrapper ℕ
sample_array = record {
  id = 7;
  element = 0;
  nb_elements = 2;
  container = some (real 5 ∷ real 6 ∷ []);
}

abbrev pub sample_sources : List (DataHandler ℕ)
sample_sources = handler sample_array ∷ []

-- Enough bits for the tests.
abbrev pub sample_log2 : ℕ → ℕ
sample_log2 n = if leb n 2 then 1 else 2

abbrev pub sample_environment : Environment ℕ
sample_environment = record {
  instruction_set = sample_instructions;
  data_sources = sample_sources;
  nb_registers = 3;
  nb_constants = 2;
  fake_data_sources = fake_sources 0 sample_sources 3 2;
  nb_instructions = 3;
  max_nb_operands = 2;
  nb_data_sources = 3;
  largest_address_space = 3;
  line_size = record {
    nb_instruction_bits = 2;
    nb_destination_bits = 2;
    nb_operands_bits = 8;
    nb_operand_data_source_index_bits = 2;
    nb_operand_location_bits = 2;
    total_nb_bits = 12;
  };
}

pub sample_environment-is_constructed :
    new_environment 0 sample_log2 sample_instructions sample_sources 3 2 ≡ ok sample_environment
unfolding new_environment handler
sample_environment-is_constructed = refl

pub sample_environment-IsEnvironment : IsEnvironment 0 sample_environment
sample_environment-IsEnvironment =
    (new_environment-IsEnvironment 0 sample_log2 sample_instructions sample_sources 3 2
      sample_environment sample_environment-is_constructed).0

abbrev pub line : ℕ → ℕ → ℕ × ℕ → ℕ × ℕ → Line
line instr dest a b = record {
  instruction_index = instr;
  destination_index = dest;
  operands = a ∷ b ∷ [];
}

-- r1 = source[0] + source[1]; r2 = r1 + r1; r0 = r1 + constant[1]
abbrev pub sample_program : Program
sample_program = record {
  lines =
      (line 0 1 (2, 0) (2, 1), false)
      ∷ (line 0 2 (0, 1) (0, 1), false)
      ∷ (line 1 0 (0, 1) (1, 3), false)
      ∷ [];
  constants = pos 1 ∷ pos 2 ∷ [];
}

-- The same with its intron marked.
abbrev pub marked_program : Program
marked_program = record {
  lines =
      (line 0 1 (2, 0) (2, 1), false)
      ∷ (line 0 2 (0, 1) (0, 1), true)
      ∷ (line 1 0 (0, 1) (1, 3), false)
      ∷ [];
  constants = pos 1 ∷ pos 2 ∷ [];
}

-- Another first constant, which no line reads.
abbrev pub other_program : Program
other_program = record {
  lines = (line 0 1 (2, 0) (2, 1), false) ∷ (line 1 0 (0, 1) (1, 3), false) ∷ [];
  constants = pos 9 ∷ pos 2 ∷ [];
}
