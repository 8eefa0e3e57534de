-- ===== src/Program/Tests.antt =====
-- Programs run on small inputs, and the theorems at such inputs.
use gegelati.Base.{
  List, [], add_new, arith, false, ok, pos, refl, remove, true, xor, ℕ, ◌<◌, ◌==◌, ◌∷◌, ◌≡◌,
}
use gegelati.Data.Writing.{get_data_at-set_data_at}
use gegelati.Data.{DataHandler, TypeInfo, real, scalar}
use gegelati.Data.Arrays.{ArrayWrapper, get_address_space, get_data_at, handler, set_data_at}
use gegelati.Environment.Given.{Constructed}
use gegelati.Environment.Laws.{IsEnvironment, new_environment-IsEnvironment}
use gegelati.Program.{clear_introns}
use gegelati.Program.Samples.{
  marked_program, other_program, sample_array, sample_environment, sample_environment-IsEnvironment,
  sample_environment-is_constructed, sample_instructions, sample_log2, sample_program,
  sample_sources,
}
use gegelati.Program.Introns.{identify_introns}
use gegelati.Program.Introns.Clear.{clear_introns-eq-filter, useful_lines}
use gegelati.Program.Engine.{
  constants_array, execute_line, execute_program, iterate, process_line, with_constants,
}
use gegelati.Program.Engine.Loop.{iterate-eq-run, run_lines}
use gegelati.Program.Engine.Soundness.{execute_every_line, identify_introns-keeps_result}
use gegelati.Program.Behavior.{has_identical_behavior}
use gegelati.Program.Behavior.Compare.{compare_lines, has_identical_behavior-eq-compare}
use gegelati.Program.Behavior.Sound.{has_identical_behavior-same_result}

abbrev all_sources : List (DataHandler ℕ)
all_sources = handler (constants_array (pos 1 ∷ pos 2 ∷ [])) ∷ sample_sources

runs : Unit {0}
unfolding execute_program execute_line execute_every_line run_lines process_line identify_introns
    remove add_new
runs = tt

identify_introns-sample :
    identify_introns sample_environment sample_program ≡ ok (marked_program, 1)
unfolding runs
identify_introns-sample = refl

execute_every_line-sample :
    execute_every_line 0 sample_environment all_sources sample_program.lines ≡ ok 13
unfolding runs
execute_every_line-sample = refl

identify_introns-keeps_result_example :
    execute_program 0 sample_environment all_sources false marked_program.lines ≡ ok 13
identify_introns-keeps_result_example =
    identify_introns-keeps_result 0 sample_environment all_sources sample_program marked_program 1
      13 sample_environment-IsEnvironment identify_introns-sample execute_every_line-sample

has_identical_behavior-sample :
    has_identical_behavior sample_environment marked_program other_program ≡ ok true
unfolding has_identical_behavior xor
has_identical_behavior-sample = refl

new_environment-IsEnvironment_example :
    IsEnvironment 0 sample_environment
    × Constructed 0 sample_log2 sample_instructions sample_sources 3 2 sample_environment
new_environment-IsEnvironment_example =
    new_environment-IsEnvironment 0 sample_log2 sample_instructions sample_sources 3 2
      sample_environment sample_environment-is_constructed

iterate-eq-run_example :
    iterate sample_environment all_sources false marked_program.lines
      (real 0 ∷ real 0 ∷ real 0 ∷ [])
    ≡ run_lines sample_environment all_sources false
        (useful_lines marked_program.lines)
        (real 0 ∷ real 0 ∷ real 0 ∷ [])
iterate-eq-run_example = iterate-eq-run sample_environment all_sources false marked_program.lines _

clear_introns-eq-filter_example :
    clear_introns marked_program ≡ record marked_program { lines = other_program.lines }
clear_introns-eq-filter_example = clear_introns-eq-filter marked_program

has_identical_behavior-eq-compare_example :
    has_identical_behavior sample_environment marked_program other_program
    ≡ compare_lines sample_environment
        (pos 1 ∷ pos 2 ∷ [])
        (pos 9 ∷ pos 2 ∷ [])
        (useful_lines marked_program.lines)
        (useful_lines other_program.lines)
has_identical_behavior-eq-compare_example =
    has_identical_behavior-eq-compare sample_environment marked_program other_program

has_identical_behavior-same_result_example :
    execute_program 0 sample_environment
      (with_constants sample_environment marked_program.constants sample_sources)
      false
      marked_program.lines
    ≡ execute_program 0 sample_environment
        (with_constants sample_environment other_program.constants sample_sources)
        false
        other_program.lines
has_identical_behavior-same_result_example =
    has_identical_behavior-same_result 0 sample_environment sample_sources false marked_program
      other_program refl (ground arith) (ground arith) (ground arith) has_identical_behavior-sample

get_data_at-set_data_at_example :
    (v : ArrayWrapper ℕ) × (set_data_at sample_array (scalar sample_array.element) 1 (real 9)
      ≡ ok v)
    × (get_data_at v (scalar sample_array.element) 1
        ≡ ok (record { type = scalar sample_array.element; cells = real 9 ∷ [] }))
    × ((b : ℕ)
        → b < sample_array.nb_elements
        → (1 == b) ≡ false
        → get_data_at v (scalar sample_array.element) b
          ≡ get_data_at sample_array (scalar sample_array.element) b)
    × ((t : TypeInfo) → get_address_space v t ≡ get_address_space sample_array t)
get_data_at-set_data_at_example =
    get_data_at-set_data_at sample_array (real 5 ∷ real 6 ∷ []) refl refl 1 (real 9) (omega arith)
