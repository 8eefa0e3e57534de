-- ===== src/Program/Engine.antt =====
-- gegelatilib/src/program/programEngine.cpp and programExecutionEngine.cpp. An engine holds its
-- registers, the other data sources (dataScsConstsAndRegs without the registers, its first entry)
-- and the program counter. Programs are run with the registers as an array of cells.
pub mod Loop
pub mod Reads
pub mod Steps
pub mod Soundness
use gegelati.Base.{
  Bool, List, Result, [], elem_at, err, false, if◌then◌else◌, length, ltb, map, ok, out_of_range,
  replicate, runtime_error, some, suc, true, zero, ℕ, ℤ, ◌&&◌, ◌+◌, ◌==◌, ◌>>=◌, ◌∷◌,
}
use gegelati.Data.{Cell, DataHandler, TypeInfo, Untyped, double_type, int, real, scale}
use gegelati.Data.Arrays.{ArrayWrapper, get_data_at, handler, set_cells}
use gegelati.Environment.{Environment}
use gegelati.Program.{Flagged, Line, Program, get_operand, intron_at, line_of}

module _ {D : Type 0} where
  -- The array of doubles over the present registers.
  abbrev pub registers_array : List (Cell D) → ArrayWrapper D
  registers_array cells = record {
    id = 0;
    element = 0;
    nb_elements = length cells;
    container = some cells;
  }

  -- The ConstantHandler of a program.
  abbrev pub constants_array : List ℤ → ArrayWrapper D
  constants_array values = record {
    id = 0;
    element = 1;
    nb_elements = length values;
    container = some (map int values);
  }

  -- `getSharedPointer<const double>`, which throws when the value is of another type.
  unfoldable pub as_double : Untyped D → Result D
  as_double value = elim value.cells [
    | [] ↦ err runtime_error
    | cell ∷ rest ↦ elim cell [ real d ↦ ok d | int n ↦ err runtime_error ]
  ]

  -- What setProgram compares: the sources behind the constants are those of the environment, by id.
  unfoldable pub same_ids : List (DataHandler D) → List (DataHandler D) → Bool
  same_ids [] [] = true
  same_ids (h ∷ hs) (k ∷ ks) = h.id == k.id && same_ids hs ks
  same_ids _ _ = false

  -- The constants come second, behind the registers, if the environment has any.
  unfoldable pub with_constants :
      Environment D → List ℤ → List (DataHandler D) → List (DataHandler D)
  unfolding handler
  with_constants env constants sources =
      if ltb 0 env.nb_constants then handler (constants_array constants) ∷ sources else sources

  -- The sources of an engine on which setProgram has been called: the constants of the program,
  -- and the given data sources, which must be those of the environment.
  unfoldable pub program_sources :
      Environment D → Program → List (DataHandler D) → Result (List (DataHandler D))
  unfolding same_ids with_constants
  program_sources env p sources =
      if same_ids sources env.data_sources
      then ok (with_constants env p.constants sources)
      else err runtime_error

-- The `while` loop inside next().
unfoldable pub skip_introns : ℕ → List Flagged → ℕ → ℕ
unfolding intron_at
skip_introns zero lines pc = pc
skip_introns (suc fuel) lines pc =
    let rest = skip_introns fuel lines (pc + 1) in if intron_at lines pc then rest else pc

unfoldable pub next : List Flagged → ℕ → ℕ
unfolding skip_introns
next lines pc = skip_introns (length lines) lines (pc + 1)

-- The handler of out_of_range. A line that throws has written nothing.
unfoldable pub caught {ℓ} : {A : Type ℓ} → Bool → A → Result A → Result A
caught ignore registers (ok written) = ok written
caught ignore registers (err out_of_range) = if ignore then ok registers else err out_of_range
caught ignore registers (err e) = err e

module _ {D : Type 0} (env : Environment D) (sources : List (DataHandler D)) where
  -- dataScsConstsAndRegs.at(index)
  unfoldable pub source_at : List (Cell D) → ℕ → Result (DataHandler D)
  unfolding handler
  source_at registers zero = ok (handler (registers_array registers))
  source_at registers (suc index) = elem_at sources index out_of_range

  -- One round of fetchCurrentOperands, with getOperandLocation.
  unfoldable pub fetch_operand : List (Cell D) → Line → ℕ → TypeInfo → Result (Untyped D)
  unfolding source_at get_operand scale
  fetch_operand registers line idx type = do
    operand ← get_operand env line idx
    source ← source_at registers operand.0
    location ← scale operand.1 (source.address_space type)
    source.data_at type location

  unfoldable pub fetch_operands :
      List (Cell D) → Line → ℕ → List TypeInfo → Result (List (Untyped D))
  unfolding fetch_operand
  fetch_operands registers line idx [] = ok []
  fetch_operands registers line idx (t ∷ types) = do
    value ← fetch_operand registers line idx t
    rest ← fetch_operands registers line (idx + 1) types
    ok (value ∷ rest)

  -- executeCurrentLine
  unfoldable pub execute_line : List (Cell D) → Line → Result (List (Cell D))
  unfolding fetch_operands set_cells
  execute_line registers line = do
    instruction ← elem_at env.instruction_set line.instruction_index out_of_range
    operands ← fetch_operands registers line 0 instruction.operand_types
    set_cells (registers_array registers) registers double_type line.destination_index
        (real (instruction.execute operands))

  -- The `try` block of iterateThroughtProgram.
  unfoldable pub process_line : Bool → List (Cell D) → Line → Result (List (Cell D))
  unfolding caught
  process_line ignore registers line = caught ignore registers (execute_line registers line)

  -- The loop over the useful lines, from a program counter that is past the end or at one of them.
  unfoldable pub iterate_from : ℕ → Bool → List Flagged → ℕ → List (Cell D) → Result (List (Cell D))
  unfolding process_line next
  iterate_from zero ignore lines pc registers = ok registers
  iterate_from (suc fuel) ignore lines pc registers =
      if ltb pc (length lines)
      then (do
        line ← line_of (elem_at lines pc out_of_range)
        written ← process_line ignore registers line
        iterate_from fuel ignore lines (next lines pc) written)
      else ok registers

  -- iterateThroughtProgram. One round for each line is enough fuel.
  unfoldable pub iterate : Bool → List Flagged → List (Cell D) → Result (List (Cell D))
  unfolding iterate_from
  iterate ignore lines registers =
      iterate_from (length lines) ignore lines (if intron_at lines 0 then next lines 0 else 0)
        registers

module _ {D : Type 0} (d0 : D) (env : Environment D) (sources : List (DataHandler D)) where
  abbrev pub reset_registers : List (Cell D)
  reset_registers = replicate env.nb_registers (real d0)

  -- executeProgram, on an engine with these sources: the value of register 0 after the last line.
  unfoldable pub execute_program : Bool → List Flagged → Result D
  unfolding iterate get_data_at as_double
  execute_program ignore lines = do
    registers ← iterate env sources ignore lines reset_registers
    value ← get_data_at (registers_array registers) double_type 0
    as_double value
