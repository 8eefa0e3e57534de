-- ===== src/ProgramMutator/Runs.antt =====
-- Programs of correct lines run without throwing in the engine of
-- gegelatilib/src/program/programExecutionEngine.cpp.
use gegelati.Base.{
  arith, Bool, Each, Each-set, elem_at, elem_at-found, false, get_elem?, length, length-replicate,
  length-set, List, [], ok, out_of_range, refl, replicate, set, some, suc, true, zero, ℕ, ◌%◌, ◌+◌,
  ◌<◌, ◌==◌, ◌∙◌, ◌∷◌, ◌≡◌, ◌≤◌, ◌>>=◌,
}
use gegelati.Data.{Cell, DataHandler, TypeInfo, Untyped, double_type, int, real, scale}
use gegelati.Data.Arrays.{get_data_at, handler}
use gegelati.Data.Reading.{IsReadable}
use gegelati.Environment.{Environment, Instruction}
use gegelati.Environment.Laws.{IsEnvironment}
use gegelati.Program.{Flagged, Line, Program, get_operand}
use gegelati.Program.Introns.Clear.{useful_lines}
use gegelati.Program.Engine.{
  as_double, execute_line, execute_program, fetch_operand, fetch_operands, iterate, process_line,
  registers_array, reset_registers, source_at,
}
use gegelati.Program.Engine.Loop.{iterate-eq-run, run_lines}
use gegelati.Program.Engine.Steps.{set_cells-inside}
use gegelati.Mutator.Sources.{handles}
use gegelati.Mutator.Operands.{Sound}
use gegelati.Mutator.Indexes.{Bounded-elem, Correct, operand_found}
use gegelati.ProgramMutator.Valid.{Valid}
use gegelati.ProgramMutator.Providers.{Mirrors-elem, all_mirror, sources_of}

module _ {D : Type 0} where
  -- Every register holds a double.
  abbrev IsReal : Cell D → Type 0
  IsReal (real d) = Unit {0}
  IsReal (int n) = ⊥

  Each-replicate : (n : ℕ) (d : D) → Each IsReal (replicate n (real d))
  Each-replicate zero d = tt
  Each-replicate (suc n) d = (tt, Each-replicate n d)

  read_first :
      (registers : List (Cell D))
      → 0 < length registers
      → Each IsReal registers
      → (d : D) × ((get_data_at (registers_array registers) double_type 0 >>= as_double) ≡ ok d)
  unfolding get_data_at as_double
  read_first [] some_register reals = absurd (omega arith)
  read_first (real d ∷ registers) some_register reals = (d, ground arith)
  read_first (int n ∷ registers) some_register reals = absurd reals.0

mod_below : (a b : ℕ) → 0 < b → a % b < b
mod_below a b h = grind arith

Each-useful_lines :
    (P : Flagged → Type 0) (lines : List Flagged) → Each P lines → Each P (useful_lines lines)
Each-useful_lines P [] all = tt
Each-useful_lines P ((line, true) ∷ lines) all = Each-useful_lines P lines all.1
Each-useful_lines P ((line, false) ∷ lines) all = (all.0, Each-useful_lines P lines all.1)

module _ {D : Type 0} (d0 : D) (env : Environment D) (is_env : IsEnvironment d0 env)
    (readable : Each IsReadable env.data_sources) (p : Program) (valid : Valid env p) where
  abbrev sources : List (DataHandler D)
  sources = sources_of env p

  source_at-eq-elem :
      (registers : List (Cell D)) (j : ℕ)
      → source_at env sources registers j
        ≡ elem_at (handler (registers_array registers) ∷ sources) j out_of_range
  unfolding source_at
  source_at-eq-elem registers zero = refl
  source_at-eq-elem registers (suc j) = refl

  fetched :
      (registers : List (Cell D)) (line : Line) (idx : ℕ) (t : TypeInfo) (operand : ℕ × ℕ)
      (s : DataHandler D) (value : Untyped D)
      → get_operand env line idx ≡ ok operand
      → elem_at (handler (registers_array registers) ∷ sources) operand.0 out_of_range ≡ ok s
      → 0 < s.address_space t
      → s.data_at t (operand.1 % s.address_space t) ≡ ok value
      → fetch_operand env sources registers line idx t ≡ ok value
  unfolding fetch_operand scale
  fetched registers line idx t operand s value there found addressed got =
      let nonzero : (s.address_space t == 0) ≡ false = ground arith in
      let at_source = source_at-eq-elem registers operand.0 ∙ found in
      rw (there, at_source, nonzero, got) refl

  fetch_operand-ok :
      (registers : List (Cell D)) (line : Line) (idx : ℕ) (t : TypeInfo)
      → length registers ≡ env.nb_registers
      → Sound env line
      → idx < env.max_nb_operands
      → ((operand : ℕ × ℕ)
          → get_elem? line.operands idx ≡ some operand
          → handles env operand.0 t ≡ true)
      → (value : Untyped D) × (fetch_operand env sources registers line idx t ≡ ok value)
  fetch_operand-ok registers line idx t counted sound inside handled =
      let (operand, there, at_idx) = operand_found env line idx sound inside in
      let (s, found, can, reads) =
        Mirrors-elem env.fake_data_sources (handler (registers_array registers) ∷ sources) operand.0
          t (all_mirror d0 env is_env readable p valid registers counted)
          (handled operand at_idx) in
      let (value, got) =
        reads.read t (operand.1 % s.address_space t)
          (mod_below operand.1 (s.address_space t) (reads.addressed t can)) in
      (value, fetched registers line idx t operand s value there found (reads.addressed t can) got)

  fetch_operands-ok :
      (types : List TypeInfo) (registers : List (Cell D)) (line : Line) (idx : ℕ)
      → length registers ≡ env.nb_registers
      → Sound env line
      → idx + length types ≤ env.max_nb_operands
      → ((k : ℕ) (t : TypeInfo) (operand : ℕ × ℕ)
          → get_elem? types k ≡ some t
          → get_elem? line.operands (idx + k) ≡ some operand
          → handles env operand.0 t ≡ true)
      → (values : List (Untyped D)) × (fetch_operands env sources registers line idx types
          ≡ ok values)
  unfolding fetch_operands
  fetch_operands-ok [] registers line idx counted sound fits handled = ([], refl)
  fetch_operands-ok (t ∷ types) registers line idx counted sound fits handled =
      let here : idx + 0 ≡ idx = omega arith in
      let (value, first) =
        fetch_operand-ok registers line idx t counted sound (omega arith)
          (λ operand at_idx. handled 0 t operand refl (rw here at_idx)) in
      let (rest, done) =
        fetch_operands-ok types registers line (idx + 1) counted sound (omega arith)
          (λ k u operand at_k at_idx.
            let moved : idx + suc k ≡ idx + 1 + k = omega arith in
            handled (suc k) u operand at_k (rw moved at_idx)) in
      (value ∷ rest, rw (first, done) refl)

  written_line :
      (registers : List (Cell D)) (line : Line) (i : Instruction D) (values : List (Untyped D))
      → elem_at env.instruction_set line.instruction_index out_of_range ≡ ok i
      → fetch_operands env sources registers line 0 i.operand_types ≡ ok values
      → line.destination_index < length registers
      → (ignore : Bool)
      → process_line env sources ignore registers line
        ≡ ok (set registers line.destination_index (real (i.execute values)))
  unfolding process_line execute_line
  written_line registers line i values found got inside ignore =
      rw
        (
          found,
          process_line,
          got,
          set_cells-inside env sources registers line.destination_index (real (i.execute values))
              inside,
        )
        refl

  process_line-ok :
      (registers : List (Cell D)) (line : Line) (ignore : Bool)
      → length registers ≡ env.nb_registers
      → Correct env line
      → (d : D) × (process_line env sources ignore registers line
          ≡ ok (set registers line.destination_index (real d)))
  process_line-ok registers line ignore counted correct =
      let sound = correct.sound in
      let (i, found, at_n) =
        elem_at-found env.instruction_set line.instruction_index out_of_range
          (rw (← is_env.instructions_counted) sound.instruction_valid) in
      let fits =
        Bounded-elem env.max_nb_operands env.instruction_set line.instruction_index i
          is_env.operands_bounded at_n in
      let (values, got) =
        fetch_operands-ok i.operand_types registers line 0 counted sound (omega arith)
          (λ k t operand at_k at_idx.
            let same : 0 + k ≡ k = omega arith in
            correct.handled i at_n k operand t (rw same at at_idx) at_k) in
      (
        i.execute values,
        written_line registers line i values found got (rw counted sound.destination_valid) ignore,
      )

  run_lines-ok :
      (lines : List Flagged) (registers : List (Cell D)) (ignore : Bool)
      → Each (λ (entry : Flagged). Correct env entry.0) lines
      → length registers ≡ env.nb_registers
      → Each IsReal registers
      → (after : List (Cell D)) × (run_lines env sources ignore lines registers ≡ ok after)
        × (length after ≡ env.nb_registers)
        × Each IsReal after
  unfolding run_lines
  run_lines-ok [] registers ignore correct counted reals = (registers, refl, counted, reals)
  run_lines-ok (entry ∷ lines) registers ignore correct counted reals =
      let (d, first) = process_line-ok registers entry.0 ignore counted correct.0 in
      let dest = (entry.0).destination_index in
      let (after, rest, counted', reals') =
        run_lines-ok lines (set registers dest (real d)) ignore correct.1
          (length-set registers dest (real d) ∙ counted)
          (Each-set IsReal registers dest (real d) reals tt) in
      (after, rw first rest, counted', reals')

  executed :
      (ignore : Bool) (after : List (Cell D)) (d : D)
      → iterate env sources ignore p.lines (reset_registers d0 env sources) ≡ ok after
      → (get_data_at (registers_array after) double_type 0 >>= as_double) ≡ ok d
      → execute_program d0 env sources ignore p.lines ≡ ok d
  unfolding execute_program
  executed ignore after d ran got = rw ran got

  -- In a constructed environment whose data sources can be read, a valid program runs to its end
  -- without throwing, whether or not the engine ignores out_of_range, and returns a double.
  pub execute_program-Valid :
      (ignore : Bool) → (d : D) × (execute_program d0 env sources ignore p.lines ≡ ok d)
  execute_program-Valid ignore =
      let (after, ran, counted, reals) =
        run_lines-ok (useful_lines p.lines) (replicate env.nb_registers (real d0)) ignore
          (Each-useful_lines _ p.lines valid.lines_correct)
          (length-replicate env.nb_registers (real d0)) (Each-replicate env.nb_registers d0) in
      let some_register = is_env.some_register in
      let (d, got) = read_first after (omega arith) reals in
      (
        d,
        executed ignore after d
            (iterate-eq-run env sources ignore p.lines (replicate env.nb_registers (real d0)) ∙ ran)
            got,
      )
