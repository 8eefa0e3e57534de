-- ===== src/Program/Engine/Steps.antt =====
-- One line of a program, on registers that agree where they are used
-- (gegelatilib/src/program/programExecutionEngine.cpp).
use gegelati.Base.{
  Bool, List, arith, bind_ok, elem_at, elem_at-inside, false, get_elem?-set, length, length-set,
  member, member-remove, ok, out_of_range, remove, set, sym, ℕ, ◌<◌, ◌∙◌, ◌≡◌,
}
use gegelati.Data.{Cell, DataHandler, Untyped, double_type, real}
use gegelati.Data.Arrays.{set_cells}
use gegelati.Environment.{Environment, Instruction}
use gegelati.Program.{Line}
use gegelati.Program.Engine.{execute_line, fetch_operands, next, process_line, registers_array}
use gegelati.Program.Engine.Reads.{Agree}

module _ {D : Type 0} (env : Environment D) (sources : List (DataHandler D)) where
  -- A line that runs has found its instruction and its operands, and writes one register.
  pub record Ran (r : List (Cell D)) (line : Line) (w : List (Cell D)) : Type 0 where
    pub instruction : Instruction D
    pub operands : List (Untyped D)
    pub found : elem_at env.instruction_set line.instruction_index out_of_range ≡ ok instruction
    pub fetched : fetch_operands env sources r line 0 instruction.operand_types ≡ ok operands
    pub inside : line.destination_index < length r
    pub written : w ≡ set r line.destination_index (real (instruction.execute operands))

  set_cells-eq-ok :
      (r : List (Cell D)) (dest : ℕ) (v : Cell D) (w : List (Cell D))
      → set_cells (registers_array r) r double_type dest v ≡ ok w
      → (dest < length r) × (w ≡ set r dest v)
  unfolding set_cells
  set_cells-eq-ok r dest v w h = ground arith

  pub set_cells-inside :
      (r : List (Cell D)) (dest : ℕ) (v : Cell D)
      → dest < length r
      → set_cells (registers_array r) r double_type dest v ≡ ok (set r dest v)
  unfolding set_cells
  set_cells-inside r dest v h =
      let (old, present) = elem_at-inside r dest out_of_range h in ground arith

  pub execute_line-Ran :
      (r : List (Cell D)) (line : Line) (w : List (Cell D))
      → execute_line env sources r line ≡ ok w
      → Ran r line w
  unfolding execute_line
  execute_line-Ran r line w h =
      let (instruction, found, next) =
        bind_ok (elem_at env.instruction_set line.instruction_index out_of_range) _ h in
      let (operands, fetched, last) =
        bind_ok (fetch_operands env sources r line 0 instruction.operand_types) _ next in
      let (inside, written) =
        set_cells-eq-ok r line.destination_index (real (instruction.execute operands)) w last in
      record {
        instruction = instruction;
        operands = operands;
        found = found;
        fetched = fetched;
        inside = inside;
        written = written;
      }

  pub process_line-eq-ok :
      (r : List (Cell D)) (line : Line) (w : List (Cell D))
      → process_line env sources false r line ≡ ok w
      → execute_line env sources r line ≡ ok w
  unfolding process_line
  process_line-eq-ok r line w h = ground arith

  pub process_line-ok :
      (ignore : Bool) (r : List (Cell D)) (line : Line) (w : List (Cell D))
      → execute_line env sources r line ≡ ok w
      → process_line env sources ignore r line ≡ ok w
  unfolding process_line
  process_line-ok ignore r line w h = ground arith

  pub set-Agree-intron :
      (useful : List ℕ) (dest : ℕ) (v : Cell D) (r s : List (Cell D))
      → member dest useful ≡ false
      → Agree useful r s
      → Agree useful (set r dest v) s
  set-Agree-intron useful dest v r s idle a = record {
    same_size = length-set r dest v ∙ a.same_size;
    same_cells = λ i m. ground (arith, get_elem?-set r dest i v, a.same_cells i);
  }

  pub set-Agree-useful :
      (useful : List ℕ) (dest : ℕ) (v : Cell D) (r s : List (Cell D))
      → Agree (remove dest useful) r s
      → dest < length r
      → Agree useful (set r dest v) (set s dest v)
  set-Agree-useful useful dest v r s a inside = record {
    same_size = length-set r dest v ∙ a.same_size ∙ sym (length-set s dest v);
    same_cells = λ i m. ground (
      arith,
      get_elem?-set r dest i v,
      get_elem?-set s dest i v,
      member-remove i dest useful,
      a.same_cells i,
    );
  }

-- Two runs that end with the same register 0.
