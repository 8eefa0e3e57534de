-- ===== src/Environment.antt =====
-- gegelatilib/src/environment.cpp with include/environment.h, src/instructions/instruction.cpp
-- and src/instructions/set.cpp. An Instruction is the list of its operand types and its virtual
-- method `execute`, which subclasses provide; a Set is a list of instructions.
-- `d0` is the double 0.0, and `ceil_log2 n` is (size_t)(ceill(log2l((long double)n))), computed by
-- the C++ library. Registers and constants of the environment itself are only asked for types.
pub mod Given
pub mod Laws
use gegelati.Base.{
  Bool, List, Result, [], domain_error, err, false, if◌then◌else◌, leb, length, ltb, ok, pos,
  replicate, some, true, ℕ, ◌&&◌, ◌*◌, ◌+◌, ◌==◌, ◌>>=◌, ◌||◌, ◌∷◌,
}
use gegelati.Data.{TypeInfo, real, int, Untyped, DataHandler, type_eq}
use gegelati.Data.Arrays.{ArrayWrapper, handler, can_handle}

pub record Instruction (D : Type 0) : Type 0 where
  pub operand_types : List TypeInfo
  pub execute : List (Untyped D) → D

pub record LineSize : Type 0 where
  pub nb_instruction_bits : ℕ
  pub nb_destination_bits : ℕ
  pub nb_operands_bits : ℕ
  pub nb_operand_data_source_index_bits : ℕ
  pub nb_operand_location_bits : ℕ
  pub total_nb_bits : ℕ

pub record Environment (D : Type 0) : Type 0 where
  pub instruction_set : List (Instruction D)
  pub data_sources : List (DataHandler D)
  pub nb_registers : ℕ
  pub nb_constants : ℕ
  pub fake_data_sources : List (DataHandler D)
  pub nb_instructions : ℕ
  pub max_nb_operands : ℕ
  pub nb_data_sources : ℕ
  pub largest_address_space : ℕ
  pub line_size : LineSize

module _ {D : Type 0} where
  abbrev pub nb_operands : Instruction D → ℕ
  nb_operands i = length i.operand_types

  -- Instruction::checkOperandTypes
  unfoldable pub check_operand_types : List (Untyped D) → List TypeInfo → Bool
  check_operand_types [] [] = true
  check_operand_types (a ∷ arguments) (t ∷ types) =
      type_eq a.type t && check_operand_types arguments types
  check_operand_types _ _ = false

  -- Set::getMaxNbOperands
  unfoldable pub max_operands : ℕ → List (Instruction D) → ℕ
  max_operands res [] = res
  max_operands res (i ∷ instructions) =
      max_operands (if ltb res (nb_operands i) then nb_operands i else res) instructions

  unfoldable pub largest_space : ℕ → List (DataHandler D) → ℕ
  largest_space res [] = res
  largest_space res (h ∷ handlers) =
      largest_space (if ltb res h.largest_address_space then h.largest_address_space else res)
        handlers

  unfoldable pub compute_largest_address_space : ℕ → ℕ → List (DataHandler D) → ℕ
  unfolding largest_space
  compute_largest_address_space nb_registers nb_constants handlers =
      largest_space (if ltb nb_constants nb_registers then nb_registers else nb_constants) handlers

  -- Can one of the handlers provide the type?
  unfoldable pub any_handles : List (DataHandler D) → TypeInfo → Bool
  any_handles [] type = false
  any_handles (h ∷ handlers) type = h.can_handle type || any_handles handlers type

-- Arrays of zeros: PrimitiveTypeArray<double>(nbRegisters) and ConstantHandler(nbConstants).
module _ {D : Type 0} (d0 : D) where
  abbrev pub registers_of : ℕ → ArrayWrapper D
  registers_of n = record {
    id = 0;
    element = 0;
    nb_elements = n;
    container = some (replicate n (real d0));
  }

abbrev pub constants_of : {D : Type 0} → ℕ → ArrayWrapper D
constants_of n = record {
  id = 0;
  element = 1;
  nb_elements = n;
  container = some (replicate n (int (pos 0)));
}

module _ {D : Type 0} (d0 : D) where
  abbrev pub fake_sources : List (DataHandler D) → ℕ → ℕ → List (DataHandler D)
  fake_sources handlers nb_registers nb_constants =
      handler (registers_of d0 nb_registers)
      ∷ (if ltb 0 nb_constants then handler (constants_of nb_constants) ∷ handlers else handlers)

  unfoldable pub is_handled : ℕ → ℕ → List (DataHandler D) → TypeInfo → Bool
  unfolding any_handles
  is_handled nb_registers nb_constants handlers type =
      can_handle (registers_of d0 nb_registers) type
      || (ltb 0 nb_constants && can_handle (constants_of {D = D} nb_constants) type)
      || any_handles handlers type

  unfoldable pub all_handled : ℕ → ℕ → List (DataHandler D) → List TypeInfo → Bool
  unfolding is_handled
  all_handled nb_registers nb_constants handlers [] = true
  all_handled nb_registers nb_constants handlers (t ∷ types) =
      is_handled nb_registers nb_constants handlers t
      && all_handled nb_registers nb_constants handlers types

  -- The warning on standard output is left out.
  unfoldable pub filter_instruction_set :
      List (Instruction D) → ℕ → ℕ → List (DataHandler D) → List (Instruction D)
  unfolding all_handled
  filter_instruction_set [] nb_registers nb_constants handlers = []
  filter_instruction_set (i ∷ instructions) nb_registers nb_constants handlers =
      let rest = filter_instruction_set instructions nb_registers nb_constants handlers in
      if all_handled nb_registers nb_constants handlers i.operand_types then i ∷ rest else rest

-- computeLineSize, from n registers, i instructions, m operands, the number of data sources and
-- the largest address space.
module _ (ceil_log2 : ℕ → ℕ) where
  unfoldable pub compute_line_size : ℕ → ℕ → ℕ → ℕ → ℕ → Result LineSize
  compute_line_size n i m nb_src largest =
      if (n == 0) || leb i 1 || (m == 0) || leb nb_src 1 || (largest == 0)
      then err domain_error
      else (let source_bits = ceil_log2 nb_src in
          let location_bits = ceil_log2 largest in
          let operands_bits = m * (source_bits + location_bits) in
          ok (record {
            nb_instruction_bits = ceil_log2 n;
            nb_destination_bits = ceil_log2 i;
            nb_operands_bits = operands_bits;
            nb_operand_data_source_index_bits = source_bits;
            nb_operand_location_bits = location_bits;
            total_nb_bits = ceil_log2 n + ceil_log2 i + operands_bits;
          }))

-- The constructor of Environment.
module _ {D : Type 0} (d0 : D) (ceil_log2 : ℕ → ℕ) where
  unfoldable pub new_environment :
      List (Instruction D) → List (DataHandler D) → ℕ → ℕ → Result (Environment D)
  unfolding filter_instruction_set max_operands compute_largest_address_space compute_line_size
  new_environment instructions handlers nb_registers nb_constants =
      let filtered = filter_instruction_set d0 instructions nb_registers nb_constants handlers in
      let nb_sources = length handlers + (if ltb 0 nb_constants then 2 else 1) in
      let largest = compute_largest_address_space nb_registers nb_constants handlers in
      let max_nb = max_operands 0 filtered in
      do
        size ← compute_line_size ceil_log2 nb_registers (length filtered) max_nb nb_sources largest
        ok (record {
          instruction_set = filtered;
          data_sources = handlers;
          nb_registers = nb_registers;
          nb_constants = nb_constants;
          fake_data_sources = fake_sources d0 handlers nb_registers nb_constants;
          nb_instructions = length filtered;
          max_nb_operands = max_nb;
          nb_data_sources = nb_sources;
          largest_address_space = largest;
          line_size = size;
        })
