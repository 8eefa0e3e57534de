-- ===== src/Mutator.antt =====
-- gegelatilib/src/mutator/lineMutator.cpp: random lines, and random changes to a line. Functions
-- take the state of the random engine and return it. Indexes that count up to the number of data
-- sources do not wrap; elsewhere the wrap of uint64_t is written out.
pub mod Sources
pub mod Operands
pub mod Renewal
pub mod Indexes
pub mod Fresh
pub mod Lines
pub mod Alter
pub mod OneRegister
use gegelati.Base.{
  Bool, List, Result, [], ℕ, ◌∷◌, elem_at, err, false, if◌then◌else◌, leb, length, ltb, not, ok,
  out_of_range, sub64, suc, true, undefined, zero, ◌%◌, ◌&&◌, ◌+◌, ◌-◌, ◌/◌, ◌==◌, ◌>>=◌, ◌^◌,
}
use gegelati.Data.{TypeInfo}
use gegelati.Environment.{Environment, Instruction, nb_operands}
use gegelati.Program.{Line, get_operand, set_operand, set_destination_index, set_instruction_index}
use gegelati.Rng.{Rng}

-- The correction of a drawn index by the tested ones.
unfoldable pub shift_past : ℕ → List ℕ → ℕ
shift_past index [] = index
shift_past index (t ∷ ts) = shift_past (if leb t index then index + 1 else index) ts

-- `set.insert`, in the order of the numbers.
unfoldable pub insert_sorted : ℕ → List ℕ → List ℕ
insert_sorted a [] = a ∷ []
insert_sorted a (x ∷ xs) =
    if a == x then x ∷ xs else if ltb a x then a ∷ x ∷ xs else x ∷ insert_sorted a xs

-- A new value for a drawn one: `drawn += (drawn >= current) ? 1 : 0`.
unfoldable pub skip : ℕ → ℕ → ℕ
skip current drawn = if leb current drawn then (drawn + 1) % 2 ^ 64 else drawn

module _ {D R : Type 0} (rng : Rng D R) (env : Environment D) where
  -- The loop over the data sources, from the tested ones: an index, and whether its source can
  -- handle the type. There is fuel for each source that is not tested.
  unfoldable pub search_source : ℕ → TypeInfo → List ℕ → ℕ → R → Result (ℕ × Bool × R)
  unfolding shift_past insert_sorted
  search_source zero type tested current r = ok (current, false, r)
  search_source (suc fuel) type tested current r =
      let drawn = rng.uint64 0 (sub64 (sub64 env.nb_data_sources 1) (length tested)) r in
      let index = shift_past drawn.0 tested in
      let more = search_source fuel type (insert_sorted index tested) index drawn.1 in
      if ltb (length tested) env.nb_data_sources
      then (do
        source ← elem_at env.fake_data_sources index out_of_range
        if source.can_handle type then ok (index, true, drawn.1) else more)
      else ok (current, false, r)

  -- The first part of initRandomCorrectLineOperand: the data source.
  unfoldable pub choose_source : Instruction D → ℕ → ℕ → Bool → Bool → R → Result (ℕ × Bool × R)
  unfolding search_source skip
  choose_source instruction current idx init_source force r =
      let tested = if force then current ∷ [] else [] in
      let free = rng.uint64 0 (sub64 (sub64 env.nb_data_sources 1) (if force then 1 else 0)) r in
      if init_source
      then (if ltb idx (nb_operands instruction)
          then (do
            type ← elem_at instruction.operand_types idx out_of_range
            search_source (env.nb_data_sources) type tested current r)
          else ok (if force then skip current free.0 else free.0, true, free.1))
      else ok (current, true, r)

  unfoldable pub choose_location : ℕ → Bool → Bool → R → ℕ × R
  unfolding skip
  choose_location current init_location force r =
      let drawn =
        rng.uint64 0 (sub64 (sub64 env.largest_address_space 1) (if force then 1 else 0)) r in
      if init_location
      then (if force then skip current drawn.0 else drawn.0, drawn.1)
      else (current, r)

  -- initRandomCorrectLineOperand
  unfoldable pub init_operand :
      Instruction D → Line → ℕ → Bool → Bool → Bool → R → Result (Line × Bool × R)
  unfolding choose_source choose_location get_operand set_operand
  init_operand instruction line idx init_source init_location force r = do
    operand ← get_operand env line idx
    source ← choose_source instruction operand.0 idx init_source force r
    let location = choose_location operand.1 (source.1 && init_location) force source.2
    (if source.1
        then (do
          written ← set_operand env line idx source.0 location.0 true
          ok (written.0, true, location.1))
        else ok (line, false, location.1))

  -- The loop of initRandomCorrectLine over the operands.
  unfoldable pub init_operands : ℕ → Instruction D → Line → ℕ → R → Result (Line × R)
  unfolding init_operand
  init_operands zero instruction line idx r = ok (line, r)
  init_operands (suc n) instruction line idx r = do
    next ← init_operand instruction line idx true true false r
    init_operands n instruction next.0 (idx + 1) next.2

  unfoldable pub init_random_correct_line : Line → R → Result (Line × R)
  unfolding init_operands set_destination_index set_instruction_index
  init_random_correct_line line r =
      let destination = rng.uint64 0 (sub64 env.nb_registers 1) r in
      let placed = (set_destination_index env line destination.0 true).0 in
      let drawn = rng.uint64 0 (sub64 env.nb_instructions 1) destination.1 in
      do
        instruction ← elem_at env.instruction_set drawn.0 out_of_range
        init_operands env.max_nb_operands instruction
            (set_instruction_index env placed drawn.0 true).0 0 drawn.1

  -- The loop that mutates the operands that a new instruction cannot take.
  unfoldable pub repair_operands : ℕ → Instruction D → Line → ℕ → R → Result (Line × R)
  unfolding init_operand get_operand
  repair_operands zero instruction line idx r = ok (line, r)
  repair_operands (suc n) instruction line idx r = do
    type ← elem_at instruction.operand_types idx out_of_range
    operand ← get_operand env line idx
    source ← elem_at env.fake_data_sources operand.0 out_of_range
    next ←
        (if source.can_handle type
          then ok (line, true, r)
          else init_operand instruction line idx true false true r)
    repair_operands n instruction next.0 (idx + 1) next.2

  unfoldable pub alter_instruction : Line → R → Result (Line × R)
  unfolding repair_operands skip set_instruction_index
  alter_instruction line r =
      let drawn = rng.uint64 0 (sub64 env.nb_instructions 2) r in
      let index = skip line.instruction_index drawn.0 in
      do
        instruction ← elem_at env.instruction_set index out_of_range
        repair_operands (nb_operands instruction) instruction
            (set_instruction_index env line index true).0 0 drawn.1

  unfoldable pub alter_destination : Line → R → Line × R
  unfolding skip set_destination_index
  alter_destination line r =
      let drawn = rng.uint64 0 (sub64 env.nb_registers 2) r in
      ((set_destination_index env line (skip line.destination_index drawn.0) true).0, drawn.1)

  -- The operand under a bit of the operands; a division by 0 is undefined.
  unfoldable pub alter_operand : Line → ℕ → R → Result (Line × R)
  unfolding init_operand get_operand
  alter_operand line bit r =
      let size = env.line_size in
      let width = size.nb_operand_data_source_index_bits + size.nb_operand_location_bits in
      let in_source = ltb (bit % width) size.nb_operand_data_source_index_bits in
      if width == 0 then err undefined else (do
        _ ← get_operand env line (bit / width)
        instruction ← elem_at env.instruction_set line.instruction_index out_of_range
        next ← init_operand instruction line (bit / width) in_source (not in_source) true r
        ok (next.0, next.2))

  -- alterCorrectLine
  unfoldable pub alter_correct_line : Line → R → Result (Line × R)
  unfolding alter_instruction alter_destination alter_operand
  alter_correct_line line r =
      let size = env.line_size in
      let selected = rng.uint64 0 (sub64 size.total_nb_bits 1) r in
      let head = size.nb_instruction_bits + size.nb_destination_bits in
      if ltb selected.0 size.nb_instruction_bits
      then alter_instruction line selected.1
      else if ltb selected.0 head
      then ok (alter_destination line selected.1)
      else if ltb selected.0 (head + size.nb_operands_bits)
      then alter_operand line (selected.0 - head) selected.1
      else ok (line, selected.1)
