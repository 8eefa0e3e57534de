-- ===== src/Environment/Laws.antt =====
-- What the constructor of Environment establishes, on which the mutators rely.
use gegelati.Base.{
  bind_ok, Bool-cases, List, [], arith, if◌then◌else◌, inl, inr, length, ltb, ok, refl, subst, true,
  ℕ, ◌∙◌, ◌∷◌, ◌≡◌, ◌≤◌, ok-injective, get_elem?, some, ◌*◌, ◌+◌, ap,
}
use gegelati.Environment.Given.{
  Constructed, any_handles-fake, fake_sources-eq-all_given, filter_instruction_set-eq-with_sources,
  larger, largest_space-eq-foldl, max_operands-eq-foldl,
}
use gegelati.Data.{TypeInfo, DataHandler}
use gegelati.Data.Arrays.{handler}
use gegelati.Environment.{
  Instruction, Environment, nb_operands, max_operands, largest_space, any_handles, all_handled,
  filter_instruction_set, new_environment, fake_sources, LineSize, compute_largest_address_space,
  compute_line_size, registers_of,
}

-- Every operand type of every instruction is provided by some source.
abbrev pub AllHandled : {D : Type 0} → List (DataHandler D) → List TypeInfo → Type 0
AllHandled sources [] = Unit {0}
AllHandled sources (t ∷ types) = (any_handles sources t ≡ true) × AllHandled sources types

abbrev pub Vetted : {D : Type 0} → List (DataHandler D) → List (Instruction D) → Type 0
Vetted sources [] = Unit {0}
Vetted sources (i ∷ instructions) = AllHandled sources i.operand_types × Vetted sources instructions

abbrev pub Bounded : {D : Type 0} → ℕ → List (Instruction D) → Type 0
Bounded bound [] = Unit {0}
Bounded bound (i ∷ instructions) = (nb_operands i ≤ bound) × Bounded bound instructions

pub record IsEnvironment {D : Type 0} (d0 : D) (e : Environment D) : Type 0 where
  pub instructions_counted : e.nb_instructions ≡ length e.instruction_set
  pub sources_counted : e.nb_data_sources ≡ length e.fake_data_sources
  pub several_instructions : 2 ≤ e.nb_instructions
  pub some_register : 1 ≤ e.nb_registers
  pub some_operand : 1 ≤ e.max_nb_operands
  pub several_sources : 2 ≤ e.nb_data_sources
  pub some_address : e.nb_registers ≤ e.largest_address_space
  pub fake_registers :
      get_elem? e.fake_data_sources 0 ≡ some (handler (registers_of d0 e.nb_registers))
  pub sources_made :
      e.fake_data_sources ≡ fake_sources d0 e.data_sources e.nb_registers e.nb_constants
  pub operands_bounded : Bounded e.max_nb_operands e.instruction_set
  pub vetted : Vetted e.fake_data_sources e.instruction_set
  pub operand_bits :
      e.line_size.nb_operands_bits
      ≡ e.max_nb_operands
        * (e.line_size.nb_operand_data_source_index_bits + e.line_size.nb_operand_location_bits)

module _ {D : Type 0} where
  le-max_operands : (res : ℕ) (is : List (Instruction D)) → res ≤ max_operands res is
  unfolding max_operands
  le-max_operands res [] = omega arith
  le-max_operands res (i ∷ is) =
      ground (arith, le-max_operands res is, le-max_operands (nb_operands i) is)

  Bounded-max_operands : (res : ℕ) (is : List (Instruction D)) → Bounded (max_operands res is) is
  unfolding max_operands
  Bounded-max_operands res [] = tt
  Bounded-max_operands res (i ∷ is) =
      let next = if ltb res (nb_operands i) then nb_operands i else res in
      (ground (arith, le-max_operands next is), Bounded-max_operands next is)

  le-largest_space : (res : ℕ) (hs : List (DataHandler D)) → res ≤ largest_space res hs
  unfolding largest_space
  le-largest_space res [] = omega arith
  le-largest_space res (h ∷ hs) =
      ground (arith, le-largest_space res hs, le-largest_space h.largest_address_space hs)

module _ {D : Type 0} (d0 : D) (regs consts : ℕ) (handlers : List (DataHandler D)) where
  AllHandled-all_handled :
      (types : List TypeInfo)
      → all_handled d0 regs consts handlers types ≡ true
      → AllHandled (fake_sources d0 handlers regs consts) types
  unfolding all_handled
  AllHandled-all_handled [] h = tt
  AllHandled-all_handled (t ∷ types) h = (
    any_handles-fake d0 regs consts handlers t ∙ ground arith,
    AllHandled-all_handled types (ground arith),
  )

  filter-Vetted :
      (is : List (Instruction D))
      → Vetted
          (fake_sources d0 handlers regs consts)
          (filter_instruction_set d0 is regs consts handlers)
  unfolding filter_instruction_set
  filter-Vetted [] = tt
  filter-Vetted (i ∷ is) = elim (Bool-cases (all_handled d0 regs consts handlers i.operand_types)) [
    | inl e ↦ rw e (AllHandled-all_handled i.operand_types e, filter-Vetted is)
    | inr e ↦ rw e (filter-Vetted is)
  ]

compute_line_size_checks :
    (ceil_log2 : ℕ → ℕ) (n i m nb_src largest : ℕ) {size : LineSize}
    → compute_line_size ceil_log2 n i m nb_src largest ≡ ok size
    → (1 ≤ n)
      × (2 ≤ i)
      × (1 ≤ m)
      × (2 ≤ nb_src)
      × (size.nb_operands_bits
          ≡ m * (size.nb_operand_data_source_index_bits + size.nb_operand_location_bits))
      × (size.nb_operand_data_source_index_bits ≡ ceil_log2 nb_src)
      × (size.nb_operand_location_bits ≡ ceil_log2 largest)
      × (size.total_nb_bits ≡ ceil_log2 n + ceil_log2 i + size.nb_operands_bits)
unfolding compute_line_size
compute_line_size_checks ceil_log2 n i m nb_src largest h = ground arith

covers_registers :
    {D : Type 0} (regs consts : ℕ) (handlers : List (DataHandler D))
    → regs ≤ compute_largest_address_space regs consts handlers
unfolding compute_largest_address_space
covers_registers regs consts handlers =
    ground (arith, le-largest_space regs handlers, le-largest_space consts handlers)

-- A constructed environment has the given sources as data sources, the given numbers of registers
-- and constants, and of the given instructions, in their order, exactly those whose operand types
-- all are provided by the registers, by the constants, if any, or by a given source; these are its
-- sources for the types, in this order. Its counts are right; its maximum of operands is the
-- greatest number of operands of its instructions, and its largest address space the greatest of
-- the numbers of registers and constants and of the address spaces of the given sources. It has at
-- least one register, one operand, two instructions and two data sources. An operand has the bits
-- of the number of data sources and of the largest address space, the operands of a line as many as
-- they have in all, and a line these with the bits of the numbers of registers and instructions.
pub new_environment-IsEnvironment :
    {D : Type 0} (d0 : D) (ceil_log2 : ℕ → ℕ) (is : List (Instruction D))
    (handlers : List (DataHandler D)) (regs consts : ℕ) (e : Environment D)
    → new_environment d0 ceil_log2 is handlers regs consts ≡ ok e
    → IsEnvironment d0 e × Constructed d0 ceil_log2 is handlers regs consts e
unfolding new_environment compute_largest_address_space
new_environment-IsEnvironment d0 ceil_log2 is handlers regs consts e h =
    let filtered = filter_instruction_set d0 is regs consts handlers in
    let (size, checked, built) = bind_ok (compute_line_size ceil_log2 regs _ _ _ _) _ h in
    let facts = compute_line_size_checks ceil_log2 _ _ _ _ _ checked in
    subst (λ x. IsEnvironment d0 x × Constructed d0 ceil_log2 is handlers regs consts x)
      (ok-injective built)
      (
        record {
          instructions_counted = refl;
          sources_counted = ground arith;
          several_instructions = facts.1;
          some_register = facts.0;
          some_operand = facts.2;
          several_sources = facts.3;
          some_address = covers_registers regs consts handlers;
          fake_registers = refl;
          sources_made = refl;
          operands_bounded = Bounded-max_operands 0 filtered;
          vetted = filter-Vetted d0 regs consts handlers is;
          operand_bits = facts.4;
        },
        record {
          same_sources = refl;
          same_registers = refl;
          same_constants = refl;
          sources_given = fake_sources-eq-all_given d0 handlers regs consts;
          instructions_with_sources =
              filter_instruction_set-eq-with_sources d0 regs consts handlers is;
          most_operands = max_operands-eq-foldl 0 filtered;
          widest = largest_space-eq-foldl (larger consts regs) handlers;
          source_bits = facts.5;
          location_bits = facts.6;
          total_bits = facts.7;
        },
      )

-- The bits of the instruction are those of the number of registers.
pub instruction_bits :
    {D : Type 0} (d0 : D) (ceil_log2 : ℕ → ℕ) (is : List (Instruction D))
    (handlers : List (DataHandler D)) (regs consts : ℕ) (e : Environment D)
    → new_environment d0 ceil_log2 is handlers regs consts ≡ ok e
    → e.line_size.nb_instruction_bits ≡ ceil_log2 regs
unfolding new_environment compute_line_size
instruction_bits {D} d0 ceil_log2 is handlers regs consts e h =
    let (size, checked, built) = bind_ok (compute_line_size ceil_log2 regs _ _ _ _) _ h in
    let same = ap (λ (x : Environment D). x.line_size.nb_instruction_bits) (ok-injective built) in
    ground arith
