-- ===== src/Environment/Given.antt =====
-- What the constructor of Environment makes of its arguments (gegelatilib/src/environment.cpp).
use mathlib.Core.List.{foldl, foldr}
use gegelati.Base.{
  Bool, Bool-cases, List, [], ap, arith, false, if◌then◌else◌, inl, inr, ltb, map, refl, sym, true,
  ℕ, ◌&&◌, ◌++◌, ◌||◌, ◌∙◌, ◌∷◌, ◌≡◌, ◌+◌,
}
use gegelati.Data.{DataHandler, TypeInfo}
use gegelati.Data.Arrays.{handler}
use gegelati.Environment.{
  Environment, Instruction, all_handled, any_handles, constants_of, fake_sources,
  filter_instruction_set, is_handled, largest_space, max_operands, nb_operands, registers_of,
}

module _ {D : Type 0} (d0 : D) (regs consts : ℕ) (handlers : List (DataHandler D)) where
  pub any_handles-fake :
      (t : TypeInfo)
      → any_handles (fake_sources d0 handlers regs consts) t ≡ is_handled d0 regs consts handlers t
  unfolding any_handles is_handled handler
  any_handles-fake t = ground arith

abbrev pub larger : ℕ → ℕ → ℕ
larger m n = if ltb m n then n else m

module _ {D : Type 0} where
  pub max_operands-eq-foldl :
      (res : ℕ) (is : List (Instruction D))
      → max_operands res is ≡ foldl larger res (map nb_operands is)
  unfolding max_operands
  max_operands-eq-foldl res [] = refl
  max_operands-eq-foldl res (i ∷ is) = max_operands-eq-foldl (larger res (nb_operands i)) is

  abbrev pub address_space : DataHandler D → ℕ
  address_space h = h.largest_address_space

  pub largest_space-eq-foldl :
      (res : ℕ) (hs : List (DataHandler D))
      → largest_space res hs ≡ foldl larger res (map address_space hs)
  unfolding largest_space
  largest_space-eq-foldl res [] = refl
  largest_space-eq-foldl res (h ∷ hs) =
      largest_space-eq-foldl (larger res h.largest_address_space) hs

  -- Has each of the types one source, at least, that provides it?
  abbrev pub provides : List (DataHandler D) → TypeInfo → Bool
  provides sources t = foldr (λ (h : DataHandler D) b. h.can_handle t || b) false sources

  abbrev pub all_provided : List (DataHandler D) → List TypeInfo → Bool
  all_provided sources types = foldr (λ t b. provides sources t && b) true types

  -- The registers, the constants where there are some, and the given sources.
  abbrev pub all_given : D → List (DataHandler D) → ℕ → ℕ → List (DataHandler D)
  all_given d0 handlers regs consts =
      handler (registers_of d0 regs)
      ∷ ((if ltb 0 consts then handler (constants_of consts) ∷ [] else []) ++ handlers)

  pub fake_sources-eq-all_given :
      (d0 : D) (handlers : List (DataHandler D)) (regs consts : ℕ)
      → fake_sources d0 handlers regs consts ≡ all_given d0 handlers regs consts
  fake_sources-eq-all_given d0 handlers regs consts = elim (Bool-cases (ltb 0 consts)) [
    | inl e ↦ rw e refl
    | inr e ↦ rw e refl
  ]

  any_handles-eq-provides :
      (sources : List (DataHandler D)) (t : TypeInfo) → any_handles sources t ≡ provides sources t
  unfolding any_handles
  any_handles-eq-provides [] t = refl
  any_handles-eq-provides (h ∷ sources) t =
      ap (λ b. h.can_handle t || b) (any_handles-eq-provides sources t)

  module _ (d0 : D) (regs consts : ℕ) (handlers : List (DataHandler D)) where
    abbrev sources : List (DataHandler D)
    sources = all_given d0 handlers regs consts

    is_handled-eq-provides :
        (t : TypeInfo) → is_handled d0 regs consts handlers t ≡ provides sources t
    is_handled-eq-provides t =
        sym (any_handles-fake d0 regs consts handlers t)
        ∙ any_handles-eq-provides (fake_sources d0 handlers regs consts) t
        ∙ ap (λ hs. provides hs t) (fake_sources-eq-all_given d0 handlers regs consts)

    all_handled-eq-all_provided :
        (types : List TypeInfo)
        → all_handled d0 regs consts handlers types ≡ all_provided sources types
    unfolding all_handled
    all_handled-eq-all_provided [] = refl
    all_handled-eq-all_provided (t ∷ types) =
        rw (is_handled-eq-provides t, all_handled-eq-all_provided types) refl

    -- The instructions whose operand types all have a source, in their order.
    abbrev pub with_sources : List (Instruction D) → List (Instruction D)
    with_sources =
        foldr
          (λ (i : Instruction D) rest.
            if all_provided sources i.operand_types then i ∷ rest else rest)
          []

    pub filter_instruction_set-eq-with_sources :
        (is : List (Instruction D))
        → filter_instruction_set d0 is regs consts handlers ≡ with_sources is
    unfolding filter_instruction_set
    filter_instruction_set-eq-with_sources [] = refl
    filter_instruction_set-eq-with_sources (i ∷ is) =
        rw (all_handled-eq-all_provided i.operand_types, filter_instruction_set-eq-with_sources is)
          refl

-- What the fields of an environment are, by the arguments of its constructor.
pub record Constructed {D : Type 0} (d0 : D) (ceil_log2 : ℕ → ℕ) (is : List (Instruction D))
    (handlers : List (DataHandler D)) (regs consts : ℕ) (e : Environment D) : Type 0 where
  pub same_sources : e.data_sources ≡ handlers
  pub same_registers : e.nb_registers ≡ regs
  pub same_constants : e.nb_constants ≡ consts
  pub sources_given : e.fake_data_sources ≡ all_given d0 handlers regs consts
  pub instructions_with_sources : e.instruction_set ≡ with_sources d0 regs consts handlers is
  pub most_operands : e.max_nb_operands ≡ foldl larger 0 (map nb_operands e.instruction_set)
  pub widest :
      e.largest_address_space ≡ foldl larger (larger consts regs) (map address_space handlers)
  pub source_bits : e.line_size.nb_operand_data_source_index_bits ≡ ceil_log2 e.nb_data_sources
  pub location_bits : e.line_size.nb_operand_location_bits ≡ ceil_log2 e.largest_address_space
  pub total_bits :
      e.line_size.total_nb_bits
      ≡ ceil_log2 e.nb_registers + ceil_log2 e.nb_instructions + e.line_size.nb_operands_bits
