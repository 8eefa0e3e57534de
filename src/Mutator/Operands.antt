-- ===== src/Mutator/Operands.antt =====
-- initRandomCorrectLineOperand of gegelatilib/src/mutator/lineMutator.cpp: what it does to one
-- operand of a line.
use gegelati.Base.{
  ==_iff, Bool, Bool-cases, List, [], arith, false, get_elem?, if◌then◌else◌, inl, inr, length,
  member, ok, some, subst, true, ℕ, ◌+◌, ◌<◌, ◌==◌, ◌∷◌, ◌≡◌, ◌≤◌, ◌⊎◌, elem_at-eq-or_fail,
  elem_at-inside, get_elem?-beyond, ltb, ltb→lt, or_fail-ok, out_of_range, refl, sub64,
  sub64-sub64-lt, sym, ◌∙◌,
}
use gegelati.Data.{TypeInfo}
use gegelati.Environment.{Environment, Instruction, nb_operands}
use gegelati.Environment.Laws.{IsEnvironment}
use gegelati.Program.{Line}
use gegelati.Rng.{Rng, RngLaws}
use gegelati.Mutator.{choose_source, skip}
use gegelati.Mutator.Sources.{Searched, handles, Ascending, search_source-Searched}

-- Line and operands stay within the bounds of the environment.
pub record Sound {D : Type 0} (env : Environment D) (line : Line) : Type 0 where
  pub instruction_valid : line.instruction_index < env.nb_instructions
  pub destination_valid : line.destination_index < env.nb_registers
  pub operands_counted : length line.operands ≡ env.max_nb_operands
  pub operands_valid :
      (k : ℕ) (operand : ℕ × ℕ)
      → get_elem? line.operands k ≡ some operand
      → (operand.0 < env.nb_data_sources) × (operand.1 < env.largest_address_space)

-- The source of operand `k` can provide the type that is wanted there, if one is.
abbrev pub Handled : {D : Type 0} → Environment D → List TypeInfo → List (ℕ × ℕ) → ℕ → Type 0
Handled env types operands k =
    (operand : ℕ × ℕ) (t : TypeInfo)
    → get_elem? operands k ≡ some operand
    → get_elem? types k ≡ some t
    → handles env operand.0 t ≡ true

pub skip_bounds : (current drawn : ℕ) → skip current drawn ≤ drawn + 1
unfolding skip
skip_bounds current drawn = ground arith

module _ {D R : Type 0} (rng : Rng D R) (laws : RngLaws rng) (d0 : D) (env : Environment D)
    (is_env : IsEnvironment d0 env) where
  module _ (instruction : Instruction D) (current idx : ℕ) (init_source force : Bool) where
    -- What is chosen for a typed operand is valid, can provide the type if the present source can,
    -- and is found for certain unless the present source, which a forced change excludes, may be
    -- the only one.
    abbrev pub Chosen : ℕ × Bool × R → Type 0
    Chosen res =
        (res.1 ≡ true → res.0 < env.nb_data_sources)
        × ((t : TypeInfo)
            → get_elem? instruction.operand_types idx ≡ some t
            → res.1 ≡ true
            → handles env current t ≡ true
            → handles env res.0 t ≡ true)
        × ((t : TypeInfo)
            → get_elem? instruction.operand_types idx ≡ some t
            → init_source ≡ true
            → (force ≡ false) ⊎ (handles env current t ≡ false)
            → (j : ℕ) × (j < env.nb_data_sources) × (handles env j t ≡ true)
            → (res.1 ≡ true) × (handles env res.0 t ≡ true))

    Chosen-Searched :
        (type : TypeInfo) (res : ℕ × Bool × R)
        → get_elem? instruction.operand_types idx ≡ some type
        → Searched rng laws env is_env.sources_counted type (if force then current ∷ [] else []) res
        → Chosen res
    Chosen-Searched type res typed (inl (found, inside, new, handled)) = (
      λ h. inside,
      λ t at_t h kept.
          let same : type ≡ t = cc in subst (λ u. handles env res.0 u ≡ true) same handled,
      λ t at_t init why any.
          let same : type ≡ t = cc in (found, subst (λ u. handles env res.0 u ≡ true) same handled),
    )
    Chosen-Searched type res typed (inr (missed, all)) = (
      λ h. absurd (ground arith),
      λ t at_t h kept. absurd (ground arith),
      λ t at_t init why any.
          let same : type ≡ t = cc in
          absurd (
            none_left t why any (
              subst
                (λ u.
                  (j : ℕ)
                  → j < env.nb_data_sources
                  → member j (if force then current ∷ [] else []) ≡ false
                  → handles env j u ≡ false)
                same all)),
    )
      where
        none_left :
            (t : TypeInfo)
            → (force ≡ false) ⊎ (handles env current t ≡ false)
            → (j : ℕ) × (j < env.nb_data_sources) × (handles env j t ≡ true)
            → ((j : ℕ)
                → j < env.nb_data_sources
                → member j (if force then current ∷ [] else []) ≡ false
                → handles env j t ≡ false)
            → ⊥
        none_left t why (j, inside, handled) all = elim (Bool-cases (current == j)) [
          | inl here ↦ elim why [
            | inl free ↦ ground (arith, all j inside)
            | inr refuses ↦
                let moved =
                  subst (λ k. handles env k t ≡ false) ((==_iff current j).0 here) refuses in
                ground arith
          ]
          | inr there ↦ ground (arith, all j inside)
        ]

    abbrev free_draw : R → ℕ × R
    free_draw r = rng.uint64 0 (sub64 (sub64 env.nb_data_sources 1) (if force then 1 else 0)) r

    abbrev free_index : R → ℕ
    free_index r = if force then skip current (free_draw r).0 else (free_draw r).0

    free_index_valid : (r : R) → free_index r < env.nb_data_sources
    free_index_valid r =
        let most = sub64 (sub64 env.nb_data_sources 1) (if force then 1 else 0) in
        let (_, below) = laws.uint64_range 0 most r (omega arith) in
        let room =
          sub64-sub64-lt env.nb_data_sources (if force then 1 else 0)
            (ground (arith, is_env.several_sources)) in
        ground (arith, skip_bounds current (rng.uint64 0 most r).0)

    pub choose_source-Chosen :
        current < env.nb_data_sources
        → (r : R)
        → (res : ℕ × Bool × R) × (choose_source rng env instruction current idx init_source force r
            ≡ ok res)
          × Chosen res
    unfolding choose_source
    choose_source-Chosen valid r = elim (Bool-cases init_source) [
      | inr fixed ↦ (
        (current, true, r),
        rw fixed refl,
        (λ h. valid, λ t at_t h kept. kept, λ t at_t init why any. absurd (ground arith)),
      )
      | inl init ↦ elim (Bool-cases (ltb idx (nb_operands instruction))) [
        | inr free ↦
            let beyond = get_elem?-beyond instruction.operand_types idx (ground arith) in
            (
              (free_index r, true, (free_draw r).1),
              rw (init, free) refl,
              (
                λ h. free_index_valid r,
                λ t at_t h kept. absurd (ground arith),
                λ t at_t h why any. absurd (ground arith),
              ),
            )
        | inl typed ↦
            let (type, found) =
              elem_at-inside instruction.operand_types idx out_of_range (ltb→lt _ _ typed) in
            let at_idx =
              or_fail-ok (get_elem? instruction.operand_types idx) out_of_range type
                (sym (elem_at-eq-or_fail instruction.operand_types idx out_of_range) ∙ found) in
            let (res, done, searched) =
              search_source-Searched rng laws env is_env.sources_counted type env.nb_data_sources
                (if force then current ∷ [] else []) current r tested-Ascending (omega arith) in
            (res, rw (init, typed, found) done, Chosen-Searched type res at_idx searched)
      ]
    ]
      where
        tested-Ascending : Ascending 0 env.nb_data_sources (if force then current ∷ [] else [])
        tested-Ascending = elim (Bool-cases force) [
          | inl h ↦ rw h (omega arith, valid, tt)
          | inr h ↦ rw h tt
        ]
