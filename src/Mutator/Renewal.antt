-- ===== src/Mutator/Renewal.antt =====
-- A line whose operand initRandomCorrectLineOperand (gegelatilib/src/mutator/lineMutator.cpp) has
-- set.
use gegelati.Base.{
  Bool, List, arith, false, get_elem?, get_elem?-set, if◌then◌else◌, length-set, refl, set, some,
  true, ℕ, ◌<◌, ◌==◌, ◌∙◌, ◌≡◌, Bool-cases, elem_at-eq-or_fail, elem_at-inside, inl, inr, leb, ok,
  or_fail-ok, sub64, sub64-sub64-lt, sym, undefined, ◌&&◌, ◌⊎◌,
}
use gegelati.Data.{TypeInfo}
use gegelati.Environment.{Environment, Instruction}
use gegelati.Environment.Laws.{IsEnvironment}
use gegelati.Program.{Line, get_operand, set_operand}
use gegelati.Rng.{Rng, RngLaws}
use gegelati.Mutator.{choose_location, init_operand, choose_source}
use gegelati.Mutator.Sources.{handles}
use gegelati.Mutator.Operands.{Handled, Sound, Chosen, choose_source-Chosen}

module _ {D : Type 0} (env : Environment D) (types : List TypeInfo) where
  -- The line is within bounds, and differs at most in the operand `idx`, which can still provide
  -- its type.
  pub record Renewed (line line' : Line) (idx : ℕ) : Type 0 where
    pub same_instruction : line'.instruction_index ≡ line.instruction_index
    pub sound : Sound env line'
    pub others :
        (k : ℕ) → (idx == k) ≡ false → get_elem? line'.operands k ≡ get_elem? line.operands k
    pub kept : Handled env types line.operands idx → Handled env types line'.operands idx

  pub unchanged-Renewed : (line : Line) (idx : ℕ) → Sound env line → Renewed line line idx
  unchanged-Renewed line idx sound = record {
    same_instruction = refl;
    sound = sound;
    others = λ k other. refl;
    kept = λ h. h;
  }

  module _ (line : Line) (idx source location : ℕ) (sound : Sound env line)
      (inside : idx < env.max_nb_operands) where
    abbrev pub with_operand : Line
    with_operand = record line { operands = set line.operands idx (source, location) }

    get_elem?-with_operand :
        (k : ℕ)
        → get_elem? with_operand.operands k
          ≡ (if idx == k then some (source, location) else get_elem? line.operands k)
    get_elem?-with_operand k =
        let counted = sound.operands_counted in
        ground (arith, get_elem?-set line.operands idx k (source, location))

    pub with_operand-Renewed :
        source < env.nb_data_sources
        → location < env.largest_address_space
        → ((t : TypeInfo)
            → get_elem? types idx ≡ some t
            → Handled env types line.operands idx
            → handles env source t ≡ true)
        → Renewed line with_operand idx
    with_operand-Renewed source_valid location_valid provides = record {
      same_instruction = refl;
      sound = record {
        instruction_valid = sound.instruction_valid;
        destination_valid = sound.destination_valid;
        operands_counted = length-set line.operands idx (source, location) ∙ sound.operands_counted;
        operands_valid = λ k operand at_k.
            ground (arith, get_elem?-with_operand k, sound.operands_valid k operand);
      };
      others = λ k other. ground (arith, get_elem?-with_operand k);
      kept = λ before operand t at_idx at_t.
          ground (arith, get_elem?-with_operand idx, provides t at_t before, at_idx);
    }

    pub with_operand-Handled :
        ((t : TypeInfo) → get_elem? types idx ≡ some t → handles env source t ≡ true)
        → Handled env types with_operand.operands idx
    with_operand-Handled provides operand t at_idx at_t =
        ground (arith, get_elem?-with_operand idx, provides t at_t, at_idx)

module _ {D R : Type 0} (rng : Rng D R) (laws : RngLaws rng) (d0 : D) (env : Environment D)
    (is_env : IsEnvironment d0 env) where
  location_valid :
      (current : ℕ) (init force : Bool) (r : R)
      → current < env.largest_address_space
      → (init && force) ≡ false
      → (choose_location rng env current init force r).0 < env.largest_address_space
  unfolding choose_location
  location_valid current false force r valid free = valid
  location_valid current true true r valid free = absurd (ground arith)
  location_valid current true false r valid free =
      let most = sub64 (sub64 env.largest_address_space 1) 0 in
      let some_address = is_env.some_address in
      let some_register = is_env.some_register in
      let room = sub64-sub64-lt env.largest_address_space 0 (omega arith) in
      let (_, below) = laws.uint64_range 0 most r (omega arith) in omega arith

  module _ (instruction : Instruction D) (line : Line) (idx : ℕ)
      (init_source init_location force : Bool) (r : R) (sound : Sound env line)
      (inside : idx < env.max_nb_operands) where
    -- The types of the instruction that the operand has to provide.
    abbrev Mended : Line → Type 0
    Mended line' =
        init_source ≡ true
        → (init_location && force) ≡ false
        → ((operand : ℕ × ℕ) (t : TypeInfo)
            → get_elem? line.operands idx ≡ some operand
            → get_elem? instruction.operand_types idx ≡ some t
            → (force ≡ false) ⊎ (handles env operand.0 t ≡ false))
        → ((t : TypeInfo)
            → get_elem? instruction.operand_types idx ≡ some t
            → (j : ℕ) × (j < env.nb_data_sources) × (handles env j t ≡ true))
        → Handled env instruction.operand_types line'.operands idx

    written :
        (operand : ℕ × ℕ) (res : ℕ × Bool × R) (location : ℕ)
        → get_elem? line.operands idx ≡ some operand
        → Chosen rng laws d0 env is_env instruction operand.0 idx init_source force res
        → ((init_location && force) ≡ false → location < env.largest_address_space)
        → res.1 ≡ true
        → (out : Line × Bool) × (set_operand env line idx res.0 location true ≡ ok out)
          × Renewed env instruction.operand_types line out.0 idx
          × Mended out.0
    unfolding set_operand
    written operand res location at_idx chosen valid found =
        elim (Bool-cases (leb env.largest_address_space location)) [
          | inl beyond ↦ (
            (line, false),
            ground arith,
            unchanged-Renewed env instruction.operand_types line idx sound,
            λ init free why any. absurd (ground (arith, valid free)),
          )
          | inr within ↦ (
            (with_operand env instruction.operand_types line idx res.0 location sound inside, true),
            ground (arith, chosen.0 found),
            with_operand-Renewed env instruction.operand_types line idx res.0 location sound inside
                (chosen.0 found) (ground arith)
                (λ t at_t before. chosen.1 t at_t found (before operand t at_idx at_t)),
            λ init free why any.
                with_operand-Handled env instruction.operand_types line idx res.0 location sound
                  inside
                  (λ t at_t. (chosen.2 t at_t init (why operand t at_idx at_t) (any t at_t)).1),
          )
        ]

    operand_there :
        (operand : ℕ × ℕ) × (get_operand env line idx ≡ ok operand)
        × (get_elem? line.operands idx ≡ some operand)
    unfolding get_operand
    operand_there =
        let (operand, found) =
          elem_at-inside line.operands idx undefined (rw sound.operands_counted inside) in
        (
          operand,
          ground (arith, found),
          or_fail-ok (get_elem? line.operands idx) undefined operand
              (sym (elem_at-eq-or_fail line.operands idx undefined) ∙ found),
        )

    abbrev location_of : ℕ × ℕ → ℕ × Bool × R → ℕ × R
    location_of operand source =
        choose_location rng env operand.1 (source.1 && init_location) force source.2

    module _ (operand : ℕ × ℕ) (source : ℕ × Bool × R)
        (there : get_operand env line idx ≡ ok operand)
        (chose : choose_source rng env instruction operand.0 idx init_source force r
          ≡ ok source) where
      missed_step :
          source.1 ≡ false
          → init_operand rng env instruction line idx init_source init_location force r
            ≡ ok (line, false, (location_of operand source).1)
      unfolding init_operand
      missed_step missed = rw (there, chose, missed) refl

    found_step :
        (operand : ℕ × ℕ) (source : ℕ × Bool × R) (out : Line × Bool)
        → get_operand env line idx ≡ ok operand
        → choose_source rng env instruction operand.0 idx init_source force r ≡ ok source
        → source.1 ≡ true
        → set_operand env line idx source.0 (location_of operand source).0 true ≡ ok out
        → init_operand rng env instruction line idx init_source init_location force r
          ≡ ok (out.0, true, (location_of operand source).1)
    unfolding init_operand
    found_step operand source out there chose found set_it =
        let set_it' = rw found at set_it in rw (there, chose, found, set_it') refl

    -- The operand is chosen and set without an error, and stays one that its type allows.
    pub init_operand-Renewed :
        (res : Line × Bool × R) × (init_operand rng env instruction line idx init_source
            init_location force r
          ≡ ok res)
        × Renewed env instruction.operand_types line res.0 idx
        × Mended res.0
    init_operand-Renewed =
        let (operand, there, at_idx) = operand_there in
        let (source_valid, location_fits) = sound.operands_valid idx operand at_idx in
        let (source, chose, chosen) =
          choose_source-Chosen rng laws d0 env is_env instruction operand.0 idx init_source force
            source_valid r in
        let location =
          choose_location rng env operand.1 (source.1 && init_location) force source.2 in
        elim (Bool-cases source.1) [
          | inl found ↦
              let (out, done, renewed, mended) =
                written operand source location.0 at_idx chosen
                  (λ free.
                    location_valid operand.1 (source.1 && init_location) force source.2
                      location_fits (ground arith))
                  found in
              (
                (out.0, true, location.1),
                found_step operand source out there chose found done,
                renewed,
                mended,
              )
          | inr missed ↦ (
            (line, false, location.1),
            missed_step operand source there chose missed,
            unchanged-Renewed env instruction.operand_types line idx sound,
            λ init free why any operand' t at_t typed.
                let sure = chosen.2 t typed init (why operand t at_idx typed) (any t typed) in
                absurd (ground arith),
          )
        ]
