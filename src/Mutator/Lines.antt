-- ===== src/Mutator/Lines.antt =====
-- initRandomCorrectLine and alterCorrectLine of gegelatilib/src/mutator/lineMutator.cpp make
-- correct lines.
use gegelati.Mutator.Indexes.{
  AllHandled-elem, Correct, Vetted-elem, any_handles-index, handles_same, operand_found,
}
use gegelati.Base.{
  ==_iff, Bool, Bool-cases, arith, elem_at, elem_at-found, false, get_elem?, get_elem?-beyond, inl,
  inr, length, ltb, ltb→lt, ok, out_of_range, refl, some, sub64, sub64-le, subst, suc, sym, true,
  zero, ℕ, ◌+◌, ◌<◌, ◌==◌, ◌∙◌, ◌≡◌, ◌≤◌, leb,
}
use gegelati.Data.{DataHandler, TypeInfo}
use gegelati.Environment.{Environment, Instruction, nb_operands}
use gegelati.Environment.Laws.{IsEnvironment}
use gegelati.Program.{Line, get_operand, set_destination_index, set_instruction_index}
use gegelati.Rng.{Rng, RngLaws}
use gegelati.Mutator.{init_operand, init_random_correct_line, repair_operands}
use gegelati.Mutator.Sources.{handles}
use gegelati.Mutator.Operands.{Handled, Sound}
use gegelati.Mutator.Fresh.{Fits, init_operands-Fits}
use gegelati.Mutator.Renewal.{Renewed, init_operand-Renewed, unchanged-Renewed}

module _ {D R : Type 0} (rng : Rng D R) (laws : RngLaws rng) (d0 : D) (env : Environment D)
    (is_env : IsEnvironment d0 env) where
  pub type_provided :
      (n : ℕ) (i : Instruction D)
      → get_elem? env.instruction_set n ≡ some i
      → (k : ℕ) (t : TypeInfo) → get_elem? i.operand_types k ≡ some t
      → (j : ℕ) × (j < env.nb_data_sources) × (handles env j t ≡ true)
  type_provided n i at_n k t at_k =
      let (j, inside, handled) = any_handles-index env.fake_data_sources t (
        AllHandled-elem env.fake_data_sources i.operand_types k t
          (Vetted-elem env.fake_data_sources env.instruction_set n i is_env.vetted at_n) at_k) in
      (j, rw is_env.sources_counted inside, handled)

  pub instruction_there :
      (n : ℕ)
      → n < env.nb_instructions
      → (i : Instruction D) × (elem_at env.instruction_set n out_of_range ≡ ok i)
        × (get_elem? env.instruction_set n ≡ some i)
  instruction_there n h =
      elem_at-found env.instruction_set n out_of_range (rw (← is_env.instructions_counted) h)

  module _ (i : Instruction D) (n : ℕ) (at_n : get_elem? env.instruction_set n ≡ some i) where
    abbrev pub Below : ℕ → Line → Type 0
    Below idx line = (k : ℕ) → k < idx → Handled env i.operand_types line.operands k

    Below-Renewed :
        (line line' : Line) (idx : ℕ)
        → Renewed env i.operand_types line line' idx
        → Below idx line
        → Handled env i.operand_types line'.operands idx
        → Below (idx + 1) line'
    Below-Renewed line line' idx renewed below here k h = elim (Bool-cases (idx == k)) [
      | inl same ↦
          subst (λ j. Handled env i.operand_types line'.operands j) ((==_iff idx k).0 same) here
      | inr other ↦ λ operand t at_k typed.
          below k (ground arith) operand t (sym (renewed.others k other) ∙ at_k) typed
    ]

    module _ (bounded : length i.operand_types ≤ env.max_nb_operands) where
      pub untyped-all :
          (line : Line)
          → Below (nb_operands i) line
          → (k : ℕ) → Handled env i.operand_types line.operands k
      untyped-all line below k operand t at_k typed = elim (Bool-cases (ltb k (nb_operands i))) [
        | inl h ↦ below k (ltb→lt _ _ h) operand t at_k typed
        | inr h ↦
            let none_there = get_elem?-beyond i.operand_types k (ground arith) in
            absurd (ground arith)
      ]

      present_source :
          (line : Line) (idx : ℕ) (operand : ℕ × ℕ) (type : TypeInfo) (source : DataHandler D)
          → get_elem? line.operands idx ≡ some operand
          → get_elem? i.operand_types idx ≡ some type
          → get_elem? env.fake_data_sources operand.0 ≡ some source
          → source.can_handle type ≡ true
          → Handled env i.operand_types line.operands idx
      present_source line idx operand type source at_idx typed there can operand' t at_t typed' =
          let same_operand : operand ≡ operand' = cc in
          let same_type : type ≡ t = cc in
          let here : handles env operand.0 type ≡ true = rw there can in
          subst (λ (o : ℕ × ℕ). handles env o.0 t ≡ true) same_operand
            (subst (λ u. handles env operand.0 u ≡ true) same_type here)

      module _ (m : ℕ) (line : Line) (idx : ℕ) (r : R) (type : TypeInfo) (operand : ℕ × ℕ)
          (source : DataHandler D) where
        kept_round :
            (res : Line × R)
            → elem_at i.operand_types idx out_of_range ≡ ok type
            → get_operand env line idx ≡ ok operand
            → elem_at env.fake_data_sources operand.0 out_of_range ≡ ok source
            → source.can_handle type ≡ true
            → repair_operands rng env m i line (idx + 1) r ≡ ok res
            → repair_operands rng env (suc m) i line idx r ≡ ok res
        unfolding repair_operands
        kept_round res found there fetched can rest = rw (found, there, fetched, can) rest

        renewed_round :
            (next : Line × Bool × R) (res : Line × R)
            → elem_at i.operand_types idx out_of_range ≡ ok type
            → get_operand env line idx ≡ ok operand
            → elem_at env.fake_data_sources operand.0 out_of_range ≡ ok source
            → source.can_handle type ≡ false
            → init_operand rng env i line idx true false true r ≡ ok next
            → repair_operands rng env m i next.0 (idx + 1) next.2 ≡ ok res
            → repair_operands rng env (suc m) i line idx r ≡ ok res
        unfolding repair_operands
        renewed_round next res found there fetched cannot done rest =
            rw (done, found, there, fetched, cannot) rest

      pub repair_operands-Below :
          (m : ℕ) (line : Line) (idx : ℕ) (r : R)
          → Sound env line
          → idx + m ≡ nb_operands i
          → Below idx line
          → (res : Line × R) × (repair_operands rng env m i line idx r ≡ ok res)
            × Sound env res.0
            × (res.0.instruction_index ≡ line.instruction_index)
            × Below (nb_operands i) res.0
      unfolding repair_operands
      repair_operands-Below zero line idx r sound count below =
          ((line, r), refl, sound, refl, λ k h. below k (omega arith))
      repair_operands-Below (suc m) line idx r sound count below =
          let (type, found, typed) = elem_at-found i.operand_types idx out_of_range (omega arith) in
          let (operand, there, at_idx) = operand_found env line idx sound (omega arith) in
          let (source_valid, location_fits) = sound.operands_valid idx operand at_idx in
          let (source, fetched, at_source) =
            elem_at-found env.fake_data_sources operand.0 out_of_range
              (rw (← is_env.sources_counted) source_valid) in
          elim (Bool-cases (source.can_handle type)) [
            | inl can ↦
                let here = present_source line idx operand type source at_idx typed at_source can in
                let (res, rest, sound', same, all) =
                  repair_operands-Below m line (idx + 1) r sound (omega arith) (
                    Below-Renewed line line idx
                      (unchanged-Renewed env i.operand_types line idx sound) below here) in
                (
                  res,
                  kept_round m line idx r type operand source res found there fetched can rest,
                  sound',
                  same,
                  all,
                )
            | inr cannot ↦
                let (next, done, renewed, mended) =
                  init_operand-Renewed rng laws d0 env is_env i line idx true false true r sound
                    (omega arith) in
                let refuses : handles env operand.0 type ≡ false = rw at_source cannot in
                let here =
                  mended refl refl
                    (λ operand' t at_k typed'.
                      inr (handles_same env operand operand' type t (cc) (cc) refuses))
                    (type_provided n i at_n idx) in
                let (res, rest, sound', same, all) =
                  repair_operands-Below m next.0 (idx + 1) next.2 renewed.sound (omega arith)
                    (Below-Renewed line next.0 idx renewed below here) in
                (
                  res,
                  renewed_round m line idx r type operand source next res found there fetched cannot
                      done rest,
                  sound',
                  same ∙ renewed.same_instruction,
                  all,
                )
          ]

  pub below_size :
      (size back : ℕ) (r : R) → 1 ≤ back → back ≤ size → (rng.uint64 0 (sub64 size back) r).0 < size
  below_size size back r some_back fits =
      let (_, below) = laws.uint64_range 0 (sub64 size back) r (omega arith) in
      let least = sub64-le size back fits in omega arith

  pub correct_instruction :
      (i i' : Instruction D) (n : ℕ)
      → get_elem? env.instruction_set n ≡ some i
      → (line : Line) → line.instruction_index ≡ n
      → get_elem? env.instruction_set line.instruction_index ≡ some i'
      → (k : ℕ) → Handled env i.operand_types line.operands k
      → Handled env i'.operand_types line.operands k
  correct_instruction i i' n at_n line index at_i k handled =
      let same : i ≡ i' = cc in
      subst (λ (x : Instruction D). Handled env x.operand_types line.operands k) same handled

  -- The line with the drawn operands, at the drawn instruction and destination.
  Correct-Fits :
      (i : Instruction D) (n destination : ℕ) (line : Line)
      → get_elem? env.instruction_set n ≡ some i
      → line.instruction_index ≡ n
      → n < env.nb_instructions
      → line.destination_index ≡ destination
      → destination < env.nb_registers
      → length line.operands ≡ env.max_nb_operands
      → ((k : ℕ) (operand : ℕ × ℕ)
          → get_elem? line.operands k ≡ some operand
          → Fits env i.operand_types k operand)
      → Correct env line
  Correct-Fits i n destination line at_n index below placed inside counted fits = record {
    sound = record {
      instruction_valid = omega arith;
      destination_valid = omega arith;
      operands_counted = counted;
      operands_valid = λ k operand at_k.
          let (source_valid, location_valid, handled) = fits k operand at_k in
          (source_valid, location_valid);
    };
    handled = λ i' at_i k.
        correct_instruction i i' n at_n line index at_i k
          (λ operand t at_k typed. (fits k operand at_k).2 t typed);
  }

  -- initRandomCorrectLine of any line that has as many operands as the lines of its environment,
  -- whatever its indexes and operands are and whatever the random numbers: it returns; then the
  -- indexes and operands of the line are within the bounds of the environment, and each operand of
  -- its instruction has a source that provides the wanted type.
  pub init_random_correct_line-Correct :
      (line : Line) (r : R)
      → length line.operands ≡ env.max_nb_operands
      → (res : Line × R) × (init_random_correct_line rng env line r ≡ ok res) × Correct env res.0
  unfolding init_random_correct_line set_destination_index set_instruction_index
  init_random_correct_line-Correct line r counted =
      let several = is_env.several_instructions in
      let some_register = is_env.some_register in
      let destination = rng.uint64 0 (sub64 env.nb_registers 1) r in
      let inside = below_size env.nb_registers 1 r (omega arith) (omega arith) in
      let drawn = rng.uint64 0 (sub64 env.nb_instructions 1) destination.1 in
      let below = below_size env.nb_instructions 1 destination.1 (omega arith) (omega arith) in
      let (i, found, at_n) = instruction_there drawn.0 below in
      let a : leb env.nb_registers destination.0 ≡ false = ground arith in
      let b : leb env.nb_instructions drawn.0 ≡ false = ground arith in
      let placed : Line = record line {
        instruction_index = drawn.0;
        destination_index = destination.0;
      } in
      let (operands, next, done, counted', fits) =
        init_operands-Fits rng laws d0 env is_env i (type_provided drawn.0 i at_n)
          env.max_nb_operands placed 0 drawn.1 counted (omega arith)
          (λ k operand h. absurd (omega arith)) in
      let result : Line = record placed { operands = operands } in
      (
        (result, next),
        rw (a, found, b) done,
        Correct-Fits i drawn.0 destination.0 result at_n refl below refl inside counted' fits,
      )
