-- ===== src/Mutator/Alter.antt =====
-- alterCorrectLine of gegelatilib/src/mutator/lineMutator.cpp, in its three parts.
use gegelati.Base.{
  arith, ok, sub64, sub64-le, suc, true, zero, ℕ, ◌*◌, ◌/◌, ◌<◌, ◌∙◌, ◌≡◌, ==_iff, Bool, Bool-cases,
  elem_at, false, get_elem?, inl, inr, ltb, not, out_of_range, refl, some, subst, sym, ◌%◌, ◌+◌,
  ◌-◌, ◌==◌, ap, ok-injective,
}
use gegelati.Environment.{Environment, nb_operands, Instruction}
use gegelati.Environment.Laws.{IsEnvironment}
use gegelati.Program.{Line, set_instruction_index, get_operand}
use gegelati.Rng.{Rng, RngLaws}
use gegelati.Mutator.{
  alter_destination, alter_instruction, alter_operand, skip, alter_correct_line, init_operand,
}
use gegelati.Mutator.Operands.{skip_bounds, Handled}
use gegelati.Mutator.Indexes.{
  Bounded-elem, Correct, set_destination_index-Sound, set_instruction_index-Sound, operand_found,
}
use gegelati.Mutator.Lines.{
  correct_instruction, instruction_there, repair_operands-Below, untyped-all,
}
use gegelati.Mutator.Renewal.{Renewed, init_operand-Renewed}

quotient_below : (bit count width : ℕ) → bit < count * width → (0 < width) × (bit / width < count)
quotient_below bit count zero h = absurd (omega arith)
quotient_below bit count (suc w) h = (omega arith, grind arith)

module _ {D R : Type 0} (rng : Rng D R) (laws : RngLaws rng) (d0 : D) (env : Environment D)
    (is_env : IsEnvironment d0 env) (line : Line) (correct : Correct env line) where
  alter_instruction-Correct :
      (r : R) → (res : Line × R) × (alter_instruction rng env line r ≡ ok res) × Correct env res.0
  unfolding alter_instruction
  alter_instruction-Correct r =
      let drawn = rng.uint64 0 (sub64 env.nb_instructions 2) r in
      let index = skip line.instruction_index drawn.0 in
      let several = is_env.several_instructions in
      let (_, most) = laws.uint64_range 0 (sub64 env.nb_instructions 2) r (omega arith) in
      let least = sub64-le env.nb_instructions 2 several in
      let moved = skip_bounds line.instruction_index drawn.0 in
      let below : index < env.nb_instructions = omega arith in
      let (i, found, at_n) = instruction_there rng laws d0 env is_env index below in
      let (set_sound, now, _) = set_instruction_index-Sound env line index below correct.sound in
      let bounded =
        Bounded-elem env.max_nb_operands env.instruction_set index i is_env.operands_bounded at_n in
      let (res, done, sound', same, all) =
        repair_operands-Below rng laws d0 env is_env i index at_n bounded (nb_operands i)
          (set_instruction_index env line index true).0 0 drawn.1 set_sound (omega arith)
          (λ k h. absurd (omega arith)) in
      (
        res,
        rw found done,
        record {
          sound = sound';
          handled = λ i' at_i k.
              correct_instruction rng laws d0 env is_env i i' index at_n res.0 (same ∙ now) at_i k
                (untyped-all rng laws d0 env is_env i index at_n bounded res.0 all k);
        },
      )

  alter_destination-Correct : (r : R) → Correct env (alter_destination rng env line r).0
  unfolding alter_destination
  alter_destination-Correct r =
      let drawn = rng.uint64 0 (sub64 env.nb_registers 2) r in
      let index = skip line.destination_index drawn.0 in
      let (set_sound, same, kept) = set_destination_index-Sound env line index correct.sound in
      record {
        sound = set_sound;
        handled = λ i at_i k. rw kept (correct.handled i (rw same at at_i) k);
      }

  abbrev width : ℕ
  width = env.line_size.nb_operand_data_source_index_bits + env.line_size.nb_operand_location_bits

  abbrev in_source : ℕ → Bool
  in_source bit = ltb (bit % width) env.line_size.nb_operand_data_source_index_bits

  operand_step :
      (bit : ℕ) (r : R) (operand : ℕ × ℕ) (i : Instruction D) (next : Line × Bool × R)
      → (width == 0) ≡ false
      → get_operand env line (bit / width) ≡ ok operand
      → elem_at env.instruction_set line.instruction_index out_of_range ≡ ok i
      → init_operand rng env i line (bit / width) (in_source bit) (not (in_source bit)) true r
        ≡ ok next
      → alter_operand rng env line bit r ≡ ok (next.0, next.2)
  unfolding alter_operand
  operand_step bit r operand i next wide there found done = rw (wide, found, done, there) refl

  alter_operand-Correct :
      (bit : ℕ) (r : R)
      → bit < env.line_size.nb_operands_bits
      → (res : Line × R) × (alter_operand rng env line bit r ≡ ok res)
        × Correct env res.0
        × (res.0.instruction_index ≡ line.instruction_index)
  alter_operand-Correct bit r below =
      let bits = is_env.operand_bits in
      let (wide, inside) = quotient_below bit env.max_nb_operands width (rw bits at below) in
      let (operand, there, _) = operand_found env line (bit / width) correct.sound inside in
      let (i, found, at_n) =
        instruction_there rng laws d0 env is_env line.instruction_index
          correct.sound.instruction_valid in
      let (next, done, renewed, _) =
        init_operand-Renewed rng laws d0 env is_env i line (bit / width) (in_source bit)
          (not (in_source bit)) true r correct.sound inside in
      (
        (next.0, next.2),
        operand_step bit r operand i next (ground arith) there found done,
        record {
          sound = renewed.sound;
          handled = λ i' at_i k.
              correct_instruction rng laws d0 env is_env i i' line.instruction_index at_n next.0
                renewed.same_instruction at_i k (still_handled i next.0 at_n renewed k);
        },
        renewed.same_instruction,
      )
    where
      still_handled :
          (i : Instruction D) (line' : Line)
          → get_elem? env.instruction_set line.instruction_index ≡ some i
          → Renewed env i.operand_types line line' (bit / width)
          → (k : ℕ) → Handled env i.operand_types line'.operands k
      still_handled i line' at_n renewed k = elim (Bool-cases (bit / width == k)) [
        | inl here ↦
            subst (λ j. Handled env i.operand_types line'.operands j)
              ((==_iff (bit / width) k).0 here)
              (renewed.kept (correct.handled i at_n (bit / width)))
        | inr other ↦ λ operand t at_k typed.
            correct.handled i at_n k operand t (sym (renewed.others k other) ∙ at_k) typed
      ]

  -- alterCorrectLine keeps a line correct, whatever the random numbers and the part of the line
  -- that they select: it returns, the indexes and operands are within the bounds of the
  -- environment, and each operand of the instruction, which may be a new one, has a source that
  -- provides the wanted type.
  pub alter_correct_line-Correct :
      (r : R) → (res : Line × R) × (alter_correct_line rng env line r ≡ ok res) × Correct env res.0
  unfolding alter_correct_line
  alter_correct_line-Correct r =
      let size = env.line_size in
      let selected = rng.uint64 0 (sub64 size.total_nb_bits 1) r in
      let head = size.nb_instruction_bits + size.nb_destination_bits in
      elim (Bool-cases (ltb selected.0 size.nb_instruction_bits)) [
        | inl first ↦ rw first (alter_instruction-Correct selected.1)
        | inr past ↦ elim (Bool-cases (ltb selected.0 head)) [
          | inl second ↦
              rw (past, second)
                (
                  alter_destination rng env line selected.1,
                  refl,
                  alter_destination-Correct selected.1,
                )
          | inr beyond ↦ elim (Bool-cases (ltb selected.0 (head + size.nb_operands_bits))) [
            | inl third ↦
                let (res, done, correct', _) =
                  alter_operand-Correct (selected.0 - head) selected.1 (ground arith) in
                (res, rw (past, beyond, third) done, correct')
            | inr last ↦ rw (past, beyond, last) ((line, selected.1), refl, correct)
          ]
        ]
      ]

  -- Without bits for the instruction, alterCorrectLine never changes it.
  pub alter_correct_line-same_instruction :
      (r : R) (res : Line × R)
      → env.line_size.nb_instruction_bits ≡ 0
      → alter_correct_line rng env line r ≡ ok res
      → res.0.instruction_index ≡ line.instruction_index
  unfolding alter_correct_line
  alter_correct_line-same_instruction r res no_bits done =
      let size = env.line_size in
      let selected = rng.uint64 0 (sub64 size.total_nb_bits 1) r in
      let head = size.nb_instruction_bits + size.nb_destination_bits in
      let past : ltb selected.0 size.nb_instruction_bits ≡ false = ground arith in
      let go = rw past at done in
      elim (Bool-cases (ltb selected.0 head)) [
        | inl second ↦
            let there = rw second at go in
            let (_, same, _) =
              set_destination_index-Sound env line
                (skip line.destination_index (rng.uint64 0 (sub64 env.nb_registers 2) selected.1).0)
                correct.sound in
            ap (λ (x : Line × R). x.0.instruction_index) (sym (ok-injective there)) ∙ same
        | inr beyond ↦ elim (Bool-cases (ltb selected.0 (head + size.nb_operands_bits))) [
          | inl third ↦
              let there = rw (beyond, third) at go in
              let (res', done', _, same) =
                alter_operand-Correct (selected.0 - head) selected.1 (ground arith) in
              ap (λ (x : Line × R). x.0.instruction_index) (ok-injective (sym there ∙ done')) ∙ same
          | inr last ↦
              let there = rw (beyond, last) at go in
              ap (λ (x : Line × R). x.0.instruction_index) (sym (ok-injective there))
        ]
      ]
