-- ===== src/Mutator/Indexes.antt =====
-- Correct lines, and what setDestinationIndex and setInstructionIndex make of them
-- (gegelatilib/src/program/line.cpp).
use gegelati.Base.{
  Bool-cases, List, [], arith, elem_at-found, false, get_elem?, inl, inr, leb, length, ok, refl,
  some, subst, suc, true, undefined, zero, ℕ, ◌<◌, ◌∷◌, ◌≡◌, ◌≤◌,
}
use gegelati.Data.{DataHandler, TypeInfo}
use gegelati.Environment.{Environment, Instruction, any_handles}
use gegelati.Environment.Laws.{AllHandled, Bounded, Vetted}
use gegelati.Program.{Line, get_operand, set_destination_index, set_instruction_index}
use gegelati.Mutator.Sources.{handled_by, handles}
use gegelati.Mutator.Operands.{Handled, Sound}

-- A line within the bounds of the environment, each of whose operands has a source that provides
-- the type which the instruction wants there.
pub record Correct {D : Type 0} (env : Environment D) (line : Line) : Type 0 where
  pub sound : Sound env line
  pub handled :
      (i : Instruction D)
      → get_elem? env.instruction_set line.instruction_index ≡ some i
      → (k : ℕ) → Handled env i.operand_types line.operands k

module _ {D : Type 0} where
  pub any_handles-index :
      (sources : List (DataHandler D)) (t : TypeInfo)
      → any_handles sources t ≡ true
      → (j : ℕ) × (j < length sources) × (handled_by (get_elem? sources j) t ≡ true)
  unfolding any_handles
  any_handles-index [] t h = absurd (ground arith)
  any_handles-index (s ∷ sources) t h = elim (Bool-cases (s.can_handle t)) [
    | inl here ↦ (0, omega arith, here)
    | inr there ↦
        let (j, inside, handled) = any_handles-index sources t (ground arith) in
        (suc j, omega arith, handled)
  ]

  pub AllHandled-elem :
      (sources : List (DataHandler D)) (types : List TypeInfo) (k : ℕ) (t : TypeInfo)
      → AllHandled sources types
      → get_elem? types k ≡ some t
      → any_handles sources t ≡ true
  AllHandled-elem sources [] k t all h = absurd (ground arith)
  AllHandled-elem sources (u ∷ types) zero t all h =
      let same : u ≡ t = cc in subst (λ v. any_handles sources v ≡ true) same all.0
  AllHandled-elem sources (u ∷ types) (suc k) t all h = AllHandled-elem sources types k t all.1 h

  pub Vetted-elem :
      (sources : List (DataHandler D)) (is : List (Instruction D)) (n : ℕ) (i : Instruction D)
      → Vetted sources is
      → get_elem? is n ≡ some i
      → AllHandled sources i.operand_types
  Vetted-elem sources [] n i all h = absurd (ground arith)
  Vetted-elem sources (x ∷ is) zero i all h =
      let same : x ≡ i = cc in subst (λ y. AllHandled sources y.operand_types) same all.0
  Vetted-elem sources (x ∷ is) (suc n) i all h = Vetted-elem sources is n i all.1 h

  pub Bounded-elem :
      (bound : ℕ) (is : List (Instruction D)) (n : ℕ) (i : Instruction D)
      → Bounded bound is
      → get_elem? is n ≡ some i
      → length i.operand_types ≤ bound
  Bounded-elem bound [] n i all h = absurd (ground arith)
  Bounded-elem bound (x ∷ is) zero i all h =
      let same : x ≡ i = cc in subst (λ y. length y.operand_types ≤ bound) same all.0
  Bounded-elem bound (x ∷ is) (suc n) i all h = Bounded-elem bound is n i all.1 h

module _ {D : Type 0} (env : Environment D) where
  pub operand_found :
      (line : Line) (idx : ℕ)
      → Sound env line
      → idx < env.max_nb_operands
      → (operand : ℕ × ℕ) × (get_operand env line idx ≡ ok operand)
        × (get_elem? line.operands idx ≡ some operand)
  unfolding get_operand
  operand_found line idx sound inside =
      let (operand, found, at_idx) =
        elem_at-found line.operands idx undefined (rw sound.operands_counted inside) in
      (operand, ground (arith, found), at_idx)

  pub handles_same :
      (operand operand' : ℕ × ℕ) (t t' : TypeInfo)
      → operand ≡ operand'
      → t ≡ t'
      → handles env operand.0 t ≡ false
      → handles env operand'.0 t' ≡ false
  handles_same operand operand' t t' e f h =
      subst (λ (o : ℕ × ℕ). handles env o.0 t' ≡ false) e
        (subst (λ u. handles env operand.0 u ≡ false) f h)

  pub set_destination_index-Sound :
      (line : Line) (d : ℕ)
      → Sound env line
      → Sound env (set_destination_index env line d true).0
        × ((set_destination_index env line d true).0.instruction_index ≡ line.instruction_index)
        × ((set_destination_index env line d true).0.operands ≡ line.operands)
  unfolding set_destination_index
  set_destination_index-Sound line d sound = elim (Bool-cases (leb env.nb_registers d)) [
    | inl beyond ↦ rw beyond (sound, refl, refl)
    | inr inside ↦ rw inside (
      record {
        instruction_valid = sound.instruction_valid;
        destination_valid = ground arith;
        operands_counted = sound.operands_counted;
        operands_valid = sound.operands_valid;
      },
      refl,
      refl,
    )
  ]

  pub set_instruction_index-Sound :
      (line : Line) (n : ℕ)
      → n < env.nb_instructions
      → Sound env line
      → Sound env (set_instruction_index env line n true).0
        × ((set_instruction_index env line n true).0.instruction_index ≡ n)
        × ((set_instruction_index env line n true).0.operands ≡ line.operands)
  unfolding set_instruction_index
  set_instruction_index-Sound line n below sound =
      let inside : leb env.nb_instructions n ≡ false = ground arith in
      rw inside (
        record {
          instruction_valid = below;
          destination_valid = sound.destination_valid;
          operands_counted = sound.operands_counted;
          operands_valid = sound.operands_valid;
        },
        refl,
        refl,
      )
