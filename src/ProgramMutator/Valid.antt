-- ===== src/ProgramMutator/Valid.antt =====
-- Programs of correct lines, and what each change of
-- gegelatilib/src/mutator/programMutator.cpp does to them.
use gegelati.Base.{
  Each, ap, arith, get_elem?, length, length-replicate, replicate, some, suc, true, zero, ℕ, ◌<◌,
  ◌≡◌, ==_iff, Bool, Bool-cases, List, [], false, inl, inr, ok, refl, subst, ◌+◌, ◌==◌, ◌∷◌, ◌≤◌,
  elem_at, elem_at-eq-or_fail, elem_at-found, member, or_fail, out_of_range, remove, ◌∙◌, ◌%◌,
}
use gegelati.Data.{TypeInfo, array, scalar, DataHandler, scale}
use gegelati.Data.Arrays.{can_handle, get_address_space, handler}
use gegelati.Environment.{Environment, registers_of, Instruction}
use gegelati.Environment.Laws.{IsEnvironment}
use gegelati.Program.{Flagged, Program, new_line, Line, nb_lines}
use gegelati.Mutator.Sources.{handles}
use gegelati.Mutator.Operands.{Sound}
use gegelati.Mutator.Indexes.{Correct, operand_found, Bounded-elem}
use gegelati.Program.Introns.{
  Scan, scan_line, use_operand, use_operands, identify_introns, scan, insert_all,
}

-- Every line is correct, and there are as many constants as the environment says.
pub record Valid {D : Type 0} (env : Environment D) (p : Program) : Type 0 where
  pub lines_correct : Each (λ (entry : Flagged). Correct env entry.0) p.lines
  pub constants_counted : length p.constants ≡ env.nb_constants

module _ {D : Type 0} (d0 : D) (env : Environment D) (is_env : IsEnvironment d0 env) where
  get_elem?-replicate :
      (n k : ℕ) (operand : ℕ × ℕ)
      → get_elem? (replicate n (0, 0)) k ≡ some operand
      → operand ≡ (0, 0)
  get_elem?-replicate zero k operand h = absurd (ground arith)
  get_elem?-replicate (suc n) zero operand h = cc
  get_elem?-replicate (suc n) (suc k) operand h = get_elem?-replicate n k operand h

  pub new_line-Sound : Sound env (new_line env)
  unfolding new_line
  new_line-Sound =
      let several = is_env.several_instructions in
      let sources = is_env.several_sources in
      let registers = is_env.some_register in
      let addresses = is_env.some_address in
      record {
        instruction_valid = omega arith;
        destination_valid = omega arith;
        operands_counted = length-replicate env.max_nb_operands (0, 0);
        operands_valid = λ k operand at_k.
            let same = get_elem?-replicate env.max_nb_operands k operand at_k in
            let first = ap (λ (o : ℕ × ℕ). o.0) same in
            let second = ap (λ (o : ℕ × ℕ). o.1) same in omega arith;
      }

  -- The registers of the environment have an address for every type that they provide.
  registers_space :
      (t : TypeInfo)
      → can_handle (registers_of d0 env.nb_registers) t ≡ true
      → 0 < get_address_space (registers_of d0 env.nb_registers) t
  unfolding can_handle get_address_space
  registers_space (scalar s) h = let some = is_env.some_register in ground arith
  registers_space (array s n) h = ground arith

  abbrev registers : DataHandler D
  registers = handler (registers_of d0 env.nb_registers)

  use_operand-ok :
      (line : Line) (idx : ℕ) (t : TypeInfo) (useful : List ℕ)
      → Sound env line
      → idx < env.max_nb_operands
      → ((operand : ℕ × ℕ)
          → get_elem? line.operands idx ≡ some operand
          → handles env operand.0 t ≡ true)
      → (more : List ℕ) × (use_operand env registers line idx t useful ≡ ok more)
  unfolding use_operand scale handler
  use_operand-ok line idx t useful sound inside handled =
      let (operand, there, at_idx) = operand_found env line idx sound inside in
      elim (Bool-cases (operand.0 == 0)) [
        | inr other ↦ (useful, rw (there, other) refl)
        | inl first ↦
            let zero_first = (==_iff operand.0 0).0 first in
            let can : can_handle (registers_of d0 env.nb_registers) t ≡ true =
              reads_registers operand t zero_first (handled operand at_idx) in
            let space = registers_space t can in
            let nonzero : (get_address_space (registers_of d0 env.nb_registers) t == 0) ≡ false =
              ground arith in
            (
              insert_all
                  (registers.addresses_accessed t
                    (operand.1 % get_address_space (registers_of d0 env.nb_registers) t))
                  useful,
              rw (there, first, nonzero) refl,
            )
      ]
    where
      reads_registers :
          (operand : ℕ × ℕ) (t : TypeInfo)
          → operand.0 ≡ 0
          → handles env operand.0 t ≡ true
          → can_handle (registers_of d0 env.nb_registers) t ≡ true
      reads_registers operand t e h =
          let at_zero = subst (λ n. handles env n t ≡ true) e h in
          rw is_env.fake_registers at at_zero

  use_operands-ok :
      (types : List TypeInfo) (line : Line) (idx : ℕ) (useful : List ℕ)
      → Sound env line
      → idx + length types ≤ env.max_nb_operands
      → ((k : ℕ) (t : TypeInfo) (operand : ℕ × ℕ)
          → get_elem? types k ≡ some t
          → get_elem? line.operands (idx + k) ≡ some operand
          → handles env operand.0 t ≡ true)
      → (more : List ℕ) × (use_operands env registers line idx types useful ≡ ok more)
  unfolding use_operands
  use_operands-ok [] line idx useful sound fits handled = (useful, refl)
  use_operands-ok (t ∷ types) line idx useful sound fits handled =
      let here : idx + 0 ≡ idx = omega arith in
      let (more, done) =
        use_operand-ok line idx t useful sound (omega arith)
          (λ operand at_idx. handled 0 t operand refl (rw here at_idx)) in
      let (last, rest) =
        use_operands-ok types line (idx + 1) more sound (omega arith) (λ k u operand at_k at_idx.
          let moved : idx + suc k ≡ idx + 1 + k = omega arith in
          handled (suc k) u operand at_k (rw moved at_idx)) in
      (last, rw done rest)

  module _ (line : Line) (s : Scan) where
    intron_line :
        member line.destination_index s.useful ≡ false
        → scan_line env registers line s
          ≡ ok (record s { flagged = (line, true) ∷ s.flagged; nb_introns = s.nb_introns + 1 })
    unfolding scan_line
    intron_line useless = rw useless refl

    useful_line :
        (i : Instruction D) (more : List ℕ)
        → member line.destination_index s.useful ≡ true
        → elem_at env.instruction_set line.instruction_index out_of_range ≡ ok i
        → use_operands env registers line 0 i.operand_types (remove line.destination_index s.useful)
          ≡ ok more
        → scan_line env registers line s
          ≡ ok (record s { flagged = (line, false) ∷ s.flagged; useful = more })
    unfolding scan_line
    useful_line i more useful found done = rw (useful, found, done) refl

  scan_line-ok :
      (line : Line) (s : Scan)
      → Correct env line
      → (after : Scan) × (flag : Bool) × (scan_line env registers line s ≡ ok after)
        × (after.flagged ≡ (line, flag) ∷ s.flagged)
  scan_line-ok line s correct = elim (Bool-cases (member line.destination_index s.useful)) [
    | inr useless ↦ (_, true, intron_line line s useless, refl)
    | inl useful ↦
        let sound = correct.sound in
        let (i, found, at_n) =
          elem_at-found env.instruction_set line.instruction_index out_of_range
            (rw (← is_env.instructions_counted) sound.instruction_valid) in
        let fits =
          Bounded-elem env.max_nb_operands env.instruction_set line.instruction_index i
            is_env.operands_bounded at_n in
        let (more, done) =
          use_operands-ok i.operand_types line 0 (remove line.destination_index s.useful) sound
            (omega arith)
            (λ k t operand at_k at_idx.
              let same : 0 + k ≡ k = omega arith in
              correct.handled i at_n k operand t (rw same at at_idx) at_k) in
        (_, false, useful_line line s i more useful found done, refl)
  ]

  scan-ok :
      (lines : List Flagged)
      → Each (λ (entry : Flagged). Correct env entry.0) lines
      → (s : Scan) × (scan env registers lines ≡ ok s)
        × Each (λ (entry : Flagged). Correct env entry.0) s.flagged
        × (length s.flagged ≡ length lines)
  unfolding scan
  scan-ok [] all = (_, refl, tt, refl)
  scan-ok (entry ∷ lines) all =
      let (behind, scanned, correct, same) = scan-ok lines all.1 in
      let (after, flag, done, front) = scan_line-ok entry.0 behind all.0 in
      (after, rw (scanned, done) refl, rw front (all.0, correct), rw front (ap suc same))

  -- identifyIntrons returns for a program of correct lines, and keeps its lines and constants.
  pub identify_introns-Valid :
      (p : Program)
      → Valid env p
      → (res : Program × ℕ) × (identify_introns env p ≡ ok res)
        × Valid env res.0
        × (nb_lines res.0 ≡ nb_lines p)
  unfolding identify_introns
  identify_introns-Valid p valid =
      let (s, scanned, correct, same) = scan-ok p.lines valid.lines_correct in
      let first =
        elem_at-eq-or_fail env.fake_data_sources 0 out_of_range
        ∙ ap (λ o. or_fail o out_of_range) is_env.fake_registers in
      (
        (record p { lines = s.flagged }, s.nb_introns),
        rw (first, scanned) refl,
        record { lines_correct = correct; constants_counted = valid.constants_counted },
        same,
      )
