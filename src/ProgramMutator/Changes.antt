-- ===== src/ProgramMutator/Changes.antt =====
-- The changes of gegelatilib/src/mutator/programMutator.cpp, one by one: they return, and keep a
-- program valid.
use gegelati.Base.{
  Each-elem, Each-erase_at, Each-insert_at, Each-set, arith, elem_at-found, erase_at, false,
  insert_at, leb, length, length-erase_at, length-insert_at, length-set, ltb, ok, out_of_range,
  refl, set, set-insert_at, ℕ, ℤ, ◌+◌, ◌<◌, ◌∙◌, ◌≡◌, ◌≤◌, Bool, Bool-cases, Result, if◌then◌else◌,
  inl, inr, sub64, sub64-le, true,
}
use gegelati.Doubles.{Doubles}
use gegelati.Environment.{Environment}
use gegelati.Environment.Laws.{IsEnvironment}
use gegelati.Program.{
  Flagged, Line, Program, add_new_line, nb_lines, new_line, remove_line, swap_lines, get_line,
  is_intron,
}
use gegelati.Rng.{Rng, RngLaws}
use gegelati.Mutator.Indexes.{Correct}
use gegelati.Mutator.Lines.{init_random_correct_line-Correct, below_size}
use gegelati.ProgramMutator.{
  ProgramParameters, insert_random_line, set_constant, alter_random_constant, alter_random_line,
  delete_random_line, swap_random_lines,
}
use gegelati.ProgramMutator.Valid.{Valid, new_line-Sound}
use gegelati.Mutator.Alter.{alter_correct_line-Correct}

module _ {D : Type 0} (env : Environment D) where
  abbrev pub LineCorrect : Flagged → Type 0
  LineCorrect entry = Correct env entry.0

  pub set_constant-Valid :
      (p : Program) (idx : ℕ) (value : ℤ)
      → Valid env p
      → idx < env.nb_constants
      → (next : Program) × (set_constant p idx value ≡ ok next)
        × Valid env next
        × (nb_lines next ≡ nb_lines p)
  unfolding set_constant
  set_constant-Valid p idx value valid inside =
      let counted = valid.constants_counted in
      (
        record p { constants = set p.constants idx value },
        ground arith,
        record {
          lines_correct = valid.lines_correct;
          constants_counted = length-set p.constants idx value ∙ counted;
        },
        refl,
      )

  pub remove_line-Valid :
      (p : Program) (idx : ℕ)
      → Valid env p
      → idx < nb_lines p
      → (next : Program) × (remove_line p idx ≡ ok next)
        × Valid env next
        × (nb_lines next + 1 ≡ nb_lines p)
  unfolding remove_line
  remove_line-Valid p idx valid inside =
      let (entry, found, _) = elem_at-found p.lines idx out_of_range inside in
      (
        record p { lines = erase_at p.lines idx },
        rw found refl,
        record {
          lines_correct = Each-erase_at LineCorrect p.lines idx valid.lines_correct;
          constants_counted = valid.constants_counted;
        },
        length-erase_at p.lines idx inside,
      )

  pub swap_lines-Valid :
      (p : Program) (idx0 idx1 : ℕ)
      → Valid env p
      → idx0 < nb_lines p
      → idx1 < nb_lines p
      → (next : Program) × (swap_lines p idx0 idx1 ≡ ok next)
        × Valid env next
        × (nb_lines next ≡ nb_lines p)
  unfolding swap_lines
  swap_lines-Valid p idx0 idx1 valid inside0 inside1 =
      let (entry0, found0, at0) = elem_at-found p.lines idx0 out_of_range inside0 in
      let (entry1, found1, at1) = elem_at-found p.lines idx1 out_of_range inside1 in
      let in0 : leb (nb_lines p) idx0 ≡ false = ground arith in
      let in1 : leb (nb_lines p) idx1 ≡ false = ground arith in
      (
        record p { lines = set (set p.lines idx0 entry1) idx1 entry0 },
        rw (in0, in1, found0, found1) refl,
        record {
          lines_correct =
              Each-set LineCorrect (set p.lines idx0 entry1) idx1 entry0
                (Each-set LineCorrect p.lines idx0 entry1 valid.lines_correct
                  (Each-elem LineCorrect p.lines idx1 entry1 valid.lines_correct at1))
                (Each-elem LineCorrect p.lines idx0 entry0 valid.lines_correct at0);
          constants_counted = valid.constants_counted;
        },
        length-set (set p.lines idx0 entry1) idx1 entry0 ∙ length-set p.lines idx0 entry1,
      )

module _ {D R : Type 0} (F : Doubles D) (rng : Rng D R) (laws : RngLaws rng) (d0 : D)
    (env : Environment D) (is_env : IsEnvironment d0 env) (params : ProgramParameters D) where
  inserted :
      (p : Program) (idx : ℕ) (line : Line)
      → Valid env p
      → idx ≤ nb_lines p
      → Correct env line
      → Valid env
          (record p { lines = set (insert_at p.lines idx (new_line env, false)) idx (line, false) })
        × (length (set (insert_at p.lines idx (new_line env, false)) idx (line, false))
            ≡ nb_lines p + 1)
  inserted p idx line valid fits correct =
      rw (set-insert_at p.lines idx (new_line env, false) (line, false) fits) (
        record {
          lines_correct =
              Each-insert_at (LineCorrect env) p.lines idx (line, false) valid.lines_correct
                correct;
          constants_counted = valid.constants_counted;
        },
        length-insert_at p.lines idx (line, false) fits,
      )

  pub insert_random_line-Valid :
      (p : Program) (r : R)
      → Valid env p
      → (res : Program × R) × (insert_random_line F rng env params p r ≡ ok res)
        × Valid env res.0
        × (nb_lines res.0 ≡ nb_lines p + 1)
  unfolding insert_random_line add_new_line
  insert_random_line-Valid p r valid =
      let index = rng.uint64 0 (nb_lines p) r in
      let (_, fits) = laws.uint64_range 0 (nb_lines p) r (omega arith) in
      let within : ltb (nb_lines p) index.0 ≡ false = ground arith in
      let (written, made, correct) =
        init_random_correct_line-Correct rng laws d0 env is_env (new_line env) index.1
          (new_line-Sound d0 env is_env).operands_counted in
      let (valid', longer) = inserted p index.0 written.0 valid fits correct in
      (
        (
          record p {
            lines =
                set (insert_at p.lines index.0 (new_line env, false)) index.0 (written.0, false);
          },
          written.1,
        ),
        rw (within, made) refl,
        valid',
        longer,
      )

  -- What a change returns, for a program with at least one line.
  abbrev pub Kept : Program → Result (Program × Bool × R) → ℕ → Type 0
  Kept p done less =
      (res : Program × Bool × R) × (done ≡ ok res)
      × Valid env res.0
      × (nb_lines res.0 ≤ nb_lines p)
      × (nb_lines p ≤ nb_lines res.0 + less)

  pub delete_random_line-Valid :
      (p : Program) (r : R) → Valid env p → Kept p (delete_random_line F rng env params p r) 1
  unfolding delete_random_line
  delete_random_line-Valid p r valid = elim (Bool-cases (leb (nb_lines p) 1)) [
    | inl short ↦ ((p, false, r), rw short refl, valid, omega arith, omega arith)
    | inr long ↦
        let index = rng.uint64 0 (sub64 (nb_lines p) 1) r in
        let inside =
          below_size rng laws d0 env is_env (nb_lines p) 1 r (omega arith) (ground arith) in
        let (next, done, valid', shorter) = remove_line-Valid env p index.0 valid inside in
        ((next, true, index.1), rw (long, done) refl, valid', omega arith, omega arith)
  ]

  pub swap_random_lines-Valid :
      (p : Program) (r : R) → Valid env p → Kept p (swap_random_lines F rng env params p r) 0
  unfolding swap_random_lines
  swap_random_lines-Valid p r valid = elim (Bool-cases (ltb (nb_lines p) 2)) [
    | inl short ↦ ((p, false, r), rw short refl, valid, omega arith, omega arith)
    | inr long ↦
        let index0 = rng.uint64 0 (sub64 (nb_lines p) 1) r in
        let drawn = rng.uint64 0 (sub64 (nb_lines p) 2) index0.1 in
        let index1 = if leb index0.0 drawn.0 then drawn.0 + 1 else drawn.0 in
        let enough : 2 ≤ nb_lines p = ground arith in
        let inside0 =
          below_size rng laws d0 env is_env (nb_lines p) 1 r (omega arith) (omega arith) in
        let (_, most) = laws.uint64_range 0 (sub64 (nb_lines p) 2) index0.1 (omega arith) in
        let least = sub64-le (nb_lines p) 2 enough in
        let inside1 : index1 < nb_lines p = ground arith in
        let (next, done, valid', same) =
          swap_lines-Valid env p index0.0 index1 valid inside0 inside1 in
        ((next, true, drawn.1), rw (long, done) refl, valid', omega arith, omega arith)
  ]

  pub alter_random_line-Valid :
      (p : Program) (r : R) → Valid env p → Kept p (alter_random_line F rng env params p r) 0
  unfolding alter_random_line get_line is_intron
  alter_random_line-Valid p r valid = elim (Bool-cases (ltb (nb_lines p) 1)) [
    | inl short ↦ ((p, false, r), rw short refl, valid, omega arith, omega arith)
    | inr long ↦
        let index = rng.uint64 0 (sub64 (nb_lines p) 1) r in
        let inside =
          below_size rng laws d0 env is_env (nb_lines p) 1 r (omega arith) (ground arith) in
        let (entry, found, at_index) = elem_at-found p.lines index.0 out_of_range inside in
        let correct =
          Each-elem (LineCorrect env) p.lines index.0 entry valid.lines_correct at_index in
        let (altered, done, correct') =
          alter_correct_line-Correct rng laws d0 env is_env entry.0 correct index.1 in
        let same = length-set p.lines index.0 (altered.0, entry.1) in
        (
          (record p { lines = set p.lines index.0 (altered.0, entry.1) }, true, altered.1),
          rw (long, found, done) refl,
          record {
            lines_correct =
                Each-set (LineCorrect env) p.lines index.0 (altered.0, entry.1) valid.lines_correct
                  correct';
            constants_counted = valid.constants_counted;
          },
          omega arith,
          omega arith,
        )
  ]

  pub alter_random_constant-Valid :
      (p : Program) (r : R)
      → Valid env p
      → 0 < env.nb_constants
      → Kept p (alter_random_constant F rng env params p r) 0
  unfolding alter_random_constant
  alter_random_constant-Valid p r valid some_constant =
      let index = rng.uint64 0 (sub64 env.nb_constants 1) r in
      let drawn = rng.int32 params.min_const_value params.max_const_value index.1 in
      let inside =
        below_size rng laws d0 env is_env env.nb_constants 1 r (omega arith) some_constant in
      let (next, done, valid', same) = set_constant-Valid env p index.0 drawn.0 valid inside in
      ((next, true, drawn.1), rw done refl, valid', omega arith, omega arith)
