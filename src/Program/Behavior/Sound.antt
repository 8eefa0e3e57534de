-- ===== src/Program/Behavior/Sound.antt =====
-- Programs that hasIdenticalBehavior judges identical compute the same.
use mathlib.Core.Path.{fun_ext}
use gegelati.Base.{
  Bool, List, [], arith, false, length, ok, refl, true, ◌∷◌, ◌≡◌, bind_ok, Bool-cases, ap, inl, inr,
  sym, ℤ, ◌∙◌, ltb, replicate,
}
use gegelati.Data.{Cell, DataHandler, real}
use gegelati.Environment.{Environment}
use gegelati.Program.{Flagged, Line, line_eq, Program}
use gegelati.Program.Introns.Clear.{useful_lines}
use gegelati.Program.Behavior.{same_lines, has_identical_behavior}
use gegelati.Program.Engine.{
  next, execute_line, execute_program, process_line, with_constants, caught,
}
use gegelati.Program.Behavior.Compare.{compare_lines, has_identical_behavior-eq-compare}
use gegelati.Program.Engine.Loop.{iterate-eq-run, run_lines}
use gegelati.Program.Behavior.Constants.{
  IsSized, IsSized-useful, NoConstantArrays, both_true, line_eq_sound,
}
use gegelati.Program.Behavior.Operands.{execute_line-same}

module _ {D : Type 0} (env : Environment D) (here there : List ℤ)
    (sources : List (DataHandler D)) where
  same_lines-line_eq :
      (l m : Line)
      → same_lines env here there l m ≡ ok true
      → line_eq env.max_nb_operands l m ≡ true
  unfolding same_lines
  same_lines-line_eq l m h = elim (Bool-cases (line_eq env.max_nb_operands l m)) [
    | inl e ↦ e
    | inr e ↦ let refused : ok false ≡ ok true = rw e at h in absurd (ground arith)
  ]

  execute_same :
      (r : List (Cell D)) (l m : Line)
      → length here ≡ length there
      → NoConstantArrays env.instruction_set
      → length l.operands ≡ env.max_nb_operands
      → length m.operands ≡ env.max_nb_operands
      → same_lines env here there l m ≡ ok true
      → execute_line env (with_constants env here sources) r l
        ≡ execute_line env (with_constants env there sources) r m
  unfolding with_constants
  execute_same r l m size plain fits_l fits_m h = elim (Bool-cases (ltb 0 env.nb_constants)) [
    | inl some_constant ↦
        rw some_constant
          (execute_line-same env here there sources r l m size plain fits_l fits_m some_constant h)
    | inr none_at_all ↦
        let one : l ≡ m =
          line_eq_sound env.max_nb_operands l m fits_l fits_m (same_lines-line_eq l m h) in
        rw none_at_all (ap (execute_line env sources r) one)
  ]

  run_lines-same :
      (ignore : Bool) (xs ys : List Flagged) (r : List (Cell D))
      → length here ≡ length there
      → NoConstantArrays env.instruction_set
      → IsSized env.max_nb_operands xs
      → IsSized env.max_nb_operands ys
      → compare_lines env here there xs ys ≡ ok true
      → run_lines env (with_constants env here sources) ignore xs r
        ≡ run_lines env (with_constants env there sources) ignore ys r
  unfolding run_lines compare_lines process_line
  run_lines-same ignore [] [] r size plain fits_x fits_y h = refl
  run_lines-same ignore [] (y ∷ ys) r size plain fits_x fits_y h = absurd (ground arith)
  run_lines-same ignore (x ∷ xs) [] r size plain fits_x fits_y h = absurd (ground arith)
  run_lines-same ignore (x ∷ xs) (y ∷ ys) r size plain fits_x fits_y h =
      let (same, first, next) = bind_ok (same_lines env here there x.0 y.0) _ h in
      let (passes, rest) = both_true same _ next in
      let one =
        ap (caught ignore r)
          (execute_same r x.0 y.0 size plain fits_x.0 fits_y.0 (rw passes at first)) in
      let more = fun_ext λ w. run_lines-same ignore xs ys w size plain fits_x.1 fits_y.1 rest in
      rw (one, more)

-- Two programs that hasIdenticalBehavior judges identical return the same value or fail alike, on
-- the same data sources, with or without the exceptions ignored: for programs with equally many
-- constants and with lines of the environment's size, when no instruction takes an array of
-- constants as an operand.
pub has_identical_behavior-same_result :
    {D : Type 0} (d0 : D) (env : Environment D) (sources : List (DataHandler D)) (ignore : Bool)
    (p q : Program)
    → length p.constants ≡ length q.constants
    → NoConstantArrays env.instruction_set
    → IsSized env.max_nb_operands p.lines
    → IsSized env.max_nb_operands q.lines
    → has_identical_behavior env p q ≡ ok true
    → execute_program d0 env (with_constants env p.constants sources) ignore p.lines
      ≡ execute_program d0 env (with_constants env q.constants sources) ignore q.lines
unfolding execute_program
has_identical_behavior-same_result d0 env sources ignore p q size plain fits_p fits_q h =
    let same =
      run_lines-same env p.constants q.constants sources ignore (useful_lines p.lines)
        (useful_lines q.lines) (replicate env.nb_registers (real d0)) size plain
        (IsSized-useful _ p.lines fits_p) (IsSized-useful _ q.lines fits_q)
        (sym (has_identical_behavior-eq-compare env p q) ∙ h) in
    rw (
      iterate-eq-run env (with_constants env p.constants sources) ignore p.lines,
      iterate-eq-run env (with_constants env q.constants sources) ignore q.lines,
      same,
    )
