-- ===== src/Program/Engine/Loop.antt =====
-- The loop over the program counter (ProgramEngine::next and iterateThroughtProgram) against a
-- plain recursion over the lines.
use gegelati.Base.{
  Bool, List, Result, [], ap, arith, elem_at, drop, false, length, lt→ltb, ok, out_of_range, refl,
  suc, true, zero, ℕ, ◌+◌, ◌<◌, ◌>>=◌, ◌∙◌, ◌∷◌, ◌≡◌, ◌≤◌,
}
use mathlib.Core.Path.{fun_ext}
use native.Mathlib.Numerals.{add-one}
use gegelati.Data.{Cell, DataHandler}
use gegelati.Environment.{Environment}
use gegelati.Program.{Flagged, intron_at}
use gegelati.Program.Introns.Clear.{useful_lines}
use gegelati.Program.Engine.{iterate, iterate_from, next, process_line, skip_introns}

-- What the code finds at an index whose suffix is `e ∷ rest`.
pub record Here (lines : List Flagged) (pc : ℕ) (e : Flagged) (rest : List Flagged) : Type 0 where
  pub found : elem_at lines pc out_of_range ≡ ok e
  pub flag : intron_at lines pc ≡ e.1
  pub inside : pc < length lines
  pub behind : drop (pc + 1) lines ≡ rest

pub Here-drop :
    (lines : List Flagged) (pc : ℕ) (e : Flagged) (rest : List Flagged)
    → drop pc lines ≡ e ∷ rest
    → Here lines pc e rest
unfolding intron_at
Here-drop [] zero e rest h = cc
Here-drop [] (suc pc) e rest h = cc
Here-drop (x ∷ lines) zero e rest h = record {
  found = ground arith;
  flag = ground arith;
  inside = omega arith;
  behind = ground arith;
}
Here-drop (x ∷ lines) (suc pc) e rest h =
    let here = Here-drop lines pc e rest h in
    record {
      found = here.found;
      flag = here.flag;
      inside = omega (arith, here.inside);
      behind = rw add-one (rw add-one at here.behind);
    }

pub End-drop :
    (lines : List Flagged) (pc : ℕ)
    → drop pc lines ≡ []
    → (intron_at lines pc ≡ false) × (length lines ≤ pc)
unfolding intron_at
End-drop [] zero h = (refl, omega arith)
End-drop [] (suc pc) h = (refl, omega arith)
End-drop (x ∷ lines) zero h = cc
End-drop (x ∷ lines) (suc pc) h = ground (arith, End-drop lines pc h)

-- The suffix at a program counter that next() can return.
abbrev pub StartsUseful : List Flagged → Type 0
StartsUseful [] = Unit {0}
StartsUseful (e ∷ rest) = e.1 ≡ false

-- The suffix at the program counter `pc` is where the loop stands once the introns of `rest` are
-- skipped.
pub record Skipped (lines rest : List Flagged) (pc : ℕ) : Type 0 where
  pub suffix : List Flagged
  pub there : drop pc lines ≡ suffix
  pub starts : StartsUseful suffix
  pub same : useful_lines suffix ≡ useful_lines rest
  pub shorter : length suffix ≤ length rest

pub skip_introns-Skipped :
    (fuel : ℕ) (lines : List Flagged) (pc : ℕ) (rest : List Flagged)
    → drop pc lines ≡ rest
    → length rest ≤ fuel
    → Skipped lines rest (skip_introns fuel lines pc)
unfolding skip_introns
skip_introns-Skipped zero lines pc [] h b = record {
  suffix = [];
  there = h;
  starts = tt;
  same = refl;
  shorter = omega arith;
}
skip_introns-Skipped zero lines pc (e ∷ rest) h b = absurd (omega arith)
skip_introns-Skipped (suc fuel) lines pc [] h b =
    rw ((End-drop lines pc h).0)
      (record { suffix = []; there = h; starts = tt; same = refl; shorter = omega arith })
skip_introns-Skipped (suc fuel) lines pc ((line, true) ∷ rest) h b =
    let here = Here-drop lines pc (line, true) rest h in
    let more = skip_introns-Skipped fuel lines (pc + 1) rest here.behind (omega arith) in
    rw here.flag (record {
      suffix = more.suffix;
      there = more.there;
      starts = more.starts;
      same = more.same;
      shorter = omega (arith, more.shorter);
    })
skip_introns-Skipped (suc fuel) lines pc ((line, false) ∷ rest) h b =
    rw ((Here-drop lines pc (line, false) rest h).flag) (record {
      suffix = (line, false) ∷ rest;
      there = h;
      starts = refl;
      same = refl;
      shorter = omega arith;
    })

pub length-drop-le : (pc : ℕ) (lines : List Flagged) → length (drop pc lines) ≤ length lines
length-drop-le zero lines = omega arith
length-drop-le (suc pc) [] = omega arith
length-drop-le (suc pc) (x ∷ lines) = omega (arith, length-drop-le pc lines)

next-Skipped :
    (lines : List Flagged) (pc : ℕ) (rest : List Flagged)
    → drop (pc + 1) lines ≡ rest
    → Skipped lines rest (next lines pc)
unfolding next
next-Skipped lines pc rest h =
    skip_introns-Skipped (length lines) lines (pc + 1) rest h
      (rw (← h) (length-drop-le (pc + 1) lines))

module _ {D : Type 0} (env : Environment D) (sources : List (DataHandler D)) where
  -- The lines in order, one after the other.
  unfoldable pub run_lines : Bool → List Flagged → List (Cell D) → Result (List (Cell D))
  run_lines ignore [] registers = ok registers
  run_lines ignore (entry ∷ lines) registers = do
    written ← process_line env sources ignore registers entry.0
    run_lines ignore lines written

  iterate_from-eq-run :
      (fuel : ℕ) (ignore : Bool) (lines : List Flagged) (pc : ℕ) (rest : List Flagged)
      (registers : List (Cell D))
      → drop pc lines ≡ rest
      → StartsUseful rest
      → length rest ≤ fuel
      → iterate_from env sources fuel ignore lines pc registers
        ≡ run_lines ignore (useful_lines rest) registers
  unfolding iterate_from run_lines
  iterate_from-eq-run zero ignore lines pc [] registers h s b = refl
  iterate_from-eq-run zero ignore lines pc (e ∷ rest) registers h s b = absurd (omega arith)
  iterate_from-eq-run (suc fuel) ignore lines pc [] registers h s b =
      ground (arith, End-drop lines pc h)
  iterate_from-eq-run (suc fuel) ignore lines pc ((line, true) ∷ rest) registers h s b = cc
  iterate_from-eq-run (suc fuel) ignore lines pc ((line, false) ∷ rest) registers h s b =
      let here = Here-drop lines pc (line, false) rest h in
      let more = next-Skipped lines pc rest here.behind in
      rw (here.found, lt→ltb _ _ here.inside)
        (ap (λ k. process_line env sources ignore registers line >>= k)
          (fun_ext λ written.
            iterate_from-eq-run fuel ignore lines (next lines pc) more.suffix written more.there
              more.starts (omega (arith, more.shorter))
            ∙ ap (λ l. run_lines ignore l written) more.same))

  run_nil :
      (ignore : Bool) (registers : List (Cell D)) → ok registers ≡ run_lines ignore [] registers
  unfolding run_lines
  run_nil ignore registers = refl

  -- The engine runs exactly the lines that are not marked as introns, each once and in order,
  -- whether or not it ignores out_of_range.
  pub iterate-eq-run :
      (ignore : Bool) (lines : List Flagged) (registers : List (Cell D))
      → iterate env sources ignore lines registers ≡ run_lines ignore (useful_lines lines) registers
  unfolding iterate
  iterate-eq-run ignore [] registers = run_nil ignore registers
  iterate-eq-run ignore ((line, true) ∷ lines) registers =
      let more = next-Skipped ((line, true) ∷ lines) 0 lines refl in
      iterate_from-eq-run (suc (length lines)) ignore ((line, true) ∷ lines) _ more.suffix registers
        more.there more.starts (omega (arith, more.shorter))
      ∙ ap (λ l. run_lines ignore l registers) more.same
  iterate-eq-run ignore ((line, false) ∷ lines) registers =
      iterate_from-eq-run (suc (length lines)) ignore ((line, false) ∷ lines) 0 _ registers refl
        refl (omega arith)
