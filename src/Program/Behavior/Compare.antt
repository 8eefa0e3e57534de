-- ===== src/Program/Behavior/Compare.antt =====
-- hasIdenticalBehavior against a plain comparison of the lines that are no introns.
use mathlib.Core.Path.{ap₂}
use gegelati.Base.{
  Bool, List, Result, [], arith, drop, false, if◌then◌else◌, length, lt→ltb, ok, refl, suc, true,
  zero, ℕ, ℤ, ◌+◌, ◌<◌, ◌>>=◌, ◌∷◌, ◌≡◌, le→ltb, xor, ◌∙◌,
}
use gegelati.Environment.{Environment}
use gegelati.Program.{Flagged, Program}
use gegelati.Program.Introns.Clear.{useful_lines}
use gegelati.Program.Engine.Loop.{
  End-drop, Here-drop, Skipped, StartsUseful, skip_introns-Skipped, length-drop-le,
}
use gegelati.Program.Behavior.{compare_from, next_non_intron, same_lines, has_identical_behavior}

module _ {D : Type 0} (env : Environment D) (here there : List ℤ) where
  -- Lines pairwise the same, up to the same number.
  unfoldable pub compare_lines : List Flagged → List Flagged → Result Bool
  compare_lines [] [] = ok true
  compare_lines (x ∷ xs) (y ∷ ys) = do
    same ← same_lines env here there x.0 y.0
    let rest = compare_lines xs ys
    if same then rest else ok false
  compare_lines _ _ = ok false

  next_non_intron-Skipped :
      (lines : List Flagged) (idx : ℕ) (rest : List Flagged)
      → drop idx lines ≡ rest
      → Skipped lines rest (next_non_intron lines idx)
  unfolding next_non_intron
  next_non_intron-Skipped lines idx rest h =
      skip_introns-Skipped (length lines) lines idx rest h (rw (← h) (length-drop-le idx lines))

  compare_from-eq :
      (fuel : ℕ) (these others : List Flagged) (i j : ℕ) (xs ys : List Flagged)
      → drop i these ≡ xs
      → drop j others ≡ ys
      → StartsUseful xs
      → StartsUseful ys
      → length xs < fuel
      → compare_from env here there fuel these others i j
        ≡ compare_lines (useful_lines xs) (useful_lines ys)
  unfolding compare_from compare_lines xor
  compare_from-eq zero these others i j xs ys h k s t b = absurd (omega arith)
  compare_from-eq (suc fuel) these others i j [] [] h k s t b =
      rw (le→ltb _ _ (End-drop these i h).1, le→ltb _ _ (End-drop others j k).1)
  compare_from-eq (suc fuel) these others i j [] ((y, true) ∷ ys) h k s t b = cc
  compare_from-eq (suc fuel) these others i j [] ((y, false) ∷ ys) h k s t b =
      let at_y = Here-drop others j (y, false) ys k in
      rw (le→ltb _ _ (End-drop these i h).1, lt→ltb _ _ at_y.inside)
  compare_from-eq (suc fuel) these others i j ((x, true) ∷ xs) ys h k s t b = cc
  compare_from-eq (suc fuel) these others i j ((x, false) ∷ xs) [] h k s t b =
      let at_x = Here-drop these i (x, false) xs h in
      rw (lt→ltb _ _ at_x.inside, le→ltb _ _ (End-drop others j k).1)
  compare_from-eq (suc fuel) these others i j ((x, false) ∷ xs) ((y, true) ∷ ys) h k s t b = cc
  compare_from-eq (suc fuel) these others i j ((x, false) ∷ xs) ((y, false) ∷ ys) h k s t b =
      let at_x = Here-drop these i (x, false) xs h in
      let at_y = Here-drop others j (y, false) ys k in
      let more_x = next_non_intron-Skipped these (i + 1) xs at_x.behind in
      let more_y = next_non_intron-Skipped others (j + 1) ys at_y.behind in
      let rest =
        compare_from-eq fuel these others (next_non_intron these (i + 1))
          (next_non_intron others (j + 1)) more_x.suffix more_y.suffix more_x.there more_y.there
          more_x.starts more_y.starts (omega (arith, more_x.shorter)) in
      rw (lt→ltb _ _ at_x.inside, lt→ltb _ _ at_y.inside, at_x.found, at_y.found)
        (rw (rest, more_x.same, more_y.same) refl)

-- hasIdenticalBehavior answers as the pairwise comparison of the lines that are no introns does,
-- from the first lines to the end of both programs.
pub has_identical_behavior-eq-compare :
    {D : Type 0} (env : Environment D) (p q : Program)
    → has_identical_behavior env p q
      ≡ compare_lines env p.constants q.constants (useful_lines p.lines) (useful_lines q.lines)
unfolding has_identical_behavior
has_identical_behavior-eq-compare env p q =
    let first = next_non_intron-Skipped env p.constants q.constants p.lines 0 p.lines refl in
    let second = next_non_intron-Skipped env p.constants q.constants q.lines 0 q.lines refl in
    compare_from-eq env p.constants q.constants (suc (length p.lines)) p.lines q.lines _ _
      first.suffix second.suffix first.there second.there first.starts second.starts
      (omega (arith, first.shorter))
    ∙ ap₂ (compare_lines env p.constants q.constants) first.same second.same
