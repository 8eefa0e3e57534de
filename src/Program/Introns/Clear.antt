-- ===== src/Program/Introns/Clear.antt =====
-- Program::clearIntrons (gegelatilib/src/program/program.cpp).
use gegelati.Base.{
  Bool, List, [], arith, filter, length, not, refl, suc, zero, ℕ, ◌+◌, ◌∷◌, ◌≡◌, erase_at,
  length-append, ◌++◌, ◌≤◌,
}
use mathlib.Core.List.{append_assoc}
use gegelati.Program.{Flagged, intron_at, Program, clear_from, clear_introns}

abbrev pub is_useful : Flagged → Bool
is_useful entry = not entry.1

-- The lines that are no introns.
abbrev pub useful_lines : List Flagged → List Flagged
useful_lines = filter is_useful

intron_at-split :
    (pre rest : List Flagged) (e : Flagged) → intron_at (pre ++ e ∷ rest) (length pre) ≡ e.1
unfolding intron_at
intron_at-split [] rest e = refl
intron_at-split (x ∷ pre) rest e = intron_at-split pre rest e

erase_at-split :
    (pre rest : List Flagged) (e : Flagged) → erase_at (pre ++ e ∷ rest) (length pre) ≡ pre ++ rest
erase_at-split [] rest e = refl
erase_at-split (x ∷ pre) rest e = rw (erase_at-split pre rest e)

length-snoc : (pre : List Flagged) (e : Flagged) → length (pre ++ e ∷ []) ≡ length pre + 1
length-snoc pre e = omega (arith, length-append pre (e ∷ []))

clear_from-split :
    (fuel : ℕ) (pre rest : List Flagged)
    → length rest ≤ fuel
    → clear_from fuel (pre ++ rest) (length pre) ≡ pre ++ useful_lines rest
unfolding clear_from
clear_from-split zero pre [] h = refl
clear_from-split zero pre (e ∷ rest) h = absurd (omega arith)
clear_from-split (suc fuel) pre [] h = ground (arith, length-append pre [])
clear_from-split (suc fuel) pre (e ∷ rest) h =
    let next = clear_from-split fuel (pre ++ e ∷ []) rest (omega arith) in
    let removed = clear_from-split fuel pre rest (omega arith) in
    ground (
      arith,
      next,
      removed,
      length-snoc pre e,
      append_assoc pre (e ∷ []) rest,
      append_assoc pre (e ∷ []) (useful_lines rest),
      length-append pre (e ∷ rest),
      intron_at-split pre rest e,
      erase_at-split pre rest e,
    )

-- clearIntrons keeps exactly the lines that are no introns, in their order, and the constants.
pub clear_introns-eq-filter :
    (p : Program) → clear_introns p ≡ record p { lines = useful_lines p.lines }
unfolding clear_introns
clear_introns-eq-filter p = rw (clear_from-split (length p.lines) [] p.lines (omega arith))
