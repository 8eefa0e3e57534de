-- ===== src/Archive/Mapping.antt =====
-- The recordings of one program and of one hash, in the recordings of an archive
-- (gegelatilib/src/archive.cpp).
use gegelati.Base.{
  List, Option, [], arith, filter, if◌then◌else◌, none, refl, some, ℕ, ◌++◌, ◌==◌, ◌||◌, ◌∷◌, ◌≡◌,
}
use gegelati.Archive.{ArchiveRecording, is_empty, still_used}

module _ {D : Type 0} where
  -- The recordings of a program, oldest first.
  abbrev pub of_program : ℕ → List (ArchiveRecording D) → List (ArchiveRecording D)
  of_program p rs = filter (λ r. r.prog == p) rs

  abbrev pub nonempty : List (ArchiveRecording D) → Option (List (ArchiveRecording D))
  nonempty [] = none
  nonempty (r ∷ rs) = some (r ∷ rs)

  pub of_program-append :
      (p : ℕ) (rs : List (ArchiveRecording D)) (r : ArchiveRecording D)
      → of_program p (rs ++ r ∷ [])
        ≡ (if r.prog == p then of_program p rs ++ r ∷ [] else of_program p rs)
  of_program-append p [] r = ground arith
  of_program-append p (s ∷ rs) r = ground (arith, of_program-append p rs r)

  pub still_used-append :
      (rs : List (ArchiveRecording D)) (r : ArchiveRecording D) (h : ℕ)
      → still_used (rs ++ r ∷ []) h ≡ (still_used rs h || r.data_hash == h)
  unfolding still_used
  still_used-append [] r h = ground arith
  still_used-append (s ∷ rs) r h = ground (arith, still_used-append rs r h)

  pub nonempty-append :
      (rs : List (ArchiveRecording D)) (r : ArchiveRecording D)
      → nonempty (rs ++ r ∷ []) ≡ some (rs ++ r ∷ [])
  nonempty-append [] r = refl
  nonempty-append (s ∷ rs) r = refl

  pub nonempty-cases :
      (rs : List (ArchiveRecording D)) → nonempty rs ≡ (if is_empty rs then none else some rs)
  nonempty-cases [] = refl
  nonempty-cases (r ∷ rs) = refl

  pub nonempty-none : (rs : List (ArchiveRecording D)) → nonempty rs ≡ none → rs ≡ []
  nonempty-none [] e = refl
  nonempty-none (r ∷ rs) e = absurd (ground arith)

  pub nonempty-some : (rs own : List (ArchiveRecording D)) → nonempty rs ≡ some own → rs ≡ own
  nonempty-some [] own e = absurd (ground arith)
  nonempty-some (r ∷ rs) own e = cc
