-- ===== src/Archive/Unique.antt =====
-- areProgramResultsUnique of gegelatilib/src/archive.cpp, in terms of the recordings alone.
use gegelati.Base.{
  List, [], refl, ℕ, ◌≡◌, arith, false, true, Bool, DistinctKeys, Option, has_key, lookup, none,
  some, ◌&&◌, ◌||◌, ◌∷◌, subst, sym, ◌↔◌, ◌∙◌,
}
use gegelati.Archive.{
  ArchiveRecording, is_identical, none_identical, Archive, are_program_results_unique,
}
use gegelati.Doubles.{Doubles}
use gegelati.Archive.Invariant.{Inv}
use gegelati.Archive.Mapping.{nonempty, nonempty-some, of_program}

module _ {D : Type 0} (F : Doubles D) (tau : D) (results : List (ℕ × D)) where
  -- Do the results have one for the data of the recording?
  abbrev pub shared : ArchiveRecording D → Bool
  shared r = has_key results r.data_hash

  abbrev close_to : D → Option D → Bool
  close_to result none = true
  close_to result (some value) = F.le (F.abs (F.sub value result)) tau

  -- Is it within `tau` of that of the recording, if there is one?
  abbrev pub agrees : ArchiveRecording D → Bool
  agrees r = close_to r.result (lookup results r.data_hash)

  abbrev pub any_shared : List (ArchiveRecording D) → Bool
  any_shared [] = false
  any_shared (r ∷ rs) = shared r || any_shared rs

  abbrev pub all_agree : List (ArchiveRecording D) → Bool
  all_agree [] = true
  all_agree (r ∷ rs) = agrees r && all_agree rs

  -- The program has data in common with the results, and agrees with them on all of it.
  abbrev pub equivalent : List (ArchiveRecording D) → Bool
  equivalent rs = any_shared rs && all_agree rs

  is_identical-eq-all_agree :
      (flag : Bool) (rs : List (ArchiveRecording D))
      → is_identical F tau results flag rs ≡ ((flag || any_shared rs) && all_agree rs)
  unfolding is_identical
  is_identical-eq-all_agree flag [] = ground arith
  is_identical-eq-all_agree flag (r ∷ rs) =
      ground (arith, is_identical-eq-all_agree flag rs, is_identical-eq-all_agree true rs)

  none_identical-lookup :
      (programs : List (ℕ × List (ArchiveRecording D))) (p : ℕ) (rs : List (ArchiveRecording D))
      → none_identical F tau results programs ≡ true
      → lookup programs p ≡ some rs
      → equivalent rs ≡ false
  unfolding none_identical lookup
  none_identical-lookup [] p rs unique e = absurd (ground arith)
  none_identical-lookup (entry ∷ programs) p rs unique e =
      ground (arith, none_identical-lookup programs p rs, is_identical-eq-all_agree false entry.1)

  lookup-none_identical :
      (programs : List (ℕ × List (ArchiveRecording D)))
      → DistinctKeys programs
      → ((p : ℕ) (rs : List (ArchiveRecording D))
          → lookup programs p ≡ some rs
          → equivalent rs ≡ false)
      → none_identical F tau results programs ≡ true
  unfolding none_identical lookup
  lookup-none_identical [] distinct all = refl
  lookup-none_identical (entry ∷ programs) distinct all =
      rw (is_identical-eq-all_agree false entry.1, all entry.0 entry.1 (ground arith))
        (lookup-none_identical programs distinct.1 (λ p rs e. all p rs (ground arith)))

  equivalent-nonempty :
      (rs : List (ArchiveRecording D))
      → ((own : List (ArchiveRecording D)) → nonempty rs ≡ some own → equivalent own ≡ false)
      → equivalent rs ≡ false
  equivalent-nonempty [] all = refl
  equivalent-nonempty (r ∷ rs) all = all (r ∷ rs) refl

  -- areProgramResultsUnique returns true exactly when no program of the archive is equivalent to
  -- the results, that is, has recordings on data that the results cover and agrees with the
  -- results, within tau, on all of these.
  pub are_program_results_unique_iff :
      {R : Type 0} (a : Archive D R)
      → Inv a
      → (are_program_results_unique F tau results a ≡ true)
        ↔ ((p : ℕ) → equivalent (of_program p a.recordings) ≡ false)
  unfolding are_program_results_unique
  are_program_results_unique_iff a inv = (
    λ unique p. equivalent-nonempty (of_program p a.recordings) (λ own e.
        none_identical-lookup a.recordings_per_program p own unique (inv.per_program p ∙ e)),
    λ all. lookup-none_identical a.recordings_per_program inv.distinct_programs (λ p rs e.
        subst (λ own. equivalent own ≡ false)
          (nonempty-some (of_program p a.recordings) rs (sym (inv.per_program p) ∙ e)) (all p)),
  )
