-- ===== src/Archive/Tests.antt =====
-- An archive of two recordings over whole numbers in place of doubles.
use gegelati.Base.{
  [], refl, ℕ, ◌≡◌, arith, false, true, emplace, length, lookup, ok, ◌+◌, ◌↔◌, ◌∷◌, ◌≤◌,
}
use gegelati.Archive.{
  Archive, add_recording, are_program_results_unique, combine_hashes, new_archive, still_used,
  store,
}
use gegelati.Archive.Invariant.{Inv, new_archive-Inv, store-Inv}
use gegelati.Archive.Adding.{add_recording-Inv, add_recording-newest, recording_of}
use gegelati.Archive.Unique.{are_program_results_unique_iff, equivalent}
use gegelati.Archive.Mapping.{of_program}
use gegelati.Archive.Eviction.{drop_to}
use gegelati.Doubles.{whole_numbers}

abbrev sample_draw : ℕ → ℕ × ℕ
sample_draw n = (n, n + 1)

abbrev empty_archive : Archive ℕ ℕ
empty_archive = new_archive 2 1 0

add_first :
    (b : Archive ℕ ℕ) × (add_recording whole_numbers sample_draw empty_archive 4 [] 8 false ≡ ok b)
unfolding add_recording lookup
add_first = (_, refl)

add_recording-newest_example :
    (b : Archive ℕ ℕ) × (add_recording whole_numbers sample_draw empty_archive 4 [] 8 false ≡ ok b)
    × Inv b
    × (b.recordings ≡ drop_to 2 (recording_of 4 [] 8 ∷ []))
    × (b.rng ≡ 0)
add_recording-newest_example =
    add_recording-newest whole_numbers sample_draw empty_archive 4 [] 8 (new_archive-Inv 2 1 0)
      false refl

add_recording-Inv_example :
    (b : Archive ℕ ℕ) × (add_recording whole_numbers sample_draw empty_archive 4 [] 8 true ≡ ok b)
    × Inv b
    × (length b.recordings ≤ b.max_size)
add_recording-Inv_example =
    add_recording-Inv whole_numbers sample_draw empty_archive 4 [] 8 (new_archive-Inv 2 1 0) true
      (omega arith)

abbrev two_recordings : Archive ℕ ℕ
two_recordings = store (store empty_archive [] (recording_of 4 [] 8)) [] (recording_of 5 [] 1)

two_recordings-Inv : Inv two_recordings
two_recordings-Inv =
    store-Inv (store empty_archive [] (recording_of 4 [] 8))
      (store-Inv empty_archive (new_archive-Inv 2 1 0) [] (recording_of 4 [] 8) refl) []
      (recording_of 5 [] 1) refl

not_unique : are_program_results_unique whole_numbers 0 ((0, 1) ∷ []) two_recordings ≡ false
unfolding are_program_results_unique store lookup emplace still_used combine_hashes
not_unique = refl

are_program_results_unique_iff_example :
    (are_program_results_unique whole_numbers 0 ((0, 1) ∷ []) two_recordings ≡ true) ↔ (
      (p : ℕ)
      → equivalent whole_numbers 0 ((0, 1) ∷ []) (of_program p two_recordings.recordings) ≡ false)
are_program_results_unique_iff_example =
    are_program_results_unique_iff whole_numbers 0 ((0, 1) ∷ []) two_recordings two_recordings-Inv
