-- ===== src/Archive/Adding.antt =====
-- addRecording of gegelatilib/src/archive.cpp, as a bounded queue of recordings.
use gegelati.Base.{
  List, [], refl, ℕ, ◌≡◌, arith, true, Bool, length, ok, ◌++◌, ◌||◌, ◌∷◌, ◌≤◌, Bool-cases, inl, inr,
}
use gegelati.Archive.{
  Archive, ArchiveRecording, store, get_combined_hash, add_recording, keep_recording,
}
use gegelati.Archive.Invariant.{Inv, store-Inv}
use gegelati.Archive.Eviction.{Evicted, evict-Evicted, drop_to, length-drop_to-le}
use gegelati.Data.{DataHandler}
use gegelati.Doubles.{Doubles}

abbrev pub recording_of : {D : Type 0} → ℕ → List (DataHandler D) → D → ArchiveRecording D
recording_of program handlers result = record {
  prog = program;
  data_hash = get_combined_hash handlers;
  result = result;
}

pub keep_recording-newest :
    {D R : Type 0} (a : Archive D R) (program : ℕ) (handlers : List (DataHandler D)) (result : D)
    → Inv a
    → (b : Archive D R) × (keep_recording a program handlers result ≡ ok b)
      × Evicted (store a handlers (recording_of program handlers result)) b
unfolding keep_recording store
keep_recording-newest a program handlers result inv =
    evict-Evicted (length (a.recordings ++ recording_of program handlers result ∷ []))
      (store a handlers (recording_of program handlers result))
      (store-Inv a inv handlers (recording_of program handlers result) refl) (omega arith)

module _ {D R : Type 0} (F : Doubles D) (draw : R → D × R) (a : Archive D R) (program : ℕ)
    (handlers : List (DataHandler D)) (result : D) (inv : Inv a) where
  asked-Inv : (rng : R) → Inv (record a { rng = rng })
  asked-Inv rng = record {
    distinct_handlers = inv.distinct_handlers;
    distinct_programs = inv.distinct_programs;
    handlers_kept = inv.handlers_kept;
    handlers_hashed = inv.handlers_hashed;
    per_program = inv.per_program;
  }

  -- A recording that is forced, or that the archiving probability 1 admits, is stored: addRecording
  -- returns, its archive keeps the invariant and holds the newest recordings, up to its maximum
  -- size, with the new one as the last; and no random number is drawn.
  pub add_recording-newest :
      (forced : Bool)
      → (forced || F.eq a.archiving_probability (F.of_nat 1)) ≡ true
      → (b : Archive D R) × (add_recording F draw a program handlers result forced ≡ ok b)
        × Inv b
        × (b.recordings
            ≡ drop_to a.max_size (a.recordings ++ recording_of program handlers result ∷ []))
        × (b.rng ≡ a.rng)
  unfolding add_recording store
  add_recording-newest forced admitted =
      let (b, done, left) = keep_recording-newest a program handlers result inv in
      (b, rw admitted done, left.consistent, left.newest, left.same_rng)

  keep_recording-bounded :
      (rng : R)
      → (b : Archive D R) × (keep_recording (record a { rng = rng }) program handlers result ≡ ok b)
        × Inv b
        × (length b.recordings ≤ b.max_size)
  unfolding store
  keep_recording-bounded rng =
      let (b, done, left) =
        keep_recording-newest (record a { rng = rng }) program handlers result (asked-Inv rng) in
      let sized =
        length-drop_to-le a.max_size (a.recordings ++ recording_of program handlers result ∷ []) in
      let same = left.same_size in (b, done, left.consistent, rw (left.newest, same) sized)

  -- addRecording returns, whatever the random number: the archive keeps the invariant and has at
  -- most its maximum size of recordings, if it had before.
  pub add_recording-Inv :
      (forced : Bool)
      → length a.recordings ≤ a.max_size
      → (b : Archive D R) × (add_recording F draw a program handlers result forced ≡ ok b)
        × Inv b
        × (length b.recordings ≤ b.max_size)
  unfolding add_recording
  add_recording-Inv forced bounded =
      elim (Bool-cases (forced || F.eq a.archiving_probability (F.of_nat 1))) [
        | inl admitted ↦ rw admitted (keep_recording-bounded a.rng)
        | inr asks ↦ elim (Bool-cases (F.le (draw a.rng).0 a.archiving_probability)) [
          | inl chosen ↦ rw (asks, chosen) (keep_recording-bounded (draw a.rng).1)
          | inr passed ↦
              rw (asks, passed)
                (record a { rng = (draw a.rng).1 }, refl, asked-Inv (draw a.rng).1, bounded)
        ]
      ]
