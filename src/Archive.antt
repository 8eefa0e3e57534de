-- ===== src/Archive.antt =====
-- gegelatilib/src/archive.cpp with include/archive.h: the results that programs produced on the
-- data that they saw, kept to compare new programs with. Programs are known by address, and a copy
-- of data sources (DataHandler::clone) is the sources themselves, whose content does not change
-- here. `draw` is rng.getDouble(0.0, 1.0), of the random engine in state R.
pub mod Mapping
pub mod Invariant
pub mod Eviction
pub mod Adding
pub mod Unique
mod Tests
use gegelati.Base.{
  Bool, List, Result, [], adjust, elem_at, emplace, erase_key, err, false, has_key, if◌then◌else◌,
  length, lookup, ltb, ok, or_fail, out_of_range, some, suc, true, undefined, zero, ℕ, ◌++◌, ◌==◌,
  ◌>>=◌, ◌||◌, ◌∷◌, none,
}
use Prim.Native.Nat.{bit_xor}
use gegelati.Data.{DataHandler}
use gegelati.Doubles.{Doubles}

pub record ArchiveRecording (D : Type 0) : Type 0 where
  pub prog : ℕ
  pub data_hash : ℕ
  pub result : D

pub record Archive (D R : Type 0) : Type 0 where
  pub max_size : ℕ
  pub rng : R
  pub data_handlers : List (ℕ × List (DataHandler D))
  pub recordings_per_program : List (ℕ × List (ArchiveRecording D))
  pub recordings : List (ArchiveRecording D)
  pub archiving_probability : D

module _ {D R : Type 0} where
  -- The constructor.
  abbrev pub new_archive : ℕ → D → R → Archive D R
  new_archive size probability rng = record {
    max_size = size;
    rng = rng;
    data_handlers = [];
    recordings_per_program = [];
    recordings = [];
    archiving_probability = probability;
  }

module _ {D : Type 0} where
  -- getCombinedHash, from the hash so far.
  unfoldable pub combine_hashes : ℕ → List (DataHandler D) → ℕ
  combine_hashes hash [] = hash
  combine_hashes hash (h ∷ handlers) = combine_hashes (bit_xor hash h.hash) handlers

  abbrev pub get_combined_hash : List (DataHandler D) → ℕ
  get_combined_hash handlers = combine_hashes 0 handlers

  -- at(n)
  unfoldable pub recording_at : {R : Type 0} → Archive D R → ℕ → Result (ArchiveRecording D)
  recording_at a n = elem_at a.recordings n out_of_range

  -- Is the hash that of one of the recordings?
  unfoldable pub still_used : List (ArchiveRecording D) → ℕ → Bool
  still_used [] hash = false
  still_used (r ∷ rs) hash = r.data_hash == hash || still_used rs hash

  abbrev pub pop_front : List (ArchiveRecording D) → List (ArchiveRecording D)
  pop_front [] = []
  pop_front (r ∷ rs) = rs

  abbrev pub is_empty : List (ArchiveRecording D) → Bool
  is_empty [] = true
  is_empty (r ∷ rs) = false

  -- The data of the oldest recording goes with the last recording of its hash; `at` throws when it
  -- is not there.
  unfoldable pub drop_handlers :
      List (ArchiveRecording D)
      → ℕ
      → List (ℕ × List (DataHandler D))
      → Result (List (ℕ × List (DataHandler D)))
  unfolding still_used
  drop_handlers rest hash handlers =
      if still_used rest hash
      then ok handlers
      else (do erased ← or_fail (lookup handlers hash) out_of_range; ok (erase_key hash handlers))

  -- The program's own oldest recording goes, and the program with its last one. To use the end of
  -- the map is undefined.
  unfoldable pub drop_of_program :
      ℕ → List (ℕ × List (ArchiveRecording D)) → Result (List (ℕ × List (ArchiveRecording D)))
  drop_of_program prog per_program = do
    own ← or_fail (lookup per_program prog) undefined
    ok (
        if is_empty (pop_front own)
        then erase_key prog per_program
        else adjust prog pop_front per_program)

  unfoldable pub record_of_program :
      ArchiveRecording D
      → List (ℕ × List (ArchiveRecording D))
      → List (ℕ × List (ArchiveRecording D))
  record_of_program rec per_program =
      if has_key per_program rec.prog
      then adjust rec.prog (λ own. own ++ rec ∷ []) per_program
      else emplace rec.prog (rec ∷ []) per_program

module _ {D R : Type 0} where
  -- One round of the loop of addRecording, without its test.
  unfoldable pub evict_first : Archive D R → Result (Archive D R)
  unfolding drop_handlers drop_of_program
  evict_first a = elim a.recordings [
    | [] ↦ err undefined
    | rec ∷ rest ↦ (do
      handlers ← drop_handlers rest rec.data_hash a.data_handlers
      per_program ← drop_of_program rec.prog a.recordings_per_program
      ok (record a {
        data_handlers = handlers;
        recordings_per_program = per_program;
        recordings = rest;
      }))
  ]

  -- The loop, on fuel.
  unfoldable pub evict : ℕ → Archive D R → Result (Archive D R)
  unfolding evict_first
  evict zero a = ok a
  evict (suc fuel) a =
      let more = evict_first a >>= evict fuel in
      if ltb a.max_size (length a.recordings) then more else ok a

  -- What addRecording stores, before the loop.
  unfoldable pub store : Archive D R → List (DataHandler D) → ArchiveRecording D → Archive D R
  unfolding record_of_program
  store a handlers rec = record a {
    data_handlers =
        if has_key a.data_handlers rec.data_hash
        then a.data_handlers
        else emplace rec.data_hash handlers a.data_handlers;
    recordings_per_program = record_of_program rec a.recordings_per_program;
    recordings = a.recordings ++ rec ∷ [];
  }

  unfoldable pub keep_recording : Archive D R → ℕ → List (DataHandler D) → D → Result (Archive D R)
  unfolding store evict
  keep_recording a program handlers result =
      let stored =
        store a handlers
          (record { prog = program; data_hash = get_combined_hash handlers; result = result }) in
      evict (length stored.recordings) stored

module _ {D R : Type 0} (F : Doubles D) (draw : R → D × R) where
  -- addRecording. The random engine is asked only when the recording is not forced and the
  -- probability is not 1.
  unfoldable pub add_recording :
      Archive D R → ℕ → List (DataHandler D) → D → Bool → Result (Archive D R)
  unfolding keep_recording
  add_recording a program handlers result forced =
      if forced || F.eq a.archiving_probability (F.of_nat 1)
      then keep_recording a program handlers result
      else (let (drawn, rng) = draw a.rng in
          let asked = record a { rng = rng } in
          if F.le drawn a.archiving_probability
          then keep_recording asked program handlers result
          else ok asked)

module _ {D : Type 0} (F : Doubles D) (tau : D) (results : List (ℕ × D)) where
  -- The loop over the recordings of one program, from the flag so far.
  unfoldable pub is_identical : Bool → List (ArchiveRecording D) → Bool
  is_identical flag [] = flag
  is_identical flag (r ∷ rs) = elim (lookup results r.data_hash) [
    | none ↦ is_identical flag rs
    | some value ↦ elim (F.le (F.abs (F.sub value r.result)) tau) [
      | true ↦ is_identical true rs
      | false ↦ false
    ]
  ]

  -- The loop over the programs.
  unfoldable pub none_identical : List (ℕ × List (ArchiveRecording D)) → Bool
  unfolding is_identical
  none_identical [] = true
  none_identical (e ∷ programs) = if is_identical false e.1 then false else none_identical programs

  unfoldable pub are_program_results_unique : {R : Type 0} → Archive D R → Bool
  unfolding none_identical
  are_program_results_unique a = none_identical a.recordings_per_program

module _ {D R : Type 0} where
  unfoldable pub clear : Archive D R → Archive D R
  clear a = record a { data_handlers = []; recordings_per_program = []; recordings = [] }

  unfoldable pub has_data_handlers : Archive D R → ℕ → Bool
  has_data_handlers a hash = has_key a.data_handlers hash

-- setRandomSeed; `seeded` is the engine that a seed starts (std::mt19937_64).
unfoldable pub set_random_seed : {D R : Type 0} (seeded : ℕ → R) → Archive D R → ℕ → Archive D R
set_random_seed seeded a seed = record a { rng = seeded seed }
