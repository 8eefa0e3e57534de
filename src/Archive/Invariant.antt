-- ===== src/Archive/Invariant.antt =====
-- The invariant of an archive, and what a new recording does to it (addRecording of
-- gegelatilib/src/archive.cpp, up to its loop).
use gegelati.Base.{
  List, [], refl, ℕ, ◌≡◌, arith, if◌then◌else◌, false, inl, inr, DistinctKeys, Option-cases,
  emplace, has_key, lookup, lookup-emplace, none, some, ◌++◌, ◌==◌, ◌∷◌, lookup-adjust, sym, ◌∙◌,
  Bool-cases, adjust-DistinctKeys, emplace-DistinctKeys,
}
use gegelati.Archive.{
  Archive, ArchiveRecording, still_used, get_combined_hash, new_archive, record_of_program, store,
  clear,
}
use gegelati.Archive.Mapping.{
  of_program, nonempty, nonempty-append, of_program-append, still_used-append, nonempty-none,
  nonempty-some,
}
use gegelati.Data.{DataHandler}

-- The maps have distinct keys; data sources are kept for exactly the hashes of the recordings, and
-- under their own hash; and each program has its own recordings, in order, if it has any.
pub record Inv {D R : Type 0} (a : Archive D R) : Type 0 where
  pub distinct_handlers : DistinctKeys a.data_handlers
  pub distinct_programs : DistinctKeys a.recordings_per_program
  pub handlers_kept : (h : ℕ) → has_key a.data_handlers h ≡ still_used a.recordings h
  pub handlers_hashed :
      (h : ℕ) (handlers : List (DataHandler D))
      → lookup a.data_handlers h ≡ some handlers
      → get_combined_hash handlers ≡ h
  pub per_program :
      (p : ℕ) → lookup a.recordings_per_program p ≡ nonempty (of_program p a.recordings)

pub new_archive-Inv :
    {D R : Type 0} (size : ℕ) (probability : D) (rng : R) → Inv (new_archive size probability rng)
unfolding lookup still_used
new_archive-Inv size probability rng = record {
  distinct_handlers = tt;
  distinct_programs = tt;
  handlers_kept = λ h. refl;
  handlers_hashed = λ h handlers e. absurd (ground arith);
  per_program = λ p. refl;
}

pub has_key-none {ℓ} :
    {V : Type ℓ} (m : List (ℕ × V)) (k : ℕ) → has_key m k ≡ false → lookup m k ≡ none
has_key-none m k h = elim (Option-cases (lookup m k)) [
  | inl e ↦ e
  | inr (v, e) ↦ absurd (ground arith)
]

module _ {D R : Type 0} (a : Archive D R) (inv : Inv a) (handlers : List (DataHandler D))
    (rec : ArchiveRecording D) (hashed : get_combined_hash handlers ≡ rec.data_hash) where
  abbrev stored_handlers : List (ℕ × List (DataHandler D))
  stored_handlers =
      if has_key a.data_handlers rec.data_hash
      then a.data_handlers
      else emplace rec.data_hash handlers a.data_handlers

  lookup-stored_handlers :
      (h : ℕ)
      → lookup stored_handlers h ≡ (
          if has_key a.data_handlers h
          then lookup a.data_handlers h
          else if rec.data_hash == h
          then some handlers
          else none)
  lookup-stored_handlers h = elim (Option-cases (lookup a.data_handlers rec.data_hash)) [
    | inl e ↦ rw e (ground (arith, lookup-emplace rec.data_hash handlers a.data_handlers h e))
    | inr (v, e) ↦ rw e (ground arith)
  ]

  lookup-record_of_program :
      (p : ℕ)
      → lookup (record_of_program rec a.recordings_per_program) p
        ≡ nonempty (of_program p (a.recordings ++ rec ∷ []))
  unfolding record_of_program
  lookup-record_of_program p = elim (Option-cases (lookup a.recordings_per_program rec.prog)) [
    | inl e ↦
        let none_yet =
          nonempty-none (of_program rec.prog a.recordings) (sym (inv.per_program rec.prog) ∙ e) in
        rw
          (
            e,
            lookup-emplace rec.prog (rec ∷ []) a.recordings_per_program p e,
            of_program-append p a.recordings rec,
          )
          (ground (arith, inv.per_program p))
    | inr (own, e) ↦
        let theirs =
          nonempty-some (of_program rec.prog a.recordings) own
            (sym (inv.per_program rec.prog) ∙ e) in
        rw
          (
            e,
            lookup-adjust rec.prog (λ xs. xs ++ rec ∷ []) a.recordings_per_program p,
            of_program-append p a.recordings rec,
          )
          (ground (arith, inv.per_program p, nonempty-append (of_program p a.recordings) rec))
  ]

  record_of_program-DistinctKeys : DistinctKeys (record_of_program rec a.recordings_per_program)
  unfolding record_of_program
  record_of_program-DistinctKeys = elim (Bool-cases (has_key a.recordings_per_program rec.prog)) [
    | inl e ↦ rw e (adjust-DistinctKeys _ _ _ inv.distinct_programs)
    | inr e ↦ rw e (emplace-DistinctKeys _ _ _ (has_key-none _ _ e) inv.distinct_programs)
  ]

  stored_handlers-DistinctKeys : DistinctKeys stored_handlers
  stored_handlers-DistinctKeys = elim (Bool-cases (has_key a.data_handlers rec.data_hash)) [
    | inl e ↦ rw e inv.distinct_handlers
    | inr e ↦ rw e (emplace-DistinctKeys _ _ _ (has_key-none _ _ e) inv.distinct_handlers)
  ]

  pub store-Inv : Inv (store a handlers rec)
  unfolding store
  store-Inv = record {
    distinct_handlers = stored_handlers-DistinctKeys;
    distinct_programs = record_of_program-DistinctKeys;
    handlers_kept = λ h. ground (
      arith,
      lookup-stored_handlers h,
      still_used-append a.recordings rec h,
      inv.handlers_kept h,
    );
    handlers_hashed =
        λ h kept e. ground (arith, lookup-stored_handlers h, inv.handlers_hashed h kept);
    per_program = lookup-record_of_program;
  }

-- clear
clear-Inv : {D R : Type 0} (a : Archive D R) → Inv (clear a)
unfolding clear lookup still_used
clear-Inv a = record {
  distinct_handlers = tt;
  distinct_programs = tt;
  handlers_kept = λ h. refl;
  handlers_hashed = λ h handlers e. absurd (ground arith);
  per_program = λ p. refl;
}
