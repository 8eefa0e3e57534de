-- ===== src/Archive/Eviction.antt =====
-- The loop of addRecording (gegelatilib/src/archive.cpp) never throws, and leaves the newest
-- recordings.
use gegelati.Base.{
  List, refl, ℕ, ◌≡◌, arith, if◌then◌else◌, inl, inr, Bool-cases, DistinctKeys, adjust,
  adjust-DistinctKeys, ap, drop, erase_key, erase_key-DistinctKeys, has_key, length, lookup,
  lookup-adjust, lookup-erase_key, ok, some, ◌+◌, ◌-◌, ◌∙◌, ◌∷◌, ◌≤◌, [], ltb, suc, sym, zero, ◌⊎◌,
}
use gegelati.Archive.{
  Archive, ArchiveRecording, still_used, drop_handlers, drop_of_program, evict, evict_first,
  is_empty, pop_front,
}
use gegelati.Archive.Mapping.{of_program, nonempty, nonempty-cases}
use gegelati.Archive.Invariant.{Inv}
use gegelati.Data.{DataHandler}

module _ {D R : Type 0} (a : Archive D R) (inv : Inv a) (rec : ArchiveRecording D)
    (rest : List (ArchiveRecording D)) (front : a.recordings ≡ rec ∷ rest) where
  abbrev left_handlers : List (ℕ × List (DataHandler D))
  left_handlers =
      if still_used rest rec.data_hash
      then a.data_handlers
      else erase_key rec.data_hash a.data_handlers

  abbrev left_programs : List (ℕ × List (ArchiveRecording D))
  left_programs =
      if is_empty (of_program rec.prog rest)
      then erase_key rec.prog a.recordings_per_program
      else adjust rec.prog pop_front a.recordings_per_program

  kept_before : (h : ℕ) → has_key a.data_handlers h ≡ still_used (rec ∷ rest) h
  kept_before h = inv.handlers_kept h ∙ ap (λ rs. still_used rs h) front

  programs_before :
      (p : ℕ) → lookup a.recordings_per_program p ≡ nonempty (of_program p (rec ∷ rest))
  programs_before p = inv.per_program p ∙ ap (λ rs. nonempty (of_program p rs)) front

  drop_handlers-ok : drop_handlers rest rec.data_hash a.data_handlers ≡ ok left_handlers
  unfolding drop_handlers still_used
  drop_handlers-ok = ground (arith, kept_before rec.data_hash)

  own_before : lookup a.recordings_per_program rec.prog ≡ some (rec ∷ of_program rec.prog rest)
  own_before = ground (arith, programs_before rec.prog)

  drop_of_program-ok : drop_of_program rec.prog a.recordings_per_program ≡ ok left_programs
  unfolding drop_of_program
  drop_of_program-ok = rw own_before

  abbrev evicted : Archive D R
  evicted = record a {
    data_handlers = left_handlers;
    recordings_per_program = left_programs;
    recordings = rest;
  }

  evict_first-ok : evict_first a ≡ ok evicted
  unfolding evict_first
  evict_first-ok = rw (front, evict_first, drop_handlers-ok, drop_of_program-ok) refl

  lookup-left_programs : (p : ℕ) → lookup left_programs p ≡ nonempty (of_program p rest)
  lookup-left_programs p = elim (Bool-cases (is_empty (of_program rec.prog rest))) [
    | inl e ↦
        rw (e, lookup-erase_key rec.prog a.recordings_per_program p)
          (ground (arith, programs_before p, nonempty-cases (of_program rec.prog rest)))
    | inr e ↦
        rw (e, lookup-adjust rec.prog pop_front a.recordings_per_program p)
          (ground (arith, programs_before p, nonempty-cases (of_program rec.prog rest)))
  ]

  left_programs-DistinctKeys : DistinctKeys left_programs
  left_programs-DistinctKeys = elim (Bool-cases (is_empty (of_program rec.prog rest))) [
    | inl e ↦ rw e (erase_key-DistinctKeys _ _ inv.distinct_programs)
    | inr e ↦ rw e (adjust-DistinctKeys _ _ _ inv.distinct_programs)
  ]

  left_handlers-DistinctKeys : DistinctKeys left_handlers
  left_handlers-DistinctKeys = elim (Bool-cases (still_used rest rec.data_hash)) [
    | inl e ↦ rw e inv.distinct_handlers
    | inr e ↦ rw e (erase_key-DistinctKeys _ _ inv.distinct_handlers)
  ]

  evicted-Inv : Inv evicted
  unfolding still_used
  evicted-Inv = record {
    distinct_handlers = left_handlers-DistinctKeys;
    distinct_programs = left_programs-DistinctKeys;
    handlers_kept =
        λ h. ground (arith, kept_before h, lookup-erase_key rec.data_hash a.data_handlers h);
    handlers_hashed = λ h handlers e.
        ground
          (arith, lookup-erase_key rec.data_hash a.data_handlers h, inv.handlers_hashed h handlers);
    per_program = lookup-left_programs;
  }

abbrev pub drop_to {ℓ} : {A : Type ℓ} → ℕ → List A → List A
drop_to n xs = drop (length xs - n) xs

-- The archive after the loop: at most `max_size` recordings are left, the newest ones.
pub record Evicted {D R : Type 0} (a b : Archive D R) : Type 0 where
  pub consistent : Inv b
  pub newest : b.recordings ≡ drop_to a.max_size a.recordings
  pub same_size : b.max_size ≡ a.max_size
  pub same_rng : b.rng ≡ a.rng
  pub same_probability : b.archiving_probability ≡ a.archiving_probability

drop_to_all {ℓ} : {A : Type ℓ} (n : ℕ) (xs : List A) → length xs ≤ n → drop_to n xs ≡ xs
drop_to_all n xs h = let e : length xs - n ≡ 0 = omega arith in rw e

drop_to_cons {ℓ} :
    {A : Type ℓ} (n : ℕ) (x : A) (xs : List A) → n ≤ length xs → drop_to n (x ∷ xs) ≡ drop_to n xs
drop_to_cons n x xs h = let e : suc (length xs) - n ≡ suc (length xs - n) = omega arith in rw e

pub length-drop_to-le {ℓ} : {A : Type ℓ} (n : ℕ) (xs : List A) → length (drop_to n xs) ≤ n
length-drop_to-le {A} n [] = rw (drop_to_all {A = A} n [] (omega arith)) (omega arith)
length-drop_to-le n (x ∷ xs) = elim (Bool-cases (ltb n (length (x ∷ xs)))) [
  | inl e ↦ rw (drop_to_cons n x xs (ground arith)) (length-drop_to-le n xs)
  | inr e ↦ rw (drop_to_all n (x ∷ xs) (ground arith)) (ground arith)
]

list-cases {ℓ} :
    {A : Type ℓ} (xs : List A) → (xs ≡ []) ⊎ ((x : A) × (rest : List A) × (xs ≡ x ∷ rest))
list-cases [] = inl refl
list-cases (x ∷ rest) = inr (x, rest, refl)

unchanged-Evicted :
    {D R : Type 0} (a : Archive D R) → Inv a → length a.recordings ≤ a.max_size → Evicted a a
unchanged-Evicted a inv h = record {
  consistent = inv;
  newest = sym (drop_to_all a.max_size a.recordings h);
  same_size = refl;
  same_rng = refl;
  same_probability = refl;
}

next-Evicted :
    {D R : Type 0} (a : Archive D R) (inv : Inv a) (rec : ArchiveRecording D)
    (rest : List (ArchiveRecording D)) (front : a.recordings ≡ rec ∷ rest) (b : Archive D R)
    → a.max_size ≤ length rest
    → Evicted (evicted a inv rec rest front) b
    → Evicted a b
next-Evicted a inv rec rest front b h left = record {
  consistent = left.consistent;
  newest =
      left.newest ∙ sym (drop_to_cons a.max_size rec rest h) ∙ ap (drop_to a.max_size) (sym front);
  same_size = left.same_size;
  same_rng = left.same_rng;
  same_probability = left.same_probability;
}

pub evict-Evicted :
    {D R : Type 0} (fuel : ℕ) (a : Archive D R)
    → Inv a
    → length a.recordings ≤ fuel + a.max_size
    → (b : Archive D R) × (evict fuel a ≡ ok b) × Evicted a b
unfolding evict
evict-Evicted zero a inv h = (a, refl, unchanged-Evicted a inv (omega arith))
evict-Evicted (suc fuel) a inv h = elim (Bool-cases (ltb a.max_size (length a.recordings))) [
  | inr fits ↦ (a, rw fits refl, unchanged-Evicted a inv (ground arith))
  | inl over ↦ elim (list-cases a.recordings) [
    | inl e ↦ absurd (ground (arith, ap length e))
    | inr (rec, rest, front) ↦
        let sized = ap length front in
        let (b, done, left) =
          evict-Evicted fuel (evicted a inv rec rest front) (evicted-Inv a inv rec rest front)
            (ground arith) in
        (
          b,
          rw (over, evict_first-ok a inv rec rest front) done,
          next-Evicted a inv rec rest front b (ground arith) left,
        )
  ]
]
