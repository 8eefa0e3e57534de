-- ===== src/Mutator/Sources.antt =====
-- The search for a data source (initRandomCorrectLineOperand of
-- gegelatilib/src/mutator/lineMutator.cpp) tests each source at most once, and finds one if there
-- is one.
use gegelati.Base.{
  Bool-cases, List, [], arith, false, inl, inr, leb, length, ltb, member, refl, true, ℕ, ◌+◌, ◌<◌,
  ◌==◌, ◌||◌, ◌∷◌, ◌≡◌, ◌≤◌, Bool, Option, get_elem?, if◌then◌else◌, none, some, sub64, ◌⊎◌, ==_iff,
  elem_at, elem_at-eq-or_fail, elem_at-inside, ltb→lt, ok, or_fail-ok, out_of_range, sub64-sub64-lt,
  subst, suc, sym, zero, ◌∙◌,
}
use gegelati.Mutator.{insert_sorted, shift_past, search_source}
use gegelati.Data.{DataHandler, TypeInfo}
use gegelati.Environment.{Environment}
use gegelati.Rng.{Rng, RngLaws}

-- Ascending numbers from `lo` on and below `n`.
abbrev pub Ascending : ℕ → ℕ → List ℕ → Type 0
Ascending lo n [] = Unit {0}
Ascending lo n (t ∷ ts) = (lo ≤ t) × (t < n) × Ascending (t + 1) n ts

length-Ascending : (lo n : ℕ) (ts : List ℕ) → lo ≤ n → Ascending lo n ts → lo + length ts ≤ n
length-Ascending lo n [] h asc = omega arith
length-Ascending lo n (t ∷ ts) h asc =
    omega (arith, length-Ascending (t + 1) n ts (omega arith) asc.2)

-- A list of as many numbers as there are holds them all.
member-Ascending :
    (lo n : ℕ) (ts : List ℕ) (j : ℕ)
    → Ascending lo n ts
    → n ≤ lo + length ts
    → lo ≤ j
    → j < n
    → member j ts ≡ true
member-Ascending lo n [] j asc full from below = absurd (omega arith)
member-Ascending lo n (t ∷ ts) j asc full from below =
    let rest = length-Ascending (t + 1) n ts (omega arith) asc.2 in
    elim (Bool-cases (t == j)) [
      | inl here ↦ ground arith
      | inr there ↦ ground (arith, member-Ascending (t + 1) n ts j asc.2 (omega arith))
    ]

shift_past-le : (i : ℕ) (ts : List ℕ) → (i ≤ shift_past i ts) × (shift_past i ts ≤ i + length ts)
unfolding shift_past
shift_past-le i [] = omega arith
shift_past-le i (t ∷ ts) = ground (arith, shift_past-le i ts, shift_past-le (i + 1) ts)

-- Numbers above the index do not move it.
shift_past_below : (i lo n : ℕ) (ts : List ℕ) → Ascending lo n ts → i < lo → shift_past i ts ≡ i
unfolding shift_past
shift_past_below i lo n [] asc h = refl
shift_past_below i lo n (t ∷ ts) asc h =
    ground (arith, shift_past_below i (t + 1) n ts asc.2 (omega arith))

not-member-Ascending : (j lo n : ℕ) (ts : List ℕ) → Ascending lo n ts → j < lo → member j ts ≡ false
not-member-Ascending j lo n [] asc h = refl
not-member-Ascending j lo n (t ∷ ts) asc h =
    ground (arith, not-member-Ascending j (t + 1) n ts asc.2 (omega arith))

shift_past_cons :
    (i t : ℕ) (ts : List ℕ) → shift_past i (t ∷ ts) ≡ shift_past (if leb t i then i + 1 else i) ts
unfolding shift_past
shift_past_cons i t ts = refl

-- The corrected index is a new one.
member-shift_past :
    (i lo n : ℕ) (ts : List ℕ) → Ascending lo n ts → member (shift_past i ts) ts ≡ false
member-shift_past i lo n [] asc = refl
member-shift_past i lo n (t ∷ ts) asc = elim (Bool-cases (leb t i)) [
  | inl past ↦
      let step = shift_past_cons i t ts in
      let moved : shift_past i (t ∷ ts) ≡ shift_past (i + 1) ts = rw past at step in
      ground (arith, member-shift_past (i + 1) (t + 1) n ts asc.2, shift_past-le (i + 1) ts)
  | inr before ↦
      let step = shift_past_cons i t ts in
      let kept : shift_past i (t ∷ ts) ≡ shift_past i ts = rw before at step in
      ground
        (arith, shift_past_below i (t + 1) n ts asc.2, not-member-Ascending i (t + 1) n ts asc.2)
]

insert_sorted-Ascending :
    (a lo n : ℕ) (ts : List ℕ)
    → Ascending lo n ts
    → lo ≤ a
    → a < n
    → Ascending lo n (insert_sorted a ts)
unfolding insert_sorted
insert_sorted-Ascending a lo n [] asc from below = omega arith
insert_sorted-Ascending a lo n (t ∷ ts) asc from below = elim (Bool-cases (a == t)) [
  | inl same ↦ rw same asc
  | inr other ↦ elim (Bool-cases (ltb a t)) [
    | inl before ↦ rw (other, before) (from, below, (ground arith, asc.1, asc.2))
    | inr after ↦
        rw (other, after)
          (asc.0, asc.1, insert_sorted-Ascending a (t + 1) n ts asc.2 (ground arith) below)
  ]
]

length-insert_sorted :
    (a : ℕ) (ts : List ℕ) → member a ts ≡ false → length (insert_sorted a ts) ≡ length ts + 1
unfolding insert_sorted
length-insert_sorted a [] new = omega arith
length-insert_sorted a (t ∷ ts) new = ground (arith, length-insert_sorted a ts)

member-insert_sorted :
    (j a : ℕ) (ts : List ℕ) → member j (insert_sorted a ts) ≡ (a == j || member j ts)
unfolding insert_sorted
member-insert_sorted j a [] = ground arith
member-insert_sorted j a (t ∷ ts) = ground (arith, member-insert_sorted j a ts)

-- Can the source at the index handle the type?
abbrev pub handled_by : {D : Type 0} → Option (DataHandler D) → TypeInfo → Bool
handled_by none type = false
handled_by (some source) type = source.can_handle type

abbrev pub handles : {D : Type 0} → Environment D → ℕ → TypeInfo → Bool
handles env j type = handled_by (get_elem? env.fake_data_sources j) type

module _ {D R : Type 0} (rng : Rng D R) (laws : RngLaws rng) (env : Environment D)
    (counted : env.nb_data_sources ≡ length env.fake_data_sources) (type : TypeInfo) where
  -- Either a source is found that handles the type and was not tested before, or none of those
  -- that were not tested handles it.
  abbrev pub Searched : List ℕ → ℕ × Bool × R → Type 0
  Searched tested res =
      ((res.1 ≡ true)
        × (res.0 < env.nb_data_sources)
        × (member res.0 tested ≡ false)
        × (handles env res.0 type ≡ true))
      ⊎ ((res.1 ≡ false)
          × ((j : ℕ)
              → j < env.nb_data_sources
              → member j tested ≡ false
              → handles env j type ≡ false))

  drawn_index :
      (tested : List ℕ) (r : R)
      → Ascending 0 env.nb_data_sources tested
      → length tested < env.nb_data_sources
      → shift_past (rng.uint64 0 (sub64 (sub64 env.nb_data_sources 1) (length tested)) r).0 tested
        < env.nb_data_sources
  drawn_index tested r asc room =
      let last = sub64 (sub64 env.nb_data_sources 1) (length tested) in
      let bound : last + length tested < env.nb_data_sources =
        sub64-sub64-lt env.nb_data_sources (length tested) room in
      omega (
        arith,
        laws.uint64_range 0 last r (omega arith),
        shift_past-le (rng.uint64 0 last r).0 tested,
      )

  source_at_index :
      (j : ℕ)
      → j < env.nb_data_sources
      → (source : DataHandler D) × (elem_at env.fake_data_sources j out_of_range ≡ ok source)
        × (handles env j type ≡ source.can_handle type)
  source_at_index j h =
      let (source, found) =
        elem_at-inside env.fake_data_sources j out_of_range (rw (← counted) h) in
      let at_j =
        or_fail-ok (get_elem? env.fake_data_sources j) out_of_range source
          (sym (elem_at-eq-or_fail env.fake_data_sources j out_of_range) ∙ found) in
      (source, found, rw at_j refl)

  widen :
      (tested : List ℕ) (index : ℕ) (res : ℕ × Bool × R)
      → handles env index type ≡ false
      → Searched (insert_sorted index tested) res
      → Searched tested res
  widen tested index res refused (inl (found, inside, new, handled)) =
      inl (found, inside, ground (arith, member-insert_sorted res.0 index tested), handled)
  widen tested index res refused (inr (missed, all)) = inr (
    missed,
    λ j below new. elim (Bool-cases (index == j)) [
      | inl same ↦ subst (λ k. handles env k type ≡ false) ((==_iff index j).0 same) refused
      | inr other ↦ all j below (ground (arith, member-insert_sorted j index tested))
    ],
  )

  pub search_source-Searched :
      (fuel : ℕ) (tested : List ℕ) (current : ℕ) (r : R)
      → Ascending 0 env.nb_data_sources tested
      → env.nb_data_sources ≤ fuel + length tested
      → (res : ℕ × Bool × R) × (search_source rng env fuel type tested current r ≡ ok res)
        × Searched tested res
  unfolding search_source
  search_source-Searched zero tested current r asc enough = (
    (current, false, r),
    refl,
    inr (
      refl,
      λ j below new.
          absurd
            (ground (arith, member-Ascending 0 env.nb_data_sources tested j asc (omega arith))),
    ),
  )
  search_source-Searched (suc fuel) tested current r asc enough =
      elim (Bool-cases (ltb (length tested) env.nb_data_sources)) [
        | inr full ↦ (
          (current, false, r),
          rw full refl,
          inr (
            refl,
            λ j below new. absurd (
                ground (arith, member-Ascending 0 env.nb_data_sources tested j asc (ground arith))),
          ),
        )
        | inl room ↦
            let drawn = rng.uint64 0 (sub64 (sub64 env.nb_data_sources 1) (length tested)) r in
            let index = shift_past drawn.0 tested in
            let inside = drawn_index tested r asc (ltb→lt _ _ room) in
            let new = member-shift_past drawn.0 0 env.nb_data_sources tested asc in
            let (source, found, same) = source_at_index index inside in
            elim (Bool-cases (source.can_handle type)) [
              | inl yes' ↦ (
                (index, true, drawn.1),
                rw (room, found, yes') refl,
                inl (refl, inside, new, same ∙ yes'),
              )
              | inr no' ↦
                  let (res, done, searched) =
                    search_source-Searched fuel (insert_sorted index tested) index drawn.1
                      (insert_sorted-Ascending index 0 env.nb_data_sources tested asc (omega arith)
                        inside)
                      (omega (arith, length-insert_sorted index tested new)) in
                  (res, rw (room, found, no') done, widen tested index res (same ∙ no') searched)
            ]
      ]
