-- ===== src/Mutator/Fresh.antt =====
-- initRandomCorrectLineOperand of gegelatilib/src/mutator/lineMutator.cpp, as initRandomCorrectLine
-- calls it: a source and a location are drawn, whatever the operand was before.
use gegelati.Base.{
  Bool, Bool-cases, List, [], arith, elem_at-found, false, get_elem?, get_elem?-beyond,
  get_elem?-set, inl, inr, leb, length, length-set, ltb, ltb→lt, ok, out_of_range, refl, set, some,
  sub64, sub64-sub64-lt, subst, suc, true, undefined, zero, ℕ, ◌+◌, ◌<◌, ◌==◌, ◌∙◌, ◌≡◌,
}
use gegelati.Data.{TypeInfo}
use gegelati.Environment.{Environment, Instruction, nb_operands}
use gegelati.Environment.Laws.{IsEnvironment}
use gegelati.Program.{Line, get_operand, set_operand}
use gegelati.Rng.{Rng, RngLaws}
use gegelati.Mutator.{choose_location, choose_source, init_operand, init_operands}
use gegelati.Mutator.Sources.{handles, search_source-Searched}

-- The operand is within bounds, and its source provides what is wanted at `k`.
abbrev pub Fits : {D : Type 0} → Environment D → List TypeInfo → ℕ → ℕ × ℕ → Type 0
Fits env types k operand =
    (operand.0 < env.nb_data_sources)
    × (operand.1 < env.largest_address_space)
    × ((t : TypeInfo) → get_elem? types k ≡ some t → handles env operand.0 t ≡ true)

module _ {D R : Type 0} (rng : Rng D R) (laws : RngLaws rng) (d0 : D) (env : Environment D)
    (is_env : IsEnvironment d0 env) (instruction : Instruction D)
    (provided : (k : ℕ) (t : TypeInfo)
      → get_elem? instruction.operand_types k ≡ some t
      → (j : ℕ) × (j < env.nb_data_sources) × (handles env j t ≡ true)) where
  fresh_source :
      (current idx : ℕ) (r : R)
      → (res : ℕ × Bool × R) × (choose_source rng env instruction current idx true false r ≡ ok res)
        × (res.1 ≡ true)
        × (res.0 < env.nb_data_sources)
        × ((t : TypeInfo)
            → get_elem? instruction.operand_types idx ≡ some t
            → handles env res.0 t ≡ true)
  unfolding choose_source
  fresh_source current idx r = elim (Bool-cases (ltb idx (nb_operands instruction))) [
    | inr free ↦
        let most = sub64 (sub64 env.nb_data_sources 1) 0 in
        let drawn = rng.uint64 0 most r in
        let (_, below) = laws.uint64_range 0 most r (omega arith) in
        let room = sub64-sub64-lt env.nb_data_sources 0 (ground (arith, is_env.several_sources)) in
        let beyond = get_elem?-beyond instruction.operand_types idx (ground arith) in
        ((drawn.0, true, drawn.1), rw free refl, refl, omega arith, λ t at_t. absurd (ground arith))
    | inl typed ↦
        let (type, found, at_idx) =
          elem_at-found instruction.operand_types idx out_of_range (ltb→lt _ _ typed) in
        let (res, done, searched) =
          search_source-Searched rng laws env is_env.sources_counted type env.nb_data_sources []
            current r tt (omega arith) in
        elim searched [
          | inl (hit, inside, new, handled) ↦ (
            res,
            rw (typed, found) done,
            hit,
            inside,
            λ t at_t.
                let same : type ≡ t = cc in subst (λ u. handles env res.0 u ≡ true) same handled,
          )
          | inr (missed, all) ↦
              let (j, inside, handled) = provided idx type at_idx in
              absurd (ground (arith, all j inside))
        ]
  ]

  fresh_location :
      (current : ℕ) (r : R)
      → (choose_location rng env current true false r).0 < env.largest_address_space
  unfolding choose_location
  fresh_location current r =
      let most = sub64 (sub64 env.largest_address_space 1) 0 in
      let room =
        sub64-sub64-lt env.largest_address_space 0
          (omega (arith, is_env.some_address, is_env.some_register)) in
      let (_, below) = laws.uint64_range 0 most r (omega arith) in omega arith

  module _ (line : Line) (idx : ℕ) (r : R) (counted : length line.operands ≡ env.max_nb_operands)
      (inside : idx < env.max_nb_operands) where
    fresh_step :
        (operand : ℕ × ℕ) (source : ℕ × Bool × R)
        → get_operand env line idx ≡ ok operand
        → choose_source rng env instruction operand.0 idx true false r ≡ ok source
        → source.1 ≡ true
        → (location : ℕ × R) → choose_location rng env operand.1 true false source.2 ≡ location
        → source.0 < env.nb_data_sources
        → location.0 < env.largest_address_space
        → init_operand rng env instruction line idx true true false r
          ≡ ok (
            record line { operands = set line.operands idx (source.0, location.0) },
            true,
            location.1,
          )
    unfolding init_operand set_operand
    fresh_step operand source there chose hit location drawn source_valid location_valid =
        let a : leb env.max_nb_operands idx ≡ false = ground arith in
        let b : leb env.nb_data_sources source.0 ≡ false = ground arith in
        let c : leb env.largest_address_space location.0 ≡ false = ground arith in
        rw (there, chose, hit, drawn, a, b, c) refl

    fresh_operand :
        (operand : ℕ × ℕ) × (next : R) × (init_operand rng env instruction line idx true true false
            r
          ≡ ok (record line { operands = set line.operands idx operand }, true, next))
        × Fits env instruction.operand_types idx operand
    unfolding get_operand
    fresh_operand =
        let (operand, found, at_idx) =
          elem_at-found line.operands idx undefined (rw counted inside) in
        let (source, chose, hit, source_valid, handled) = fresh_source operand.0 idx r in
        let location = choose_location rng env operand.1 true false source.2 in
        let location_valid = fresh_location operand.1 source.2 in
        (
          (source.0, location.0),
          location.1,
          fresh_step operand source (ground (arith, found)) chose hit location refl source_valid
              location_valid,
          (source_valid, location_valid, handled),
        )

  -- The first operands fit.
  abbrev FitsBelow : ℕ → List (ℕ × ℕ) → Type 0
  FitsBelow idx operands =
      (k : ℕ) (operand : ℕ × ℕ)
      → k < idx
      → get_elem? operands k ≡ some operand
      → Fits env instruction.operand_types k operand

  FitsBelow-set :
      (operands : List (ℕ × ℕ)) (idx : ℕ) (operand : ℕ × ℕ)
      → FitsBelow idx operands
      → Fits env instruction.operand_types idx operand
      → FitsBelow (idx + 1) (set operands idx operand)
  FitsBelow-set operands idx operand below fits k o h at_k =
      let known = get_elem?-set operands idx k operand in
      elim (Bool-cases (idx == k)) [
        | inl same ↦
            let itself : idx ≡ k = ground arith in
            let drawn : operand ≡ o = ground arith in
            subst (λ j. Fits env instruction.operand_types j o) itself
              (subst (λ p. Fits env instruction.operand_types idx p) drawn fits)
        | inr other ↦ below k o (ground arith) (ground arith)
      ]

  -- The loop over the operands, from the first ones, which fit.
  pub init_operands-Fits :
      (m : ℕ) (line : Line) (idx : ℕ) (r : R)
      → length line.operands ≡ env.max_nb_operands
      → idx + m ≡ env.max_nb_operands
      → FitsBelow idx line.operands
      → (operands : List (ℕ × ℕ)) × (next : R) × (init_operands rng env m instruction line idx r
          ≡ ok (record line { operands = operands }, next))
        × (length operands ≡ env.max_nb_operands)
        × ((k : ℕ) (operand : ℕ × ℕ)
            → get_elem? operands k ≡ some operand
            → Fits env instruction.operand_types k operand)
  unfolding init_operands
  init_operands-Fits zero line idx r counted count below = (
    line.operands,
    r,
    refl,
    counted,
    λ k operand at_k. elim (Bool-cases (ltb k idx)) [
      | inl h ↦ below k operand (ltb→lt _ _ h) at_k
      | inr h ↦
          let none_there = get_elem?-beyond line.operands k (ground arith) in absurd (ground arith)
    ],
  )
  init_operands-Fits (suc m) line idx r counted count below =
      let (operand, next, done, fits) = fresh_operand line idx r counted (omega arith) in
      let placed = set line.operands idx operand in
      let (operands, last, rest, counted', all) =
        init_operands-Fits m (record line { operands = placed }) (idx + 1) next
          (length-set line.operands idx operand ∙ counted) (omega arith)
          (FitsBelow-set line.operands idx operand below fits) in
      (operands, last, rw done rest, counted', all)
