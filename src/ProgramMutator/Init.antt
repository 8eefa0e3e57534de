-- ===== src/ProgramMutator/Init.antt =====
-- initRandomProgram of gegelatilib/src/mutator/programMutator.cpp.
use gegelati.Base.{
  Bool-cases, arith, inl, inr, ltb, ltb→lt, ok, refl, suc, zero, ℕ, ◌+◌, ◌∙◌, ◌≡◌, ◌≤◌,
}
use gegelati.Doubles.{Doubles}
use gegelati.Environment.{Environment}
use gegelati.Environment.Laws.{IsEnvironment}
use gegelati.Program.{Program, nb_lines}
use gegelati.Program.Introns.{identify_introns}
use gegelati.Rng.{Rng, RngLaws}
use gegelati.ProgramMutator.{
  ProgramParameters, init_constants, init_random_program, insert_lines, remove_lines,
}
use gegelati.ProgramMutator.Valid.{Valid, identify_introns-Valid}
use gegelati.ProgramMutator.Changes.{
  insert_random_line-Valid, remove_line-Valid, set_constant-Valid,
}
use gegelati.ProgramMutator.Mutate.{Sized}

module _ {D R : Type 0} (F : Doubles D) (rng : Rng D R) (laws : RngLaws rng) (d0 : D)
    (env : Environment D) (is_env : IsEnvironment d0 env) (params : ProgramParameters D) where
  remove_lines-Valid :
      (fuel : ℕ) (p : Program)
      → Valid env p
      → nb_lines p ≤ fuel
      → (next : Program) × (remove_lines fuel p ≡ ok next) × Valid env next × (nb_lines next ≡ 0)
  unfolding remove_lines
  remove_lines-Valid zero p valid enough = (p, refl, valid, omega arith)
  remove_lines-Valid (suc fuel) p valid enough = elim (Bool-cases (ltb 0 (nb_lines p))) [
    | inr empty ↦ (p, rw empty refl, valid, ground arith)
    | inl more ↦
        let (shorter, removed, valid', less) = remove_line-Valid env p 0 valid (ltb→lt _ _ more) in
        let (next, done, last, none_left) = remove_lines-Valid fuel shorter valid' (omega arith) in
        (next, rw (more, removed) done, last, none_left)
  ]

  init_constants-Valid :
      (n i : ℕ) (p : Program) (r : R)
      → Valid env p
      → i + n ≤ env.nb_constants
      → (res : Program × R) × (init_constants F rng env params n i p r ≡ ok res)
        × Valid env res.0
        × (nb_lines res.0 ≡ nb_lines p)
  unfolding init_constants
  init_constants-Valid zero i p r valid fits = ((p, r), refl, valid, refl)
  init_constants-Valid (suc n) i p r valid fits =
      let drawn = rng.int32 params.min_const_value params.max_const_value r in
      let (next, done, valid', same) = set_constant-Valid env p i drawn.0 valid (omega arith) in
      let (res, rest, last, same') =
        init_constants-Valid n (i + 1) next drawn.1 valid' (omega arith) in
      (res, rw done rest, last, same' ∙ same)

  insert_lines-Valid :
      (fuel size : ℕ) (p : Program) (r : R)
      → Valid env p
      → size ≤ fuel + nb_lines p
      → nb_lines p ≤ size
      → (res : Program × R) × (insert_lines F rng env params fuel size p r ≡ ok res)
        × Valid env res.0
        × (nb_lines res.0 ≡ size)
  unfolding insert_lines
  insert_lines-Valid zero size p r valid enough fits = ((p, r), refl, valid, omega arith)
  insert_lines-Valid (suc fuel) size p r valid enough fits =
      elim (Bool-cases (ltb (nb_lines p) size)) [
        | inr full ↦ ((p, r), rw full refl, valid, ground arith)
        | inl room ↦
            let (next, done, valid', longer) =
              insert_random_line-Valid F rng laws d0 env is_env params p r valid in
            let below = ltb→lt (nb_lines p) size room in
            let (res, rest, last, sized) =
              insert_lines-Valid fuel size next.0 next.1 valid' (omega arith) (omega arith) in
            (res, rw (room, done) rest, last, sized)
      ]

  init_steps :
      (p : Program) (r : R) (emptied : Program) (filled made : Program × R) (marked : Program × ℕ)
      → remove_lines (nb_lines p) p ≡ ok emptied
      → init_constants F rng env params env.nb_constants 0 emptied r ≡ ok filled
      → insert_lines F rng env params
          (rng.uint64 1 params.max_program_size filled.1).0
          (rng.uint64 1 params.max_program_size filled.1).0
          filled.0
          (rng.uint64 1 params.max_program_size filled.1).1
        ≡ ok made
      → identify_introns env made.0 ≡ ok marked
      → init_random_program F rng env params p r ≡ ok (marked.0, made.1)
  unfolding init_random_program
  init_steps p r emptied filled made marked done1 done2 done3 done4 =
      rw (done1, done2, done3, done4) refl

  -- initRandomProgram returns, whatever the random numbers and the valid program that it starts
  -- from: the new program has correct lines, the right number of constants, at least one line and
  -- at most the maximum, which is not 0.
  pub init_random_program-Sized :
      (p : Program) (r : R)
      → Valid env p
      → 1 ≤ params.max_program_size
      → (res : Program × R) × (init_random_program F rng env params p r ≡ ok res)
        × Sized env params.max_program_size res.0
  init_random_program-Sized p r valid some_size =
      let (emptied, done1, valid1, none_left) =
        remove_lines-Valid (nb_lines p) p valid (omega arith) in
      let (filled, done2, valid2, same) =
        init_constants-Valid env.nb_constants 0 emptied r valid1 (omega arith) in
      let size = rng.uint64 1 params.max_program_size filled.1 in
      let (least, most) = laws.uint64_range 1 params.max_program_size filled.1 some_size in
      let (made, done3, valid3, sized) =
        insert_lines-Valid size.0 size.0 filled.0 size.1 valid2 (omega arith) (omega arith) in
      let (marked, done4, valid4, kept) = identify_introns-Valid d0 env is_env made.0 valid3 in
      (
        (marked.0, made.1),
        init_steps p r emptied filled made marked done1 done2 done3 done4,
        record { valid = valid4; some_line = omega arith; bounded = omega arith },
      )
