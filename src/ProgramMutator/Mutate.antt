-- ===== src/ProgramMutator/Mutate.antt =====
-- mutateProgram and initRandomProgram of gegelatilib/src/mutator/programMutator.cpp.
use gegelati.Base.{
  Bool, Bool-cases, Result, arith, false, inl, inr, ltb, ltb→lt, ok, refl, true, ℕ, ◌<◌, ◌≡◌, ◌≤◌,
  if◌then◌else◌, ◌>>=◌,
}
use gegelati.Doubles.{Doubles}
use gegelati.Environment.{Environment}
use gegelati.Environment.Laws.{IsEnvironment}
use gegelati.Program.{Program, nb_lines}
use gegelati.Rng.{Rng, RngLaws}
use gegelati.ProgramMutator.{
  ProgramParameters, alter_random_constant, alter_random_line, attempt, chance, delete_random_line,
  forget, insert_random_line, mutate_program, swap_random_lines,
}
use gegelati.ProgramMutator.Valid.{Valid, identify_introns-Valid}
use gegelati.ProgramMutator.Changes.{
  Kept, alter_random_constant-Valid, alter_random_line-Valid, delete_random_line-Valid,
  insert_random_line-Valid, swap_random_lines-Valid,
}
use gegelati.Program.Introns.{identify_introns}

-- A valid program with at least one line and at most the maximum.
pub record Sized {D : Type 0} (env : Environment D) (max_size : ℕ) (p : Program) : Type 0 where
  pub valid : Valid env p
  pub some_line : 1 ≤ nb_lines p
  pub bounded : nb_lines p ≤ max_size

module _ {D R : Type 0} (F : Doubles D) (rng : Rng D R) (laws : RngLaws rng) (d0 : D)
    (env : Environment D) (is_env : IsEnvironment d0 env) (params : ProgramParameters D) where
  abbrev Fine : Program → Type 0
  Fine = Sized env params.max_program_size

  -- A change that keeps a program fine, where its condition holds, is attempted without an error.
  attempt-Sized :
      (condition : Bool) (probability : D) (change : Program → R → Result (Program × R))
      (m : Program × Bool × R)
      → Fine m.0
      → ((r : R) → condition ≡ true → (next : Program × R) × (change m.0 r ≡ ok next) × Fine next.0)
      → (res : Program × Bool × R) × (attempt F rng env params condition probability change m
          ≡ ok res)
        × Fine res.0
  unfolding attempt chance
  attempt-Sized false probability change (p, any, r) fine keeps = ((p, any, r), refl, fine)
  attempt-Sized true probability change (p, any, r) fine keeps =
      elim (Bool-cases (F.lt (rng.unit_double r).0 probability)) [
        | inl chosen ↦
            let (next, done, fine') = keeps (rng.unit_double r).1 refl in
            ((next.0, true, next.1), rw (chosen, done) refl, fine')
        | inr passed ↦ ((p, any, (rng.unit_double r).1), rw passed refl, fine)
      ]

  forget-Sized :
      (p : Program) (r : R) (change : Program → R → Result (Program × Bool × R)) (less : ℕ)
      → Fine p
      → Kept F rng laws d0 env is_env params p (change p r) less
      → less < nb_lines p
      → (next : Program × R) × (forget F rng env params change p r ≡ ok next) × Fine next.0
  forget-Sized p r change less fine (res, done, valid, most, least) room =
      let bound = fine.bounded in
      (
        (res.0, res.2),
        rw done refl,
        record { valid = valid; some_line = omega arith; bounded = omega arith },
      )

  insert-Sized :
      (p : Program) (r : R)
      → Fine p
      → nb_lines p < params.max_program_size
      → (next : Program × R) × (insert_random_line F rng env params p r ≡ ok next) × Fine next.0
  insert-Sized p r fine room =
      let (res, done, valid, longer) =
        insert_random_line-Valid F rng laws d0 env is_env params p r fine.valid in
      (res, done, record { valid = valid; some_line = omega arith; bounded = omega arith })

  marked-Sized :
      (p marked : Program) → Fine p → Valid env marked → nb_lines marked ≡ nb_lines p → Fine marked
  marked-Sized p marked fine valid same =
      let some_line = fine.some_line in
      let bounded = fine.bounded in
      record { valid = valid; some_line = omega arith; bounded = omega arith }

  -- The last part of mutateProgram.
  abbrev mark_if_changed : Program × Bool × R → Result (Program × Bool × R)
  mark_if_changed changed =
      if changed.1
      then (identify_introns env changed.0 >>= λ marked. ok (marked.0, true, changed.2))
      else ok changed

  mark_if_changed-Sized :
      (changed : Program × Bool × R)
      → Fine changed.0
      → (res : Program × Bool × R) × (mark_if_changed changed ≡ ok res) × Fine res.0
  mark_if_changed-Sized (p, false, r) fine = ((p, false, r), refl, fine)
  mark_if_changed-Sized (p, true, r) fine =
      let (marked, identified, valid, kept) = identify_introns-Valid d0 env is_env p fine.valid in
      ((marked.0, true, r), rw identified refl, marked-Sized p marked.0 fine valid kept)

  module _ (p : Program) (r : R) (shorter longer altered swapped changed : Program × Bool × R) where
    mutate_steps :
        attempt F rng env params
            (ltb 1 (nb_lines p))
            params.p_delete
            (forget F rng env params (delete_random_line F rng env params))
            (p, false, r)
          ≡ ok shorter
        → attempt F rng env params
            (ltb (nb_lines shorter.0) params.max_program_size)
            params.p_add
            (insert_random_line F rng env params)
            shorter
          ≡ ok longer
        → attempt F rng env params true params.p_mutate
            (forget F rng env params (alter_random_line F rng env params))
            longer
          ≡ ok altered
        → attempt F rng env params true params.p_swap
            (forget F rng env params (swap_random_lines F rng env params))
            altered
          ≡ ok swapped
        → attempt F rng env params
            (ltb 0 env.nb_constants)
            params.p_constant_mutation
            (forget F rng env params (alter_random_constant F rng env params))
            swapped
          ≡ ok changed
        → (res : Program × Bool × R) → mark_if_changed changed ≡ ok res
        → mutate_program F rng env params p r ≡ ok res
    unfolding mutate_program
    mutate_steps done1 done2 done3 done4 done5 res finished =
        rw (done1, done2, done3, done4, done5) finished

  -- mutateProgram returns, whatever the random numbers, and the program that it leaves has correct
  -- lines, the right number of constants, at least one line and at most the maximum, if it had
  -- before.
  pub mutate_program-Sized :
      (p : Program) (r : R)
      → Fine p
      → (res : Program × Bool × R) × (mutate_program F rng env params p r ≡ ok res) × Fine res.0
  mutate_program-Sized p r fine =
      let (shorter, done1, fine1) =
        attempt-Sized (ltb 1 (nb_lines p)) params.p_delete
          (forget F rng env params (delete_random_line F rng env params)) (p, false, r) fine
          (λ r' long.
            forget-Sized p r' (delete_random_line F rng env params) 1 fine
              (delete_random_line-Valid F rng laws d0 env is_env params p r' fine.valid)
              (ltb→lt _ _ long)) in
      let (longer, done2, fine2) =
        attempt-Sized (ltb (nb_lines shorter.0) params.max_program_size) params.p_add
          (insert_random_line F rng env params) shorter fine1
          (λ r' room. insert-Sized shorter.0 r' fine1 (ltb→lt _ _ room)) in
      let (altered, done3, fine3) =
        attempt-Sized true params.p_mutate
          (forget F rng env params (alter_random_line F rng env params)) longer fine2
          (λ r' h.
            forget-Sized longer.0 r' (alter_random_line F rng env params) 0 fine2
              (alter_random_line-Valid F rng laws d0 env is_env params longer.0 r' fine2.valid)
              fine2.some_line) in
      let (swapped, done4, fine4) =
        attempt-Sized true params.p_swap
          (forget F rng env params (swap_random_lines F rng env params)) altered fine3
          (λ r' h.
            forget-Sized altered.0 r' (swap_random_lines F rng env params) 0 fine3
              (swap_random_lines-Valid F rng laws d0 env is_env params altered.0 r' fine3.valid)
              fine3.some_line) in
      let (changed, done5, fine5) =
        attempt-Sized (ltb 0 env.nb_constants) params.p_constant_mutation
          (forget F rng env params (alter_random_constant F rng env params)) swapped fine4
          (λ r' several.
            forget-Sized swapped.0 r' (alter_random_constant F rng env params) 0 fine4
              (alter_random_constant-Valid F rng laws d0 env is_env params swapped.0 r' fine4.valid
                (ltb→lt _ _ several))
              fine4.some_line) in
      let (res, finished, fine6) = mark_if_changed-Sized changed fine5 in
      (
        res,
        mutate_steps p r shorter longer altered swapped changed done1 done2 done3 done4 done5 res
            finished,
        fine6,
      )
