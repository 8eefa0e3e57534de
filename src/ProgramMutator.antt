-- ===== src/ProgramMutator.antt =====
-- gegelatilib/src/mutator/programMutator.cpp: random programs, and random changes to a program.
-- The parameters are ProgramParameters of mutator/mutationParameters.h. Functions take the state of
-- the random engine and return it.
pub mod Valid
pub mod Providers
pub mod Runs
pub mod Changes
pub mod Mutate
pub mod Init
pub mod Samples
mod Tests
use gegelati.Base.{
  Bool, Result, ℕ, ℤ, false, guard, if◌then◌else◌, invalid_argument, leb, length, ltb, ok,
  out_of_range, set, sub64, suc, true, zero, ◌+◌, ◌>>=◌, ◌>>◌,
}
use gegelati.Doubles.{Doubles}
use gegelati.Environment.{Environment}
use gegelati.Program.{
  Program, add_new_line, get_line, is_intron, nb_lines, new_line, remove_line, swap_lines,
}
use gegelati.Program.Introns.{identify_introns}
use gegelati.Rng.{Rng}
use gegelati.Mutator.{init_random_correct_line, alter_correct_line}

pub record ProgramParameters (D : Type 0) : Type 0 where
  pub max_program_size : ℕ
  pub p_delete : D
  pub p_add : D
  pub p_mutate : D
  pub p_swap : D
  pub p_constant_mutation : D
  pub min_const_value : ℤ
  pub max_const_value : ℤ

-- The constant handler's setDataAt.
unfoldable pub set_constant : Program → ℕ → ℤ → Result Program
set_constant p idx value = do
  guard (ltb 0 (length p.constants)) invalid_argument
  guard (ltb idx (length p.constants)) out_of_range
  ok (record p { constants = set p.constants idx value })

-- The loop that empties the program, on fuel.
unfoldable pub remove_lines : ℕ → Program → Result Program
unfolding remove_line
remove_lines zero p = ok p
remove_lines (suc fuel) p =
    let rest = remove_line p 0 >>= remove_lines fuel in if ltb 0 (nb_lines p) then rest else ok p

module _ {D R : Type 0} (F : Doubles D) (rng : Rng D R) (env : Environment D)
    (params : ProgramParameters D) where
  -- The loop over the constants, from number `i` on.
  unfoldable pub init_constants : ℕ → ℕ → Program → R → Result (Program × R)
  unfolding set_constant
  init_constants zero i p r = ok (p, r)
  init_constants (suc n) i p r =
      let drawn = rng.int32 params.min_const_value params.max_const_value r in
      do next ← set_constant p i drawn.0; init_constants n (i + 1) next drawn.1

  -- The new line is added, and then made correct in its place.
  unfoldable pub insert_random_line : Program → R → Result (Program × R)
  unfolding add_new_line init_random_correct_line
  insert_random_line p r =
      let index = rng.uint64 0 (nb_lines p) r in
      do
        added ← add_new_line p index.0 (new_line env)
        written ← init_random_correct_line rng env (new_line env) index.1
        ok (record added { lines = set added.lines index.0 (written.0, false) }, written.1)

  -- The loop that inserts lines, on fuel.
  unfoldable pub insert_lines : ℕ → ℕ → Program → R → Result (Program × R)
  unfolding insert_random_line
  insert_lines zero size p r = ok (p, r)
  insert_lines (suc fuel) size p r =
      let rest = insert_random_line p r >>= λ next. insert_lines fuel size next.0 next.1 in
      if ltb (nb_lines p) size then rest else ok (p, r)

  unfoldable pub init_random_program : Program → R → Result (Program × R)
  unfolding remove_lines init_constants insert_lines identify_introns
  init_random_program p r = do
    emptied ← remove_lines (nb_lines p) p
    filled ← init_constants env.nb_constants 0 emptied r
    let size = rng.uint64 1 params.max_program_size filled.1
    made ← insert_lines size.0 size.0 filled.0 size.1
    marked ← identify_introns env made.0
    ok (marked.0, made.1)

  -- The changes return whether they have changed the program.
  unfoldable pub delete_random_line : Program → R → Result (Program × Bool × R)
  unfolding remove_line
  delete_random_line p r =
      let index = rng.uint64 0 (sub64 (nb_lines p) 1) r in
      if leb (nb_lines p) 1
      then ok (p, false, r)
      else (do next ← remove_line p index.0; ok (next, true, index.1))

  unfoldable pub swap_random_lines : Program → R → Result (Program × Bool × R)
  unfolding swap_lines
  swap_random_lines p r =
      let index0 = rng.uint64 0 (sub64 (nb_lines p) 1) r in
      let drawn = rng.uint64 0 (sub64 (nb_lines p) 2) index0.1 in
      let index1 = if leb index0.0 drawn.0 then drawn.0 + 1 else drawn.0 in
      if ltb (nb_lines p) 2
      then ok (p, false, r)
      else (do next ← swap_lines p index0.0 index1; ok (next, true, drawn.1))

  -- The line is changed in place.
  unfoldable pub alter_random_line : Program → R → Result (Program × Bool × R)
  unfolding get_line is_intron alter_correct_line
  alter_random_line p r =
      let index = rng.uint64 0 (sub64 (nb_lines p) 1) r in
      if ltb (nb_lines p) 1 then ok (p, false, r) else (do
        line ← get_line p index.0
        flag ← is_intron p index.0
        altered ← alter_correct_line rng env line index.1
        ok (record p { lines = set p.lines index.0 (altered.0, flag) }, true, altered.1))

  unfoldable pub alter_random_constant : Program → R → Result (Program × Bool × R)
  unfolding set_constant
  alter_random_constant p r =
      let index = rng.uint64 0 (sub64 env.nb_constants 1) r in
      let drawn = rng.int32 params.min_const_value params.max_const_value index.1 in
      do next ← set_constant p index.0 drawn.0; ok (next, true, drawn.1)

  -- `condition && rng.getDouble(0.0, 1.0) < probability`
  unfoldable pub chance : Bool → D → R → Bool × R
  chance condition probability r =
      let drawn = rng.unit_double r in
      if condition then (F.lt drawn.0 probability, drawn.1) else (false, r)

  -- One change of mutateProgram, on the program, the flag anyMutation and the random engine.
  unfoldable pub attempt :
      Bool
      → D
      → (Program → R → Result (Program × R))
      → Program × Bool × R
      → Result (Program × Bool × R)
  unfolding chance
  attempt condition probability change (p, any, r) =
      let asked = chance condition probability r in
      if asked.0
      then (do next ← change p asked.1; ok (next.0, true, next.1))
      else ok (p, any, asked.1)

  abbrev pub forget :
      (Program → R → Result (Program × Bool × R)) → Program → R → Result (Program × R)
  forget change p r = change p r >>= λ done. ok (done.0, done.2)

  unfoldable pub mutate_program : Program → R → Result (Program × Bool × R)
  unfolding attempt delete_random_line insert_random_line alter_random_line swap_random_lines
      alter_random_constant identify_introns
  mutate_program p r = do
    shorter ← attempt (ltb 1 (nb_lines p)) params.p_delete (forget delete_random_line) (p, false, r)
    longer ←
        attempt (ltb (nb_lines shorter.0) params.max_program_size) params.p_add insert_random_line
          shorter
    altered ← attempt true params.p_mutate (forget alter_random_line) longer
    swapped ← attempt true params.p_swap (forget swap_random_lines) altered
    changed ←
        attempt (ltb 0 env.nb_constants) params.p_constant_mutation (forget alter_random_constant)
          swapped
    (if changed.1
        then (do marked ← identify_introns env changed.0; ok (marked.0, true, changed.2))
        else ok changed)
