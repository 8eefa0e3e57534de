-- ===== src/ProgramMutator/Providers.antt =====
-- The data sources of an engine (gegelatilib/src/program/programEngine.cpp) provide what those of
-- the environment do.
use gegelati.Base.{
  Bool-cases, Each, List, [], arith, elem_at, get_elem?, inl, inr, length, length-map, ltb, map, ok,
  out_of_range, refl, suc, true, zero, ℕ, ◌∷◌, ◌≡◌,
}
use gegelati.Data.{Cell, DataHandler, TypeInfo, int}
use gegelati.Data.Arrays.{can_handle, get_address_space, handler}
use gegelati.Data.Reading.{IsReadable, handler-IsReadable}
use gegelati.Environment.{Environment, constants_of, registers_of}
use gegelati.Environment.Laws.{IsEnvironment}
use gegelati.Program.{Program}
use gegelati.Program.Engine.{constants_array, registers_array, with_constants}
use gegelati.Mutator.Sources.{handled_by}
use gegelati.ProgramMutator.Valid.{Valid}

module _ {D : Type 0} where
  -- Every source of the second list can be read, and provides what its fellow in the first does.
  abbrev pub Mirrors : List (DataHandler D) → List (DataHandler D) → Type 0
  Mirrors [] sources = Unit {0}
  Mirrors (f ∷ fakes) [] = ⊥
  Mirrors (f ∷ fakes) (s ∷ sources) =
      ((t : TypeInfo) → f.can_handle t ≡ true → s.can_handle t ≡ true)
      × IsReadable s
      × Mirrors fakes sources

  Mirrors-self :
      (sources : List (DataHandler D)) → Each IsReadable sources → Mirrors sources sources
  Mirrors-self [] all = tt
  Mirrors-self (s ∷ sources) all = (λ t h. h, all.0, Mirrors-self sources all.1)

  pub Mirrors-elem :
      (fakes sources : List (DataHandler D)) (j : ℕ) (t : TypeInfo)
      → Mirrors fakes sources
      → handled_by (get_elem? fakes j) t ≡ true
      → (s : DataHandler D) × (elem_at sources j out_of_range ≡ ok s)
        × (s.can_handle t ≡ true)
        × IsReadable s
  Mirrors-elem [] sources j t mirrors h = absurd (ground arith)
  Mirrors-elem (f ∷ fakes) [] j t mirrors h = absurd mirrors
  Mirrors-elem (f ∷ fakes) (s ∷ sources) zero t mirrors h = (s, refl, mirrors.0 t h, mirrors.1)
  Mirrors-elem (f ∷ fakes) (s ∷ sources) (suc j) t mirrors h =
      Mirrors-elem fakes sources j t mirrors.2 h

-- The data sources of an engine behind its registers, once setProgram has been called.
abbrev pub sources_of : {D : Type 0} → Environment D → Program → List (DataHandler D)
sources_of env p = with_constants env p.constants env.data_sources

module _ {D : Type 0} (d0 : D) (env : Environment D) (is_env : IsEnvironment d0 env)
    (readable : Each IsReadable env.data_sources) (p : Program) (valid : Valid env p) where
  registers_mirror :
      (registers : List (Cell D)) (t : TypeInfo)
      → length registers ≡ env.nb_registers
      → (handler (registers_of d0 env.nb_registers)).can_handle t ≡ true
      → (handler (registers_array registers)).can_handle t ≡ true
  unfolding handler can_handle get_address_space
  registers_mirror registers t counted h = rw counted h

  constants_mirror :
      (t : TypeInfo)
      → (handler (constants_of {D = D} env.nb_constants)).can_handle t ≡ true
      → (handler (constants_array {D = D} p.constants)).can_handle t ≡ true
  unfolding handler can_handle get_address_space
  constants_mirror t h = rw valid.constants_counted h

  pub all_mirror :
      (registers : List (Cell D))
      → length registers ≡ env.nb_registers
      → Mirrors env.fake_data_sources (handler (registers_array registers) ∷ sources_of env p)
  unfolding with_constants
  all_mirror registers counted = rw is_env.sources_made (
    λ t. registers_mirror registers t counted,
    handler-IsReadable (registers_array registers) registers refl refl
        (let some_register = is_env.some_register in omega arith),
    elim (Bool-cases (ltb 0 env.nb_constants)) [
      | inl some_constant ↦ rw some_constant (
        constants_mirror,
        handler-IsReadable (constants_array p.constants) (map int p.constants) refl
            (length-map int p.constants) (let same = valid.constants_counted in ground arith),
        Mirrors-self env.data_sources readable,
      )
      | inr no_constant ↦ rw no_constant (Mirrors-self env.data_sources readable)
    ],
  )
