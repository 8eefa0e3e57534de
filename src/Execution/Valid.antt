-- ===== src/Execution/Valid.antt =====
-- Graphs of valid programs: executeFromRoot (gegelatilib/src/tpg/tpgExecutionEngine.cpp) over the
-- programs that gegelatilib/src/mutator/programMutator.cpp makes.
use gegelati.Base.{
  Each, List, Option, true, false, ok, some, refl, [], ◌∷◌, ◌≡◌, ◌<◌, ℕ, arith, if◌then◌else◌,
}
use gegelati.Doubles.{DoubleLaws, Doubles}
use gegelati.Data.{DataHandler}
use gegelati.Data.Reading.{IsReadable}
use gegelati.Environment.{Environment}
use gegelati.Environment.Laws.{IsEnvironment}
use gegelati.Program.{Program}
use gegelati.Program.Engine.{execute_program, program_sources, same_ids}
use gegelati.ProgramMutator.Valid.{Valid}
use gegelati.ProgramMutator.Providers.{sources_of}
use gegelati.ProgramMutator.Runs.{execute_program-Valid}
use gegelati.Archive.{Archive}
use gegelati.Graph.{Edge, Graph, find_edge}
use gegelati.Graph.Invariant.{Inv}
use gegelati.Graph.Lookup.{has}
use gegelati.Execution.{bid_of, execute_from_root}
use gegelati.Graph.Acyclic.{Ranked}
use gegelati.Execution.Root.{Consistent, TeamsHaveEdges, Walk, execute_from_root-Walk}

same_ids_self : {D : Type 0} (sources : List (DataHandler D)) → same_ids sources sources ≡ true
unfolding same_ids
same_ids_self [] = refl
same_ids_self (s ∷ sources) = ground (arith, same_ids_self sources)

-- Every edge of the graph has a valid program.
abbrev pub ProgramsValid : {D : Type 0} → Environment D → (ℕ → Program) → Graph → Type 0
ProgramsValid env programs g =
    (k : ℕ) (e : Edge) → find_edge g.edges k ≡ some e → Valid env (programs e.program)

module _ {D : Type 0} (d0 : D) (F : Doubles D) (env : Environment D) (programs : ℕ → Program)
    (is_env : IsEnvironment d0 env) (readable : Each IsReadable env.data_sources) where
  sources_there : (p : Program) → program_sources env p env.data_sources ≡ ok (sources_of env p)
  unfolding program_sources
  sources_there p = rw (same_ids_self env.data_sources) refl

  bids :
      (e : Edge) (d : D)
      → execute_program d0 env
          (sources_of env (programs e.program))
          false
          (programs e.program).lines
        ≡ ok d
      → bid_of d0 F env programs e ≡ ok (if F.is_nan d then F.neg_infinity else d)
  unfolding bid_of
  bids e d ran = rw (sources_there (programs e.program), ran) refl

  bid_of-Valid :
      (e : Edge) → Valid env (programs e.program) → (b : D) × (bid_of d0 F env programs e ≡ ok b)
  bid_of-Valid e valid =
      let (d, ran) =
        execute_program-Valid d0 env is_env readable (programs e.program) valid false in
      (_, bids e d ran)

  -- In a constructed environment with data sources that can be read, where the edges of a
  -- consistent graph without cycles have valid programs and its teams have edges, executeFromRoot
  -- returns from every vertex, whatever the programs do: it visits the vertices from the root, over
  -- the winning edge of each team, to an action, and leaves the archive consistent.
  pub execute_from_root-Valid :
      {R : Type 0} (laws : DoubleLaws F) (draw : R → D × R) (g : Graph) (rank : ℕ → ℕ)
      → Inv g
      → Ranked g rank
      → TeamsHaveEdges g
      → ProgramsValid env programs g
      → (fuel v : ℕ) (engine : Option (Archive D R)) → rank v < fuel
      → has g.vertices v ≡ true
      → Consistent engine
      → (visited : List ℕ) × (after : Option (Archive D R)) × (execute_from_root d0 F draw env
            programs g fuel engine v
          ≡ some (ok (visited, after)))
        × Walk d0 F laws draw env programs g v visited
        × Consistent after
  execute_from_root-Valid laws draw g rank inv ranked edges valid =
      execute_from_root-Walk d0 F laws draw env programs g
        (λ k e found. bid_of-Valid e (valid k e found)) inv rank ranked edges
