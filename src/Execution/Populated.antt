-- ===== src/Execution/Populated.antt =====
-- From populateTPG (gegelatilib/src/mutator/tpgMutator.cpp) to executeFromRoot
-- (gegelatilib/src/tpg/tpgExecutionEngine.cpp).
use gegelati.Base.{Each, List, Option, arith, length, ok, refl, some, true, ℕ, ◌<◌, ◌≡◌, ◌≤◌}
use gegelati.Doubles.{DoubleLaws, Doubles}
use gegelati.Rng.{Rng, RngLaws}
use gegelati.Data.Reading.{IsReadable}
use gegelati.Environment.{Environment}
use gegelati.Environment.Laws.{IsEnvironment}
use gegelati.Archive.{Archive}
use gegelati.Graph.{Graph, get_root_vertices, is_action}
use gegelati.Graph.Lookup.{has}
use gegelati.Graph.Acyclic.{Ranked}
use gegelati.Graph.Invariant.{Inv}
use gegelati.GraphMutator.Own.{Choices}
use gegelati.GraphMutator.Team.{Breeding, TpgParameters}
use gegelati.GraphMutator.Team.Bred.{Stocked}
use gegelati.GraphMutator.Team.Rounds.{Patience}
use gegelati.GraphMutator.Population.{action_vertices, all_edges, populate_tpg, team_vertices}
use gegelati.GraphMutator.Population.Herd.{Linked}
use gegelati.GraphMutator.Population.Rounds.{populate_tpg-Populated, raised}
use gegelati.Execution.{execute_from_root}
use gegelati.Execution.Root.{Consistent, TeamsHaveEdges, Walk}
use gegelati.Execution.Valid.{execute_from_root-Valid}

Linked-TeamsHaveEdges : (g : Graph) → Linked g → TeamsHaveEdges g
unfolding is_action
Linked-TeamsHaveEdges g linked v x found kind none_out =
    let some_edge = linked v (ground arith) in
    let count : length x.outgoing ≡ 0 = rw none_out refl in absurd (ground arith)

module _ {D R S : Type 0} (d0 : D) (F : Doubles D) (laws : DoubleLaws F) (env : Environment D)
    (is_env : IsEnvironment d0 env) (readable : Each IsReadable env.data_sources) (rng : Rng D R)
    (rng_laws : RngLaws rng) (params : TpgParameters D)
    (patient : Patience F rng params.p_program_mutation) where
  -- In a constructed environment with data sources that can be read, from a consistent graph
  -- without cycles (each edge leads to a lower rank, for some ranks of the vertices) that has a root
  -- team, an action and an edge, whose teams have edges and whose programs are valid, and with a
  -- patient random engine: the loop of populateTPG ends without throwing, and executeFromRoot then
  -- returns from every vertex of the new graph, and visits the vertices from there, over the winning
  -- edge of each team, to an action. One more than the highest of the ranks bounds the rank of the
  -- new vertices, and with it the number of rounds.
  pub execute_from_root-populate_tpg :
      (draw : S → D × S) (s : Breeding R) (rank : ℕ → ℕ)
      → Inv s.graph
      → Ranked s.graph rank
      → Linked s.graph
      → Stocked env s
      → (fuel rounds : ℕ)
      → Choices
          (team_vertices s.graph.vertices)
          (action_vertices s.graph.vertices)
          (all_edges s.graph.edges)
      → 1 ≤ length (team_vertices (get_root_vertices s.graph))
      → params.nb_roots < fuel
      → patient.bound < rounds
      → (t : Breeding R) × (populate_tpg F rng params fuel rounds s ≡ some (t, ok tt))
        × ((fuel' v : ℕ) (engine : Option (Archive D S))
            → raised rank s.graph v < fuel'
            → has t.graph.vertices v ≡ true
            → Consistent engine
            → (visited : List ℕ) × (after : Option (Archive D S)) × (execute_from_root d0 F draw env
                  t.programs t.graph fuel' engine v
                ≡ some (ok (visited, after)))
              × Walk d0 F laws draw env t.programs t.graph v visited
              × Consistent after)
  execute_from_root-populate_tpg draw s rank inv ranked linked stocked fuel rounds choices some_root
        enough calm =
      let (t, ran, count, populated) =
        populate_tpg-Populated F rng rng_laws env params patient s rank inv ranked linked stocked
          fuel rounds choices some_root enough calm in
      (
        t,
        ran,
        λ fuel' v engine enough' there consistent.
            execute_from_root-Valid d0 F env t.programs is_env readable laws draw t.graph
              (raised rank s.graph) populated.consistent populated.ranked
              (Linked-TeamsHaveEdges t.graph populated.linked)
              (λ k e found. (populated.stocked k e found).1) fuel' v engine enough' there
              consistent,
      )
