-- ===== src/Execution/Tests.antt =====
-- The sample graph, whose edge runs the sample program.
use gegelati.Base.{
  List, Option, [], arith, none, ok, refl, some, subst, true, ℕ, ◌+◌, ◌∷◌, ◌≡◌, ◌<◌,
}
use gegelati.Doubles.{whole_numbers, whole_numbers-DoubleLaws}
use gegelati.Program.{Program}
use gegelati.Program.Engine.{execute_line}
use gegelati.Program.Samples.{sample_environment-IsEnvironment, sample_environment, sample_program}
use gegelati.Data.Arrays.{handler}
use gegelati.Archive.{Archive}
use gegelati.Graph.{Edge, find_edge, find_vertex}
use gegelati.Graph.Samples.{an_edge, small, small-Inv}
use gegelati.Rng.{lowest, lowest-RngLaws}
use gegelati.Graph.Lookup.{has}
use gegelati.GraphMutator.Samples.{
  grown-Choices, grown-Inv, grown-Linked, grown-Ranked, grown_root, sample-Patience, sample-Stocked,
  sample_breeding, sample_tpg_parameters,
}
use gegelati.GraphMutator.Team.{Breeding}
use gegelati.GraphMutator.Population.{populate_tpg}
use gegelati.GraphMutator.Population.Rounds.{raised}
use gegelati.Execution.Populated.{execute_from_root-populate_tpg}
use gegelati.Execution.{bid_of, evaluate_team, execute_from_root}
use gegelati.Execution.Valid.{execute_from_root-Valid}
use gegelati.ProgramMutator.Samples.{sample_sources-IsReadable, short_program, short_program-Sized}
use gegelati.Execution.Team.{Wins, evaluate_team-Wins}
use gegelati.Graph.Acyclic.{Ranked}
use gegelati.Execution.Root.{Consistent, ProgramsRun, TeamsHaveEdges, Walk, execute_from_root-Walk}

abbrev sample_draw : ℕ → ℕ × ℕ
sample_draw n = (n, n + 1)

abbrev store : ℕ → Program
store n = sample_program

abbrev no_archive : Option (Archive ℕ ℕ)
no_archive = none

an_edge_bids : bid_of 0 whole_numbers sample_environment store an_edge ≡ ok 13
unfolding bid_of handler execute_line
an_edge_bids = refl

small-Ranked : Ranked small (λ v. v)
unfolding find_edge
small-Ranked k e found = ground arith

small_edges : TeamsHaveEdges small
unfolding find_vertex
small_edges v x found kind = ground arith

small_runs : ProgramsRun 0 whole_numbers sample_environment store small
unfolding find_edge
small_runs k e found =
    let same : an_edge ≡ e = ground arith in
    subst (λ (d : Edge). (b : ℕ) × (bid_of 0 whole_numbers sample_environment store d ≡ ok b)) same
      (13, an_edge_bids)

chosen :
    evaluate_team 0 whole_numbers sample_draw sample_environment store small no_archive (2 ∷ [])
    ≡ ok (an_edge, no_archive)
unfolding evaluate_team find_edge handler execute_line
chosen = refl

evaluate_team-Wins_example :
    (top : ℕ) × (bid_of 0 whole_numbers sample_environment store an_edge ≡ ok top)
    × Wins 0 whole_numbers whole_numbers-DoubleLaws sample_draw sample_environment store small
        an_edge top
        (2 ∷ [])
evaluate_team-Wins_example =
    evaluate_team-Wins 0 whole_numbers whole_numbers-DoubleLaws sample_draw sample_environment store
      small (2 ∷ []) no_archive (an_edge, no_archive) chosen

execute_from_root-Walk_example :
    (visited : List ℕ) × (after : Option (Archive ℕ ℕ)) × (execute_from_root 0 whole_numbers
        sample_draw sample_environment store small 2 no_archive 1
      ≡ some (ok (visited, after)))
    × Walk 0 whole_numbers whole_numbers-DoubleLaws sample_draw sample_environment store small 1
        visited
    × Consistent after
unfolding find_vertex
execute_from_root-Walk_example =
    execute_from_root-Walk 0 whole_numbers whole_numbers-DoubleLaws sample_draw sample_environment
      store small small_runs small-Inv (λ v. v) small-Ranked small_edges 2 1 no_archive
      (omega arith) refl tt

abbrev short_store : ℕ → Program
short_store n = short_program

execute_from_root-Valid_example :
    (visited : List ℕ) × (after : Option (Archive ℕ ℕ)) × (execute_from_root 0 whole_numbers
        sample_draw sample_environment short_store small 2 no_archive 1
      ≡ some (ok (visited, after)))
    × Walk 0 whole_numbers whole_numbers-DoubleLaws sample_draw sample_environment short_store small
        1 visited
    × Consistent after
unfolding find_vertex
execute_from_root-Valid_example =
    execute_from_root-Valid 0 whole_numbers sample_environment short_store
      sample_environment-IsEnvironment sample_sources-IsReadable whole_numbers-DoubleLaws
      sample_draw small (λ v. v) small-Inv small-Ranked small_edges
      (λ k e found. short_program-Sized.valid) 2 1 no_archive (omega arith) refl tt

execute_from_root-populate_tpg_example :
    (t : Breeding ℕ) × (populate_tpg whole_numbers
        (lowest 0)
        sample_tpg_parameters
        4
        1
        sample_breeding
      ≡ some (t, ok tt))
    × ((fuel v : ℕ) (engine : Option (Archive ℕ ℕ))
        → raised (λ u. u) sample_breeding.graph v < fuel
        → has t.graph.vertices v ≡ true
        → Consistent engine
        → (visited : List ℕ) × (after : Option (Archive ℕ ℕ)) × (execute_from_root 0 whole_numbers
              sample_draw sample_environment t.programs t.graph fuel engine v
            ≡ some (ok (visited, after)))
          × Walk 0 whole_numbers whole_numbers-DoubleLaws sample_draw sample_environment t.programs
              t.graph v visited
          × Consistent after)
execute_from_root-populate_tpg_example =
    execute_from_root-populate_tpg 0 whole_numbers whole_numbers-DoubleLaws sample_environment
      sample_environment-IsEnvironment sample_sources-IsReadable (lowest 0) (lowest-RngLaws 0)
      sample_tpg_parameters sample-Patience sample_draw sample_breeding (λ u. u) grown-Inv
      grown-Ranked grown-Linked sample-Stocked 4 1 grown-Choices grown_root (omega arith)
      (omega arith)
