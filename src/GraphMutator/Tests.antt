-- ===== src/GraphMutator/Tests.antt =====
-- Sample graphs with the least random numbers.
use gegelati.Base.{
  [], add_new, arith, false, if◌then◌else◌, length, member, ok, refl, some, suc, true, ℕ, ◌==◌,
  ◌||◌, ◌∷◌, ◌≡◌, ◌≤◌,
}
use gegelati.Doubles.{whole_numbers}
use gegelati.Rng.{lowest, lowest-RngLaws}
use gegelati.Graph.{
  Graph, add_new_edge, find_edge, find_vertex, get_root_vertices, update_incoming, update_outgoing,
}
use gegelati.Graph.Samples.{an_edge, small, small-Inv}
use gegelati.Graph.Lookup.{enters, leaves, is_team, has, outgoing_of}
use gegelati.Graph.Connect.{add_new_edge-Inv}
use gegelati.Graph.Invariant.{Inv}
use gegelati.GraphMutator.{mutate_edge_destination, remove_random_edge, remove_random_edges}
use gegelati.GraphMutator.Targets.{mutate_edge_destination-Inv}
use gegelati.GraphMutator.Removal.{remove_random_edge-Inv}
use gegelati.GraphMutator.Thinning.{Thinned, remove_random_edges-Thinned}
use gegelati.Program.Samples.{sample_environment}
use gegelati.GraphMutator.Samples.{
  grown-Choices, grown-Inv, grown-Linked, grown-Ranked, grown_root, sample-Patience, sample-Stocked,
  sample_breeding, sample_tpg_parameters,
}
use gegelati.GraphMutator.Population.{populate_tpg}
use gegelati.GraphMutator.Population.Rounds.{Populated, populate_tpg-Populated, raised}
use gegelati.GraphMutator.Team.{Breeding}

abbrev two_edges : Graph
two_edges = (add_new_edge small 1 0 9).0

abbrev three_edges : Graph
three_edges = (add_new_edge two_edges 1 0 10).0

three_edges-Inv : Inv three_edges
three_edges-Inv = add_new_edge-Inv two_edges 1 0 10 (add_new_edge-Inv small 1 0 9 small-Inv)

three_there : length (outgoing_of three_edges.vertices 1) ≡ 3
unfolding add_new_edge find_vertex update_incoming update_outgoing add_new
three_there = refl

remove_random_edge-Inv_example :
    (h : Graph) × (rest : ℕ) × (remove_random_edge {D = ℕ} (lowest 0) three_edges 1 7
      ≡ (h, ok tt, rest))
    × Inv h
    × (suc (length (outgoing_of h.vertices 1)) ≡ length (outgoing_of three_edges.vertices 1))
    × ((u : ℕ) → has h.vertices u ≡ has three_edges.vertices u)
    × ((u : ℕ) → (1 == u) ≡ false → outgoing_of h.vertices u ≡ outgoing_of three_edges.vertices u)
remove_random_edge-Inv_example =
    remove_random_edge-Inv (lowest 0) (lowest-RngLaws 0) three_edges 1 7 three_edges-Inv
      (rw three_there (omega arith))

remove_random_edges-Thinned_example :
    (h : Graph) × (rest : ℕ) × ((fuel : ℕ)
      → length (outgoing_of three_edges.vertices 1) ≤ fuel
      → remove_random_edges whole_numbers (lowest 0) fuel 1 1 three_edges 1 7 ≡ (h, ok tt, rest))
    × Thinned three_edges h 1
remove_random_edges-Thinned_example =
    remove_random_edges-Thinned whole_numbers (lowest 0) (lowest-RngLaws 0) 3 1 1 three_edges 1 7
      (rw three_there (omega arith)) three_edges-Inv

-- The edge of the sample graph is led from its action to its team.
mutate_edge_destination-Inv_example :
    (h : Graph) × (new : ℕ) × (rest : ℕ) × (mutate_edge_destination whole_numbers
        (lowest 0)
        0
        small
        2
        (1 ∷ [])
        (0 ∷ [])
        7
      ≡ (h, ok tt, rest))
    × ((member new (1 ∷ []) || member new (0 ∷ [])) ≡ true)
    × Inv h
    × ((j v : ℕ) → enters h.edges j v ≡ (if 2 == j then new == v else enters small.edges j v))
    × ((j v : ℕ) → leaves h.edges j v ≡ leaves small.edges j v)
    × ((v : ℕ) → has h.vertices v ≡ has small.vertices v)
    × ((v : ℕ) → is_team h.vertices v ≡ is_team small.vertices v)
unfolding find_vertex find_edge
mutate_edge_destination-Inv_example =
    mutate_edge_destination-Inv whole_numbers (lowest 0) (lowest-RngLaws 0) 0 small 2 an_edge
      (1 ∷ []) (0 ∷ []) 7 small-Inv refl (omega arith) (omega arith) (λ v h. ground arith)

populate_tpg-Populated_example :
    (t : Breeding ℕ) × (populate_tpg whole_numbers
        (lowest 0)
        sample_tpg_parameters
        4
        1
        sample_breeding
      ≡ some (t, ok tt))
    × (sample_tpg_parameters.nb_roots ≤ length (get_root_vertices t.graph))
    × Populated sample_environment (raised (λ u. u) sample_breeding.graph) sample_breeding t
populate_tpg-Populated_example =
    populate_tpg-Populated whole_numbers (lowest 0) (lowest-RngLaws 0) sample_environment
      sample_tpg_parameters sample-Patience sample_breeding (λ u. u) grown-Inv grown-Ranked
      grown-Linked sample-Stocked 4 1 grown-Choices grown_root (omega arith) (omega arith)
