-- ===== src/GraphMutator/Samples.antt =====
-- The sample graph with one more team, ready for the mutation of this team.
use gegelati.Base.{
  [], add_new, arith, false, length, member, refl, true, ℕ, ◌<◌, ◌||◌, ◌∷◌, ◌≡◌, ◌≤◌,
}
use gegelati.Doubles.{whole_numbers}
use gegelati.Rng.{lowest}
use gegelati.Graph.{
  Graph, add_new_edge, add_new_vertex, find_edge, find_vertex, get_root_vertices, is_action, team,
  update_incoming, update_outgoing,
}
use gegelati.Graph.Samples.{an_edge, small, small-Inv}
use gegelati.Graph.Lookup.{has, is_team, outgoing_of}
use gegelati.Graph.Acyclic.{Ranked}
use gegelati.Graph.Invariant.{Inv, add_new_vertex-Inv}
use gegelati.Graph.Connect.{add_new_edge-Inv}
use gegelati.Program.Samples.{sample_environment}
use gegelati.ProgramMutator.Samples.{short_program, short_program-Sized}
use gegelati.GraphMutator.Own.{Before, Choices, Ready, Settled}
use gegelati.GraphMutator.Population.{action_vertices, all_edges, team_vertices}
use gegelati.GraphMutator.Population.Herd.{Linked}
use gegelati.GraphMutator.Team.{Breeding, TpgParameters}
use gegelati.GraphMutator.Team.Bred.{Stocked}
use gegelati.GraphMutator.Team.Rounds.{Patience}

abbrev pub sample_tpg_parameters : TpgParameters ℕ
sample_tpg_parameters = record {
  nb_roots = 3;
  init_nb_roots = 3;
  max_init_outgoing_edges = 3;
  max_outgoing_edges = 3;
  p_edge_deletion = 1;
  p_edge_addition = 1;
  p_program_mutation = 1;
  force_program_behavior_change_on_mutation = false;
  p_edge_destination_change = 1;
  p_edge_destination_is_action = 1;
}

-- Team 3 has the edge 4 to the action 0.
abbrev pub grown : Graph
grown = (add_new_edge (add_new_vertex small team).0 3 0 8).0

pub grown-Inv : Inv grown
grown-Inv =
    add_new_edge-Inv (add_new_vertex small team).0 3 0 8 (add_new_vertex-Inv small team small-Inv)

pub grown-Ranked : Ranked grown (λ u. u)
unfolding add_new_edge add_new_vertex find_edge find_vertex is_action update_incoming
    update_outgoing add_new
grown-Ranked k e found = ground arith

grown-Settled : Settled (1 ∷ []) (0 ∷ []) grown
unfolding add_new_edge add_new_vertex find_edge find_vertex is_action update_incoming
    update_outgoing add_new
grown-Settled k e found = ground arith

grown_targets :
    (u : ℕ)
    → (member u (1 ∷ []) || member u (0 ∷ [])) ≡ true
    → (has grown.vertices u ≡ true) × (u < 3)
unfolding add_new_edge add_new_vertex find_edge find_vertex is_action update_incoming
    update_outgoing add_new
grown_targets u listed = ground arith

grown_sources : (k : ℕ) → member k (2 ∷ []) ≡ true → Before grown 3 k
unfolding add_new_edge add_new_vertex find_edge find_vertex is_action update_incoming
    update_outgoing add_new
grown_sources k listed = (an_edge, ground arith, omega arith, omega arith)

grown_team : is_team grown.vertices 3 ≡ true
unfolding add_new_edge add_new_vertex find_edge find_vertex is_action update_incoming
    update_outgoing add_new
grown_team = refl

pub grown_edges : length (outgoing_of grown.vertices 3) ≡ 1
unfolding add_new_edge add_new_vertex find_edge find_vertex is_action update_incoming
    update_outgoing add_new
grown_edges = refl

pub grown-Ready : Ready (λ u. u) (1 ∷ []) (0 ∷ []) (2 ∷ []) 3 grown
grown-Ready = record {
  consistent = grown-Inv;
  ranked = grown-Ranked;
  settled = grown-Settled;
  a_team = grown_team;
  targets = grown_targets;
  above = λ u listed. (grown_targets u listed).1;
  sources = grown_sources;
}

pub sample-Choices : Choices (1 ∷ []) (0 ∷ []) (2 ∷ [])
sample-Choices = record {
  some_team = omega arith;
  some_action = omega arith;
  some_edge = omega arith;
}

abbrev pub sample_breeding : Breeding ℕ
sample_breeding = record {
  graph = grown;
  programs = λ n. short_program;
  next_program = 9;
  new_programs = [];
  rng = 0;
}

pub sample-Stocked : Stocked sample_environment sample_breeding
unfolding add_new_edge add_new_vertex find_edge find_vertex is_action update_incoming
    update_outgoing add_new
sample-Stocked k e found = (ground arith, short_program-Sized.valid)

pub at_once : {A : Type 0} (r : ℕ) → whole_numbers.lt ((lowest 0).unit_double r).0 1 ≡ false → A
at_once r h = absurd (ground arith)

-- The least random numbers are below every other.
abbrev pub sample-Patience : Patience whole_numbers (lowest 0) 1
sample-Patience = record {
  patience = λ r. 0;
  bound = 0;
  bounded = λ r. omega arith;
  waits = λ r h. at_once r h;
}

pub grown-Linked : Linked grown
unfolding add_new_edge add_new_vertex find_edge find_vertex is_action update_incoming
    update_outgoing add_new
grown-Linked u goes = ground arith

pub grown-Choices :
    Choices (team_vertices grown.vertices) (action_vertices grown.vertices) (all_edges grown.edges)
unfolding add_new_edge add_new_vertex find_edge find_vertex is_action update_incoming
    update_outgoing add_new team_vertices action_vertices all_edges
grown-Choices = record {
  some_team = omega arith;
  some_action = omega arith;
  some_edge = omega arith;
}

pub grown_root : 1 ≤ length (team_vertices (get_root_vertices grown))
unfolding add_new_edge add_new_vertex find_edge find_vertex is_action update_incoming
    update_outgoing add_new team_vertices get_root_vertices
grown_root = omega arith
