-- ===== src/Graph/Tests.antt =====
-- A team with an edge to an action, and the theorems of the graph on it.
use gegelati.Base.{
  Unique, [], add_new, err, false, if◌then◌else◌, map, member, ok, refl, remove, runtime_error,
  some, true, ℕ, ◌==◌, ◌↔◌, ◌∷◌, ◌≡◌,
}
use gegelati.Graph.NewSource.{set_edge_source-Inv}
use gegelati.Graph.Redirect.{set_edge_destination-Inv}
use gegelati.Graph.{
  Graph, Vertex, action, add_new_edge, add_new_vertex, clear, clone_vertex, erase_edge,
  erase_vertex, find_edge, find_vertex, get_root_vertices, has_vertex, is_action, remove_vertex,
  set_edge_destination, set_edge_source, team, update_incoming, update_outgoing,
}
use gegelati.Graph.Lookup.{enters, has, is_team, leaves, outgoing_of}
use gegelati.Graph.Invariant.{Inv, add_new_vertex-Inv}
use gegelati.Graph.Roots.{get_root_vertices-listed}
use gegelati.Graph.Cloning.{Cloned, clone_vertex-Cloned}
use gegelati.Graph.Connect.{add_new_edge-Inv}
use gegelati.Graph.Samples.{an_action, an_edge, small, small-Inv}
use gegelati.Graph.Removal.{Removed, remove_vertex-Inv}
use gegelati.Graph.Clearing.{clear-empty}
use gegelati.Graph.Steps.{add_new_edge-from_action, set_edge_source-to_action}

abbrev two_vertices : Graph
two_vertices = record {
  vertices =
      record { id = 0; kind = action 5; incoming = []; outgoing = [] }
      ∷ record { id = 1; kind = team; incoming = []; outgoing = [] }
      ∷ [];
  edges = [];
  next_id = 2;
}

add_new_edge-small : add_new_edge two_vertices 1 0 8 ≡ (small, ok 2)
unfolding add_new_edge update_incoming update_outgoing add_new
add_new_edge-small = refl

remove_vertex-small :
    (remove_vertex small 1).0.vertices
    ≡ record { id = 0; kind = action 5; incoming = []; outgoing = [] } ∷ []
unfolding remove_vertex update_incoming update_outgoing remove erase_edge erase_vertex
remove_vertex-small = refl

add_new_vertex-Inv_example : Inv (add_new_vertex small team).0
add_new_vertex-Inv_example = add_new_vertex-Inv small team small-Inv

add_new_edge-Inv_example : Inv (add_new_edge small 1 0 9).0
add_new_edge-Inv_example = add_new_edge-Inv small 1 0 9 small-Inv

add_new_edge-from_action_example :
    ((add_new_edge small 0 1 9).1 ≡ err runtime_error)
    × ((add_new_edge small 0 1 9).0.vertices ≡ small.vertices)
    × ((add_new_edge small 0 1 9).0.edges ≡ small.edges)
unfolding find_vertex is_action has_vertex
add_new_edge-from_action_example = add_new_edge-from_action small 0 1 9 an_action refl refl refl

set_edge_source-to_action_example :
    ((set_edge_source small 2 0).1 ≡ err runtime_error)
    × (find_edge (set_edge_source small 2 0).0.edges 2 ≡ some an_edge)
    × (member 2 (outgoing_of (set_edge_source small 2 0).0.vertices 1) ≡ false)
    × ¬ Inv (set_edge_source small 2 0).0
unfolding find_vertex find_edge is_action
set_edge_source-to_action_example =
    set_edge_source-to_action small 2 0 an_edge an_action small-Inv refl refl refl

remove_vertex-Inv_example :
    (h : Graph) × (remove_vertex small 1 ≡ (h, ok tt)) × Inv h × Removed small h 1
unfolding find_vertex
remove_vertex-Inv_example = remove_vertex-Inv small 1 small-Inv refl

clear-empty_example :
    (h : Graph) × (clear small ≡ (h, ok tt)) × Inv h × (h.vertices ≡ []) × (h.edges ≡ [])
clear-empty_example = clear-empty small small-Inv

set_edge_destination-Inv_example :
    (h : Graph) × (set_edge_destination small 2 1 ≡ (h, ok true))
    × Inv h
    × ((j v : ℕ) → enters h.edges j v ≡ (if 2 == j then 1 == v else enters small.edges j v))
    × ((j v : ℕ) → leaves h.edges j v ≡ leaves small.edges j v)
    × ((v : ℕ) → has h.vertices v ≡ has small.vertices v)
    × ((v : ℕ) → is_team h.vertices v ≡ is_team small.vertices v)
unfolding find_vertex find_edge
set_edge_destination-Inv_example = set_edge_destination-Inv small 2 1 an_edge small-Inv refl refl

set_edge_source-Inv_example :
    (h : Graph) × (set_edge_source (add_new_vertex small team).0 2 3 ≡ (h, ok true))
    × Inv h
    × ((j v : ℕ)
        → leaves h.edges j v
          ≡ (if 2 == j then 3 == v else leaves (add_new_vertex small team).0.edges j v))
    × ((j v : ℕ) → enters h.edges j v ≡ enters (add_new_vertex small team).0.edges j v)
    × ((v : ℕ) → has h.vertices v ≡ has (add_new_vertex small team).0.vertices v)
    × ((v : ℕ) → is_team h.vertices v ≡ is_team (add_new_vertex small team).0.vertices v)
unfolding add_new_vertex find_vertex find_edge is_action
set_edge_source-Inv_example =
    set_edge_source-Inv (add_new_vertex small team).0 2 3 an_edge
      (add_new_vertex-Inv small team small-Inv) refl refl

clone_vertex-Cloned_example :
    (h : Graph) × (clone_vertex small 1 ≡ (h, ok small.next_id)) × Cloned small h 1
unfolding find_vertex
clone_vertex-Cloned_example = clone_vertex-Cloned small 1 small-Inv refl

get_root_vertices-listed_example :
    ((u : ℕ)
      → member u (map (λ (x : Vertex). x.id) (get_root_vertices small)) ≡ true
        ↔ ((has small.vertices u ≡ true) × ((k : ℕ) → enters small.edges k u ≡ false)))
    × Unique (map (λ (x : Vertex). x.id) (get_root_vertices small))
get_root_vertices-listed_example = get_root_vertices-listed small small-Inv
