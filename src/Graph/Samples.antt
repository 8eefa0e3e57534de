-- ===== src/Graph/Samples.antt =====
-- A graph of two vertices: a team with an edge to an action.
use gegelati.Base.{[], arith, refl, ◌∷◌, Unique, suc, zero, ℕ, ◌≡◌}
use gegelati.Graph.{Edge, Graph, Vertex, action, find_edge, find_vertex, is_action, team}
use gegelati.Graph.Lookup.{incoming_of, outgoing_of}
use gegelati.Graph.Invariant.{Inv}

-- Vertex 0 is an action, vertex 1 a team, and edge 2 leads from 1 to 0.
abbrev pub an_action : Vertex
an_action = record { id = 0; kind = action 5; incoming = 2 ∷ []; outgoing = [] }

abbrev pub a_team : Vertex
a_team = record { id = 1; kind = team; incoming = []; outgoing = 2 ∷ [] }

abbrev pub an_edge : Edge
an_edge = record { id = 2; source = 1; destination = 0; program = 8 }

abbrev pub small : Graph
small = record { vertices = an_action ∷ a_team ∷ []; edges = an_edge ∷ []; next_id = 3 }

small_once : (v : ℕ) → Unique (outgoing_of small.vertices v)
unfolding find_vertex
small_once zero = tt
small_once (suc zero) = (refl, tt)
small_once (suc (suc v)) =
    let none_there : outgoing_of small.vertices (suc (suc v)) ≡ [] = ground arith in
    rw none_there tt

small_once_in : (v : ℕ) → Unique (incoming_of small.vertices v)
unfolding find_vertex
small_once_in zero = (refl, tt)
small_once_in (suc zero) = tt
small_once_in (suc (suc v)) =
    let none_there : incoming_of small.vertices (suc (suc v)) ≡ [] = ground arith in
    rw none_there tt

pub small-Inv : Inv small
unfolding find_vertex find_edge is_action
small-Inv = record {
  distinct_vertices = (refl, (refl, tt));
  distinct_edges = (refl, tt);
  fresh_vertices = λ v h. ground arith;
  fresh_edges = λ k h. ground arith;
  outgoing_listed = λ v k. ground arith;
  incoming_listed = λ v k. ground arith;
  outgoing_once = λ v. small_once v;
  incoming_once = λ v. small_once_in v;
  from_teams = λ v k h. ground arith;
}
