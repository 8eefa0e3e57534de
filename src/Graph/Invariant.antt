-- ===== src/Graph/Invariant.antt =====
-- The invariant of the graph, and the calls that keep it (gegelatilib/src/tpg/tpgGraph.cpp).
use gegelati.Base.{
  List, Unique, [], ap, arith, is_some, member, none, refl, some, true, ℕ, ◌++◌, ◌<◌, ◌∷◌, ◌≡◌, ◌≤◌,
}
use gegelati.Graph.{
  Edge, Graph, Kind, Vertex, add_new_vertex, find_edge, find_vertex, new_graph, pop_back,
}
use gegelati.Graph.Lookup.{
  DistinctEdges, DistinctVertices, enters, find_vertex-snoc, has, incoming_of, is_team, leaves,
  outgoing_of, snoc-DistinctVertices,
}

-- Addresses are distinct and below `next_id`; the edge lists of the vertices hold exactly the
-- edges of the graph that start and end there, each once; and only teams have outgoing edges.
pub record Inv (g : Graph) : Type 0 where
  pub distinct_vertices : DistinctVertices g.vertices
  pub distinct_edges : DistinctEdges g.edges
  pub fresh_vertices : (v : ℕ) → g.next_id ≤ v → find_vertex g.vertices v ≡ none
  pub fresh_edges : (k : ℕ) → g.next_id ≤ k → find_edge g.edges k ≡ none
  pub outgoing_listed : (v k : ℕ) → member k (outgoing_of g.vertices v) ≡ leaves g.edges k v
  pub incoming_listed : (v k : ℕ) → member k (incoming_of g.vertices v) ≡ enters g.edges k v
  pub outgoing_once : (v : ℕ) → Unique (outgoing_of g.vertices v)
  pub incoming_once : (v : ℕ) → Unique (incoming_of g.vertices v)
  pub from_teams : (v k : ℕ) → leaves g.edges k v ≡ true → is_team g.vertices v ≡ true

pub new_graph-Inv : Inv new_graph
unfolding find_vertex find_edge
new_graph-Inv = record {
  distinct_vertices = tt;
  distinct_edges = tt;
  fresh_vertices = λ v h. refl;
  fresh_edges = λ k h. refl;
  outgoing_listed = λ v k. refl;
  incoming_listed = λ v k. refl;
  outgoing_once = λ v. tt;
  incoming_once = λ v. tt;
  from_teams = λ v k h. absurd (ground arith);
}

-- Both ends of an edge are vertices of the graph, and the first is a team.
pub ends_exist :
    (g : Graph) (k : ℕ) (e : Edge)
    → Inv g
    → find_edge g.edges k ≡ some e
    → (has g.vertices e.source ≡ true)
      × (has g.vertices e.destination ≡ true)
      × (is_team g.vertices e.source ≡ true)
ends_exist g k e inv h = (
  ground (arith, inv.outgoing_listed e.source k),
  ground (arith, inv.incoming_listed e.destination k),
  ground (arith, inv.from_teams e.source k),
)

module _ (vs : List Vertex) (x : Vertex) where
  snoc-Unique_outgoing :
      x.outgoing ≡ [] → (v : ℕ) → Unique (outgoing_of vs v) → Unique (outgoing_of (vs ++ x ∷ []) v)
  snoc-Unique_outgoing none_out v once =
      let same : outgoing_of (vs ++ x ∷ []) v ≡ outgoing_of vs v =
        ground (arith, find_vertex-snoc vs x v) in
      rw same once

  snoc-Unique_incoming :
      x.incoming ≡ [] → (v : ℕ) → Unique (incoming_of vs v) → Unique (incoming_of (vs ++ x ∷ []) v)
  snoc-Unique_incoming none_in v once =
      let same : incoming_of (vs ++ x ∷ []) v ≡ incoming_of vs v =
        ground (arith, find_vertex-snoc vs x v) in
      rw same once

-- addNewTeam and addNewAction keep the invariant of the graph.
pub add_new_vertex-Inv : (g : Graph) (kind : Kind) → Inv g → Inv (add_new_vertex g kind).0
unfolding add_new_vertex
add_new_vertex-Inv g kind inv =
    let x : Vertex = record { id = g.next_id; kind = kind; incoming = []; outgoing = [] } in
    let free = inv.fresh_vertices g.next_id (omega arith) in
    record {
      distinct_vertices =
          snoc-DistinctVertices g.vertices x inv.distinct_vertices (ap is_some free);
      distinct_edges = inv.distinct_edges;
      fresh_vertices = λ v h.
          ground (arith, find_vertex-snoc g.vertices x v, inv.fresh_vertices v (omega arith));
      fresh_edges = λ k h. inv.fresh_edges k (omega arith);
      outgoing_listed =
          λ v k. ground (arith, find_vertex-snoc g.vertices x v, inv.outgoing_listed v k);
      incoming_listed =
          λ v k. ground (arith, find_vertex-snoc g.vertices x v, inv.incoming_listed v k);
      outgoing_once = λ v. snoc-Unique_outgoing g.vertices x refl v (inv.outgoing_once v);
      incoming_once = λ v. snoc-Unique_incoming g.vertices x refl v (inv.incoming_once v);
      from_teams = λ v k h. ground (arith, find_vertex-snoc g.vertices x v, inv.from_teams v k h);
    }

pub pop_back-snoc : (es : List Edge) (e : Edge) → pop_back (es ++ e ∷ []) ≡ es
unfolding pop_back
pop_back-snoc [] e = refl
pop_back-snoc (d ∷ []) e = refl
pop_back-snoc (d ∷ c ∷ es) e = rw (pop_back-snoc (c ∷ es) e)

-- Addresses of vertices have been handed out.
pub has-lt : (g : Graph) (u : ℕ) → Inv g → has g.vertices u ≡ true → u < g.next_id
has-lt g u inv there = ground (arith, inv.fresh_vertices u)
