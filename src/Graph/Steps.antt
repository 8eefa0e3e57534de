-- ===== src/Graph/Steps.antt =====
-- The calls that refuse: addNewEdge and setEdgeSource on an action, whose addOutgoingEdge throws
-- (gegelatilib/src/tpg/tpgGraph.cpp and tpgAction.cpp).
use gegelati.Base.{
  err, false, member, refl, runtime_error, some, true, ℕ, ◌≡◌, arith, member-remove, remove, suc,
}
use gegelati.Graph.{
  Edge, Graph, Vertex, add_new_edge, find_edge, find_vertex, has_vertex, is_action, set_edge_source,
  connect, update_outgoing,
}
use gegelati.Graph.Lookup.{outgoing_of, find_edge-id, find_vertex-update_outgoing}
use gegelati.Graph.Invariant.{Inv, pop_back-snoc, ends_exist}

pub add_new_edge-eq-connect :
    (g : Graph) (src dest program : ℕ) (x : Vertex)
    → find_vertex g.vertices src ≡ some x
    → has_vertex g dest ≡ true
    → add_new_edge g src dest program ≡ connect g x dest program
unfolding add_new_edge
add_new_edge-eq-connect g src dest program x found present = rw (found, add_new_edge, present) refl

connect-from_action :
    (g : Graph) (x : Vertex) (dest program : ℕ)
    → is_action x.kind ≡ true
    → connect g x dest program
      ≡ (record g { edges = g.edges; next_id = suc g.next_id }, err runtime_error)
unfolding connect
connect-from_action g x dest program refuses =
    let undone =
      pop_back-snoc g.edges
        (record { id = g.next_id; source = x.id; destination = dest; program = program }) in
    rw (refuses, undone) refl

set_edge_source-eq-move :
    (g : Graph) (k new : ℕ) (e : Edge) (x : Vertex)
    → find_edge g.edges k ≡ some e
    → find_vertex g.vertices new ≡ some x
    → has_vertex g e.source ≡ true
    → is_action x.kind ≡ true
    → set_edge_source g k new ≡ (
      record g { vertices = update_outgoing e.source (remove e.id) g.vertices },
      err runtime_error,
    )
unfolding set_edge_source
set_edge_source-eq-move g k new e x at_k at_new present refuses =
    rw (at_k, set_edge_source, at_new, present, refuses) refl

-- addNewEdge from an action to a vertex of the graph throws, and takes back the edge that it had
-- created: the vertices and the edges are those from before.
pub add_new_edge-from_action :
    (g : Graph) (src dest program : ℕ) (x : Vertex)
    → find_vertex g.vertices src ≡ some x
    → is_action x.kind ≡ true
    → has_vertex g dest ≡ true
    → ((add_new_edge g src dest program).1 ≡ err runtime_error)
      × ((add_new_edge g src dest program).0.vertices ≡ g.vertices)
      × ((add_new_edge g src dest program).0.edges ≡ g.edges)
add_new_edge-from_action g src dest program x found refuses present =
    rw
      (
        add_new_edge-eq-connect g src dest program x found present,
        connect-from_action g x dest program refuses,
      )
      (refl, refl, refl)

lost_edge :
    (g : Graph) (k : ℕ) (e : Edge)
    → find_edge g.edges k ≡ some e
    → member k (outgoing_of (update_outgoing e.source (remove e.id) g.vertices) e.source) ≡ false
lost_edge g k e at_k = ground (
  arith,
  find_vertex-update_outgoing e.source (remove e.id) g.vertices e.source,
  member-remove k e.id (outgoing_of g.vertices e.source),
  find_edge-id g.edges k e at_k,
)

-- setEdgeSource with an action as the new source throws and leaves the graph inconsistent: the
-- edge is still in the graph, with its old source, which no longer lists it as outgoing. So the
-- invariant of the graph is lost.
pub set_edge_source-to_action :
    (g : Graph) (k new : ℕ) (e : Edge) (x : Vertex)
    → Inv g
    → find_edge g.edges k ≡ some e
    → find_vertex g.vertices new ≡ some x
    → is_action x.kind ≡ true
    → ((set_edge_source g k new).1 ≡ err runtime_error)
      × (find_edge (set_edge_source g k new).0.edges k ≡ some e)
      × (member k (outgoing_of (set_edge_source g k new).0.vertices e.source) ≡ false)
      × ¬ Inv (set_edge_source g k new).0
unfolding has_vertex
set_edge_source-to_action g k new e x inv at_k at_new refuses =
    let present = (ends_exist g k e inv at_k).0 in
    let gone = lost_edge g k e at_k in
    rw (set_edge_source-eq-move g k new e x at_k at_new present refuses) (
      refl,
      at_k,
      gone,
      λ broken. absurd (ground (arith, gone, broken.outgoing_listed e.source k, at_k)),
    )
