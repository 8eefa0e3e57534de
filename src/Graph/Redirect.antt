-- ===== src/Graph/Redirect.antt =====
-- setEdgeDestination of gegelatilib/src/tpg/tpgGraph.cpp keeps the invariant of the graph.
use gegelati.Base.{
  ℕ, List, Bool-cases, add_new, add_new-Unique, ap, sym, arith, false, if◌then◌else◌, inl, inr,
  is_some, member, ok, refl, remove, remove-Unique, some, true, ◌==◌, ◌∙◌, ◌≡◌, Unique,
}
use gegelati.Graph.{
  Edge, Graph, Vertex, redirect, find_edge, has_vertex, set_edge_destination, update_edge,
  update_incoming,
}
use gegelati.Graph.Lookup.{
  enters, find_edge-id, find_edge-update, has, incoming_of, is_team, leaves, outgoing_of,
  update_edge-Distinct, update_incoming-Distinct,
}
use gegelati.Graph.Invariant.{Inv, ends_exist}
use gegelati.Graph.Ends.{
  find_vertex-none, has-update_incoming, incoming_of-update_incoming, is_team-update_incoming,
  outgoing_of-update_incoming,
}
use gegelati.Graph.Connect.{both-Unique, member-gain}
use gegelati.Graph.Disconnect.{member-lose}

module _ (g : Graph) (k new : ℕ) (e : Edge) (inv : Inv g) (found : find_edge g.edges k ≡ some e)
    (there : has g.vertices new ≡ true) where
  abbrev pub turn : Edge → Edge
  turn d = record d { destination = new }

  abbrev turned : List Edge
  turned = update_edge e.id turn g.edges

  abbrev pub dropped : List Vertex
  dropped = update_incoming e.destination (remove e.id) g.vertices

  abbrev pub moved : List Vertex
  moved = update_incoming new (add_new e.id) dropped

  found_by_id : find_edge g.edges e.id ≡ some e
  found_by_id = ground (arith, find_edge-id g.edges k e found)

  leaves-turned : (j v : ℕ) → leaves turned j v ≡ leaves g.edges j v
  leaves-turned j v = ground (arith, find_edge-update e.id turn g.edges j (λ d. refl))

  enters-turned :
      (j v : ℕ) → enters turned j v ≡ (if e.id == j then new == v else enters g.edges j v)
  enters-turned j v = elim (Bool-cases (e.id == j)) [
    | inl same ↦
        let at_j : find_edge g.edges j ≡ some e = ground (arith, found_by_id) in
        rw (find_edge-update e.id turn g.edges j (λ d. refl), same, at_j) refl
    | inr other ↦ rw (find_edge-update e.id turn g.edges j (λ d. refl), other) refl
  ]

  has-dropped : (v : ℕ) → has dropped v ≡ has g.vertices v
  has-dropped v = has-update_incoming e.destination (remove e.id) g.vertices v

  pub has-moved : (v : ℕ) → has moved v ≡ has g.vertices v
  has-moved v = has-update_incoming new (add_new e.id) dropped v ∙ has-dropped v

  dropped-incoming :
      (v j : ℕ)
      → member j (incoming_of dropped v) ≡ (if e.id == j then false else enters g.edges j v)
  dropped-incoming v j =
      let (_, destination_there, _) = ends_exist g k e inv found in
      rw (incoming_of-update_incoming e.destination (remove e.id) g.vertices v) (
        member-lose (incoming_of g.vertices v) (has g.vertices v) (enters g.edges j v) e.id j
          e.destination v (inv.incoming_listed v j)
          (λ same.
            let at_j : find_edge g.edges j ≡ some e = ground (arith, found_by_id) in rw at_j refl)
          (λ same. ground arith))

  moved-incoming : (v j : ℕ) → member j (incoming_of moved v) ≡ enters turned j v
  moved-incoming v j =
      let gained =
        member-gain (incoming_of dropped v) (has dropped v)
          (if e.id == j then false else enters g.edges j v) e.id j new v (dropped-incoming v j)
          (λ same. ground arith) (λ same. ground (arith, has-dropped v)) in
      rw (incoming_of-update_incoming new (add_new e.id) dropped v)
        (gained ∙ ground (arith, enters-turned j v))

  moved-outgoing : (v : ℕ) → outgoing_of moved v ≡ outgoing_of g.vertices v
  moved-outgoing v =
      outgoing_of-update_incoming new (add_new e.id) dropped v
      ∙ outgoing_of-update_incoming e.destination (remove e.id) g.vertices v

  dropped-Unique : (v : ℕ) → Unique (incoming_of dropped v)
  dropped-Unique v = rw (incoming_of-update_incoming e.destination (remove e.id) g.vertices v) (
      both-Unique (remove e.id) (incoming_of g.vertices v) (e.destination == v) (has g.vertices v)
        (inv.incoming_once v) (remove-Unique e.id (incoming_of g.vertices v) (inv.incoming_once v)))

  pub redirect-Inv : Inv (redirect g e new)
  unfolding redirect
  redirect-Inv = record {
    distinct_vertices =
        update_incoming-Distinct new _ _
          (update_incoming-Distinct e.destination _ g.vertices inv.distinct_vertices);
    distinct_edges = update_edge-Distinct e.id turn g.edges (λ d. refl) inv.distinct_edges;
    fresh_vertices = λ v h.
        let none_yet = inv.fresh_vertices v h in
        find_vertex-none moved v (has-moved v ∙ ap is_some none_yet);
    fresh_edges = λ j h.
        ground (
          arith,
          find_edge-update e.id turn g.edges j (λ d. refl),
          inv.fresh_edges j h,
          found_by_id,
        );
    outgoing_listed = λ v j.
        ap (member j) (moved-outgoing v) ∙ (inv.outgoing_listed v j ∙ sym (leaves-turned j v));
    incoming_listed = moved-incoming;
    outgoing_once = λ v. rw (moved-outgoing v) (inv.outgoing_once v);
    incoming_once = λ v. rw (incoming_of-update_incoming new (add_new e.id) dropped v) (
        both-Unique (add_new e.id) (incoming_of dropped v) (new == v) (has dropped v)
          (dropped-Unique v) (add_new-Unique e.id (incoming_of dropped v) (dropped-Unique v)));
    from_teams = λ v j h.
        is_team-update_incoming new (add_new e.id) dropped v
        ∙ (is_team-update_incoming e.destination (remove e.id) g.vertices v
            ∙ inv.from_teams v j (sym (leaves-turned j v) ∙ h));
  }

  pub redirected : set_edge_destination g k new ≡ (redirect g e new, ok true)
  unfolding set_edge_destination has_vertex
  redirected =
      let (_, destination_there, _) = ends_exist g k e inv found in
      rw (found, set_edge_destination, there, destination_there) refl

-- On a consistent graph with the edge and the vertex, setEdgeDestination does not throw and returns
-- true: the graph stays consistent, the edge ends at the vertex, and every other edge ends where it
-- did; every edge keeps its source, and every vertex stays what it was.
pub set_edge_destination-Inv :
    (g : Graph) (k new : ℕ) (e : Edge)
    → Inv g
    → find_edge g.edges k ≡ some e
    → has g.vertices new ≡ true
    → (h : Graph) × (set_edge_destination g k new ≡ (h, ok true))
      × Inv h
      × ((j v : ℕ) → enters h.edges j v ≡ (if k == j then new == v else enters g.edges j v))
      × ((j v : ℕ) → leaves h.edges j v ≡ leaves g.edges j v)
      × ((v : ℕ) → has h.vertices v ≡ has g.vertices v)
      × ((v : ℕ) → is_team h.vertices v ≡ is_team g.vertices v)
unfolding redirect
set_edge_destination-Inv g k new e inv found there = (
  redirect g e new,
  redirected g k new e inv found there,
  redirect-Inv g k new e inv found there,
  λ j v.
      enters-turned g k new e inv found there j v
      ∙ ap (λ n. if n == j then new == v else enters g.edges j v) (find_edge-id g.edges k e found),
  leaves-turned g k new e inv found there,
  has-moved g k new e inv found there,
  λ v.
      is_team-update_incoming new (add_new e.id)
        (update_incoming e.destination (remove e.id) g.vertices) v
      ∙ is_team-update_incoming e.destination (remove e.id) g.vertices v,
)
