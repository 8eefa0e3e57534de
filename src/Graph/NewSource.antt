-- ===== src/Graph/NewSource.antt =====
-- setEdgeSource of gegelatilib/src/tpg/tpgGraph.cpp, to a team, keeps the invariant of the graph.
use gegelati.Base.{
  ℕ, List, Bool-cases, add_new, add_new-Unique, ap, sym, Option-cases, ==_iff, subst, arith, false,
  if◌then◌else◌, inl, inr, is_some, member, ok, refl, remove, remove-Unique, some, true, ◌==◌, ◌∙◌,
  ◌≡◌, Unique,
}
use gegelati.Graph.{
  Edge, Graph, Vertex, find_edge, find_vertex, has_vertex, is_action, set_edge_source, update_edge,
  update_outgoing,
}
use gegelati.Graph.Lookup.{
  find_vertex-id, leaves, find_edge-id, find_edge-update, has, outgoing_of, is_team, enters,
  incoming_of, update_edge-Distinct, update_outgoing-Distinct,
}
use gegelati.Graph.Invariant.{Inv, ends_exist}
use gegelati.Graph.Ends.{
  find_vertex-none, has-update_outgoing, outgoing_of-update_outgoing, is_team-update_outgoing,
  incoming_of-update_outgoing,
}
use gegelati.Graph.Connect.{both-Unique, member-gain}
use gegelati.Graph.Disconnect.{member-lose}

module _ (g : Graph) (k new : ℕ) (e : Edge) (inv : Inv g) (found : find_edge g.edges k ≡ some e)
    (goes : is_team g.vertices new ≡ true) where
  abbrev pub turn : Edge → Edge
  turn d = record d { source = new }

  abbrev pub turned : List Edge
  turned = update_edge e.id turn g.edges

  abbrev pub dropped : List Vertex
  dropped = update_outgoing e.source (remove e.id) g.vertices

  abbrev pub moved : List Vertex
  moved = update_outgoing new (add_new e.id) dropped

  there : has g.vertices new ≡ true
  there = elim (Bool-cases (has g.vertices new)) [
    | inl present ↦ present
    | inr absent ↦ absurd (ground arith)
  ]

  found_by_id : find_edge g.edges e.id ≡ some e
  found_by_id = ground (arith, find_edge-id g.edges k e found)

  enters-turned : (j v : ℕ) → enters turned j v ≡ enters g.edges j v
  enters-turned j v = ground (arith, find_edge-update e.id turn g.edges j (λ d. refl))

  leaves-turned :
      (j v : ℕ) → leaves turned j v ≡ (if e.id == j then new == v else leaves g.edges j v)
  leaves-turned j v = elim (Bool-cases (e.id == j)) [
    | inl same ↦
        let at_j : find_edge g.edges j ≡ some e = ground (arith, found_by_id) in
        rw (find_edge-update e.id turn g.edges j (λ d. refl), same, at_j) refl
    | inr other ↦ rw (find_edge-update e.id turn g.edges j (λ d. refl), other) refl
  ]

  has-dropped : (v : ℕ) → has dropped v ≡ has g.vertices v
  has-dropped v = has-update_outgoing e.source (remove e.id) g.vertices v

  pub has-moved : (v : ℕ) → has moved v ≡ has g.vertices v
  has-moved v = has-update_outgoing new (add_new e.id) dropped v ∙ has-dropped v

  dropped-outgoing :
      (v j : ℕ)
      → member j (outgoing_of dropped v) ≡ (if e.id == j then false else leaves g.edges j v)
  dropped-outgoing v j =
      let (source_there, _, _) = ends_exist g k e inv found in
      rw (outgoing_of-update_outgoing e.source (remove e.id) g.vertices v) (
        member-lose (outgoing_of g.vertices v) (has g.vertices v) (leaves g.edges j v) e.id j
          e.source v (inv.outgoing_listed v j)
          (λ same.
            let at_j : find_edge g.edges j ≡ some e = ground (arith, found_by_id) in rw at_j refl)
          (λ same. ground arith))

  moved-outgoing : (v j : ℕ) → member j (outgoing_of moved v) ≡ leaves turned j v
  moved-outgoing v j =
      let gained =
        member-gain (outgoing_of dropped v) (has dropped v)
          (if e.id == j then false else leaves g.edges j v) e.id j new v (dropped-outgoing v j)
          (λ same. ground arith) (λ same. ground (arith, has-dropped v)) in
      rw (outgoing_of-update_outgoing new (add_new e.id) dropped v)
        (gained ∙ ground (arith, leaves-turned j v))

  moved-incoming : (v : ℕ) → incoming_of moved v ≡ incoming_of g.vertices v
  moved-incoming v =
      incoming_of-update_outgoing new (add_new e.id) dropped v
      ∙ incoming_of-update_outgoing e.source (remove e.id) g.vertices v

  dropped-Unique : (v : ℕ) → Unique (outgoing_of dropped v)
  dropped-Unique v = rw (outgoing_of-update_outgoing e.source (remove e.id) g.vertices v) (
      both-Unique (remove e.id) (outgoing_of g.vertices v) (e.source == v) (has g.vertices v)
        (inv.outgoing_once v) (remove-Unique e.id (outgoing_of g.vertices v) (inv.outgoing_once v)))

  starts_in_team : (j v : ℕ) → leaves turned j v ≡ true → is_team g.vertices v ≡ true
  starts_in_team j v h = elim (Bool-cases (e.id == j)) [
    | inl same ↦
        let here : (new == v) ≡ true = ground (arith, leaves-turned j v) in
        subst (λ n. is_team g.vertices n ≡ true) ((==_iff new v).0 here) goes
    | inr other ↦ inv.from_teams v j (ground (arith, leaves-turned j v))
  ]

  abbrev pub with_source : Graph
  with_source = record g { vertices = moved; edges = turned }

  pub with_source-Inv : Inv with_source
  with_source-Inv = record {
    distinct_vertices =
        update_outgoing-Distinct new _ _
          (update_outgoing-Distinct e.source _ g.vertices inv.distinct_vertices);
    distinct_edges = update_edge-Distinct e.id turn g.edges (λ d. refl) inv.distinct_edges;
    fresh_vertices = λ v h.
        let none_yet = inv.fresh_vertices v h in
        find_vertex-none moved v (has-moved v ∙ ap is_some none_yet);
    fresh_edges = λ j h.
        ground (
          arith,
          find_edge-update e.id turn g.edges j (λ d. refl),
          inv.fresh_edges j h,
          found_by_id,
        );
    incoming_listed = λ v j.
        ap (member j) (moved-incoming v) ∙ (inv.incoming_listed v j ∙ sym (enters-turned j v));
    outgoing_listed = moved-outgoing;
    incoming_once = λ v. rw (moved-incoming v) (inv.incoming_once v);
    outgoing_once = λ v. rw (outgoing_of-update_outgoing new (add_new e.id) dropped v) (
        both-Unique (add_new e.id) (outgoing_of dropped v) (new == v) (has dropped v)
          (dropped-Unique v) (add_new-Unique e.id (outgoing_of dropped v) (dropped-Unique v)));
    from_teams = λ v j h.
        is_team-update_outgoing new (add_new e.id) dropped v
        ∙ (is_team-update_outgoing e.source (remove e.id) g.vertices v ∙ starts_in_team j v h);
  }

  move_source-team :
      (x : Vertex)
      → find_vertex g.vertices new ≡ some x
      → x.id ≡ new
      → is_action x.kind ≡ false
      → set_edge_source g k new ≡ (with_source, ok true)
  unfolding set_edge_source has_vertex
  move_source-team x at_new own accepts =
      let (source_there, _, _) = ends_exist g k e inv found in
      rw (found, set_edge_source, at_new, source_there, accepts, own) refl

  pub set_edge_source-eq-with_source : set_edge_source g k new ≡ (with_source, ok true)
  set_edge_source-eq-with_source = elim (Option-cases (find_vertex g.vertices new)) [
    | inl absent ↦ absurd (ground arith)
    | inr (x, at_new) ↦
        move_source-team x at_new (find_vertex-id g.vertices new x at_new) (ground arith)
  ]

-- On a consistent graph with the edge and the team, setEdgeSource does not throw and returns true:
-- the graph stays consistent, the edge starts at the team, and every other edge starts where it
-- did; every edge keeps its destination, and every vertex stays what it was.
pub set_edge_source-Inv :
    (g : Graph) (k new : ℕ) (e : Edge)
    → Inv g
    → find_edge g.edges k ≡ some e
    → is_team g.vertices new ≡ true
    → (h : Graph) × (set_edge_source g k new ≡ (h, ok true))
      × Inv h
      × ((j v : ℕ) → leaves h.edges j v ≡ (if k == j then new == v else leaves g.edges j v))
      × ((j v : ℕ) → enters h.edges j v ≡ enters g.edges j v)
      × ((v : ℕ) → has h.vertices v ≡ has g.vertices v)
      × ((v : ℕ) → is_team h.vertices v ≡ is_team g.vertices v)
set_edge_source-Inv g k new e inv found goes = (
  with_source g k new e inv found goes,
  set_edge_source-eq-with_source g k new e inv found goes,
  with_source-Inv g k new e inv found goes,
  λ j v.
      leaves-turned g k new e inv found goes j v
      ∙ ap (λ n. if n == j then new == v else leaves g.edges j v) (find_edge-id g.edges k e found),
  enters-turned g k new e inv found goes,
  has-moved g k new e inv found goes,
  λ v.
      is_team-update_outgoing new (add_new e.id) (update_outgoing e.source (remove e.id) g.vertices)
        v
      ∙ is_team-update_outgoing e.source (remove e.id) g.vertices v,
)
