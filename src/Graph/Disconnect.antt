-- ===== src/Graph/Disconnect.antt =====
-- removeEdge keeps the invariant of the graph (gegelatilib/src/tpg/tpgGraph.cpp).
use gegelati.Base.{
  ℕ, List, Bool, Bool-cases, [], ap, arith, false, if◌then◌else◌, inl, inr, is_some, member,
  member-remove, ok, refl, remove, remove-Unique, some, true, ◌==◌, ◌∙◌, ◌≡◌,
}
use gegelati.Graph.{
  Edge, Graph, Vertex, disconnect, erase_edge, find_edge, has_vertex, remove_edge, update_incoming,
  update_outgoing,
}
use gegelati.Graph.Lookup.{
  enters, erase_edge-Distinct, find_edge-erase, find_edge-id, has, incoming_of, leaves, outgoing_of,
  update_incoming-Distinct, update_outgoing-Distinct,
}
use gegelati.Graph.Invariant.{Inv, ends_exist}
use gegelati.Graph.Ends.{find_vertex-none, has-update_incoming, has-update_outgoing}
use gegelati.Graph.Connect.{outgoing_of-both, both-Unique, incoming_of-both, is_team-both}

-- A list that loses `n`, against a relation that loses the pair of `n` and `s`.
pub member-lose :
    (old : List ℕ) (present was : Bool) (n k s v : ℕ)
    → member k old ≡ was
    → (n == k ≡ true → was ≡ (s == v))
    → (s == v ≡ true → present ≡ true)
    → member k (if s == v then (if present then remove n old else []) else old)
      ≡ (if n == k then false else was)
member-lose old present was n k s v h only there = elim (Bool-cases (s == v)) [
  | inl e ↦ rw (e, there e, member-remove k n old, h) (ground arith)
  | inr e ↦ rw (e, h) (ground arith)
]

module _ (g : Graph) (k : ℕ) (e : Edge) (inv : Inv g) (found : find_edge g.edges k ≡ some e) where
  own_id : e.id ≡ k
  own_id = find_edge-id g.edges k e found

  leaves-erase :
      (j v : ℕ)
      → leaves (erase_edge e.id g.edges) j v ≡ (if e.id == j then false else leaves g.edges j v)
  leaves-erase j v = ground (arith, find_edge-erase e.id g.edges j inv.distinct_edges)

  enters-erase :
      (j v : ℕ)
      → enters (erase_edge e.id g.edges) j v ≡ (if e.id == j then false else enters g.edges j v)
  enters-erase j v = ground (arith, find_edge-erase e.id g.edges j inv.distinct_edges)

  leaves_only : (j v : ℕ) → (e.id == j) ≡ true → leaves g.edges j v ≡ (e.source == v)
  leaves_only j v same =
      let at_j : find_edge g.edges j ≡ some e = ground (arith, own_id) in rw at_j refl

  enters_only : (j v : ℕ) → (e.id == j) ≡ true → enters g.edges j v ≡ (e.destination == v)
  enters_only j v same =
      let at_j : find_edge g.edges j ≡ some e = ground (arith, own_id) in rw at_j refl

  abbrev unlinked : List Vertex
  unlinked =
      update_incoming e.destination (remove e.id)
        (update_outgoing e.source (remove e.id) g.vertices)

  unlinked-outgoing :
      (v j : ℕ) → member j (outgoing_of unlinked v) ≡ leaves (erase_edge e.id g.edges) j v
  unlinked-outgoing v j =
      let (source_there, _, _) = ends_exist g k e inv found in
      rw (outgoing_of-both g.vertices e.source e.destination (remove e.id) v, leaves-erase j v)
        (member-lose (outgoing_of g.vertices v) (has g.vertices v) (leaves g.edges j v) e.id j
          e.source v (inv.outgoing_listed v j) (leaves_only j v) (λ same. ground arith))

  unlinked-incoming :
      (v j : ℕ) → member j (incoming_of unlinked v) ≡ enters (erase_edge e.id g.edges) j v
  unlinked-incoming v j =
      let (_, destination_there, _) = ends_exist g k e inv found in
      rw (incoming_of-both g.vertices e.source e.destination (remove e.id) v, enters-erase j v)
        (member-lose (incoming_of g.vertices v) (has g.vertices v) (enters g.edges j v) e.id j
          e.destination v (inv.incoming_listed v j) (enters_only j v) (λ same. ground arith))

  pub has-unlinked : (v : ℕ) → has unlinked v ≡ has g.vertices v
  has-unlinked v =
      has-update_incoming e.destination (remove e.id)
        (update_outgoing e.source (remove e.id) g.vertices) v
      ∙ has-update_outgoing e.source (remove e.id) g.vertices v

  pub disconnect-Inv : Inv (disconnect g e)
  unfolding disconnect
  disconnect-Inv = record {
    distinct_vertices =
        update_incoming-Distinct e.destination _ _
          (update_outgoing-Distinct e.source _ g.vertices inv.distinct_vertices);
    distinct_edges = erase_edge-Distinct e.id g.edges inv.distinct_edges;
    fresh_vertices = λ v h.
        let none_yet = inv.fresh_vertices v h in
        find_vertex-none unlinked v (has-unlinked v ∙ ap is_some none_yet);
    fresh_edges = λ j h.
        ground (arith, find_edge-erase e.id g.edges j inv.distinct_edges, inv.fresh_edges j h);
    outgoing_listed = unlinked-outgoing;
    incoming_listed = unlinked-incoming;
    outgoing_once = λ v. rw (outgoing_of-both g.vertices e.source e.destination (remove e.id) v) (
        both-Unique (remove e.id) (outgoing_of g.vertices v) (e.source == v) (has g.vertices v)
          (inv.outgoing_once v)
          (remove-Unique e.id (outgoing_of g.vertices v) (inv.outgoing_once v)));
    incoming_once = λ v. rw (incoming_of-both g.vertices e.source e.destination (remove e.id) v) (
        both-Unique (remove e.id) (incoming_of g.vertices v) (e.destination == v) (has g.vertices v)
          (inv.incoming_once v)
          (remove-Unique e.id (incoming_of g.vertices v) (inv.incoming_once v)));
    from_teams = λ v j h.
        is_team-both g.vertices e.source e.destination (remove e.id) v
        ∙ inv.from_teams v j (ground (arith, leaves-erase j v));
  }

  pub remove_edge-eq-disconnect : remove_edge g k ≡ (disconnect g e, ok tt)
  unfolding remove_edge has_vertex
  remove_edge-eq-disconnect =
      let (source_there, destination_there, _) = ends_exist g k e inv found in
      rw (found, remove_edge, source_there, destination_there) refl
