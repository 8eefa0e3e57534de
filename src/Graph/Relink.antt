-- ===== src/Graph/Relink.antt =====
-- The graph of gegelatilib/src/tpg/tpgGraph.cpp by its edges alone: each call adds, changes or
-- removes one edge, and keeps the vertices.
use gegelati.Base.{
  Bool-cases, Option, Option-cases, [], add_new, ap, arith, false, if◌then◌else◌, inl, inr, member,
  none, ok, refl, remove, some, sym, true, ℕ, ◌++◌, ◌==◌, ◌∙◌, ◌∷◌, ◌≡◌, ◌≤◌,
}
use gegelati.Graph.{
  is_action, has_vertex, update_incoming, update_outgoing, Edge, Graph, Vertex, add_new_edge,
  connect, disconnect, find_edge, find_vertex, redirect, remove_edge, set_edge_destination,
  set_edge_source, set_program, update_edge,
}
use gegelati.Graph.Lookup.{
  find_vertex-id, enters, find_edge-erase, find_edge-id, find_edge-snoc, find_edge-update, has,
  is_team, leaves, outgoing_of, update_edge-Distinct,
}
use gegelati.Graph.Kinds.{kind_of, kind_of-both, kind_of-update_incoming, kind_of-update_outgoing}
use gegelati.Graph.Invariant.{Inv}
use gegelati.Graph.Ends.{
  is_team-update_outgoing, has-update_incoming, has-update_outgoing, is_team-update_incoming,
}
use gegelati.Graph.Connect.{
  connected, connected-Inv, free, is_team-both, linked, new_edge, outgoing_of-both,
}
use gegelati.Graph.Disconnect.{disconnect-Inv, has-unlinked, remove_edge-eq-disconnect}
use gegelati.Graph.Redirect.{redirect-Inv, redirected}
use gegelati.Graph.NewSource.{set_edge_source-eq-with_source, with_source, with_source-Inv}
use gegelati.Graph.Steps.{add_new_edge-eq-connect}

-- The graph `h` is consistent, has the vertices of `g`, and the edges of `g` but for the one at
-- `k`, which is now `at_k`.
pub record Relinked (g h : Graph) (k : ℕ) (at_k : Option Edge) : Type 0 where
  pub consistent : Inv h
  pub edges_now : (j : ℕ) → find_edge h.edges j ≡ (if k == j then at_k else find_edge g.edges j)
  pub vertices_kept : (u : ℕ) → has h.vertices u ≡ has g.vertices u
  pub kinds_kept : (u : ℕ) → is_team h.vertices u ≡ is_team g.vertices u
  pub same_kinds : (u : ℕ) → kind_of h.vertices u ≡ kind_of g.vertices u
  pub no_reuse : g.next_id ≤ h.next_id

-- Two changes of the same edge.
pub join-Relinked :
    (g h j : Graph) (k : ℕ) (o p : Option Edge)
    → Relinked g h k o
    → Relinked h j k p
    → Relinked g j k p
join-Relinked g h j k o p first second = record {
  consistent = second.consistent;
  edges_now = λ i. ground (arith, first.edges_now i, second.edges_now i);
  vertices_kept = λ u. second.vertices_kept u ∙ first.vertices_kept u;
  kinds_kept = λ u. second.kinds_kept u ∙ first.kinds_kept u;
  same_kinds = λ u. second.same_kinds u ∙ first.same_kinds u;
  no_reuse = omega (arith, first.no_reuse, second.no_reuse);
}

module _ (g : Graph) (k : ℕ) (e : Edge) (inv : Inv g) (found : find_edge g.edges k ≡ some e) where
  own_id : e.id ≡ k
  own_id = find_edge-id g.edges k e found

  disconnect-Relinked : Relinked g (disconnect g e) k none
  unfolding disconnect
  disconnect-Relinked = record {
    consistent = disconnect-Inv g k e inv found;
    edges_now = λ j.
        find_edge-erase e.id g.edges j inv.distinct_edges
        ∙ ap (λ n. if n == j then none else find_edge g.edges j) own_id;
    vertices_kept = has-unlinked g k e inv found;
    kinds_kept = λ u. is_team-both g.vertices e.source e.destination (remove e.id) u;
    same_kinds = λ u. kind_of-both g.vertices e.source e.destination (remove e.id) u;
    no_reuse = omega arith;
  }

  pub remove_edge-Relinked : (h : Graph) × (remove_edge g k ≡ (h, ok tt)) × Relinked g h k none
  remove_edge-Relinked =
      (disconnect g e, remove_edge-eq-disconnect g k e inv found, disconnect-Relinked)

  update_edge-edges :
      (f : Edge → Edge)
      → ((d : Edge) → (f d).id ≡ d.id)
      → (j : ℕ)
      → find_edge (update_edge e.id f g.edges) j
        ≡ (if k == j then some (f e) else find_edge g.edges j)
  update_edge-edges f keeps j = elim (Bool-cases (k == j)) [
    | inl same ↦
        let here : (e.id == j) ≡ true = ground (arith, own_id) in
        let at_j : find_edge g.edges j ≡ some e = ground (arith, own_id) in
        rw (find_edge-update e.id f g.edges j keeps, here, same, at_j) refl
    | inr other ↦
        let elsewhere : (e.id == j) ≡ false = ground (arith, own_id) in
        rw (find_edge-update e.id f g.edges j keeps, elsewhere, other) refl
  ]

  redirect-Relinked :
      (new : ℕ)
      → has g.vertices new ≡ true
      → Relinked g (redirect g e new) k (some (record e { destination = new }))
  unfolding redirect
  redirect-Relinked new there = record {
    consistent = redirect-Inv g k new e inv found there;
    edges_now = update_edge-edges (λ d. record d { destination = new }) (λ d. refl);
    vertices_kept = λ u.
        has-update_incoming new (add_new e.id)
          (update_incoming e.destination (remove e.id) g.vertices) u
        ∙ has-update_incoming e.destination (remove e.id) g.vertices u;
    kinds_kept = λ u.
        is_team-update_incoming new (add_new e.id)
          (update_incoming e.destination (remove e.id) g.vertices) u
        ∙ is_team-update_incoming e.destination (remove e.id) g.vertices u;
    same_kinds = λ u.
        kind_of-update_incoming new (add_new e.id)
          (update_incoming e.destination (remove e.id) g.vertices) u
        ∙ kind_of-update_incoming e.destination (remove e.id) g.vertices u;
    no_reuse = omega arith;
  }

  pub set_edge_destination-Relinked :
      (new : ℕ)
      → has g.vertices new ≡ true
      → (h : Graph) × (set_edge_destination g k new ≡ (h, ok true))
        × Relinked g h k (some (record e { destination = new }))
  set_edge_destination-Relinked new there =
      (redirect g e new, redirected g k new e inv found there, redirect-Relinked new there)

  pub set_edge_source-Relinked :
      (new : ℕ)
      → is_team g.vertices new ≡ true
      → (h : Graph) × (set_edge_source g k new ≡ (h, ok true))
        × Relinked g h k (some (record e { source = new }))
  set_edge_source-Relinked new goes = (
    with_source g k new e inv found goes,
    set_edge_source-eq-with_source g k new e inv found goes,
    record {
      consistent = with_source-Inv g k new e inv found goes;
      edges_now = update_edge-edges (λ d. record d { source = new }) (λ d. refl);
      vertices_kept = λ u.
          has-update_outgoing new (add_new e.id) (update_outgoing e.source (remove e.id) g.vertices)
            u
          ∙ has-update_outgoing e.source (remove e.id) g.vertices u;
      kinds_kept = λ u.
          is_team-update_outgoing new (add_new e.id)
            (update_outgoing e.source (remove e.id) g.vertices) u
          ∙ is_team-update_outgoing e.source (remove e.id) g.vertices u;
      same_kinds = λ u.
          kind_of-update_outgoing new (add_new e.id)
            (update_outgoing e.source (remove e.id) g.vertices) u
          ∙ kind_of-update_outgoing e.source (remove e.id) g.vertices u;
      no_reuse = omega arith;
    },
  )

  abbrev with_program : ℕ → Edge → Edge
  with_program program d = record d { program = program }

  leaves-with_program :
      (program j v : ℕ)
      → leaves (update_edge e.id (with_program program) g.edges) j v ≡ leaves g.edges j v
  leaves-with_program program j v =
      ground (arith, find_edge-update e.id (with_program program) g.edges j (λ d. refl))

  enters-with_program :
      (program j v : ℕ)
      → enters (update_edge e.id (with_program program) g.edges) j v ≡ enters g.edges j v
  enters-with_program program j v =
      ground (arith, find_edge-update e.id (with_program program) g.edges j (λ d. refl))

  by_id :
      (program : ℕ)
      → set_program g k program
        ≡ record g { edges = update_edge e.id (with_program program) g.edges }
  unfolding set_program
  by_id program = rw own_id refl

  -- setProgram keeps the graph consistent.
  pub set_program-Relinked :
      (program : ℕ) → Relinked g (set_program g k program) k (some (record e { program = program }))
  set_program-Relinked program = rw (by_id program) (record {
    consistent = record {
      distinct_vertices = inv.distinct_vertices;
      distinct_edges =
          update_edge-Distinct e.id (with_program program) g.edges (λ d. refl) inv.distinct_edges;
      fresh_vertices = inv.fresh_vertices;
      fresh_edges = λ j h.
          ground
            (arith, update_edge-edges (with_program program) (λ d. refl) j, inv.fresh_edges j h);
      outgoing_listed = λ v j. inv.outgoing_listed v j ∙ sym (leaves-with_program program j v);
      incoming_listed = λ v j. inv.incoming_listed v j ∙ sym (enters-with_program program j v);
      outgoing_once = inv.outgoing_once;
      incoming_once = inv.incoming_once;
      from_teams = λ v j h. inv.from_teams v j (sym (leaves-with_program program j v) ∙ h);
    };
    edges_now = update_edge-edges (with_program program) (λ d. refl);
    vertices_kept = λ u. refl;
    kinds_kept = λ u. refl;
    same_kinds = λ u. refl;
    no_reuse = omega arith;
  })

module _ (g : Graph) (src dest program : ℕ) (inv : Inv g) where
  connected-edges :
      (j : ℕ)
      → find_edge (g.edges ++ new_edge g src dest program inv ∷ []) j
        ≡ (if g.next_id == j then some (new_edge g src dest program inv) else find_edge g.edges j)
  connected-edges j =
      let unused = free g src dest program inv in
      elim (Bool-cases (g.next_id == j)) [
        | inl same ↦
            let at_j : find_edge g.edges j ≡ none =
              ground (arith, inv.fresh_edges j (ground arith)) in
            rw (find_edge-snoc g.edges (new_edge g src dest program inv) j, at_j, same) refl
        | inr other ↦
            rw (find_edge-snoc g.edges (new_edge g src dest program inv) j, other) (ground arith)
      ]

  linked_to_team :
      (x : Vertex)
      → find_vertex g.vertices src ≡ some x
      → x.id ≡ src
      → is_action x.kind ≡ false
      → has g.vertices dest ≡ true
      → add_new_edge g src dest program ≡ (connected g src dest program inv, ok g.next_id)
  unfolding connect has_vertex
  linked_to_team x found own accepts present =
      add_new_edge-eq-connect g src dest program x found present ∙ rw (accepts, own) refl

  linked-last :
      is_team g.vertices src ≡ true
      → outgoing_of (linked g src dest program inv) src
        ≡ outgoing_of g.vertices src ++ g.next_id ∷ []
  unfolding add_new
  linked-last goes =
      let fresh : member g.next_id (outgoing_of g.vertices src) ≡ false =
        ground (arith, inv.outgoing_listed src g.next_id, free g src dest program inv) in
      let present : has g.vertices src ≡ true = ground arith in
      outgoing_of-both g.vertices src dest (add_new g.next_id) src
      ∙ rw (present, fresh) (ground arith)

  -- addNewEdge from a team to a vertex of the graph: the edge is the last of the team.
  pub add_new_edge-Relinked :
      is_team g.vertices src ≡ true
      → has g.vertices dest ≡ true
      → (h : Graph) × (add_new_edge g src dest program ≡ (h, ok g.next_id))
        × Relinked g h g.next_id
            (some (record { id = g.next_id; source = src; destination = dest; program = program }))
        × (outgoing_of h.vertices src ≡ outgoing_of g.vertices src ++ g.next_id ∷ [])
  add_new_edge-Relinked goes present = elim (Option-cases (find_vertex g.vertices src)) [
    | inl absent ↦ absurd (ground arith)
    | inr (x, found) ↦ (
      connected g src dest program inv,
      linked_to_team x found (find_vertex-id g.vertices src x found) (ground arith) present,
      record {
        consistent = connected-Inv g src dest program inv goes present;
        edges_now = connected-edges;
        vertices_kept = λ u.
            has-update_incoming dest (add_new g.next_id)
              (update_outgoing src (add_new g.next_id) g.vertices) u
            ∙ has-update_outgoing src (add_new g.next_id) g.vertices u;
        kinds_kept = is_team-both g.vertices src dest (add_new g.next_id);
        same_kinds = kind_of-both g.vertices src dest (add_new g.next_id);
        no_reuse = omega arith;
      },
      linked-last goes,
    )
  ]
