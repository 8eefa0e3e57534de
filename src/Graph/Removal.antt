-- ===== src/Graph/Removal.antt =====
-- removeVertex and clear of gegelatilib/src/tpg/tpgGraph.cpp: in a consistent graph they never
-- throw.
use gegelati.Graph.Unlinking.{Without, remove_edges-Inv}
use gegelati.Base.{
  ==_iff, Bool, Bool-cases, List, Unique, [], arith, false, if◌then◌else◌, inl, inr, length, member,
  none, ok, refl, subst, true, ℕ, ◌+◌, ◌==◌, ◌||◌, ◌∙◌, ◌∷◌, ◌≡◌,
}
use gegelati.Graph.{
  Graph, Vertex, erase_vertex, find_edge, find_vertex, has_vertex, remove_edges, remove_vertex,
}
use gegelati.Graph.Lookup.{
  enters, erase_vertex-Distinct, find_vertex-erase, has, has_edge, incoming_of, is_team, leaves,
  outgoing_of,
}
use gegelati.Graph.Invariant.{Inv}

module _ (g : Graph) (v : ℕ) (inv : Inv g) (no_out : (j : ℕ) → leaves g.edges j v ≡ false)
    (no_in : (j : ℕ) → enters g.edges j v ≡ false) where
  abbrev erased : Graph
  erased = record g { vertices = erase_vertex v g.vertices }

  find_erased :
      (u : ℕ) → find_vertex erased.vertices u ≡ (if v == u then none else find_vertex g.vertices u)
  find_erased u = find_vertex-erase v g.vertices u inv.distinct_vertices

  outgoing_erased :
      (u : ℕ) → outgoing_of erased.vertices u ≡ (if v == u then [] else outgoing_of g.vertices u)
  outgoing_erased u = ground (arith, find_erased u)

  incoming_erased :
      (u : ℕ) → incoming_of erased.vertices u ≡ (if v == u then [] else incoming_of g.vertices u)
  incoming_erased u = ground (arith, find_erased u)

  team_erased :
      (u : ℕ) → is_team erased.vertices u ≡ (if v == u then false else is_team g.vertices u)
  team_erased u = ground (arith, find_erased u)

  same_vertex : (u : ℕ) → (v == u) ≡ true → v ≡ u
  same_vertex u h = (==_iff v u).0 h

  no_out_at : (u j : ℕ) → (v == u) ≡ true → leaves g.edges j u ≡ false
  no_out_at u j h = subst (λ w. leaves g.edges j w ≡ false) (same_vertex u h) (no_out j)

  no_in_at : (u j : ℕ) → (v == u) ≡ true → enters g.edges j u ≡ false
  no_in_at u j h = subst (λ w. enters g.edges j w ≡ false) (same_vertex u h) (no_in j)

  erased-outgoing : (u j : ℕ) → member j (outgoing_of erased.vertices u) ≡ leaves g.edges j u
  erased-outgoing u j = elim (Bool-cases (v == u)) [
    | inl here ↦ rw (outgoing_erased u, here, no_out_at u j here) refl
    | inr there ↦ rw (outgoing_erased u, there) (inv.outgoing_listed u j)
  ]

  erased-incoming : (u j : ℕ) → member j (incoming_of erased.vertices u) ≡ enters g.edges j u
  erased-incoming u j = elim (Bool-cases (v == u)) [
    | inl here ↦ rw (incoming_erased u, here, no_in_at u j here) refl
    | inr there ↦ rw (incoming_erased u, there) (inv.incoming_listed u j)
  ]

  emptied-Unique : (here : Bool) (old : List ℕ) → Unique old → Unique (if here then [] else old)
  emptied-Unique true old once = tt
  emptied-Unique false old once = once

  pub erased-Inv : Inv erased
  erased-Inv = record {
    distinct_vertices = erase_vertex-Distinct v g.vertices inv.distinct_vertices;
    distinct_edges = inv.distinct_edges;
    fresh_vertices = λ u h. ground (arith, find_erased u, inv.fresh_vertices u h);
    fresh_edges = inv.fresh_edges;
    outgoing_listed = erased-outgoing;
    incoming_listed = erased-incoming;
    outgoing_once = λ u.
        rw (outgoing_erased u)
          (emptied-Unique (v == u) (outgoing_of g.vertices u) (inv.outgoing_once u));
    incoming_once = λ u.
        rw (incoming_erased u)
          (emptied-Unique (v == u) (incoming_of g.vertices u) (inv.incoming_once u));
    from_teams = λ u j h. ground (arith, team_erased u, no_out_at u j, inv.from_teams u j h);
  }

-- All edges of a vertex are in the graph.
listed_edges :
    (g : Graph) (v : ℕ)
    → Inv g
    → ((k : ℕ) → member k (outgoing_of g.vertices v) ≡ true → has_edge g.edges k ≡ true)
      × ((k : ℕ) → member k (incoming_of g.vertices v) ≡ true → has_edge g.edges k ≡ true)
listed_edges g v inv =
    (λ k h. ground (arith, inv.outgoing_listed v k), λ k h. ground (arith, inv.incoming_listed v k))

remove_vertex_steps :
    (g g1 g2 : Graph) (v : ℕ)
    → has g.vertices v ≡ true
    → remove_edges g (incoming_of g.vertices v) ≡ (g1, ok tt)
    → remove_edges g1 (outgoing_of g1.vertices v) ≡ (g2, ok tt)
    → remove_vertex g v ≡ (record g2 { vertices = erase_vertex v g2.vertices }, ok tt)
unfolding remove_vertex has_vertex
remove_vertex_steps g g1 g2 v there first second =
    rw (there, remove_vertex, first) (rw first (rw second (rw first (rw second refl))))

-- The vertex and the edges that touch it are gone, the other ones are there as before.
pub record Removed (g h : Graph) (v : ℕ) : Type 0 where
  pub vertices_left : (u : ℕ) → has h.vertices u ≡ (if v == u then false else has g.vertices u)
  pub edges_left :
      (j : ℕ)
      → find_edge h.edges j
        ≡ (if leaves g.edges j v || enters g.edges j v then none else find_edge g.edges j)
  pub teams_left : (u : ℕ) → is_team h.vertices u ≡ (if v == u then false else is_team g.vertices u)
  pub one_less : length h.vertices + 1 ≡ length g.vertices

length-erase_vertex :
    (v : ℕ) (vs : List Vertex) → has vs v ≡ true → length (erase_vertex v vs) + 1 ≡ length vs
unfolding erase_vertex find_vertex
length-erase_vertex v [] h = absurd (ground arith)
length-erase_vertex v (x ∷ vs) h = ground (arith, length-erase_vertex v vs)

module _ (g g1 g2 : Graph) (v : ℕ) (inv : Inv g) (inv1 : Inv g1)
    (first : Without g g1 (incoming_of g.vertices v))
    (second : Without g1 g2 (outgoing_of g1.vertices v)) where
  edges_without :
      (j : ℕ)
      → find_edge g2.edges j
        ≡ (if leaves g.edges j v || enters g.edges j v then none else find_edge g.edges j)
  edges_without j = ground (
    arith,
    first.edges_left j,
    second.edges_left j,
    inv.incoming_listed v j,
    inv1.outgoing_listed v j,
  )

  none_leave : (j : ℕ) → leaves g2.edges j v ≡ false
  none_leave j = ground (arith, edges_without j)

  none_enter : (j : ℕ) → enters g2.edges j v ≡ false
  none_enter j = ground (arith, edges_without j)

-- removeVertex of a vertex of a consistent graph does not throw: the vertex is gone with exactly
-- the edges that start or end there, all other vertices and edges are there as before, and the
-- graph is consistent.
pub remove_vertex-Inv :
    (g : Graph) (v : ℕ)
    → Inv g
    → has g.vertices v ≡ true
    → (h : Graph) × (remove_vertex g v ≡ (h, ok tt)) × Inv h × Removed g h v
remove_vertex-Inv g v inv there =
    let (_, incoming_there) = listed_edges g v inv in
    let (g1, done1, inv1, first) =
      remove_edges-Inv (incoming_of g.vertices v) g inv (inv.incoming_once v) incoming_there in
    let (outgoing_there, _) = listed_edges g1 v inv1 in
    let (g2, done2, inv2, second) =
      remove_edges-Inv (outgoing_of g1.vertices v) g1 inv1 (inv1.outgoing_once v) outgoing_there in
    let no_out = none_leave g g1 g2 v inv inv1 first second in
    let no_in = none_enter g g1 g2 v inv inv1 first second in
    (
      record g2 { vertices = erase_vertex v g2.vertices },
      remove_vertex_steps g g1 g2 v there done1 done2,
      erased-Inv g2 v inv2 no_out no_in,
      record {
        vertices_left = λ u. ground (
          arith,
          find_erased g2 v inv2 no_out no_in u,
          second.vertices_kept u,
          first.vertices_kept u,
        );
        edges_left = edges_without g g1 g2 v inv inv1 first second;
        teams_left = λ u.
            ground (
              arith,
              team_erased g2 v inv2 no_out no_in u,
              second.teams_kept u,
              first.teams_kept u,
            );
        one_less =
            length-erase_vertex v g2.vertices
              (second.vertices_kept v ∙ first.vertices_kept v ∙ there)
            ∙ second.as_many
            ∙ first.as_many;
      },
    )
