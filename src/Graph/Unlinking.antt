-- ===== src/Graph/Unlinking.antt =====
-- The edges of a vertex go before it does (removeVertex of gegelatilib/src/tpg/tpgGraph.cpp).
use gegelati.Base.{
  ==_iff, Bool-cases, List, Option-cases, Unique, [], ap, arith, false, if◌then◌else◌, inl, inr,
  length, member, none, ok, refl, remove, some, subst, suc, true, ℕ, ◌==◌, ◌∙◌, ◌∷◌, ◌≡◌,
}
use gegelati.Graph.{
  Edge, Graph, Vertex, disconnect, find_edge, remove_edge, remove_edges, update_incoming,
  update_outgoing,
}
use gegelati.Graph.Lookup.{find_edge-erase, find_edge-id, has, has_edge, is_team}
use gegelati.Graph.Invariant.{Inv}
use gegelati.Graph.Disconnect.{disconnect-Inv, has-unlinked, remove_edge-eq-disconnect}
use gegelati.Graph.Connect.{is_team-both}

-- The edges in a list are gone, the other ones and the vertices are there as before.
pub record Without (g h : Graph) (gone : List ℕ) : Type 0 where
  pub edges_left :
      (j : ℕ) → find_edge h.edges j ≡ (if member j gone then none else find_edge g.edges j)
  pub vertices_kept : (v : ℕ) → has h.vertices v ≡ has g.vertices v
  pub as_many : length h.vertices ≡ length g.vertices
  pub teams_kept : (v : ℕ) → is_team h.vertices v ≡ is_team g.vertices v

length-update_outgoing :
    (k : ℕ) (f : List ℕ → List ℕ) (vs : List Vertex) → length (update_outgoing k f vs) ≡ length vs
unfolding update_outgoing
length-update_outgoing k f [] = refl
length-update_outgoing k f (v ∷ vs) = ap suc (length-update_outgoing k f vs)

length-update_incoming :
    (k : ℕ) (f : List ℕ → List ℕ) (vs : List Vertex) → length (update_incoming k f vs) ≡ length vs
unfolding update_incoming
length-update_incoming k f [] = refl
length-update_incoming k f (v ∷ vs) = ap suc (length-update_incoming k f vs)

disconnect-Without :
    (g : Graph) (k : ℕ) (e : Edge) (inv : Inv g)
    → find_edge g.edges k ≡ some e
    → Without g (disconnect g e) (k ∷ [])
unfolding disconnect
disconnect-Without g k e inv found = record {
  edges_left = λ j.
      ground
        (arith, find_edge-erase e.id g.edges j inv.distinct_edges, find_edge-id g.edges k e found);
  vertices_kept = has-unlinked g k e inv found;
  as_many =
      length-update_incoming e.destination (remove e.id)
        (update_outgoing e.source (remove e.id) g.vertices)
      ∙ length-update_outgoing e.source (remove e.id) g.vertices;
  teams_kept = λ v. is_team-both g.vertices e.source e.destination (remove e.id) v;
}

join-Without :
    (g h i : Graph) (k : ℕ) (ks : List ℕ)
    → Without g h (k ∷ [])
    → Without h i ks
    → Without g i (k ∷ ks)
join-Without g h i k ks first rest = record {
  edges_left = λ j. ground (arith, first.edges_left j, rest.edges_left j);
  vertices_kept = λ v. rest.vertices_kept v ∙ first.vertices_kept v;
  as_many = rest.as_many ∙ first.as_many;
  teams_kept = λ v. rest.teams_kept v ∙ first.teams_kept v;
}

remove_edges-cons :
    (g g' h : Graph) (k : ℕ) (ks : List ℕ)
    → remove_edge g k ≡ (g', ok tt)
    → remove_edges g' ks ≡ (h, ok tt)
    → remove_edges g (k ∷ ks) ≡ (h, ok tt)
unfolding remove_edges
remove_edges-cons g g' h k ks removed rest = rw (removed, remove_edges) (rw removed rest)

pub remove_edges-Inv :
    (ks : List ℕ) (g : Graph)
    → Inv g
    → Unique ks
    → ((k : ℕ) → member k ks ≡ true → has_edge g.edges k ≡ true)
    → (h : Graph) × (remove_edges g ks ≡ (h, ok tt)) × Inv h × Without g h ks
unfolding remove_edges
remove_edges-Inv [] g inv once there = (
  g,
  refl,
  inv,
  record {
    edges_left = λ j. refl;
    vertices_kept = λ v. refl;
    as_many = refl;
    teams_kept = λ v. refl;
  },
)
remove_edges-Inv (k ∷ ks) g inv once there = elim (Option-cases (find_edge g.edges k)) [
  | inl missing ↦ absurd (ground (arith, there k))
  | inr (e, found) ↦
      let removed = remove_edge-eq-disconnect g k e inv found in
      let first = disconnect-Without g k e inv found in
      let (h, done, inv', rest) =
        remove_edges-Inv ks (disconnect g e) (disconnect-Inv g k e inv found) once.1 (λ j listed.
          ground (arith, first.edges_left j, there j, member_other j k ks listed once.0)) in
      (
        h,
        remove_edges-cons g (disconnect g e) h k ks removed done,
        inv',
        join-Without g (disconnect g e) h k ks first rest,
      )
]
  where
    member_other :
        (j k : ℕ) (ks : List ℕ) → member j ks ≡ true → member k ks ≡ false → (k == j) ≡ false
    member_other j k ks listed absent = elim (Bool-cases (k == j)) [
      | inr other ↦ other
      | inl same ↦
          let here = subst (λ n. member n ks ≡ false) ((==_iff k j).0 same) absent in
          absurd (ground arith)
    ]

-- The vertex leaves the graph when no edge touches it any more.
