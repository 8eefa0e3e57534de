-- ===== src/Graph/Cloning.antt =====
-- cloneVertex of gegelatilib/src/tpg/tpgGraph.cpp.
use gegelati.Base.{
  Bool-cases, List, Option-cases, [], arith, false, if◌then◌else◌, inl, inr, map, member, ok, refl,
  some, true, ℕ, ◌<◌, ◌==◌, ◌||◌, ◌∙◌, ◌∷◌, ◌≡◌, ◌⊎◌,
}
use gegelati.Graph.{
  Edge, Graph, Vertex, add_new_vertex, clone_vertex, copy_edges, find_edge, find_vertex,
}
use gegelati.Graph.Lookup.{find_vertex-snoc, has, is_team, outgoing_of}
use gegelati.Graph.Kinds.{kind_of}
use gegelati.Graph.Invariant.{Inv, add_new_vertex-Inv}
use gegelati.Graph.Copying.{Copying, Copying-self, copy_edges-Copying, lead, listed-Present}

-- The edge that leads to the same vertex with the same program.
pub led :
    (g h : Graph) (i j : ℕ) (e : Edge)
    → find_edge h.edges j ≡ some e
    → lead g i ≡ lead h j
    → (d : Edge) × (find_edge g.edges i ≡ some d)
      × (d.destination ≡ e.destination)
      × (d.program ≡ e.program)
led g h i j e found leads = elim (Option-cases (find_edge g.edges i)) [
  | inl absent ↦ absurd (ground arith)
  | inr (d, at_i) ↦ (d, at_i, ground arith, ground arith)
]

pub no_members : (ks : List ℕ) → ((k : ℕ) → member k ks ≡ false) → ks ≡ []
no_members [] none_there = refl
no_members (k ∷ ks) none_there = absurd (ground (arith, none_there k))

-- The graph `h` is consistent, and is `g` with a copy of the vertex `v` at the next address: all
-- vertices and edges of `g` are kept, and the copy has the kind of `v` (a team, or an action with
-- the same identifier) and edges that lead, in their
-- order, to the same vertices with the same programs.
pub record Cloned (g h : Graph) (v : ℕ) : Type 0 where
  pub consistent : Inv h
  pub edges_kept : (j : ℕ) (e : Edge) → find_edge g.edges j ≡ some e → find_edge h.edges j ≡ some e
  pub edges_from :
      (j : ℕ) (e : Edge)
      → find_edge h.edges j ≡ some e
      → (find_edge g.edges j ≡ some e)
        ⊎ ((e.source ≡ g.next_id)
            × ((i : ℕ) × (member i (outgoing_of g.vertices v) ≡ true) × (lead g i ≡ lead h j)))
  pub vertices_now : (u : ℕ) → has h.vertices u ≡ (g.next_id == u || has g.vertices u)
  pub kinds_now :
      (u : ℕ)
      → is_team h.vertices u
        ≡ (if g.next_id == u then is_team g.vertices v else is_team g.vertices u)
  pub same_kinds :
      (u : ℕ)
      → kind_of h.vertices u
        ≡ (if g.next_id == u then kind_of g.vertices v else kind_of g.vertices u)
  pub no_reuse : g.next_id < h.next_id
  pub copied :
      map (lead h) (outgoing_of h.vertices g.next_id) ≡ map (lead g) (outgoing_of g.vertices v)

module _ (g : Graph) (v : ℕ) (x : Vertex) (inv : Inv g)
    (found : find_vertex g.vertices v ≡ some x) where
  abbrev added : Graph
  added = (add_new_vertex g x.kind).0

  out_there : outgoing_of g.vertices v ≡ x.outgoing
  out_there = ground arith

  added_kind : is_team added.vertices g.next_id ≡ is_team g.vertices v
  unfolding add_new_vertex
  added_kind = ground (
    arith,
    inv.fresh_vertices g.next_id (omega arith),
    find_vertex-snoc g.vertices
        (record { id = g.next_id; kind = x.kind; incoming = []; outgoing = [] }) g.next_id,
  )

  added_edges :
      (h : Graph) × (copy_edges added g.next_id x.outgoing ≡ (h, ok tt))
      × Copying added h g.next_id x.outgoing
  unfolding add_new_vertex copy_edges
  added_edges = elim (Bool-cases (is_team g.vertices v)) [
    | inl team_there ↦
        copy_edges-Copying added g.next_id x.outgoing (add_new_vertex-Inv g x.kind inv)
          (added_kind ∙ team_there) (λ k listed. listed-Present g v inv k (ground arith))
    | inr action_there ↦
        let empty : x.outgoing ≡ [] =
          no_members x.outgoing
            (λ k. ground (arith, inv.outgoing_listed v k, inv.from_teams v k)) in
        rw empty (added, refl, Copying-self added g.next_id (add_new_vertex-Inv g x.kind inv))
  ]

  Cloned-Copying : (h : Graph) → Copying added h g.next_id x.outgoing → Cloned g h v
  unfolding add_new_vertex
  Cloned-Copying h copies =
      let fresh = inv.fresh_vertices g.next_id (omega arith) in
      let y : Vertex = record { id = g.next_id; kind = x.kind; incoming = []; outgoing = [] } in
      record {
        consistent = copies.consistent;
        edges_kept = copies.edges_kept;
        edges_from = λ j e at_j. elim (copies.edges_from j e at_j) [
          | inl old ↦ inl old
          | inr (own, (i, listed, leads)) ↦ inr (own, (i, ground arith, leads))
        ];
        vertices_now =
            λ u. copies.vertices_kept u ∙ ground (arith, find_vertex-snoc g.vertices y u);
        kinds_now = λ u. copies.kinds_kept u ∙ ground (arith, find_vertex-snoc g.vertices y u);
        same_kinds = λ u. copies.same_kinds u ∙ ground (arith, find_vertex-snoc g.vertices y u);
        no_reuse = omega (arith, copies.no_reuse);
        copied =
            copies.copied
            ∙ rw (find_vertex-snoc g.vertices y g.next_id, fresh, found) (ground arith);
      }

  cloned_edges :
      (h : Graph)
      → copy_edges added g.next_id x.outgoing ≡ (h, ok tt)
      → clone_vertex g v ≡ (h, ok g.next_id)
  unfolding clone_vertex add_new_vertex
  cloned_edges h ran = rw (found, clone_vertex, ran) (rw ran refl)

-- cloneVertex of a vertex of a consistent graph returns the address of the copy, in a consistent
-- graph that keeps all vertices, their kinds, and all edges. The copy is a team where the vertex is
-- a team, and an action with the same identifier where it is an action; its edges lead, in their
-- order, to the same vertices with the same programs. Every other edge was there before.
pub clone_vertex-Cloned :
    (g : Graph) (v : ℕ)
    → Inv g
    → has g.vertices v ≡ true
    → (h : Graph) × (clone_vertex g v ≡ (h, ok g.next_id)) × Cloned g h v
clone_vertex-Cloned g v inv there = elim (Option-cases (find_vertex g.vertices v)) [
  | inl absent ↦ absurd (ground arith)
  | inr (x, found) ↦
      let (h, ran, copies) = added_edges g v x inv found in
      (h, cloned_edges g v x inv found h ran, Cloned-Copying g v x inv found h copies)
]
