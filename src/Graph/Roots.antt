-- ===== src/Graph/Roots.antt =====
-- getRootVertices of gegelatilib/src/tpg/tpgGraph.cpp: the vertices without an incoming edge.
use gegelati.Base.{
  Bool-cases, List, Option-cases, Unique, [], arith, false, filter, inl, inr, length, map, member,
  refl, some, sym, true, ℕ, ◌==◌, ◌↔◌, ◌∙◌, ◌∷◌, ◌≡◌,
}
use gegelati.Graph.{Graph, Vertex, find_vertex, get_root_vertices}
use gegelati.Graph.Lookup.{DistinctVertices, enters, has, incoming_of}
use gegelati.Graph.Invariant.{Inv}
use gegelati.Graph.Cloning.{no_members}

-- The addresses of the roots.
abbrev pub root_ids : List Vertex → List ℕ
root_ids vs = map (λ (x : Vertex). x.id) (filter (λ (x : Vertex). length x.incoming == 0) vs)

module _ (u : ℕ) where
  in_roots :
      (vs : List Vertex) (x : Vertex)
      → find_vertex vs u ≡ some x
      → x.incoming ≡ []
      → member u (root_ids vs) ≡ true
  unfolding find_vertex
  in_roots [] x found alone = absurd (ground arith)
  in_roots (y ∷ vs) x found alone = ground (arith, in_roots vs x)

  pub root_there : (vs : List Vertex) → member u (root_ids vs) ≡ true → has vs u ≡ true
  unfolding find_vertex
  root_there [] listed = absurd (ground arith)
  root_there (y ∷ vs) listed = ground (arith, root_there vs)

-- A vertex that no edge enters is a root.
pub not_entered-root :
    (g : Graph) (u : ℕ)
    → Inv g
    → has g.vertices u ≡ true
    → ((k : ℕ) → enters g.edges k u ≡ false)
    → member u (root_ids g.vertices) ≡ true
not_entered-root g u inv there none_enters = elim (Option-cases (find_vertex g.vertices u)) [
  | inl absent ↦ absurd (ground arith)
  | inr (x, found) ↦
      let entered : (k : ℕ) → member k x.incoming ≡ false =
        λ k. ground (arith, inv.incoming_listed u k, none_enters k) in
      in_roots u g.vertices x found (no_members x.incoming entered)
]

pub root_ids-Unique : (vs : List Vertex) → DistinctVertices vs → Unique (root_ids vs)
root_ids-Unique [] distinct = tt
root_ids-Unique (x ∷ vs) distinct = elim (Bool-cases (length x.incoming == 0)) [
  | inl alone ↦
      rw alone (ground (arith, root_there x.id vs, distinct.0), root_ids-Unique vs distinct.1)
  | inr entered ↦ rw entered (root_ids-Unique vs distinct.1)
]

empty_list : (xs : List ℕ) → (length xs == 0) ≡ true → xs ≡ []
empty_list [] none_there = refl
empty_list (x ∷ xs) none_there = absurd (ground arith)

root_alone :
    (vs : List Vertex) (u : ℕ)
    → DistinctVertices vs
    → member u (root_ids vs) ≡ true
    → incoming_of vs u ≡ []
unfolding find_vertex
root_alone [] u distinct listed = refl
root_alone (x ∷ vs) u distinct listed = elim (Bool-cases (x.id == u)) [
  | inl same ↦
      let alone : (length x.incoming == 0) ≡ true = ground (arith, root_there u vs, distinct.0) in
      rw same (empty_list x.incoming alone)
  | inr other ↦ rw other (root_alone vs u distinct.1 (ground arith))
]

-- getRootVertices of a consistent graph lists each vertex that no edge enters, once, and no other.
pub get_root_vertices-listed :
    (g : Graph)
    → Inv g
    → ((u : ℕ)
        → member u (map (λ (x : Vertex). x.id) (get_root_vertices g)) ≡ true
          ↔ ((has g.vertices u ≡ true) × ((k : ℕ) → enters g.edges k u ≡ false)))
      × Unique (map (λ (x : Vertex). x.id) (get_root_vertices g))
unfolding get_root_vertices
get_root_vertices-listed g inv = (
  λ u. (
    λ listed. (
      root_there u g.vertices listed,
      λ k.
          sym (inv.incoming_listed u k)
          ∙ rw (root_alone g.vertices u inv.distinct_vertices listed) refl,
    ),
    λ (there, free). not_entered-root g u inv there free,
  ),
  root_ids-Unique g.vertices inv.distinct_vertices,
)
