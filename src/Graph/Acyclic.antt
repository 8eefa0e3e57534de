-- ===== src/Graph/Acyclic.antt =====
-- Graphs without cycles: every edge leads to a lower rank (gegelatilib/src/tpg/tpgGraph.cpp).
use gegelati.Base.{
  Bool-cases, List, [], arith, if◌then◌else◌, inl, inr, ltb, map, member, some, subst, true, ℕ, ◌<◌,
  ◌==◌, ◌∷◌, ◌≡◌, ◌≤◌,
}
use gegelati.Graph.{Edge, Graph, Vertex, find_edge, find_vertex}
use gegelati.Graph.Lookup.{has}

abbrev pub Ranked : Graph → (ℕ → ℕ) → Type 0
Ranked g rank =
    (k : ℕ) (e : Edge) → find_edge g.edges k ≡ some e → rank e.destination < rank e.source

-- The greatest rank in a list, and of the vertices of a graph.
unfoldable pub top : (ℕ → ℕ) → List ℕ → ℕ
top rank [] = 0
top rank (u ∷ us) = let rest = top rank us in if ltb rest (rank u) then rank u else rest

abbrev pub top_of : (ℕ → ℕ) → Graph → ℕ
top_of rank g = top rank (map (λ (x : Vertex). x.id) g.vertices)

rank-le-top : (rank : ℕ → ℕ) (us : List ℕ) (u : ℕ) → member u us ≡ true → rank u ≤ top rank us
unfolding top
rank-le-top rank [] u listed = absurd (ground arith)
rank-le-top rank (w ∷ us) u listed = elim (Bool-cases (w == u)) [
  | inl same ↦
      let itself : w ≡ u = ground arith in
      subst (λ n. rank n ≤ top rank (w ∷ us)) itself (ground arith)
  | inr other ↦ ground (arith, rank-le-top rank us u)
]

listed_vertex :
    (vs : List Vertex) (u : ℕ) → has vs u ≡ true → member u (map (λ (x : Vertex). x.id) vs) ≡ true
unfolding find_vertex
listed_vertex [] u there = absurd (ground arith)
listed_vertex (x ∷ vs) u there = ground (arith, listed_vertex vs u)

pub rank-le-top_of :
    (rank : ℕ → ℕ) (g : Graph) (u : ℕ) → has g.vertices u ≡ true → rank u ≤ top_of rank g
rank-le-top_of rank g u there =
    rank-le-top rank (map (λ (x : Vertex). x.id) g.vertices) u (listed_vertex g.vertices u there)
