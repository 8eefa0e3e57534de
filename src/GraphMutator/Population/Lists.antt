-- ===== src/GraphMutator/Population/Lists.antt =====
-- The lists that populateTPG (gegelatilib/src/mutator/tpgMutator.cpp) takes of a graph.
use gegelati.Base.{
  Bool, Bool-cases, List, [], arith, filter, inl, inr, member, refl, some, true, ℕ, ◌==◌, ◌||◌, ◌∷◌,
  ◌≡◌,
}
use gegelati.Graph.{Edge, Vertex, find_edge, find_vertex, is_action}
use gegelati.Graph.Lookup.{DistinctVertices, has, is_team}
use gegelati.GraphMutator.Population.{action_vertices, all_edges, team_vertices}

-- The teams and the actions together are the vertices.
pub every_vertex :
    (vs : List Vertex) (u : ℕ)
    → (member u (team_vertices vs) || member u (action_vertices vs)) ≡ has vs u
unfolding team_vertices action_vertices find_vertex is_action
every_vertex [] u = refl
every_vertex (x ∷ vs) u = ground (arith, every_vertex vs u)

pub every_edge :
    (es : List Edge) (k : ℕ)
    → member k (all_edges es) ≡ true
    → (e : Edge) × (find_edge es k ≡ some e)
unfolding all_edges find_edge
every_edge [] k listed = absurd (ground arith)
every_edge (e ∷ es) k listed = elim (Bool-cases (e.id == k)) [
  | inl same ↦ (e, rw same refl)
  | inr other ↦ let (d, found) = every_edge es k (ground arith) in (d, rw other found)
]

pub team_root :
    (vs : List Vertex) (keep : Vertex → Bool) (r : ℕ)
    → DistinctVertices vs
    → member r (team_vertices (filter keep vs)) ≡ true
    → is_team vs r ≡ true
unfolding team_vertices find_vertex is_action
team_root [] keep r distinct listed = absurd (ground arith)
team_root (x ∷ vs) keep r distinct listed = elim (Bool-cases (x.id == r)) [
  | inl same ↦ ground (arith, team_root vs keep r distinct.1, distinct.0)
  | inr other ↦ ground (arith, team_root vs keep r distinct.1)
]
