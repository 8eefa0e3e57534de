-- ===== src/Graph/Clearing.antt =====
-- clear of gegelatilib/src/tpg/tpgGraph.cpp.
use gegelati.Base.{
  List, List-cases, [], ap, arith, inl, inr, length, ok, refl, some, suc, true, zero, ℕ, ◌∷◌, ◌≡◌,
  ◌≢◌, ◌≤◌,
}
use gegelati.Graph.{
  Edge, Graph, Vertex, Outcome, clear, clear_rounds, find_edge, find_vertex, remove_vertex,
}
use gegelati.Graph.Lookup.{has}
use gegelati.Graph.Invariant.{Inv, ends_exist}
use gegelati.Graph.Removal.{remove_vertex-Inv}

no_edges : (es : List Edge) → ((j : ℕ) (e : Edge) → find_edge es j ≢ some e) → es ≡ []
unfolding find_edge
no_edges [] missing = refl
no_edges (e ∷ es) missing = absurd (missing e.id e (ground arith))

clear_round :
    (fuel : ℕ) (g h : Graph) (v : Vertex) (rest : List Vertex) (out : Outcome (Unit {0}))
    → g.vertices ≡ v ∷ rest
    → remove_vertex g v.id ≡ (h, ok tt)
    → clear_rounds fuel h ≡ out
    → clear_rounds (suc fuel) g ≡ out
unfolding clear_rounds
clear_round fuel g h v rest out front removed done =
    rw (front, clear_rounds, removed) (rw removed done)

no_round : (g : Graph) → clear_rounds zero g ≡ (g, ok tt)
unfolding clear_rounds
no_round g = refl

last_round : (fuel : ℕ) (g : Graph) → g.vertices ≡ [] → clear_rounds (suc fuel) g ≡ (g, ok tt)
unfolding clear_rounds
last_round fuel g empty = ground (arith, empty)

first_there :
    (g : Graph) (v : Vertex) (rest : List Vertex)
    → g.vertices ≡ v ∷ rest
    → has g.vertices v.id ≡ true
unfolding find_vertex
first_there g v rest front = rw front (ground arith)

no_vertex : (g : Graph) (v : ℕ) → g.vertices ≡ [] → has g.vertices v ≡ true → ⊥
unfolding find_vertex
no_vertex g v empty there = let missing = rw empty at there in cc

clear_rounds-Inv :
    (fuel : ℕ) (g : Graph)
    → Inv g
    → length g.vertices ≤ fuel
    → (h : Graph) × (clear_rounds fuel g ≡ (h, ok tt)) × Inv h × (h.vertices ≡ [])
clear_rounds-Inv zero g inv enough = elim (List-cases g.vertices) [
  | inl empty ↦ (g, no_round g, inv, empty)
  | inr (v, rest, front) ↦ let sized = ap length front in absurd (omega arith)
]
clear_rounds-Inv (suc fuel) g inv enough = elim (List-cases g.vertices) [
  | inl empty ↦ (g, last_round fuel g empty, inv, empty)
  | inr (v, rest, front) ↦
      let (h, removed, inv', gone) = remove_vertex-Inv g v.id inv (first_there g v rest front) in
      let one_less = gone.one_less in
      let (last, done, inv'', empty) = clear_rounds-Inv fuel h inv' (omega arith) in
      (last, clear_round fuel g h v rest (last, ok tt) front removed done, inv'', empty)
]

-- clear of a consistent graph does not throw, and leaves a consistent graph without vertices and
-- edges.
pub clear-empty :
    (g : Graph)
    → Inv g
    → (h : Graph) × (clear g ≡ (h, ok tt)) × Inv h × (h.vertices ≡ []) × (h.edges ≡ [])
unfolding clear
clear-empty g inv =
    let (h, done, inv', empty) = clear_rounds-Inv (length g.vertices) g inv (omega arith) in
    (
      h,
      done,
      inv',
      empty,
      no_edges h.edges (λ j e found.
          let (there, _, _) = ends_exist h j e inv' found in no_vertex h e.source empty there),
    )
