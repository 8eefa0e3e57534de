-- ===== src/GraphMutator.antt =====
-- gegelatilib/src/mutator/tpgMutator.cpp: the mutation of a team. A call returns the graph and the
-- random engine that it leaves, also when it throws.
pub mod Removal
pub mod Thinning
pub mod Targets
pub mod Own
pub mod Steps
pub mod Loops
pub mod Team
pub mod Population
pub mod Samples
mod Tests
use gegelati.Base.{
  [], or_fail, ◌==◌, ◌||◌, ◌∷◌, ◌>>=◌, elem_at, out_of_range, List, if◌then◌else◌, Result, ℕ, err,
  false, get_elem?, length, ltb, none, ok, some, sub64, suc, true, undefined, zero,
}
use gegelati.Doubles.{Doubles}
use gegelati.Rng.{Rng}
use gegelati.Graph.{
  clone_edge, find_edge, set_edge_source, Graph, find_vertex, out_list, remove_edge,
  set_edge_destination,
}

module _ {D R : Type 0} (rng : Rng D R) where
  -- removeRandomEdge. To dereference the end of the list is undefined.
  unfoldable pub remove_random_edge : Graph → ℕ → R → Graph × Result (Unit {0}) × R
  unfolding remove_edge find_vertex
  remove_random_edge g v r =
      let edges = out_list (find_vertex g.vertices v) in
      let drawn = rng.uint64 0 (sub64 (length edges) 1) r in
      elim (get_elem? edges drawn.0) [
        | none ↦ (g, err undefined, drawn.1)
        | some k ↦ ((remove_edge g k).0, (remove_edge g k).1, drawn.1)
      ]

module _ {D R : Type 0} (F : Doubles D) (rng : Rng D R) where
  -- The first loop of mutateTPGTeam, on fuel: the probability shrinks by the factor pEdgeDeletion.
  unfoldable pub remove_random_edges : ℕ → D → D → Graph → ℕ → R → Graph × Result (Unit {0}) × R
  unfolding remove_random_edge find_vertex
  remove_random_edges zero p_deletion proba g v r = (g, ok tt, r)
  remove_random_edges (suc fuel) p_deletion proba g v r =
      elim (ltb 2 (length (out_list (find_vertex g.vertices v)))) [
        | false ↦ (g, ok tt, r)
        | true ↦
            let drawn = rng.unit_double r in
            elim (F.lt drawn.0 proba) [
              | false ↦ (g, ok tt, drawn.1)
              | true ↦
                  let (h, result, rest) = remove_random_edge rng g v drawn.1 in
                  elim result [
                    | err e ↦ (h, err e, rest)
                    | ok _ ↦ remove_random_edges fuel p_deletion (F.mul proba p_deletion) h v rest
                  ]
            ]
      ]

  -- The target that mutateEdgeDestination draws, and the state of the engine.
  unfoldable pub draw_target : D → List ℕ → List ℕ → R → Result ℕ × R
  draw_target p_action teams actions r =
      let asked = rng.unit_double r in
      let targets = if F.lt asked.0 p_action then actions else teams in
      let drawn = rng.uint64 0 (sub64 (length targets) 1) asked.1 in
      (elem_at targets drawn.0 out_of_range, drawn.1)

  -- mutateEdgeDestination; the result of setEdgeDestination is not used.
  unfoldable pub mutate_edge_destination :
      D → Graph → ℕ → List ℕ → List ℕ → R → Graph × Result (Unit {0}) × R
  unfolding draw_target set_edge_destination
  mutate_edge_destination p_action g k teams actions r =
      let (target, rest) = draw_target p_action teams actions r in
      elim target [
        | err e ↦ (g, err e, rest)
        | ok v ↦ let (h, result) = set_edge_destination g k v in (h, result >>= λ _. ok tt, rest)
      ]

-- The copy of the list of edges without those that touch the team.
unfoldable pub pickable_edges : Graph → ℕ → List ℕ → Result (List ℕ)
unfolding find_edge
pickable_edges g v [] = ok []
pickable_edges g v (k ∷ ks) = do
  e ← or_fail (find_edge g.edges k) undefined
  rest ← pickable_edges g v ks
  ok (if e.source == v || e.destination == v then rest else k ∷ rest)

module _ {D R : Type 0} (rng : Rng D R) where
  -- addRandomEdge: a copy of a random edge, with the team as its source.
  unfoldable pub add_random_edge : Graph → ℕ → List ℕ → R → Graph × Result (Unit {0}) × R
  unfolding pickable_edges clone_edge set_edge_source
  add_random_edge g v edges r = elim (pickable_edges g v edges) [
    | err e ↦ (g, err e, r)
    | ok pickable ↦
        let drawn = rng.uint64 0 (sub64 (length pickable) 1) r in
        elim (get_elem? pickable drawn.0) [
          | none ↦ (g, err undefined, drawn.1)
          | some k ↦
              let (h, cloned) = clone_edge g k in
              elim cloned [
                | err e ↦ (h, err e, drawn.1)
                | ok new ↦
                    let (j, moved) = set_edge_source h new v in (j, moved >>= λ _. ok tt, drawn.1)
              ]
        ]
  ]

module _ {D R : Type 0} (F : Doubles D) (rng : Rng D R) where
  -- The second loop of mutateTPGTeam, on fuel.
  unfoldable pub add_random_edges :
      ℕ → ℕ → D → D → Graph → ℕ → List ℕ → R → Graph × Result (Unit {0}) × R
  unfolding add_random_edge find_vertex
  add_random_edges zero most p_addition proba g v edges r = (g, ok tt, r)
  add_random_edges (suc fuel) most p_addition proba g v edges r =
      elim (ltb (length (out_list (find_vertex g.vertices v))) most) [
        | false ↦ (g, ok tt, r)
        | true ↦
            let drawn = rng.unit_double r in
            elim (F.lt drawn.0 proba) [
              | false ↦ (g, ok tt, drawn.1)
              | true ↦
                  let (h, result, rest) = add_random_edge rng g v edges drawn.1 in
                  elim result [
                    | err e ↦ (h, err e, rest)
                    | ok _ ↦
                        add_random_edges fuel most p_addition (F.mul proba p_addition) h v edges
                          rest
                  ]
            ]
      ]
