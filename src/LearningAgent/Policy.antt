-- ===== src/LearningAgent/Policy.antt =====
-- keepBestPolicy of gegelatilib/src/learn/learningAgent.cpp.
pub mod Keeping
use gegelati.Base.{
  Bool-cases, List, Option, Result, [], arith, err, false, inl, inr, length, map, member, none, ok,
  refl, some, suc, true, undefined, zero, ℕ, ◌<◌, ◌==◌, ◌∙◌, ◌∷◌, ◌≡◌, ◌≤◌,
}
use gegelati.Graph.{Edge, Graph, Vertex, find_edge, get_root_vertices, has_vertex, remove_vertex}
use gegelati.Graph.Lookup.{has}
use gegelati.Graph.Invariant.{Inv}
use gegelati.Graph.Removal.{Removed, remove_vertex-Inv}
use gegelati.Graph.Acyclic.{Ranked}
use gegelati.LearningAgent.{Agent}

-- The loop over a copy of the roots.
unfoldable pub remove_others : ℕ → List ℕ → Graph → Graph × Result (Unit {0})
unfolding remove_vertex
remove_others best [] g = (g, ok tt)
remove_others best (r ∷ rs) g = elim (r == best) [
  | true ↦ remove_others best rs g
  | false ↦
      let (h, result) = remove_vertex g r in
      elim result [ err e ↦ (h, err e) | ok _ ↦ remove_others best rs h ]
]

-- The loop of keepBestPolicy; `none` means that the fuel ran out.
unfoldable pub keep_rounds : ℕ → ℕ → Graph → Option (Graph × Result (Unit {0}))
unfolding remove_others get_root_vertices
keep_rounds zero best g = none
keep_rounds (suc fuel) best g = elim (length (get_root_vertices g) == 1) [
  | true ↦ some (g, ok tt)
  | false ↦
      let (h, result) = remove_others best (map (λ (x : Vertex). x.id) (get_root_vertices g)) g in
      elim result [ err e ↦ some (h, err e) | ok _ ↦ keep_rounds fuel best h ]
]

-- keepBestPolicy. Without a best root it would follow a null pointer.
unfoldable pub keep_best_policy : {D : Type 0} → ℕ → Agent D → Option (Agent D × Result (Unit {0}))
unfolding keep_rounds has_vertex
keep_best_policy fuel a = elim a.best_root [
  | none ↦ some (a, err undefined)
  | some best ↦ elim (has_vertex a.graph best.0) [
    | false ↦ some (a, ok tt)
    | true ↦ elim (keep_rounds fuel best.0 a.graph) [
      | none ↦ none
      | some result ↦ some (record a { graph = result.0 }, result.1)
    ]
  ]
]

-- What is left of the graph `g` without some of its vertices other than `best`.
pub record Pruned (best : ℕ) (rank : ℕ → ℕ) (g h : Graph) : Type 0 where
  pub consistent : Inv h
  pub ranked : Ranked h rank
  pub best_there : has h.vertices best ≡ true
  pub edges_from : (k : ℕ) (e : Edge) → find_edge h.edges k ≡ some e → find_edge g.edges k ≡ some e
  pub fewer : length h.vertices ≤ length g.vertices

module _ (best : ℕ) (rank : ℕ → ℕ) where
  pub Pruned-self :
      (g : Graph) → Inv g → Ranked g rank → has g.vertices best ≡ true → Pruned best rank g g
  Pruned-self g inv ranked there = record {
    consistent = inv;
    ranked = ranked;
    best_there = there;
    edges_from = λ k e found. found;
    fewer = omega arith;
  }

  pub join-Pruned :
      (g h j : Graph) → Pruned best rank g h → Pruned best rank h j → Pruned best rank g j
  join-Pruned g h j first second = record {
    consistent = second.consistent;
    ranked = second.ranked;
    best_there = second.best_there;
    edges_from = λ k e found. first.edges_from k e (second.edges_from k e found);
    fewer = omega (arith, first.fewer, second.fewer);
  }

  Pruned-Removed :
      (g h : Graph) (r : ℕ)
      → (r == best) ≡ false
      → Inv h
      → Ranked g rank
      → has g.vertices best ≡ true
      → Removed g h r
      → Pruned best rank g h
  Pruned-Removed g h r other inv ranked there removed =
      let from : (k : ℕ) (e : Edge) → find_edge h.edges k ≡ some e → find_edge g.edges k ≡ some e =
        λ k e found. ground (arith, removed.edges_left k) in
      record {
        consistent = inv;
        ranked = λ k e found. ranked k e (from k e found);
        best_there = ground (arith, removed.vertices_left best);
        edges_from = from;
        fewer = omega (arith, removed.one_less);
      }

  -- One of the vertices is there, and not the best one.
  abbrev pub SomeOther : Graph → List ℕ → Type 0
  SomeOther g rs =
      (r : ℕ) × (member r rs ≡ true) × ((r == best) ≡ false) × (has g.vertices r ≡ true)

  module _ (g : Graph) (r : ℕ) (rs : List ℕ) where
    spared : (r == best) ≡ true → remove_others best (r ∷ rs) g ≡ remove_others best rs g
    unfolding remove_others
    spared same = rw (remove_others, same) refl

    removed_first :
        (h : Graph)
        → (r == best) ≡ false
        → remove_vertex g r ≡ (h, ok tt)
        → remove_others best (r ∷ rs) g ≡ remove_others best rs h
    unfolding remove_others
    removed_first h other removed = rw (remove_others, other, removed) (rw removed refl)

    nothing_removed : has g.vertices r ≡ false → remove_vertex g r ≡ (g, ok tt)
    unfolding remove_vertex has_vertex
    nothing_removed absent = rw (remove_vertex, absent) refl

  pub remove_others-Pruned :
      (rs : List ℕ) (g : Graph)
      → Inv g
      → Ranked g rank
      → has g.vertices best ≡ true
      → (h : Graph) × (remove_others best rs g ≡ (h, ok tt))
        × Pruned best rank g h
        × (SomeOther g rs → length h.vertices < length g.vertices)
  unfolding remove_others
  remove_others-Pruned [] g inv ranked there =
      (g, refl, Pruned-self g inv ranked there, λ other. absurd (ground arith))
  remove_others-Pruned (r ∷ rs) g inv ranked there = elim (Bool-cases (r == best)) [
    | inl same ↦
        let (h, ran, pruned, less) = remove_others-Pruned rs g inv ranked there in
        (
          h,
          spared g r rs same ∙ ran,
          pruned,
          λ (o, listed, other, present). less (o, ground arith, other, present),
        )
    | inr different ↦ elim (Bool-cases (has g.vertices r)) [
      | inl present ↦
          let (g1, gone, inv1, removed) = remove_vertex-Inv g r inv present in
          let first = Pruned-Removed g g1 r different inv1 ranked there removed in
          let (h, ran, pruned, less) =
            remove_others-Pruned rs g1 inv1 first.ranked first.best_there in
          (
            h,
            removed_first g r rs g1 different gone ∙ ran,
            join-Pruned g g1 h first pruned,
            λ other. omega (arith, pruned.fewer, removed.one_less),
          )
      | inr absent ↦
          let (h, ran, pruned, less) = remove_others-Pruned rs g inv ranked there in
          (
            h,
            removed_first g r rs g different (nothing_removed g r rs absent) ∙ ran,
            pruned,
            λ (o, listed, other, present). less (o, ground arith, other, present),
          )
    ]
  ]
