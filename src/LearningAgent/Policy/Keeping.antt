-- ===== src/LearningAgent/Policy/Keeping.antt =====
-- The loop of keepBestPolicy (gegelatilib/src/learn/learningAgent.cpp) ends.
use gegelati.Base.{
  Bool-cases, List, List-cases, Option-cases, Unique, [], ap, arith, false, inl, inr, length,
  length-map, member, member_some, ok, refl, some, subst, suc, true, zero, ℕ, ◌+◌, ◌<◌, ◌==◌, ◌∙◌,
  ◌∷◌, ◌≡◌, ◌≤◌,
}
use gegelati.Graph.{Graph, Vertex, find_edge, get_root_vertices, has_vertex}
use gegelati.Graph.Lookup.{enters, has, incoming_of}
use gegelati.Graph.Invariant.{Inv, ends_exist}
use gegelati.Graph.Roots.{not_entered-root, root_ids, root_ids-Unique, root_there}
use gegelati.Graph.Acyclic.{Ranked, rank-le-top_of, top_of}
use gegelati.LearningAgent.{Agent, EvaluationResult}
use gegelati.LearningAgent.Policy.{
  Pruned, Pruned-self, join-Pruned, keep_best_policy, keep_rounds, remove_others,
  remove_others-Pruned,
}

-- Of two different addresses one is not `best`.
other_member :
    (best : ℕ) (xs : List ℕ)
    → Unique xs
    → 2 ≤ length xs
    → (r : ℕ) × (member r xs ≡ true) × ((r == best) ≡ false)
other_member best [] once two = absurd (omega arith)
other_member best (x ∷ []) once two = absurd (omega arith)
other_member best (x ∷ y ∷ xs) once two = elim (Bool-cases (x == best)) [
  | inl same ↦ (y, ground arith, ground arith)
  | inr other ↦ (x, ground arith, other)
]

only_member : (best : ℕ) (xs : List ℕ) → length xs ≡ 1 → member best xs ≡ true → xs ≡ best ∷ []
only_member best [] one here = absurd (omega arith)
only_member best (x ∷ []) one here = let same : x ≡ best = ground arith in ap (λ y. y ∷ []) same
only_member best (x ∷ y ∷ xs) one here = absurd (omega arith)

-- Above each vertex of a graph without cycles there is a root.
some_root :
    (g : Graph) (rank : ℕ → ℕ)
    → Inv g
    → Ranked g rank
    → (fuel u : ℕ) → top_of rank g < fuel + rank u
    → has g.vertices u ≡ true
    → (r : ℕ) × (member r (root_ids g.vertices) ≡ true)
some_root g rank inv ranked zero u enough there =
    let below = rank-le-top_of rank g u there in absurd (omega arith)
some_root g rank inv ranked (suc fuel) u enough there =
    elim (List-cases (incoming_of g.vertices u)) [
      | inl alone ↦
          (u, not_entered-root g u inv there (λ k. ground (arith, inv.incoming_listed u k)))
      | inr (k, ks, entered) ↦ elim (Option-cases (find_edge g.edges k)) [
        | inl absent ↦ absurd (ground (arith, inv.incoming_listed u k))
        | inr (e, found) ↦
            let to_u : e.destination ≡ u = ground (arith, inv.incoming_listed u k) in
            let (start, ends, goes) = ends_exist g k e inv found in
            let falls : rank u < rank e.source =
              subst (λ n. rank n < rank e.source) to_u (ranked k e found) in
            some_root g rank inv ranked fuel e.source (omega arith) start
      ]
    ]

-- No edge enters the best vertex, where none did before.
still_free :
    (g h : Graph) (best : ℕ) (rank : ℕ → ℕ)
    → Pruned best rank g h
    → ((k : ℕ) → enters g.edges k best ≡ false)
    → (k : ℕ) → enters h.edges k best ≡ false
still_free g h best rank pruned free k = elim (Option-cases (find_edge h.edges k)) [
  | inl absent ↦ ground arith
  | inr (e, found) ↦ ground (arith, free k, pruned.edges_from k e found)
]

module _ (best : ℕ) (rank : ℕ → ℕ) where
  -- One vertex at least goes, where there is not exactly one root.
  round-Pruned :
      (g : Graph)
      → Inv g
      → Ranked g rank
      → has g.vertices best ≡ true
      → (length (get_root_vertices g) == 1) ≡ false
      → (h : Graph) × (remove_others best (root_ids g.vertices) g ≡ (h, ok tt))
        × Pruned best rank g h
        × (length h.vertices < length g.vertices)
  unfolding get_root_vertices
  round-Pruned g inv ranked there many =
      let (h, ran, pruned, less) =
        remove_others-Pruned best rank (root_ids g.vertices) g inv ranked there in
      let (r, listed) =
        some_root g rank inv ranked (suc (top_of rank g)) best (omega arith) there in
      let some = member_some r (root_ids g.vertices) listed in
      let count = length-map (λ (x : Vertex). x.id) (get_root_vertices g) in
      let (o, at_o, other) =
        other_member best (root_ids g.vertices) (root_ids-Unique g.vertices inv.distinct_vertices)
          (ground arith) in
      (h, ran, pruned, less (o, at_o, other, root_there o g.vertices at_o))

  module _ (fuel : ℕ) (g : Graph) where
    kept_alone :
        (length (get_root_vertices g) == 1) ≡ true → keep_rounds (suc fuel) best g ≡ some (g, ok tt)
    unfolding keep_rounds
    kept_alone one = rw (keep_rounds, one) refl

    kept_on :
        (h : Graph)
        → (length (get_root_vertices g) == 1) ≡ false
        → remove_others best (root_ids g.vertices) g ≡ (h, ok tt)
        → keep_rounds (suc fuel) best g ≡ keep_rounds fuel best h
    unfolding keep_rounds get_root_vertices
    kept_on h many ran = rw (keep_rounds, many, ran) (rw ran refl)

  keep_rounds-Pruned :
      (fuel : ℕ) (g : Graph)
      → Inv g
      → Ranked g rank
      → has g.vertices best ≡ true
      → length g.vertices < fuel
      → (h : Graph) × (keep_rounds fuel best g ≡ some (h, ok tt))
        × Pruned best rank g h
        × (length (get_root_vertices h) ≡ 1)
  keep_rounds-Pruned zero g inv ranked there enough = absurd (omega arith)
  keep_rounds-Pruned (suc fuel) g inv ranked there enough =
      elim (Bool-cases (length (get_root_vertices g) == 1)) [
        | inl one ↦
            (g, kept_alone fuel g one, Pruned-self best rank g inv ranked there, ground arith)
        | inr many ↦
            let (h, ran, first, less) = round-Pruned g inv ranked there many in
            let (j, rest, second, one) =
              keep_rounds-Pruned fuel h first.consistent first.ranked first.best_there
                (omega arith) in
            (j, kept_on fuel g h many ran ∙ rest, join-Pruned best rank g h j first second, one)
      ]

module _ {D : Type 0} (a : Agent D) (best : ℕ) (result : EvaluationResult D)
    (known : a.best_root ≡ some (best, result)) where
  kept_policy :
      (fuel : ℕ) (h : Graph)
      → has a.graph.vertices best ≡ true
      → keep_rounds fuel best a.graph ≡ some (h, ok tt)
      → keep_best_policy fuel a ≡ some (record a { graph = h }, ok tt)
  unfolding keep_best_policy has_vertex
  kept_policy fuel h there ran =
      rw (keep_best_policy, known, there, ran)
        (ap (λ b. some (record a { graph = h; best_root = b }, ok tt)) known)

  -- Where the best root is a vertex of a consistent graph without cycles (each edge leads to a lower
  -- rank, for some ranks of the vertices), keepBestPolicy ends without throwing, within as many
  -- rounds as the graph has vertices and one more. The graph is then consistent and without cycles
  -- by the same ranks, has only edges of the first one, has the best vertex and exactly one root;
  -- and when the best vertex was a root, it is this root.
  pub keep_best_policy-Pruned :
      (rank : ℕ → ℕ) (fuel : ℕ)
      → Inv a.graph
      → Ranked a.graph rank
      → has a.graph.vertices best ≡ true
      → length a.graph.vertices < fuel
      → (h : Graph) × (keep_best_policy fuel a ≡ some (record a { graph = h }, ok tt))
        × Pruned best rank a.graph h
        × (length (get_root_vertices h) ≡ 1)
        × (((k : ℕ) → enters a.graph.edges k best ≡ false) → root_ids h.vertices ≡ best ∷ [])
  unfolding get_root_vertices
  keep_best_policy-Pruned rank fuel inv ranked there enough =
      let (h, ran, pruned, one) =
        keep_rounds-Pruned best rank fuel a.graph inv ranked there enough in
      let count = length-map (λ (x : Vertex). x.id) (get_root_vertices h) in
      (
        h,
        kept_policy fuel h there ran,
        pruned,
        one,
        λ free. only_member best (root_ids h.vertices) (count ∙ one) (
            not_entered-root h best pruned.consistent pruned.best_there
              (still_free a.graph h best rank pruned free)),
      )
