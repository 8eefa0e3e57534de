-- ===== src/LearningAgent/Worst.antt =====
-- decimateWorstRoots of gegelatilib/src/learn/learningAgent.cpp.
use gegelati.Base.{
  ℕ, List, [], arith, member, not, ok, true, refl, ◌&&◌, ◌==◌, ◌||◌, ◌∷◌, ◌≡◌, ◌∙◌, Unique,
}
use gegelati.Graph.Lookup.{has, is_team}
use gegelati.Graph.Invariant.{Inv}
use gegelati.Doubles.{Doubles}
use gegelati.LearningAgent.{
  Agent, Evaluated, decimate_from, decimate_worst_roots, insert_result, insert_results,
}
use gegelati.LearningAgent.Decimate.{Gone, roots_of, worst, decimate_from-Gone}

module _ {D : Type 0} (F : Doubles D) where
  roots_of-insert_result :
      (u : ℕ) (e : Evaluated D) (results : List (Evaluated D))
      → member u (roots_of (insert_result F e results)) ≡ (e.1 == u || member u (roots_of results))
  unfolding insert_result
  roots_of-insert_result u e [] = ground arith
  roots_of-insert_result u e (x ∷ xs) = ground (arith, roots_of-insert_result u e xs)

  roots_of-insert_results :
      (u : ℕ) (es results : List (Evaluated D))
      → member u (roots_of (insert_results F es results))
        ≡ (member u (roots_of es) || member u (roots_of results))
  unfolding insert_results
  roots_of-insert_results u [] results = refl
  roots_of-insert_results u (e ∷ es) results = ground (
    arith,
    roots_of-insert_results u es (insert_result F e results),
    roots_of-insert_result u e results,
  )

  decimated :
      (limit : ℕ) (a b : Agent D) (results kept left : List (Evaluated D))
      → decimate_from limit 0 a [] results ≡ ok (b, kept, left)
      → decimate_worst_roots F limit a results ≡ ok (b, insert_results F kept left)
  unfolding decimate_worst_roots
  decimated limit a b results kept left done = rw (decimate_worst_roots, done) refl

  -- In a consistent graph, with the results of different roots that are all in the graph,
  -- decimateWorstRoots does not throw. The roots that it removes from the graph and from the
  -- results per root are the worst ones among the teams, `limit` of them or all if there are fewer;
  -- no other vertex and no other record is lost, and the graph stays consistent. The results left
  -- are those of the other roots, the actions among them.
  pub decimate_worst_roots-Gone :
      (limit : ℕ) (a : Agent D) (results : List (Evaluated D))
      → Inv a.graph
      → Unique (roots_of results)
      → ((u : ℕ) → member u (roots_of results) ≡ true → has a.graph.vertices u ≡ true)
      → (b : Agent D) × (left : List (Evaluated D)) × (decimate_worst_roots F limit a results
          ≡ ok (b, left))
        × Gone a b (worst limit (is_team a.graph.vertices) results)
        × ((u : ℕ)
            → member u (roots_of left) ≡ (
                member u (roots_of results)
                && not (member u (worst limit (is_team a.graph.vertices) results))))
  decimate_worst_roots-Gone limit a results inv once known =
      let (b, kept, left, done, gone, split) =
        decimate_from-Gone limit limit 0 (is_team a.graph.vertices) a [] results (omega arith) inv
          once (λ u here. (known u here, refl)) in
      (
        b,
        insert_results F kept left,
        decimated limit a b results kept left done,
        gone,
        λ u. roots_of-insert_results u kept left ∙ split u,
      )
