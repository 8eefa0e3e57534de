-- ===== src/LearningAgent/Records.antt =====
-- updateEvaluationRecords of gegelatilib/src/learn/learningAgent.cpp.
use gegelati.Base.{
  ℕ, List, Bool, Option, [], arith, adjust, emplace, false, if◌then◌else◌, lookup, none, ok, refl,
  some, true, ◌==◌, ◌∷◌, ◌≡◌, ◌∙◌, ◌⊎◌, Bool-cases, Option-cases, inl, inr, lookup-adjust,
  lookup-emplace, ==_iff, ap, sym, subst,
}
use gegelati.Doubles.{Doubles}
use gegelati.Graph.{Graph, has_vertex}
use gegelati.LearningAgent.{
  Agent, EvaluationResult, Evaluated, is_replaced, last_result, record_result, record_results,
  update_evaluation_records,
}

module _ {D : Type 0} where
  abbrev pub id_of : Option (EvaluationResult D) → Option ℕ
  id_of none = none
  id_of (some r) = some r.id

  -- The last result of a root in a list, or else `old`.
  abbrev pub latest : Option ℕ → ℕ → List (Evaluated D) → Option ℕ
  latest old u [] = old
  latest old u (e ∷ es) = latest (if e.1 == u then some e.0.id else old) u es

  record_new :
      (a : Agent D) (e : Evaluated D)
      → lookup a.results_per_root e.1 ≡ none
      → record_result a e ≡ record a { results_per_root = emplace e.1 e.0 a.results_per_root }
  unfolding record_result
  record_new a e missing = rw (record_result, missing) refl

  record_same :
      (a : Agent D) (e : Evaluated D) (old : EvaluationResult D)
      → lookup a.results_per_root e.1 ≡ some old
      → (e.0.id == old.id) ≡ true
      → record_result a e ≡ a
  unfolding record_result
  record_same a e old found same = rw (record_result, found, same) refl

  record_other :
      (a : Agent D) (e : Evaluated D) (old : EvaluationResult D)
      → lookup a.results_per_root e.1 ≡ some old
      → (e.0.id == old.id) ≡ false
      → (record_result a e).results_per_root ≡ adjust e.1 (λ _. e.0) a.results_per_root
  unfolding record_result
  record_other a e old found other = rw (record_result, found, other) refl

  record_other-graph :
      (a : Agent D) (e : Evaluated D) (old : EvaluationResult D)
      → lookup a.results_per_root e.1 ≡ some old
      → (e.0.id == old.id) ≡ false
      → (record_result a e).graph ≡ a.graph
  unfolding record_result
  record_other-graph a e old found other = rw (record_result, found, other) refl

  record_result-id :
      (a : Agent D) (e : Evaluated D) (u : ℕ)
      → id_of (lookup (record_result a e).results_per_root u)
        ≡ (if e.1 == u then some e.0.id else id_of (lookup a.results_per_root u))
  record_result-id a e u = elim (Option-cases (lookup a.results_per_root e.1)) [
    | inl missing ↦
        rw (record_new a e missing)
          (ground (arith, lookup-emplace e.1 e.0 a.results_per_root u missing))
    | inr (old, found) ↦ elim (Bool-cases (e.0.id == old.id)) [
      | inl same ↦ rw (record_same a e old found same) (elim (Bool-cases (e.1 == u)) [
        | inl here ↦ rw here (
            ap (λ n. id_of (lookup a.results_per_root n)) (sym ((==_iff e.1 u).0 here))
            ∙ (ap id_of found ∙ ap some (sym ((==_iff e.0.id old.id).0 same))))
        | inr there ↦ rw there refl
      ])
      | inr other ↦ rw (record_other a e old found other) (elim (Bool-cases (e.1 == u)) [
        | inl here ↦
            let found_here =
              subst (λ n. lookup a.results_per_root n ≡ some old) ((==_iff e.1 u).0 here) found in
            rw (here, lookup-adjust e.1 (λ _. e.0) a.results_per_root u, here, found_here) refl
        | inr there ↦ rw (there, lookup-adjust e.1 (λ _. e.0) a.results_per_root u, there) refl
      ])
    ]
  ]

  record_result-graph : (a : Agent D) (e : Evaluated D) → (record_result a e).graph ≡ a.graph
  record_result-graph a e = elim (Option-cases (lookup a.results_per_root e.1)) [
    | inl missing ↦ ap (λ b. b.graph) (record_new a e missing)
    | inr (old, found) ↦ elim (Bool-cases (e.0.id == old.id)) [
      | inl same ↦ ap (λ b. b.graph) (record_same a e old found same)
      | inr other ↦ record_other-graph a e old found other
    ]
  ]

  record_results-id :
      (a : Agent D) (results : List (Evaluated D)) (u : ℕ)
      → id_of (lookup (record_results a results).results_per_root u)
        ≡ latest (id_of (lookup a.results_per_root u)) u results
  unfolding record_results
  record_results-id a [] u = refl
  record_results-id a (e ∷ es) u =
      record_results-id (record_result a e) es u
      ∙ ap (λ old. latest old u es) (record_result-id a e u)

  record_results-graph :
      (a : Agent D) (results : List (Evaluated D)) → (record_results a results).graph ≡ a.graph
  unfolding record_results
  record_results-graph a [] = refl
  record_results-graph a (e ∷ es) =
      record_results-graph (record_result a e) es ∙ record_result-graph a e

  last_exists :
      (e : Evaluated D) (es : List (Evaluated D))
      → (top : Evaluated D) × (last_result (e ∷ es) ≡ ok top)
  unfolding last_result
  last_exists e [] = (e, refl)
  last_exists e (f ∷ es) = last_exists f es

module _ {D : Type 0} (F : Doubles D) where
  -- The best root after a generation whose last result is `candidate`.
  abbrev pub IsBest : Graph → Evaluated D → ℕ × EvaluationResult D → Type 0
  IsBest g candidate best =
      (F.lt best.1.result candidate.0.result ≡ false)
      × ((best ≡ (candidate.1, candidate.0)) ⊎ (has_vertex g best.0 ≡ true))

  updated :
      (a : Agent D) (results : List (Evaluated D)) (candidate : Evaluated D)
      → last_result results ≡ ok candidate
      → update_evaluation_records F a results
        ≡ ok (
            if is_replaced F
              (record_results a results)
              (record_results a results).best_root
              candidate
            then record (record_results a results) { best_root = some (candidate.1, candidate.0) }
            else record_results a results)
  unfolding update_evaluation_records
  updated a results candidate last = rw (update_evaluation_records, last) refl

  replaced_or_IsBest :
      (irreflexive : (x : D) → F.lt x x ≡ false) (a : Agent D) (candidate : Evaluated D)
      → (best : ℕ × EvaluationResult D) × ((if is_replaced F a a.best_root candidate
            then record a { best_root = some (candidate.1, candidate.0) }
            else a).best_root
          ≡ some best)
        × IsBest a.graph candidate best
  unfolding is_replaced
  replaced_or_IsBest irreflexive a candidate = elim (Option-cases a.best_root) [
    | inl none_yet ↦
        rw none_yet ((candidate.1, candidate.0), refl, (irreflexive candidate.0.result, inl refl))
    | inr (best, known) ↦ elim (Bool-cases (F.lt best.1.result candidate.0.result)) [
      | inl beaten ↦
          rw (known, beaten)
            ((candidate.1, candidate.0), refl, (irreflexive candidate.0.result, inl refl))
      | inr unbeaten ↦ elim (Bool-cases (has_vertex a.graph best.0)) [
        | inl there ↦ rw (known, unbeaten, there) (best, refl, (unbeaten, inr there))
        | inr gone ↦
            rw (known, unbeaten, gone)
              ((candidate.1, candidate.0), refl, (irreflexive candidate.0.result, inl refl))
      ]
    ]
  ]

  replaced_keeps :
      (test : Bool) (a : Agent D) (best : Option (ℕ × EvaluationResult D))
      → ((if test then record a { best_root = best } else a).graph ≡ a.graph)
        × ((if test then record a { best_root = best } else a).results_per_root
            ≡ a.results_per_root)
  replaced_keeps true a best = (refl, refl)
  replaced_keeps false a best = (refl, refl)

  -- Where `<` on results is irreflexive, and there is at least one result, updateEvaluationRecords
  -- does not throw. Its best root is then no worse than the last (best) result of the generation,
  -- and is the root of that result or a vertex of the graph; each root with a result in the
  -- generation is recorded with its last one, any other root keeps its record; the graph stays.
  pub update_evaluation_records-IsBest :
      (irreflexive : (x : D) → F.lt x x ≡ false) (a : Agent D) (e : Evaluated D)
      (es : List (Evaluated D))
      → (b : Agent D) × (top : Evaluated D) × (best : ℕ × EvaluationResult D)
        × (update_evaluation_records F a (e ∷ es) ≡ ok b)
        × (last_result (e ∷ es) ≡ ok top)
        × (b.best_root ≡ some best)
        × IsBest b.graph top best
        × ((u : ℕ)
            → id_of (lookup b.results_per_root u)
              ≡ latest (id_of (lookup a.results_per_root u)) u (e ∷ es))
        × (b.graph ≡ a.graph)
  update_evaluation_records-IsBest irreflexive a e es =
      let (top, last) = last_exists e es in
      let recorded = record_results a (e ∷ es) in
      let (best, is_best, law) = replaced_or_IsBest irreflexive recorded top in
      let (same_graph, same_records) =
        replaced_keeps (is_replaced F recorded recorded.best_root top) recorded
          (some (top.1, top.0)) in
      (
        _,
        top,
        best,
        updated a (e ∷ es) top last,
        last,
        is_best,
        subst (λ g. IsBest g top best) (sym same_graph) law,
        λ u. ap (λ m. id_of (lookup m u)) same_records ∙ record_results-id a (e ∷ es) u,
        same_graph ∙ record_results-graph a (e ∷ es),
      )
