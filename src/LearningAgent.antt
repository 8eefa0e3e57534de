-- ===== src/LearningAgent.antt =====
-- gegelatilib/src/learn/learningAgent.cpp and evaluationResult.cpp: what a generation does with the
-- results of its roots. An EvaluationResult is an object known by address, here its `id`; results
-- stand in a multimap, a list in the order of the results. `limit` is the number
-- floor(ratioDeletedRoots * (double)nbRoots), which the C++ library computes.
pub mod Decimate
pub mod Records
pub mod Worst
pub mod Policy
pub mod Classification
mod Tests
use gegelati.Base.{
  Bool, List, Option, Result, [], ℕ, ◌∷◌, ok, err, ◌>>=◌, adjust, emplace, erase_key, false,
  if◌then◌else◌, leb, lookup, ltb, none, not, or_fail, some, true, undefined, ◌++◌, ◌+◌, ◌==◌, ◌||◌,
}
use gegelati.Doubles.{Doubles}
use gegelati.Graph.{Graph, find_vertex, has_vertex, remove_vertex, is_action}

pub record EvaluationResult (D : Type 0) : Type 0 where
  pub id : ℕ
  pub result : D
  pub nb_evaluation : ℕ

-- A root with its result, in a multimap of results.
abbrev pub Evaluated : Type 0 → Type 0
Evaluated D = EvaluationResult D × ℕ

-- The part of a LearningAgent that the results of a generation change.
pub record Agent (D : Type 0) : Type 0 where
  pub graph : Graph
  pub results_per_root : List (ℕ × EvaluationResult D)
  pub best_root : Option (ℕ × EvaluationResult D)

module _ {D : Type 0} (F : Doubles D) where
  -- EvaluationResult::operator+=, on two results of this class; the sum has the address of the first.
  unfoldable pub add_result : EvaluationResult D → EvaluationResult D → EvaluationResult D
  add_result a b = record a {
    result =
        F.div
          (F.add (F.mul a.result (F.of_nat a.nb_evaluation))
            (F.mul b.result (F.of_nat b.nb_evaluation)))
          (F.add (F.of_nat a.nb_evaluation) (F.of_nat b.nb_evaluation));
    nb_evaluation = a.nb_evaluation + b.nb_evaluation;
  }

  -- `multimap.emplace`: behind the results that are not greater.
  unfoldable pub insert_result : Evaluated D → List (Evaluated D) → List (Evaluated D)
  insert_result e [] = e ∷ []
  insert_result e (x ∷ xs) =
      if F.lt e.0.result x.0.result then e ∷ x ∷ xs else x ∷ insert_result e xs

  unfoldable pub insert_results : List (Evaluated D) → List (Evaluated D) → List (Evaluated D)
  unfolding insert_result
  insert_results [] results = results
  insert_results (e ∷ es) results = insert_results es (insert_result e results)

-- A call on the graph that throws leaves the agent, and the exception goes on.
abbrev pub after : {D : Type 0} → Agent D → Graph × Result (Unit {0}) → Result (Agent D)
after a (g, err e) = err e
after a (g, ok _) = ok (record a { graph = g })

module _ {D : Type 0} where
  -- isRootEvalSkipped, with the previous result.
  unfoldable pub is_root_eval_skipped : Agent D → ℕ → ℕ → Bool × Option (EvaluationResult D)
  is_root_eval_skipped a max_nb_evaluation root = elim (lookup a.results_per_root root) [
    | none ↦ (false, none)
    | some previous ↦ (leb max_nb_evaluation previous.nb_evaluation, some previous)
  ]

  -- The loop of decimateWorstRoots, from round `i` on: the agent, the results of preserved actions
  -- and those that are left. A dangling root is undefined.
  unfoldable pub decimate_from :
      ℕ
      → ℕ
      → Agent D
      → List (Evaluated D)
      → List (Evaluated D)
      → Result (Agent D × List (Evaluated D) × List (Evaluated D))
  unfolding remove_vertex find_vertex is_action
  decimate_from limit i a preserved [] = ok (a, preserved, [])
  decimate_from limit i a preserved (e ∷ results) =
      if ltb i limit
      then (do
        root ← or_fail (find_vertex a.graph.vertices e.1) undefined
        elim (is_action root.kind) [
          | true ↦ decimate_from limit i a (preserved ++ e ∷ []) results
          | false ↦ (do
            removed ← after a (remove_vertex a.graph e.1)
            decimate_from limit (i + 1)
                (record removed { results_per_root = erase_key e.1 removed.results_per_root })
                preserved results)
        ])
      else ok (a, preserved, e ∷ results)

  -- One result of updateEvaluationRecords. The result of the best root is kept up to date.
  unfoldable pub record_result : Agent D → Evaluated D → Agent D
  record_result a e = elim (lookup a.results_per_root e.1) [
    | none ↦ record a { results_per_root = emplace e.1 e.0 a.results_per_root }
    | some old ↦ if e.0.id == old.id then a else record a {
      results_per_root = adjust e.1 (λ _. e.0) a.results_per_root;
      best_root = elim a.best_root [
        | none ↦ none
        | some best ↦ if e.1 == best.0 then some (best.0, e.0) else some best
      ];
    }
  ]

  unfoldable pub record_results : Agent D → List (Evaluated D) → Agent D
  unfolding record_result
  record_results a [] = a
  record_results a (e ∷ results) = record_results (record_result a e) results

  -- `--results.end()`; undefined for no results.
  unfoldable pub last_result : List (Evaluated D) → Result (Evaluated D)
  last_result [] = err undefined
  last_result (e ∷ []) = ok e
  last_result (e ∷ f ∷ results) = last_result (f ∷ results)

module _ {D : Type 0} (F : Doubles D) where
  unfoldable pub decimate_worst_roots :
      ℕ → Agent D → List (Evaluated D) → Result (Agent D × List (Evaluated D))
  unfolding decimate_from insert_results
  decimate_worst_roots limit a results = do
    done ← decimate_from limit 0 a [] results
    ok (done.0, insert_results F done.1 done.2)

  unfoldable pub is_replaced : Agent D → Option (ℕ × EvaluationResult D) → Evaluated D → Bool
  unfolding has_vertex
  is_replaced a none candidate = true
  is_replaced a (some best) candidate =
      F.lt best.1.result candidate.0.result || not (has_vertex a.graph best.0)

  unfoldable pub update_evaluation_records : Agent D → List (Evaluated D) → Result (Agent D)
  unfolding record_results last_result is_replaced
  update_evaluation_records a results = do
    candidate ← last_result results
    let recorded = record_results a results
    ok (
        if is_replaced recorded recorded.best_root candidate
        then record recorded { best_root = some (candidate.1, candidate.0) }
        else recorded)

unfoldable pub forget_previous_results : {D : Type 0} → Agent D → Agent D
forget_previous_results a = record a { results_per_root = []; best_root = none }
