-- ===== src/LearningAgent/Tests.antt =====
-- An agent over the sample graph, whose generation has a result of each vertex, with whole numbers
-- in place of doubles.
use gegelati.Base.{
  List, [], add_new, arith, false, length, lookup, member, not, ok, refl, remove, some, true, ℕ,
  ◌&&◌, ◌<◌, ◌∷◌, ◌≡◌, if◌then◌else◌, ◌==◌,
}
use gegelati.Doubles.{whole_numbers}
use gegelati.Graph.{
  Graph, add_new_edge, add_new_vertex, erase_edge, erase_vertex, find_vertex, get_root_vertices,
  is_action, update_incoming, update_outgoing, action, find_edge, team,
}
use gegelati.Graph.Lookup.{enters, has, is_team}
use gegelati.Graph.Samples.{small, small-Inv}
use gegelati.Graph.Roots.{root_ids}
use gegelati.GraphMutator.Samples.{grown}
use gegelati.Graph.Acyclic.{Ranked}
use gegelati.Graph.Invariant.{Inv, add_new_vertex-Inv}
use gegelati.Graph.Connect.{add_new_edge-Inv}
use gegelati.LearningAgent.Classification.{
  ClassificationResult, IsTotal, Merged, add_classification_result,
  add_classification_result-IsTotal, new_classification_result,
}
use gegelati.LearningAgent.Policy.{Pruned, keep_best_policy}
use gegelati.LearningAgent.Policy.Keeping.{keep_best_policy-Pruned}
use gegelati.LearningAgent.{
  Agent, EvaluationResult, Evaluated, decimate_worst_roots, last_result, update_evaluation_records,
}
use gegelati.LearningAgent.Decimate.{Gone, roots_of, worst}
use gegelati.LearningAgent.Worst.{decimate_worst_roots-Gone}
use gegelati.LearningAgent.Records.{IsBest, id_of, latest, update_evaluation_records-IsBest}

abbrev of_action : Evaluated ℕ
of_action = (record { id = 20; result = 3; nb_evaluation = 1 }, 0)

abbrev of_team : Evaluated ℕ
of_team = (record { id = 21; result = 5; nb_evaluation = 1 }, 1)

abbrev both : List (Evaluated ℕ)
both = of_action ∷ of_team ∷ []

abbrev sample_agent : Agent ℕ
sample_agent = record {
  graph = small;
  results_per_root = (1, record { id = 19; result = 4; nb_evaluation = 1 }) ∷ [];
  best_root = some (1, record { id = 19; result = 4; nb_evaluation = 1 });
}

worst_sample : worst 1 (is_team small.vertices) both ≡ 1 ∷ []
unfolding find_vertex is_action
worst_sample = refl

decimate_worst_roots-Gone_example :
    (b : Agent ℕ) × (left : List (Evaluated ℕ)) × (decimate_worst_roots whole_numbers 1 sample_agent
        both
      ≡ ok (b, left))
    × Gone sample_agent b (worst 1 (is_team small.vertices) both)
    × ((u : ℕ)
        → member u (roots_of left)
          ≡ (member u (roots_of both) && not (member u (worst 1 (is_team small.vertices) both))))
unfolding find_vertex
decimate_worst_roots-Gone_example =
    decimate_worst_roots-Gone whole_numbers 1 sample_agent both small-Inv (refl, (refl, tt))
      (λ u here. ground arith)

update_evaluation_records-IsBest_example :
    (b : Agent ℕ) × (top : Evaluated ℕ) × (best : ℕ × EvaluationResult ℕ)
    × (update_evaluation_records whole_numbers sample_agent both ≡ ok b)
    × (last_result both ≡ ok top)
    × (b.best_root ≡ some best)
    × IsBest whole_numbers b.graph top best
    × ((u : ℕ)
        → id_of (lookup b.results_per_root u)
          ≡ latest (id_of (lookup sample_agent.results_per_root u)) u both)
    × (b.graph ≡ small)
update_evaluation_records-IsBest_example =
    update_evaluation_records-IsBest whole_numbers (λ x. ground arith) sample_agent of_action
      (of_team ∷ [])

-- Here the teams 0 and 2 lead to the action 1: team 0 is older than its action.
abbrev no_vertex : Graph
no_vertex = record { vertices = []; edges = []; next_id = 0 }

no_vertex-Inv : Inv no_vertex
unfolding find_vertex find_edge
no_vertex-Inv = record {
  distinct_vertices = tt;
  distinct_edges = tt;
  fresh_vertices = λ v h. refl;
  fresh_edges = λ k h. refl;
  outgoing_listed = λ v k. refl;
  incoming_listed = λ v k. refl;
  outgoing_once = λ v. tt;
  incoming_once = λ v. tt;
  from_teams = λ v k h. absurd (ground arith);
}

abbrev three_alone : Graph
three_alone =
    (add_new_vertex (add_new_vertex (add_new_vertex no_vertex team).0 (action 5)).0 team).0

abbrev older_teams : Graph
older_teams = (add_new_edge (add_new_edge three_alone 0 1 7).0 2 1 8).0

older_teams-Inv : Inv older_teams
older_teams-Inv =
    let first = add_new_vertex-Inv no_vertex team no_vertex-Inv in
    let second = add_new_vertex-Inv (add_new_vertex no_vertex team).0 (action 5) first in
    let third =
      add_new_vertex-Inv (add_new_vertex (add_new_vertex no_vertex team).0 (action 5)).0 team
        second in
    add_new_edge-Inv (add_new_edge three_alone 0 1 7).0 2 1 8
      (add_new_edge-Inv three_alone 0 1 7 third)

abbrev height : ℕ → ℕ
height u = if u == 1 then 0 else 1

older_teams-Ranked : Ranked older_teams height
unfolding add_new_edge add_new_vertex find_edge find_vertex is_action update_incoming
    update_outgoing add_new
older_teams-Ranked k e found = ground arith

abbrev older_agent : Agent ℕ
older_agent = record {
  graph = older_teams;
  results_per_root = [];
  best_root = some (0, record { id = 19; result = 4; nb_evaluation = 1 });
}

zero_there : has older_teams.vertices 0 ≡ true
unfolding add_new_edge add_new_vertex find_vertex is_action update_incoming update_outgoing add_new
zero_there = refl

three_vertices : length older_teams.vertices < 4
unfolding add_new_edge add_new_vertex find_vertex is_action update_incoming update_outgoing add_new
three_vertices = omega arith

keep_best_policy-Pruned_example :
    (h : Graph) × (keep_best_policy 4 older_agent ≡ some (record older_agent { graph = h }, ok tt))
    × Pruned 0 height older_teams h
    × (length (get_root_vertices h) ≡ 1)
    × (((k : ℕ) → enters older_teams.edges k 0 ≡ false) → root_ids h.vertices ≡ 0 ∷ [])
keep_best_policy-Pruned_example =
    keep_best_policy-Pruned older_agent 0 (record { id = 19; result = 4; nb_evaluation = 1 }) refl
      height 4 older_teams-Inv older_teams-Ranked zero_there three_vertices

-- The other root of this graph is team 3.
abbrev two_roots : Agent ℕ
two_roots = record sample_agent { graph = grown }

-- Here the policy of team 1 is all that is left.
pruned :
    keep_best_policy 4 two_roots
    ≡ some (record two_roots { graph = record small { next_id = 5 } }, ok tt)
unfolding keep_best_policy add_new_edge add_new_vertex find_vertex is_action update_incoming
    update_outgoing add_new erase_vertex erase_edge remove
pruned = refl

-- Two classes, seen once and three times, and four times and once.
abbrev first_result : ClassificationResult ℕ
first_result = record {
  result = 5;
  nb_evaluation = 4;
  score_per_class = 6 ∷ 4 ∷ [];
  nb_evaluation_per_class = 1 ∷ 3 ∷ [];
}

abbrev second_result : ClassificationResult ℕ
second_result = record {
  result = 3;
  nb_evaluation = 5;
  score_per_class = 1 ∷ 5 ∷ [];
  nb_evaluation_per_class = 4 ∷ 1 ∷ [];
}

first_result-IsTotal : IsTotal 0 whole_numbers first_result
first_result-IsTotal = record { counted = refl; summed = refl; averaged = refl }

second_result-IsTotal : IsTotal 0 whole_numbers second_result
second_result-IsTotal = record { counted = refl; summed = refl; averaged = refl }

add_classification_result-IsTotal_example :
    (c : ClassificationResult ℕ) × (add_classification_result 0 whole_numbers first_result
        second_result
      ≡ (c, ok tt))
    × IsTotal 0 whole_numbers c
    × (new_classification_result 0 whole_numbers c.score_per_class c.nb_evaluation_per_class ≡ ok c)
    × (c.nb_evaluation ≡ 9)
    × Merged 0 whole_numbers
        (6 ∷ 4 ∷ [])
        (1 ∷ 3 ∷ [])
        (1 ∷ 5 ∷ [])
        (4 ∷ 1 ∷ [])
        c.score_per_class
        c.nb_evaluation_per_class
add_classification_result-IsTotal_example =
    add_classification_result-IsTotal 0 whole_numbers first_result second_result refl
      first_result-IsTotal second_result-IsTotal
