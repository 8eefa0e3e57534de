-- ===== src/LearningAgent/Classification.antt =====
-- gegelatilib/src/learn/classificationEvaluationResult.cpp: results with a score for each class.
use mathlib.Core.List.{foldl, foldr}
use gegelati.Base.{
  List, Result, [], arith, err, get_elem?, if◌then◌else◌, length, ok, out_of_range, refl,
  runtime_error, some, true, ℕ, ◌+◌, ◌==◌, ◌∷◌, ◌≡◌, suc, sym, zero, ap, ◌∙◌,
}
use gegelati.Doubles.{Doubles}

-- ClassificationEvaluationResult, with what it inherits of EvaluationResult.
pub record ClassificationResult (D : Type 0) : Type 0 where
  pub result : D
  pub nb_evaluation : ℕ
  pub score_per_class : List D
  pub nb_evaluation_per_class : List ℕ

unfoldable pub sum_of : List ℕ → ℕ
sum_of [] = 0
sum_of (n ∷ ns) = n + sum_of ns

abbrev pub sum : List ℕ → ℕ
sum ns = foldr (λ n m. n + m) 0 ns

sum_of-eq-sum : (ns : List ℕ) → sum_of ns ≡ sum ns
unfolding sum_of
sum_of-eq-sum [] = refl
sum_of-eq-sum (n ∷ ns) = ap (λ m. n + m) (sum_of-eq-sum ns)

module _ {D : Type 0} (d0 : D) (F : Doubles D) where
  -- std::accumulate of doubles
  unfoldable pub total : D → List D → D
  total acc [] = acc
  total acc (s ∷ ss) = total (F.add acc s) ss

  unfoldable pub mean : List D → D
  unfolding total
  mean ss = F.div (total d0 ss) (F.of_nat (length ss))

  -- The constructor.
  unfoldable pub new_classification_result : List D → List ℕ → Result (ClassificationResult D)
  unfolding mean sum_of
  new_classification_result scores counts =
      if length scores == length counts
      then ok (record {
        result = mean scores;
        nb_evaluation = sum_of counts;
        score_per_class = scores;
        nb_evaluation_per_class = counts;
      })
      else err runtime_error

  -- The weighted score of one class.
  unfoldable pub weighted : D → ℕ → D → ℕ → D
  weighted s n t m =
      F.div (F.add (F.mul s (F.of_nat n)) (F.mul t (F.of_nat m))) (F.add (F.of_nat n) (F.of_nat m))

  -- The loop of operator+=: the classes before the one where `at` throws are changed.
  unfoldable pub merge_classes :
      List D → List ℕ → List D → List ℕ → (List D × List ℕ) × Result (Unit {0})
  unfolding weighted
  merge_classes [] ns ts ms = (([], ns), ok tt)
  merge_classes (s ∷ ss) (n ∷ ns) (t ∷ ts) (m ∷ ms) =
      let (rest, done) = merge_classes ss ns ts ms in
      ((weighted s n t m ∷ rest.0, (n + m) ∷ rest.1), done)
  merge_classes ss ns ts ms = ((ss, ns), err out_of_range)

  -- operator+= with a result of the same class, where the call of the base class changes nothing.
  unfoldable pub add_classification_result :
      ClassificationResult D → ClassificationResult D → ClassificationResult D × Result (Unit {0})
  unfolding merge_classes mean
  add_classification_result a b =
      if length a.score_per_class == length b.score_per_class
      then (let (merged, done) =
            merge_classes a.score_per_class a.nb_evaluation_per_class b.score_per_class
              b.nb_evaluation_per_class in
          let c = record a { score_per_class = merged.0; nb_evaluation_per_class = merged.1 } in
          elim done [
            | err e ↦ (c, err e)
            | ok _ ↦ (
              record c {
                result = mean merged.0;
                nb_evaluation = a.nb_evaluation + b.nb_evaluation;
              },
              ok tt,
            )
          ])
      else (a, err runtime_error)

  total-eq-foldl : (acc : D) (ss : List D) → total acc ss ≡ foldl F.add acc ss
  unfolding total
  total-eq-foldl acc [] = refl
  total-eq-foldl acc (s ∷ ss) = total-eq-foldl (F.add acc s) ss

  -- The quotient of the sum of the scores, from the first on, by their number.
  abbrev pub average : List D → D
  average ss = F.div (foldl F.add d0 ss) (F.of_nat (length ss))

  mean-eq-average : (ss : List D) → mean ss ≡ average ss
  unfolding mean
  mean-eq-average ss = ap (λ d. F.div d (F.of_nat (length ss))) (total-eq-foldl d0 ss)

  -- One count for each score, the sum of the counts, and the mean of the scores.
  pub record IsTotal (r : ClassificationResult D) : Type 0 where
    pub counted : length r.score_per_class ≡ length r.nb_evaluation_per_class
    pub summed : r.nb_evaluation ≡ sum r.nb_evaluation_per_class
    pub averaged : r.result ≡ average r.score_per_class

  -- Such a result is what the constructor makes of its lists.
  IsTotal-new :
      (r : ClassificationResult D)
      → IsTotal r
      → new_classification_result r.score_per_class r.nb_evaluation_per_class ≡ ok r
  unfolding new_classification_result
  IsTotal-new r whole =
      let test : (length r.score_per_class == length r.nb_evaluation_per_class) ≡ true =
        ground (arith, whole.counted) in
      rw
        (
          test,
          mean-eq-average r.score_per_class ∙ sym whole.averaged,
          sum_of-eq-sum r.nb_evaluation_per_class ∙ sym whole.summed,
        )
        refl

  -- Where all lists have a place `i`, the last two have there the sum of the two scores, each times
  -- its own count, over the sum of the counts, and this sum.
  abbrev pub Merges : List D → List ℕ → List D → List ℕ → List D → List ℕ → ℕ → Type 0
  Merges ss ns ts ms us ks i =
      (s t : D) (n m : ℕ)
      → get_elem? ss i ≡ some s
      → get_elem? ns i ≡ some n
      → get_elem? ts i ≡ some t
      → get_elem? ms i ≡ some m
      → (get_elem? us i
          ≡ some (
              F.div (F.add (F.mul s (F.of_nat n)) (F.mul t (F.of_nat m)))
                (F.add (F.of_nat n) (F.of_nat m))))
        × (get_elem? ks i ≡ some (n + m))

  abbrev pub Merged : List D → List ℕ → List D → List ℕ → List D → List ℕ → Type 0
  Merged ss ns ts ms us ks =
      (length us ≡ length ss)
      × (length ks ≡ length ns)
      × (sum ks ≡ sum ns + sum ms)
      × ((i : ℕ) → Merges ss ns ts ms us ks i)

  cons-Merges :
      (s t : D) (n m : ℕ) (ss : List D) (ns : List ℕ) (ts : List D) (ms : List ℕ) (us : List D)
      (ks : List ℕ)
      → ((i : ℕ) → Merges ss ns ts ms us ks i)
      → (i : ℕ)
      → Merges (s ∷ ss) (n ∷ ns) (t ∷ ts) (m ∷ ms) (weighted s n t m ∷ us) ((n + m) ∷ ks) i
  unfolding weighted
  cons-Merges s t n m ss ns ts ms us ks each zero s1 t1 n1 m1 at_s at_n at_t at_m =
      (ground arith, ground arith)
  cons-Merges s t n m ss ns ts ms us ks each (suc i) s1 t1 n1 m1 at_s at_n at_t at_m =
      each i s1 t1 n1 m1 at_s at_n at_t at_m

  merge_classes-Merged :
      (ss : List D) (ns : List ℕ) (ts : List D) (ms : List ℕ)
      → length ss ≡ length ns
      → length ts ≡ length ss
      → length ms ≡ length ss
      → (us : List D) × (ks : List ℕ) × (merge_classes ss ns ts ms ≡ ((us, ks), ok tt))
        × Merged ss ns ts ms us ks
  unfolding merge_classes
  merge_classes-Merged [] [] [] [] a b c =
      ([], [], refl, (refl, refl, refl, λ i s t n m at_s at_n at_t at_m. absurd (ground arith)))
  merge_classes-Merged (s ∷ ss) (n ∷ ns) (t ∷ ts) (m ∷ ms) a b c =
      let (us, ks, ran, (l, k, sums, each)) =
        merge_classes-Merged ss ns ts ms (omega arith) (omega arith) (omega arith) in
      (
        weighted s n t m ∷ us,
        (n + m) ∷ ks,
        rw ran refl,
        (omega arith, omega arith, omega arith, cons-Merges s t n m ss ns ts ms us ks each),
      )
  merge_classes-Merged _ _ _ _ a b c = absurd (omega arith)

  module _ (a b : ClassificationResult D)
      (same : length a.score_per_class ≡ length b.score_per_class) where
    all_merged :
        (us : List D) (ks : List ℕ)
        → merge_classes a.score_per_class a.nb_evaluation_per_class b.score_per_class
            b.nb_evaluation_per_class
          ≡ ((us, ks), ok tt)
        → add_classification_result a b ≡ (
          record {
            result = mean us;
            nb_evaluation = a.nb_evaluation + b.nb_evaluation;
            score_per_class = us;
            nb_evaluation_per_class = ks;
          },
          ok tt,
        )
    unfolding add_classification_result
    all_merged us ks ran =
        let test : (length a.score_per_class == length b.score_per_class) ≡ true = ground arith in
        rw (add_classification_result, test, ran) (rw ran refl)

    -- Two results that are totals (a score and a count for each class, the sum of the counts and the
    -- mean of the scores), for the same number of classes, have a sum: nothing is thrown, and it is
    -- a total as the constructor would make it of its scores and counts. Each of its classes has the
    -- sum of the two counts, and the sum of the two scores, each times its own count, divided by
    -- the sum of the counts. Its number of evaluations is the sum of the two numbers.
    pub add_classification_result-IsTotal :
        IsTotal a
        → IsTotal b
        → (c : ClassificationResult D) × (add_classification_result a b ≡ (c, ok tt))
          × IsTotal c
          × (new_classification_result c.score_per_class c.nb_evaluation_per_class ≡ ok c)
          × (c.nb_evaluation ≡ a.nb_evaluation + b.nb_evaluation)
          × Merged a.score_per_class a.nb_evaluation_per_class b.score_per_class
              b.nb_evaluation_per_class c.score_per_class c.nb_evaluation_per_class
    add_classification_result-IsTotal whole_a whole_b =
        let (us, ks, ran, merged) =
          merge_classes-Merged a.score_per_class a.nb_evaluation_per_class b.score_per_class
            b.nb_evaluation_per_class whole_a.counted (sym same)
            (let counts = whole_b.counted in omega arith) in
        let (scores, counts, sums, each) = merged in
        let c : ClassificationResult D = record {
          result = mean us;
          nb_evaluation = a.nb_evaluation + b.nb_evaluation;
          score_per_class = us;
          nb_evaluation_per_class = ks;
        } in
        let whole : IsTotal c = record {
          counted = omega (arith, whole_a.counted);
          summed = omega (arith, whole_a.summed, whole_b.summed);
          averaged = mean-eq-average us;
        } in
        (c, all_merged us ks ran, whole, IsTotal-new c whole, refl, merged)
