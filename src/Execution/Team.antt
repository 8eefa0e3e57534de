-- ===== src/Execution/Team.antt =====
-- evaluateTeam of gegelatilib/src/tpg/tpgExecutionEngine.cpp chooses the last of the best bids.
use gegelati.Base.{
  List, Result, [], arith, bind_ok, false, ok, ok-injective, ℕ, ◌∷◌, ◌≡◌, Option, ap, inl, inr,
  refl, some, sym, true, ◌++◌, ◌∙◌, ◌⊎◌, Bool-cases, or_fail, or_fail-ok, undefined, Each,
}
use gegelati.Doubles.{DoubleLaws, Doubles}
use gegelati.Environment.{Environment}
use gegelati.Program.{Program}
use gegelati.Program.Engine.{execute_program, program_sources}
use gegelati.Graph.{Graph, Edge, find_edge}
use gegelati.Execution.{bid_of, best_from, evaluate_edge, record_bid, evaluate_team}
use gegelati.Archive.{Archive}

module _ {D R : Type 0} (d0 : D) (F : Doubles D) (laws : DoubleLaws F) (draw : R → D × R)
    (env : Environment D) (programs : ℕ → Program) (g : Graph) where
  abbrev bid : Edge → Result D
  bid = bid_of d0 F env programs

  bid-number : (e : Edge) (b : D) → bid e ≡ ok b → F.is_nan b ≡ false
  unfolding bid_of
  bid-number e b done =
      let (sources, made, rest) =
        bind_ok (program_sources env (programs e.program) env.data_sources) _ done in
      let (result, ran, last) =
        bind_ok (execute_program d0 env sources false (programs e.program).lines) _ rest in
      let same = ok-injective last in let infinite = laws.infinity_number in ground arith

  -- The edge at `k` bids at most `bound`, and: it bids less than `bound`.
  abbrev pub AtMost : D → ℕ → Type 0
  AtMost bound k =
      (e : Edge) × (b : D) × (find_edge g.edges k ≡ some e) × (bid e ≡ ok b) × (F.le b bound ≡ true)

  abbrev pub Below : D → ℕ → Type 0
  Below bound k =
      (e : Edge) × (b : D) × (find_edge g.edges k ≡ some e)
      × (bid e ≡ ok b)
      × (F.le bound b ≡ false)

  -- The edge wins with its bid over a list of edges: no edge before it bids more, and every edge
  -- after it bids less.
  abbrev pub Wins : Edge → D → List ℕ → Type 0
  Wins winner top ks =
      (before : List ℕ) × (k : ℕ) × (after : List ℕ) × (ks ≡ before ++ k ∷ after)
      × (find_edge g.edges k ≡ some winner)
      × Each (AtMost top) before
      × Each (Below top) after

  -- Either the best edge so far stays, or a later one wins.
  abbrev Outcome : Edge → D → Edge → D → List ℕ → Type 0
  Outcome best best_bid winner top ks =
      ((winner ≡ best) × (top ≡ best_bid) × Each (Below best_bid) ks) ⊎ Wins winner top ks

  evaluated_bid :
      (engine : Option (Archive D R)) (e : Edge) (r : D × Option (Archive D R))
      → evaluate_edge d0 F draw env programs g engine e ≡ ok r
      → bid e ≡ ok r.0
  unfolding evaluate_edge
  evaluated_bid engine e r done =
      let (b, made, rest) = bind_ok (bid e) _ done in
      let (after, recorded, last) = bind_ok (record_bid F draw env engine e.program b) _ rest in
      let same = ok-injective last in made ∙ ap (λ (p : D × Option (Archive D R)). ok p.0) same

  module _ (best : Edge) (best_bid : D) (k : ℕ) (ks : List ℕ) (e : Edge) (b : D)
      (found : find_edge g.edges k ≡ some e) (bids : bid e ≡ ok b) (winner : Edge) (top : D) where
    overtaken :
        F.le best_bid b ≡ true
        → F.le b top ≡ true
        → Outcome e b winner top ks
        → Outcome best best_bid winner top (k ∷ ks)
    overtaken better reached (inl (same, equal, below)) =
        inr ([], k, ks, refl, rw same found, tt, rw equal below)
    overtaken better reached (inr (before, j, after, split, at_j, most, below)) =
        inr (
          k ∷ before,
          j,
          after,
          ap (◌∷◌ k) split,
          at_j,
          ((e, b, found, bids, reached), most),
          below,
        )

    stays :
        F.le best_bid b ≡ false
        → F.le b best_bid ≡ true
        → F.le best_bid top ≡ true
        → Outcome best best_bid winner top ks
        → Outcome best best_bid winner top (k ∷ ks)
    stays worse less reached (inl (same, equal, below)) =
        inl (same, equal, ((e, b, found, bids, worse), below))
    stays worse less reached (inr (before, j, after, split, at_j, most, below)) = inr (
      k ∷ before,
      j,
      after,
      ap (◌∷◌ k) split,
      at_j,
      ((e, b, found, bids, laws.le_trans b best_bid top less reached), most),
      below,
    )

  first_or_later :
      (k : ℕ) (ks : List ℕ) (e : Edge) (b : D)
      → find_edge g.edges k ≡ some e
      → bid e ≡ ok b
      → (winner : Edge) (top : D) → F.le b top ≡ true
      → Outcome e b winner top ks
      → Wins winner top (k ∷ ks)
  first_or_later k ks e b found bids winner top reached (inl (same, equal, below)) =
      ([], k, ks, refl, rw same found, tt, rw equal below)
  first_or_later k ks e b found bids winner top reached
        (inr (before, j, after, split, at_j, most, below)) =
      (k ∷ before, j, after, ap (◌∷◌ k) split, at_j, ((e, b, found, bids, reached), most), below)

  le_refl : (e : Edge) (b : D) → bid e ≡ ok b → F.le b b ≡ true
  le_refl e b bids = elim (Bool-cases (F.le b b)) [
    | inl h ↦ h
    | inr h ↦ laws.le_total b b (bid-number e b bids) (bid-number e b bids) h
  ]

  best_from-Wins :
      (ks : List ℕ) (engine : Option (Archive D R)) (best : Edge) (best_bid : D)
      (r : Edge × Option (Archive D R))
      → bid best ≡ ok best_bid
      → F.le best_bid best_bid ≡ true
      → best_from d0 F draw env programs g engine best best_bid ks ≡ ok r
      → (top : D) × (bid r.0 ≡ ok top)
        × (F.le best_bid top ≡ true)
        × Outcome best best_bid r.0 top ks
  unfolding best_from
  best_from-Wins [] engine best best_bid r bids itself done =
      let same = ap (λ (p : Edge × Option (Archive D R)). p.0) (ok-injective done) in
      (best_bid, rw (← same) bids, itself, inl (sym same, refl, tt))
  best_from-Wins (k ∷ ks) engine best best_bid r bids itself done =
      let (e, found, rest) = bind_ok (or_fail (find_edge g.edges k) undefined) _ done in
      let (evaluated, ran, last) =
        bind_ok (evaluate_edge d0 F draw env programs g engine e) _ rest in
      let here = or_fail-ok (find_edge g.edges k) undefined e found in
      let theirs = evaluated_bid engine e evaluated ran in
      let own = le_refl e evaluated.0 theirs in
      elim (Bool-cases (F.le best_bid evaluated.0)) [
        | inl better ↦
            let go = rw better at last in
            let (top, wins, reached, outcome) =
              best_from-Wins ks evaluated.1 e evaluated.0 r theirs own go in
            (
              top,
              wins,
              laws.le_trans best_bid evaluated.0 top better reached,
              overtaken best best_bid k ks e evaluated.0 here theirs r.0 top better reached outcome,
            )
        | inr worse ↦
            let go = rw worse at last in
            let (top, wins, reached, outcome) =
              best_from-Wins ks evaluated.1 best best_bid r bids itself go in
            let less =
              laws.le_total best_bid evaluated.0 (bid-number best best_bid bids)
                (bid-number e evaluated.0 theirs) worse in
            (
              top,
              wins,
              reached,
              stays best best_bid k ks e evaluated.0 here theirs r.0 top worse less reached outcome,
            )
      ]

  -- evaluateTeam returns an outgoing edge of the team with a highest bid, and the last one of
  -- these: no outgoing edge before it bids more, and every one after it bids less. A bid is the
  -- result of the edge's program, with minus infinity in place of NaN; the archive has no say.
  pub evaluate_team-Wins :
      (outgoing : List ℕ) (engine : Option (Archive D R)) (r : Edge × Option (Archive D R))
      → evaluate_team d0 F draw env programs g engine outgoing ≡ ok r
      → (top : D) × (bid r.0 ≡ ok top) × Wins r.0 top outgoing
  unfolding evaluate_team
  evaluate_team-Wins [] engine r done = absurd (ground arith)
  evaluate_team-Wins (k ∷ ks) engine r done =
      let (e, found, rest) = bind_ok (or_fail (find_edge g.edges k) undefined) _ done in
      let (evaluated, ran, last) =
        bind_ok (evaluate_edge d0 F draw env programs g engine e) _ rest in
      let here = or_fail-ok (find_edge g.edges k) undefined e found in
      let theirs = evaluated_bid engine e evaluated ran in
      let own = le_refl e evaluated.0 theirs in
      let (top, wins, reached, outcome) =
        best_from-Wins ks evaluated.1 e evaluated.0 r theirs own last in
      (top, wins, first_or_later k ks e evaluated.0 here theirs r.0 top reached outcome)
