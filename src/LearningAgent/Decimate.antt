-- ===== src/LearningAgent/Decimate.antt =====
-- The loop of decimateWorstRoots (gegelatilib/src/learn/learningAgent.cpp).
use gegelati.Base.{
  ℕ, List, Bool, [], arith, erase_key, false, if◌then◌else◌, lookup, ltb, member, none, not, ok,
  refl, some, suc, true, zero, ◌&&◌, ◌++◌, ◌+◌, ◌==◌, ◌||◌, ◌∷◌, ◌≡◌, ==_iff, Bool-cases,
  Option-cases, Unique, inl, inr, lookup-erase_key, subst, ◌∙◌,
}
use gegelati.Graph.{Graph, Vertex, find_vertex, is_action, remove_vertex, action, team}
use gegelati.Graph.Lookup.{has, Kind-cases, is_team}
use gegelati.Graph.Invariant.{Inv}
use gegelati.LearningAgent.{Agent, Evaluated, decimate_from}
use gegelati.Graph.Removal.{Removed, remove_vertex-Inv}

abbrev pub roots_of : {D : Type 0} → List (Evaluated D) → List ℕ
roots_of [] = []
roots_of (e ∷ results) = e.1 ∷ roots_of results

-- The first `n` roots that are teams.
abbrev pub worst : {D : Type 0} → ℕ → (ℕ → Bool) → List (Evaluated D) → List ℕ
worst n teams [] = []
worst zero teams (e ∷ results) = []
worst (suc n) teams (e ∷ results) =
    if teams e.1 then e.1 ∷ worst n teams results else worst (suc n) teams results

member_ne : (u v : ℕ) (xs : List ℕ) → member u xs ≡ true → member v xs ≡ false → (v == u) ≡ false
member_ne u v xs here absent = elim (Bool-cases (v == u)) [
  | inr other ↦ other
  | inl same ↦
      let there = subst (λ n. member n xs ≡ false) ((==_iff v u).0 same) absent in
      absurd (ground arith)
]

module _ {D : Type 0} where
  -- The roots in a list, and nothing else, are gone from the graph and from the records.
  pub record Gone (a b : Agent D) (gone : List ℕ) : Type 0 where
    pub consistent : Inv b.graph
    pub vertices_left :
        (u : ℕ) → has b.graph.vertices u ≡ (if member u gone then false else has a.graph.vertices u)
    pub records_left :
        (u : ℕ)
        → lookup b.results_per_root u
          ≡ (if member u gone then none else lookup a.results_per_root u)
    pub same_best : b.best_root ≡ a.best_root

  -- What the loop keeps: the preserved results and those that are left are the old ones but for
  -- the roots that are gone.
  abbrev pub Split :
      List (Evaluated D)
      → List (Evaluated D)
      → List ℕ
      → List (Evaluated D)
      → List (Evaluated D)
      → Type 0
  Split preserved results gone kept left =
      (u : ℕ)
      → (member u (roots_of kept) || member u (roots_of left))
        ≡ (member u (roots_of preserved) || (member u (roots_of results) && not (member u gone)))

  roots_of-append :
      (u : ℕ) (xs : List (Evaluated D)) (e : Evaluated D)
      → member u (roots_of (xs ++ e ∷ [])) ≡ (member u (roots_of xs) || e.1 == u)
  roots_of-append u [] e = ground arith
  roots_of-append u (x ∷ xs) e = ground (arith, roots_of-append u xs e)

  worst_absent :
      (n : ℕ) (teams : ℕ → Bool) (results : List (Evaluated D)) (u : ℕ)
      → member u (roots_of results) ≡ false
      → member u (worst n teams results) ≡ false
  worst_absent n teams [] u h = refl
  worst_absent zero teams (e ∷ results) u h = refl
  worst_absent (suc n) teams (e ∷ results) u h =
      ground (arith, worst_absent n teams results u, worst_absent (suc n) teams results u)

  module _ (limit i : ℕ) (a : Agent D) (preserved : List (Evaluated D)) (e : Evaluated D)
      (results : List (Evaluated D)) (room : ltb i limit ≡ true) (x : Vertex)
      (found : find_vertex a.graph.vertices e.1 ≡ some x) where
    action_round :
        (n : ℕ)
        → x.kind ≡ action n
        → decimate_from limit i a preserved (e ∷ results)
          ≡ decimate_from limit i a (preserved ++ e ∷ []) results
    unfolding decimate_from
    action_round n acts = rw (room, decimate_from, found, acts) refl

    abbrev removed_from : Graph → Agent D
    removed_from h = record a { graph = h; results_per_root = erase_key e.1 a.results_per_root }

    team_round :
        (h : Graph)
        → x.kind ≡ team
        → remove_vertex a.graph e.1 ≡ (h, ok tt)
        → decimate_from limit i a preserved (e ∷ results)
          ≡ decimate_from limit (i + 1) (removed_from h) preserved results
    unfolding decimate_from
    team_round h acts removed = rw (room, decimate_from, found, acts, removed) refl

  -- The first loop round of a team, and the rounds behind it.
  team-Gone :
      (a : Agent D) (e : Evaluated D) (h : Graph) (b : Agent D) (gone : List ℕ)
      → Removed a.graph h e.1
      → Gone (record a { graph = h; results_per_root = erase_key e.1 a.results_per_root }) b gone
      → Gone a b (e.1 ∷ gone)
  team-Gone a e h b gone removed rest = record {
    consistent = rest.consistent;
    vertices_left = λ u. ground (arith, rest.vertices_left u, removed.vertices_left u);
    records_left =
        λ u. ground (arith, rest.records_left u, lookup-erase_key e.1 a.results_per_root u);
    same_best = rest.same_best;
  }

  nothing-Gone : (a : Agent D) → Inv a.graph → Gone a a []
  nothing-Gone a inv = record {
    consistent = inv;
    vertices_left = λ u. refl;
    records_left = λ u. refl;
    same_best = refl;
  }

  ended :
      (limit i : ℕ) (a : Agent D) (preserved : List (Evaluated D))
      → decimate_from limit i a preserved [] ≡ ok (a, preserved, [])
  unfolding decimate_from
  ended limit i a preserved = refl

  full :
      (limit i : ℕ) (a : Agent D) (preserved : List (Evaluated D)) (e : Evaluated D)
      (results : List (Evaluated D))
      → ltb i limit ≡ false
      → decimate_from limit i a preserved (e ∷ results) ≡ ok (a, preserved, e ∷ results)
  unfolding decimate_from
  full limit i a preserved e results reached = rw (reached, decimate_from) refl

  module _ (preserved results : List (Evaluated D)) (e : Evaluated D) (gone : List ℕ)
      (kept left : List (Evaluated D)) where
    preserved-Split :
        member e.1 gone ≡ false
        → Split (preserved ++ e ∷ []) results gone kept left
        → Split preserved (e ∷ results) gone kept left
    preserved-Split stays split u = elim (Bool-cases (e.1 == u)) [
      | inl here ↦
          let stays_u = subst (λ n. member n gone ≡ false) ((==_iff e.1 u).0 here) stays in
          ground (arith, split u, roots_of-append u preserved e)
      | inr there ↦ ground (arith, split u, roots_of-append u preserved e)
    ]

    removed-Split :
        member e.1 (roots_of results) ≡ false
        → Split preserved results gone kept left
        → Split preserved (e ∷ results) (e.1 ∷ gone) kept left
    removed-Split once split u = elim (Bool-cases (e.1 == u)) [
      | inl here ↦
          let absent =
            subst (λ n. member n (roots_of results) ≡ false) ((==_iff e.1 u).0 here) once in
          ground (arith, split u)
      | inr there ↦ ground (arith, split u)
    ]

  still_known :
      (a : Agent D) (e : Evaluated D) (h : Graph) (teams : ℕ → Bool) (results : List (Evaluated D))
      (u : ℕ)
      → ((u : ℕ)
          → member u (roots_of (e ∷ results)) ≡ true
          → (has a.graph.vertices u ≡ true) × (is_team a.graph.vertices u ≡ teams u))
      → member u (roots_of results) ≡ true
      → member e.1 (roots_of results) ≡ false
      → Removed a.graph h e.1
      → (has h.vertices u ≡ true) × (is_team h.vertices u ≡ teams u)
  still_known a e h teams results u known here once without =
      let other = member_ne u e.1 (roots_of results) here once in
      let (there, same) = known u (ground arith) in
      (ground (arith, without.vertices_left u), rw (without.teams_left u, other) same)

  pub decimate_from-Gone :
      (limit n i : ℕ) (teams : ℕ → Bool) (a : Agent D) (preserved results : List (Evaluated D))
      → i + n ≡ limit
      → Inv a.graph
      → Unique (roots_of results)
      → ((u : ℕ)
          → member u (roots_of results) ≡ true
          → (has a.graph.vertices u ≡ true) × (is_team a.graph.vertices u ≡ teams u))
      → (b : Agent D) × (kept : List (Evaluated D)) × (left : List (Evaluated D)) × (decimate_from
            limit i a preserved results
          ≡ ok (b, kept, left))
        × Gone a b (worst n teams results)
        × Split preserved results (worst n teams results) kept left
  unfolding is_action
  decimate_from-Gone limit n i teams a preserved [] count inv once known =
      (a, preserved, [], ended limit i a preserved, nothing-Gone a inv, λ u. ground arith)
  decimate_from-Gone limit zero i teams a preserved (e ∷ results) count inv once known = (
    a,
    preserved,
    e ∷ results,
    full limit i a preserved e results (ground arith),
    nothing-Gone a inv,
    λ u. ground arith,
  )
  decimate_from-Gone limit (suc n) i teams a preserved (e ∷ results) count inv once known =
      elim (Option-cases (find_vertex a.graph.vertices e.1)) [
        | inl missing ↦ absurd (ground (arith, known e.1))
        | inr (x, found) ↦ elim (Kind-cases x.kind) [
          | inr (number, acts) ↦
              let no_team : teams e.1 ≡ false = ground (arith, known e.1) in
              let (b, kept, left, done, gone, split) =
                decimate_from-Gone limit (suc n) i teams a (preserved ++ e ∷ []) results count inv
                  once.1 (λ u h. known u (ground arith)) in
              (
                b,
                kept,
                left,
                action_round limit i a preserved e results (ground arith) x found number acts
                    ∙ done,
                rw no_team gone,
                rw no_team (
                    preserved-Split preserved results e (worst (suc n) teams results) kept left
                      (worst_absent (suc n) teams results e.1 once.0) split),
              )
          | inl goes ↦
              let a_team : teams e.1 ≡ true = ground (arith, known e.1) in
              let (h, removed, inv', without) =
                remove_vertex-Inv a.graph e.1 inv (ground (arith, known e.1)) in
              let (b, kept, left, done, gone, split) =
                decimate_from-Gone limit n (i + 1) teams
                  (removed_from limit i a preserved e results (ground arith) x found h) preserved
                  results (omega arith) inv' once.1
                  (λ u here. still_known a e h teams results u known here once.0 without) in
              (
                b,
                kept,
                left,
                team_round limit i a preserved e results (ground arith) x found h goes removed
                    ∙ done,
                rw a_team (team-Gone a e h b (worst n teams results) without gone),
                rw a_team (
                    removed-Split preserved results e (worst n teams results) kept left once.0
                      split),
              )
        ]
      ]
