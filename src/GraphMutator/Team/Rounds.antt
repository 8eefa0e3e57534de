-- ===== src/GraphMutator/Team/Rounds.antt =====
-- mutateTPGTeam of gegelatilib/src/mutator/tpgMutator.cpp.
use gegelati.Base.{
  arith, Bool, Bool-cases, false, inl, inr, length, List, [], member, ok, refl, some, suc, sym,
  true, zero, ℕ, ◌+◌, ◌<◌, ◌∙◌, ◌∷◌, ◌≡◌, ◌≤◌, ◌⊎◌,
}
use gegelati.Doubles.{Doubles}
use gegelati.Rng.{Rng, RngLaws}
use gegelati.Environment.{Environment}
use gegelati.Graph.{Graph}
use gegelati.Graph.Lookup.{leaves, outgoing_of}
use gegelati.GraphMutator.{add_random_edges, remove_random_edges}
use gegelati.GraphMutator.Own.{Choices, Kept, Ready, join-Kept}
use gegelati.GraphMutator.Loops.{add_random_edges-Grown, nb_outgoing, remove_random_edges-Grown}
use gegelati.GraphMutator.Steps.{join-ProgramsFrom}
use gegelati.GraphMutator.Team.{
  Breeding, TpgParameters, mutate_edges, mutate_outgoing_edge, mutate_rounds, mutate_team,
}
use gegelati.GraphMutator.Team.Bred.{
  Bred, Bred-self, Stocked, Stocked-Grown, join-Bred, mutate_outgoing_edge-Bred,
}

-- The random engine draws a number below `p` after at most `bound` others.
pub record Patience {D R : Type 0} (F : Doubles D) (rng : Rng D R) (p : D) : Type 0 where
  pub patience : R → ℕ
  pub bound : ℕ
  pub bounded : (r : R) → patience r ≤ bound
  pub waits :
      (r : R) → F.lt (rng.unit_double r).0 p ≡ false → patience (rng.unit_double r).1 < patience r

module _ {D R : Type 0} (F : Doubles D) (rng : Rng D R) (laws : RngLaws rng) (env : Environment D)
    (params : TpgParameters D) (patient : Patience F rng params.p_program_mutation) (rank : ℕ → ℕ)
    (teams actions edges : List ℕ) (v : ℕ) (choices : Choices teams actions edges) where
  abbrev Leave : Breeding R → List ℕ → Type 0
  Leave s ks = (j : ℕ) → member j ks ≡ true → leaves s.graph.edges j v ≡ true

  module _ (s : Breeding R) (k : ℕ) (ks : List ℕ) (any : Bool) where
    unchanged_edge :
        F.lt (rng.unit_double s.rng).0 params.p_program_mutation ≡ false
        → mutate_edges F rng params teams actions edges (k ∷ ks) any s
          ≡ mutate_edges F rng params teams actions edges ks any
              (record s { rng = (rng.unit_double s.rng).1 })
    unfolding mutate_edges
    unchanged_edge skips = rw (mutate_edges, skips) refl

    changed_edge :
        (t : Breeding R)
        → F.lt (rng.unit_double s.rng).0 params.p_program_mutation ≡ true
        → mutate_outgoing_edge F rng params teams actions edges
            (record s { rng = (rng.unit_double s.rng).1 })
            k
          ≡ (t, ok tt)
        → mutate_edges F rng params teams actions edges (k ∷ ks) any s
          ≡ mutate_edges F rng params teams actions edges ks true t
    unfolding mutate_edges
    changed_edge t takes changed = rw (mutate_edges, takes, changed) (rw changed refl)

  -- One round over edges of the team. Where it mutates none, every edge has cost some patience.
  mutate_edges-Bred :
      (ks : List ℕ) (any : Bool) (s : Breeding R)
      → Ready rank teams actions edges v s.graph
      → Stocked env s
      → Leave s ks
      → (t : Breeding R) × (done : Bool) × (mutate_edges F rng params teams actions edges ks any s
          ≡ (t, ok done))
        × Bred env rank teams actions edges v s t
        × (any ≡ true → done ≡ true)
        × (done ≡ false → patient.patience t.rng + length ks ≤ patient.patience s.rng)
  unfolding mutate_edges
  mutate_edges-Bred [] any s ready stocked leave = (
    s,
    any,
    refl,
    Bred-self env rank teams actions edges v s s.rng ready stocked,
    λ h. h,
    λ h. omega arith,
  )
  mutate_edges-Bred (k ∷ ks) any s ready stocked leave =
      let asked = rng.unit_double s.rng in
      let s' = record s { rng = asked.1 } in
      elim (Bool-cases (F.lt asked.0 params.p_program_mutation)) [
        | inr skips ↦
            let (t, done, ran, bred, stays, costs) =
              mutate_edges-Bred ks any s' ready stocked (λ j listed. leave j (ground arith)) in
            (
              t,
              done,
              unchanged_edge s k ks any skips ∙ ran,
              join-Bred env rank teams actions edges v s s' t
                  (Bred-self env rank teams actions edges v s asked.1 ready stocked) bred,
              stays,
              λ h. let waited = patient.waits s.rng skips in let cost = costs h in omega arith,
            )
        | inl takes ↦
            let (t, changed, first) =
              mutate_outgoing_edge-Bred env F rng laws params rank teams actions edges v choices s'
                k ready stocked (leave k (ground arith)) in
            let (u, done, ran, bred, stays, costs) =
              mutate_edges-Bred ks true t first.ready first.stocked
                (λ j listed. first.own_kept j ∙ leave j (ground arith)) in
            (
              u,
              done,
              changed_edge s k ks any t takes changed ∙ ran,
              join-Bred env rank teams actions edges v s s' u
                  (Bred-self env rank teams actions edges v s asked.1 ready stocked)
                  (join-Bred env rank teams actions edges v s' t u first bred),
              λ h. stays refl,
              λ h. let mutated = stays refl in absurd (ground arith),
            )
      ]

  module _ (fuel : ℕ) (s t : Breeding R) (done : Bool)
      (ran : mutate_edges F rng params teams actions edges (outgoing_of s.graph.vertices v) false s
        ≡ (t, ok done)) where
    last_round :
        done ≡ true
        → mutate_rounds F rng params teams actions edges (suc fuel) v s ≡ some (t, ok tt)
    unfolding mutate_rounds
    last_round yes_done = rw (ran, mutate_rounds, yes_done) (rw ran refl)

    next_round :
        done ≡ false
        → mutate_rounds F rng params teams actions edges (suc fuel) v s
          ≡ mutate_rounds F rng params teams actions edges fuel v t
    unfolding mutate_rounds
    next_round not_done = rw (ran, mutate_rounds, not_done) (rw ran refl)

  -- The third loop ends, since the patience runs out.
  mutate_rounds-Bred :
      (fuel : ℕ) (s : Breeding R)
      → Ready rank teams actions edges v s.graph
      → Stocked env s
      → 1 ≤ nb_outgoing s.graph v
      → patient.patience s.rng < fuel
      → (t : Breeding R) × (mutate_rounds F rng params teams actions edges fuel v s
          ≡ some (t, ok tt))
        × Bred env rank teams actions edges v s t
  mutate_rounds-Bred zero s ready stocked some_edge enough = absurd (omega arith)
  mutate_rounds-Bred (suc fuel) s ready stocked some_edge enough =
      let inv = ready.consistent in
      let (t, done, ran, bred, stays, costs) =
        mutate_edges-Bred (outgoing_of s.graph.vertices v) false s ready stocked
          (λ j listed. sym (inv.outgoing_listed v j) ∙ listed) in
      elim (Bool-cases done) [
        | inl finished ↦ (t, last_round fuel s t done ran finished, bred)
        | inr another ↦
            let cost = costs another in
            let same = bred.as_many in
            let (u, rest, bred') =
              mutate_rounds-Bred fuel t bred.ready bred.stocked (omega arith) (omega arith) in
            (
              u,
              next_round fuel s t done ran another ∙ rest,
              join-Bred env rank teams actions edges v s t u bred bred',
            )
      ]

  two_loops :
      (fuel : ℕ) (s : Breeding R) (g h : Graph) (r1 r2 : R)
      → remove_random_edges F rng
          (nb_outgoing s.graph v)
          params.p_edge_deletion
          (F.of_nat 1)
          s.graph
          v
          s.rng
        ≡ (g, ok tt, r1)
      → add_random_edges F rng params.max_outgoing_edges params.max_outgoing_edges
          params.p_edge_addition
          (F.of_nat 1)
          g
          v
          edges
          r1
        ≡ (h, ok tt, r2)
      → mutate_team F rng params teams actions edges fuel v s
        ≡ mutate_rounds F rng params teams actions edges fuel v (record s { graph = h; rng = r2 })
  unfolding mutate_team
  two_loops fuel s g h r1 r2 removed added =
      rw (removed, mutate_team) (rw (removed, added) (rw (removed, added) refl))

  pub mutate_team-Ready :
      (fuel : ℕ) (s : Breeding R)
      → Ready rank teams actions edges v s.graph
      → Stocked env s
      → 1 ≤ nb_outgoing s.graph v
      → patient.bound < fuel
      → (t : Breeding R) × (mutate_team F rng params teams actions edges fuel v s ≡ some (t, ok tt))
        × Ready rank teams actions edges v t.graph
        × Stocked env t
        × Kept s.graph t.graph v
        × ((n : ℕ) → n < s.next_program → t.programs n ≡ s.programs n)
        × (s.next_program ≤ t.next_program)
        × (1 ≤ nb_outgoing t.graph v)
        × ((nb_outgoing t.graph v ≤ params.max_outgoing_edges)
            ⊎ (nb_outgoing t.graph v ≤ nb_outgoing s.graph v))
  mutate_team-Ready fuel s ready stocked some_edge enough =
      let (g, r1, removed, grown, less, left) =
        remove_random_edges-Grown F rng laws rank teams actions edges v (nb_outgoing s.graph v)
          params.p_edge_deletion (F.of_nat 1) s.graph s.rng ready (omega arith) in
      let (h, r2, adds, grown', more, bound) =
        add_random_edges-Grown F rng laws rank teams actions edges v params.max_outgoing_edges
          params.max_outgoing_edges params.p_edge_addition (F.of_nat 1) g r1 choices grown.ready
          (omega arith) in
      let mid = record s { graph = h; rng = r2 } in
      let there = left some_edge in
      let calm = patient.bounded r2 in
      let (t, ran, bred) =
        mutate_rounds-Bred fuel mid grown'.ready
          (Stocked-Grown env s h r2
            (join-ProgramsFrom s.graph g h grown.programs_from grown'.programs_from) stocked)
          (omega arith) (omega arith) in
      let same = bred.as_many in
      (
        t,
        two_loops fuel s g h r1 r2 removed (adds params.max_outgoing_edges (omega arith)) ∙ ran,
        bred.ready,
        bred.stocked,
        join-Kept s.graph h t.graph v (join-Kept s.graph g h v grown.kept grown'.kept) bred.kept,
        bred.programs_kept,
        bred.store_grows,
        omega arith,
        elim bound [ inl within ↦ inl (omega arith) | inr still ↦ inr (omega arith) ],
      )
