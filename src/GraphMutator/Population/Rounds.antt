-- ===== src/GraphMutator/Population/Rounds.antt =====
-- populateTPG of gegelatilib/src/mutator/tpgMutator.cpp.
use gegelati.Base.{
  Bool-cases, List, Option, Result, [], arith, elem_at, false, if◌then◌else◌, inl, inr, length, ltb,
  ok, out_of_range, refl, some, sub64, suc, sym, true, zero, ℕ, ◌+◌, ◌<◌, ◌∙◌, ◌∷◌, ◌≡◌, ◌≤◌,
}
use gegelati.Doubles.{Doubles}
use gegelati.Rng.{Rng, RngLaws}
use gegelati.Environment.{Environment}
use gegelati.Graph.{Edge, Graph, clone_vertex, find_edge, get_root_vertices}
use gegelati.Graph.Lookup.{has}
use gegelati.Graph.Acyclic.{Ranked, rank-le-top_of, top_of}
use gegelati.Graph.Invariant.{Inv, ends_exist, has-lt}
use gegelati.Graph.Cloning.{clone_vertex-Cloned}
use gegelati.GraphMutator.Own.{Choices}
use gegelati.GraphMutator.Targets.{drawn_from}
use gegelati.GraphMutator.Team.{Breeding, TpgParameters, mutate_team}
use gegelati.GraphMutator.Team.Bred.{Stocked}
use gegelati.GraphMutator.Team.Rounds.{Patience, mutate_team-Ready}
use gegelati.GraphMutator.Population.{
  action_vertices, all_edges, populate_rounds, populate_tpg, team_vertices,
}
use gegelati.GraphMutator.Population.Herd.{Herd, Linked, all_roots}
use gegelati.GraphMutator.Population.Growth.{copied-Ready, copied-Stocked, copied_edges, grown-Herd}
use gegelati.GraphMutator.Population.Lists.{every_edge, every_vertex, team_root}

-- The ranks of the vertices of `g`, and above them one rank for all that come after.
abbrev pub raised : (ℕ → ℕ) → Graph → ℕ → ℕ
raised rank g u = if ltb u g.next_id then rank u else suc (top_of rank g)

-- The state `t` has a consistent graph, whose edges lead to lower ranks and have valid programs, and
-- whose teams have edges, and it keeps the vertices, edges and programs of the state `s`.
pub record Populated {D R : Type 0} (env : Environment D) (rank : ℕ → ℕ) (s t : Breeding R)
    : Type 0 where
  pub consistent : Inv t.graph
  pub ranked : Ranked t.graph rank
  pub linked : Linked t.graph
  pub stocked : Stocked env t
  pub vertices_kept : (u : ℕ) → has s.graph.vertices u ≡ true → has t.graph.vertices u ≡ true
  pub edges_kept :
      (j : ℕ) (e : Edge) → find_edge s.graph.edges j ≡ some e → find_edge t.graph.edges j ≡ some e
  pub programs_kept : (n : ℕ) → n < s.next_program → t.programs n ≡ s.programs n

module _ {D R : Type 0} (F : Doubles D) (rng : Rng D R) (laws : RngLaws rng) (env : Environment D)
    (params : TpgParameters D) (patient : Patience F rng params.p_program_mutation) where
  module _ (rank : ℕ → ℕ) (teams actions edges roots : List ℕ)
      (choices : Choices teams actions edges) (some_root : 1 ≤ length roots) (rounds : ℕ)
      (enough : patient.bound < rounds) (s0 : Breeding R) where
    module _ (fuel : ℕ) (s : Breeding R) where
      filled :
          ltb (length (get_root_vertices s.graph)) params.nb_roots ≡ false
          → populate_rounds F rng params teams actions edges roots (suc fuel) rounds s
            ≡ some (s, ok tt)
      unfolding populate_rounds
      filled stops = rw (populate_rounds, stops) refl

      at_copy :
          (root new : ℕ) (h : Graph) (result : Option (Breeding R × Result (Unit {0})))
          → clone_vertex s.graph root ≡ (h, ok new)
          → mutate_team F rng params teams actions edges rounds new
              (record s { graph = h; rng = (rng.uint64 0 (sub64 (length roots) 1) s.rng).1 })
            ≡ result
          → mutate_team F rng params teams actions edges rounds new (record s {
            graph = (clone_vertex s.graph root).0;
            rng = (rng.uint64 0 (sub64 (length roots) 1) s.rng).1;
          })
            ≡ result
      at_copy root new h result cloned mutated = rw cloned mutated

      one_more :
          (root new : ℕ) (h : Graph) (t : Breeding R)
          → ltb (length (get_root_vertices s.graph)) params.nb_roots ≡ true
          → elem_at roots (rng.uint64 0 (sub64 (length roots) 1) s.rng).0 out_of_range ≡ ok root
          → clone_vertex s.graph root ≡ (h, ok new)
          → mutate_team F rng params teams actions edges rounds new
              (record s { graph = h; rng = (rng.uint64 0 (sub64 (length roots) 1) s.rng).1 })
            ≡ some (t, ok tt)
          → populate_rounds F rng params teams actions edges roots (suc fuel) rounds s
            ≡ populate_rounds F rng params teams actions edges roots fuel rounds t
      unfolding populate_rounds
      one_more root new h t goes_on drawn cloned mutated =
          rw (populate_rounds, goes_on, drawn, cloned)
            (rw (at_copy root new h (some (t, ok tt)) cloned mutated) refl)

    populate_rounds-Herd :
        (fuel : ℕ) (s : Breeding R) (fresh : List ℕ)
        → Herd env rank teams actions edges roots s0 s fresh
        → length fresh ≤ params.nb_roots
        → params.nb_roots < fuel + length fresh
        → (t : Breeding R) × (populate_rounds F rng params teams actions edges roots fuel rounds s
            ≡ some (t, ok tt))
          × (params.nb_roots ≤ length (get_root_vertices t.graph))
          × ((more : List ℕ) × Herd env rank teams actions edges roots s0 t more)
    populate_rounds-Herd zero s fresh herd within left = absurd (omega arith)
    populate_rounds-Herd (suc fuel) s fresh herd within left =
        let count = all_roots env rank teams actions edges roots s0 s fresh herd in
        elim (Bool-cases (ltb (length (get_root_vertices s.graph)) params.nb_roots)) [
          | inr stops ↦ (s, filled fuel s stops, ground arith, (fresh, herd))
          | inl goes_on ↦
              let (root, drawn, listed) = drawn_from F rng laws roots s.rng some_root in
              let goes = herd.roots_there root listed in
              let r = (rng.uint64 0 (sub64 (length roots) 1) s.rng).1 in
              let (h, ran, cloned) =
                clone_vertex-Cloned s.graph root herd.consistent (ground arith) in
              let (t, mutated, ready, stocked, kept, programs, grows, some_edge, bound) =
                mutate_team-Ready F rng laws env params patient rank teams actions edges
                  s.graph.next_id choices rounds (record s { graph = h; rng = r })
                  (copied-Ready env rank teams actions edges roots s0 s fresh herd root h cloned
                    goes)
                  (copied-Stocked env rank teams actions edges roots s0 s fresh herd root h cloned
                    r)
                  (copied_edges env rank teams actions edges roots s0 s fresh herd root h cloned
                    goes)
                  enough in
              let grown =
                grown-Herd env rank teams actions edges roots s0 s fresh herd root h cloned t ready
                  stocked kept programs grows some_edge in
              let (u, rest, many, result) =
                populate_rounds-Herd fuel t (s.graph.next_id ∷ fresh) grown (ground arith)
                  (omega arith) in
              (
                u,
                one_more fuel s root s.graph.next_id h t goes_on drawn ran mutated ∙ rest,
                many,
                result,
              )
        ]

  module _ (s : Breeding R) (rank : ℕ → ℕ) (inv : Inv s.graph) (ranked : Ranked s.graph rank)
      (linked : Linked s.graph) (stocked : Stocked env s) where
    same_rank : (u : ℕ) → has s.graph.vertices u ≡ true → raised rank s.graph u ≡ rank u
    same_rank u there = let below = has-lt s.graph u inv there in ground arith

    raised-Ranked : Ranked s.graph (raised rank s.graph)
    raised-Ranked k e found =
        let (start, there, goes) = ends_exist s.graph k e inv found in
        let falls = ranked k e found in
        let low = same_rank e.destination there in
        let high = same_rank e.source start in omega arith

    new_above :
        (u v : ℕ)
        → has s.graph.vertices u ≡ true
        → s.graph.next_id ≤ v
        → raised rank s.graph u < raised rank s.graph v
    new_above u v there new =
        let low = same_rank u there in
        let bound = rank-le-top_of rank s.graph u there in
        let beyond : ltb v s.graph.next_id ≡ false = ground arith in
        let high : raised rank s.graph v ≡ suc (top_of rank s.graph) = rw beyond refl in omega arith

    untouched-Herd :
        Herd env
          (raised rank s.graph)
          (team_vertices s.graph.vertices)
          (action_vertices s.graph.vertices)
          (all_edges s.graph.edges)
          (team_vertices (get_root_vertices s.graph))
          s
          s
          []
    unfolding get_root_vertices
    untouched-Herd = record {
      consistent = inv;
      ranked = raised-Ranked;
      settled = λ k e found.
          let (start, there, goes) = ends_exist s.graph k e inv found in
          every_vertex s.graph.vertices e.destination ∙ there;
      stocked = stocked;
      linked = linked;
      targets = λ u listed.
          let there = sym (every_vertex s.graph.vertices u) ∙ listed in
          (there, has-lt s.graph u inv there);
      above = λ u v listed new. new_above u v (sym (every_vertex s.graph.vertices u) ∙ listed) new;
      sources = λ k listed.
          let (e, found) = every_edge s.graph.edges k listed in
          let (start, there, goes) = ends_exist s.graph k e inv found in
          (e, found, has-lt s.graph e.source inv start, has-lt s.graph e.destination inv there);
      roots_there = λ r listed. team_root s.graph.vertices _ r inv.distinct_vertices listed;
      edges_kept = λ j e found. found;
      vertices_kept = λ u there. there;
      programs_kept = λ n old. refl;
      no_reuse = omega arith;
      store_grows = omega arith;
      fresh_once = tt;
      fresh_there = λ u listed. absurd (ground arith);
    }

    -- From a consistent graph without cycles that has a root team, an action and an edge, whose
    -- teams all have an edge and whose programs are valid, and with a patient random engine, the
    -- loop of populateTPG ends without throwing, within nbRoots rounds, with at least nbRoots
    -- roots. That the graph has no cycle means that each of its edges leads to a lower rank, for
    -- some ranks of the vertices. Its vertices keep their ranks, and all new ones are ranked above
    -- them: the graph is again consistent and without cycles. All its teams have an edge and its
    -- programs are valid; it keeps every vertex, edge and program of the first graph.
    pub populate_tpg-Populated :
        (fuel rounds : ℕ)
        → Choices
            (team_vertices s.graph.vertices)
            (action_vertices s.graph.vertices)
            (all_edges s.graph.edges)
        → 1 ≤ length (team_vertices (get_root_vertices s.graph))
        → params.nb_roots < fuel
        → patient.bound < rounds
        → (t : Breeding R) × (populate_tpg F rng params fuel rounds s ≡ some (t, ok tt))
          × (params.nb_roots ≤ length (get_root_vertices t.graph))
          × Populated env (raised rank s.graph) s t
    unfolding populate_tpg
    populate_tpg-Populated fuel rounds choices some_root enough calm =
        let (t, ran, count, (more, herd)) =
          populate_rounds-Herd (raised rank s.graph) (team_vertices s.graph.vertices)
            (action_vertices s.graph.vertices) (all_edges s.graph.edges)
            (team_vertices (get_root_vertices s.graph)) choices some_root rounds calm s fuel s []
            untouched-Herd (omega arith) (omega arith) in
        (
          t,
          ran,
          count,
          record {
            consistent = herd.consistent;
            ranked = herd.ranked;
            linked = herd.linked;
            stocked = herd.stocked;
            vertices_kept = herd.vertices_kept;
            edges_kept = herd.edges_kept;
            programs_kept = herd.programs_kept;
          },
        )
