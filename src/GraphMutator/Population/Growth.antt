-- ===== src/GraphMutator/Population/Growth.antt =====
-- One round of populateTPG (gegelatilib/src/mutator/tpgMutator.cpp): a copy of a root team, before
-- and after its mutation.
use gegelati.Base.{
  Bool-cases, List, ap, arith, false, inl, inr, length, length-map, member, some, subst, sym, true,
  ℕ, ◌<◌, ◌==◌, ◌||◌, ◌∙◌, ◌∷◌, ◌≡◌, ◌≤◌,
}
use gegelati.Environment.{Environment}
use gegelati.ProgramMutator.Valid.{Valid}
use gegelati.Graph.{Edge, Graph, find_edge}
use gegelati.Graph.Lookup.{has, is_team, outgoing_of}
use gegelati.Graph.Invariant.{ends_exist, has-lt}
use gegelati.Graph.Copying.{lead}
use gegelati.Graph.Cloning.{Cloned, led}
use gegelati.GraphMutator.Own.{Kept, Ready}
use gegelati.GraphMutator.Loops.{nb_outgoing}
use gegelati.GraphMutator.Team.{Breeding}
use gegelati.GraphMutator.Team.Bred.{Stocked}
use gegelati.GraphMutator.Population.Herd.{Herd, Linked, left_one, some_leaving}

module _ {D R : Type 0} (env : Environment D) (rank : ℕ → ℕ) (teams actions edges roots : List ℕ)
    (s0 s : Breeding R) (fresh : List ℕ) (herd : Herd env rank teams actions edges roots s0 s fresh)
    (root : ℕ) (h : Graph) (cloned : Cloned s.graph h root) where
  abbrev base : ℕ
  base = s0.graph.next_id

  abbrev new : ℕ
  new = s.graph.next_id

  copied-lands :
      (j i : ℕ) (e : Edge)
      → find_edge h.edges j ≡ some e
      → lead s.graph i ≡ lead h j
      → ((member e.destination teams || member e.destination actions) ≡ true)
        × (e.destination < base)
  copied-lands j i e found leads =
      let (d, at_i, same, program) = led s.graph h i j e found leads in
      let lands = herd.settled i d at_i in
      (ground arith, let (there, below) = herd.targets d.destination lands in ground arith)

  pub copied-Ready : is_team s.graph.vertices root ≡ true → Ready rank teams actions edges new h
  copied-Ready goes = record {
    consistent = cloned.consistent;
    ranked = λ j e found. elim (cloned.edges_from j e found) [
      | inl old ↦ herd.ranked j e old
      | inr (own, (i, listed, leads)) ↦
          subst (λ u. rank e.destination < rank u) (sym own)
            (herd.above e.destination new (copied-lands j i e found leads).0 herd.no_reuse)
    ];
    settled = λ j e found. elim (cloned.edges_from j e found) [
      | inl old ↦ herd.settled j e old
      | inr (own, (i, listed, leads)) ↦ (copied-lands j i e found leads).0
    ];
    a_team = cloned.kinds_now new ∙ ground arith;
    targets = λ u listed.
        let (there, below) = herd.targets u listed in
        (ground (arith, cloned.vertices_now u), omega (arith, herd.no_reuse));
    above = λ u listed. herd.above u new listed herd.no_reuse;
    sources = λ k listed.
        let (e, found, starts, ends) = herd.sources k listed in
        (
          e,
          cloned.edges_kept k e found,
          omega (arith, herd.no_reuse),
          omega (arith, herd.no_reuse),
        );
  }

  pub copied-Stocked : (r : R) → Stocked env (record s { graph = h; rng = r })
  copied-Stocked r j e found = elim (cloned.edges_from j e found) [
    | inl old ↦ herd.stocked j e old
    | inr (own, (i, listed, leads)) ↦
        let (d, at_i, same, program) = led s.graph h i j e found leads in
        let (before, valid) = herd.stocked i d at_i in
        (omega arith, subst (λ n. Valid env (s.programs n)) program valid)
  ]

  pub copied_edges : is_team s.graph.vertices root ≡ true → 1 ≤ nb_outgoing h new
  copied_edges goes =
      let some_edge = herd.linked root goes in
      let copies = length-map (lead h) (outgoing_of h.vertices new) in
      let originals = length-map (lead s.graph) (outgoing_of s.graph.vertices root) in
      let same = ap length cloned.copied in omega arith

  module _ (t : Breeding R) (ready : Ready rank teams actions edges new t.graph)
      (stocked : Stocked env t) (kept : Kept h t.graph new)
      (programs : (n : ℕ) → n < s.next_program → t.programs n ≡ s.programs n)
      (grows : s.next_program ≤ t.next_program) (some_edge : 1 ≤ nb_outgoing t.graph new) where
    kept_edge :
        (j : ℕ) (e : Edge) → find_edge s.graph.edges j ≡ some e → find_edge t.graph.edges j ≡ some e
    kept_edge j e found =
        let (there, ends, goes) = ends_exist s.graph j e herd.consistent found in
        let below = has-lt s.graph e.source herd.consistent there in
        kept.others_kept j e (cloned.edges_kept j e found) (ground arith)

    kept_vertex : (u : ℕ) → has s.graph.vertices u ≡ true → has t.graph.vertices u ≡ true
    kept_vertex u there = kept.vertices_kept u ∙ ground (arith, cloned.vertices_now u)

    kept_team :
        (u : ℕ) → (new == u) ≡ false → is_team t.graph.vertices u ≡ is_team s.graph.vertices u
    kept_team u other = kept.kinds_kept u ∙ ground (arith, cloned.kinds_now u)

    still-Linked : Linked t.graph
    still-Linked u goes = elim (Bool-cases (new == u)) [
      | inl same ↦
          let itself : new ≡ u = ground arith in
          subst (λ n. 1 ≤ nb_outgoing t.graph n) itself some_edge
      | inr other ↦
          let (k, e, found, mine) =
            some_leaving s.graph u herd.consistent
              (herd.linked u (sym (kept_team u other) ∙ goes)) in
          left_one t.graph u k e ready.consistent (kept_edge k e found) mine
    ]

    -- The team `new` joins the population.
    pub grown-Herd : Herd env rank teams actions edges roots s0 t (new ∷ fresh)
    grown-Herd = record {
      consistent = ready.consistent;
      ranked = ready.ranked;
      settled = ready.settled;
      stocked = stocked;
      linked = still-Linked;
      targets =
          λ u listed. let (there, below) = herd.targets u listed in (kept_vertex u there, below);
      above = herd.above;
      sources = λ k listed.
          let (e, found, starts, ends) = herd.sources k listed in
          (e, kept_edge k e found, starts, ends);
      roots_there = λ r listed.
          let goes = herd.roots_there r listed in
          let below = has-lt s.graph r herd.consistent (ground arith) in
          kept_team r (ground arith) ∙ goes;
      edges_kept = λ j e found. kept_edge j e (herd.edges_kept j e found);
      vertices_kept = λ u there. kept_vertex u (herd.vertices_kept u there);
      programs_kept =
          λ n old. programs n (omega (arith, herd.store_grows)) ∙ herd.programs_kept n old;
      no_reuse = omega (arith, herd.no_reuse, cloned.no_reuse, kept.no_reuse);
      store_grows = omega (arith, herd.store_grows);
      fresh_once = (
        ground (arith, herd.fresh_there new, herd.consistent.fresh_vertices new (omega arith)),
        herd.fresh_once,
      );
      fresh_there = λ u listed. elim (Bool-cases (new == u)) [
        | inl same ↦ (
          kept.vertices_kept u ∙ ground (arith, cloned.vertices_now u),
          let bound = herd.no_reuse in ground arith,
        )
        | inr other ↦
            let (there, above) = herd.fresh_there u (ground arith) in (kept_vertex u there, above)
      ];
    }
