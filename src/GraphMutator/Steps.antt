-- ===== src/GraphMutator/Steps.antt =====
-- removeRandomEdge, addRandomEdge and mutateEdgeDestination of
-- gegelatilib/src/mutator/tpgMutator.cpp on the edges of one team.
use gegelati.Base.{
  arith, Bool-cases, false, get_elem?, inl, inr, length, List, [], member, none, ok, Option, refl,
  some, sub64, sub64-le, suc, true, ℕ, ◌==◌, ◌||◌, ◌∙◌, ◌∷◌, ◌≡◌, ◌≤◌, set,
}
use gegelati.Doubles.{Doubles}
use gegelati.Rng.{Rng, RngLaws}
use gegelati.Graph.{Edge, Graph, add_new_edge, clone_edge, find_edge, set_edge_source}
use gegelati.Graph.Lookup.{leaves, outgoing_of}
use gegelati.Graph.Invariant.{ends_exist}
use gegelati.Graph.Relink.{
  Relinked, add_new_edge-Relinked, join-Relinked, remove_edge-Relinked,
  set_edge_destination-Relinked, set_edge_source-Relinked,
}
use gegelati.GraphMutator.{
  add_random_edge, draw_target, mutate_edge_destination, pickable_edges, remove_random_edge,
}
use gegelati.GraphMutator.Removal.{chosen, drawn_edge, leaving}
use gegelati.GraphMutator.Targets.{changed, draw_target-member}
use gegelati.GraphMutator.Own.{
  Before, Choices, Kept, Kept-Relinked, Ready, Ready-Relinked, longer, shorter, as_long,
}

-- Every edge of `h` has the program of an edge of `g`.
abbrev pub ProgramsFrom : Graph → Graph → Type 0
ProgramsFrom g h =
    (j : ℕ) (e : Edge)
    → find_edge h.edges j ≡ some e
    → (i : ℕ) × (d : Edge) × (find_edge g.edges i ≡ some d) × (d.program ≡ e.program)

pub join-ProgramsFrom : (g h j : Graph) → ProgramsFrom g h → ProgramsFrom h j → ProgramsFrom g j
join-ProgramsFrom g h j first second i e found =
    let (i1, d1, found1, same1) = second i e found in
    let (i2, d2, found2, same2) = first i1 d1 found1 in (i2, d2, found2, same2 ∙ same1)

pub ProgramsFrom-Relinked :
    (g h : Graph) (k : ℕ) (o : Option Edge)
    → Relinked g h k o
    → ((e : Edge)
        → o ≡ some e
        → (i : ℕ) × (d : Edge) × (find_edge g.edges i ≡ some d) × (d.program ≡ e.program))
    → ProgramsFrom g h
ProgramsFrom-Relinked g h k o step there j e found = elim (Bool-cases (k == j)) [
  | inl same ↦ there e (ground (arith, step.edges_now j))
  | inr other ↦ (j, e, ground (arith, step.edges_now j), refl)
]

-- What a step on the edges of the team `v` leaves.
pub record Grown (rank : ℕ → ℕ) (teams actions edges : List ℕ) (v : ℕ) (g h : Graph) : Type 0 where
  pub ready : Ready rank teams actions edges v h
  pub kept : Kept g h v
  pub programs_from : ProgramsFrom g h

module _ {D R : Type 0} (rng : Rng D R) (laws : RngLaws rng) (rank : ℕ → ℕ)
    (teams actions edges : List ℕ) (v : ℕ) (g : Graph)
    (ready : Ready rank teams actions edges v g) where
  pub remove_random_edge-Grown :
      (r : R)
      → 1 ≤ length (outgoing_of g.vertices v)
      → (h : Graph) × (rest : R) × (remove_random_edge rng g v r ≡ (h, ok tt, rest))
        × Grown rank teams actions edges v g h
        × (suc (length (outgoing_of h.vertices v)) ≡ length (outgoing_of g.vertices v))
  remove_random_edge-Grown r some_edge =
      let inv = ready.consistent in
      let n = length (outgoing_of g.vertices v) in
      let (least, most) = laws.uint64_range 0 (sub64 n 1) r (omega arith) in
      let bound = sub64-le n 1 some_edge in
      let (k, found, there) =
        chosen (outgoing_of g.vertices v) (rng.uint64 0 (sub64 n 1) r).0 (omega arith) in
      let (e, at_k, mine) = leaving g v k inv there in
      let own : leaves g.edges k v ≡ true = ground (arith, inv.outgoing_listed v k) in
      let (h, removed, step) = remove_edge-Relinked g k e inv at_k in
      (
        h,
        (rng.uint64 0 (sub64 n 1) r).1,
        drawn_edge rng laws g v r k h found removed,
        record {
          ready =
              Ready-Relinked g h v k none (inr own) step rank teams actions edges ready (λ d h. cc)
                (λ d h. cc);
          kept = Kept-Relinked g h v k none (inr own) step;
          programs_from = ProgramsFrom-Relinked g h k none step (λ d h. cc);
        },
        shorter g h v k inv own step,
      )

  -- Every edge that the mutation may copy passes the filter of addRandomEdge.
  pickable_edges-all :
      (ks : List ℕ) → ((k : ℕ) → member k ks ≡ true → Before g v k) → pickable_edges g v ks ≡ ok ks
  unfolding pickable_edges
  pickable_edges-all [] all = refl
  pickable_edges-all (k ∷ ks) all =
      let (e, found, starts, ends) = all k (ground arith) in
      let apart : (e.source == v || e.destination == v) ≡ false = ground arith in
      rw (found, pickable_edges-all ks (λ j listed. all j (ground arith)), apart) refl

  cloned :
      (k : ℕ) (e : Edge) (h : Graph) (new : ℕ)
      → find_edge g.edges k ≡ some e
      → add_new_edge g e.source e.destination e.program ≡ (h, ok new)
      → clone_edge g k ≡ (h, ok new)
  unfolding clone_edge
  cloned k e h new found added = rw (found, clone_edge) added

  added_edge :
      (r : R) (k new : ℕ) (h j : Graph)
      → get_elem? edges (rng.uint64 0 (sub64 (length edges) 1) r).0 ≡ some k
      → clone_edge g k ≡ (h, ok new)
      → set_edge_source h new v ≡ (j, ok true)
      → add_random_edge rng g v edges r ≡ (j, ok tt, (rng.uint64 0 (sub64 (length edges) 1) r).1)
  unfolding add_random_edge
  added_edge r k new h j found copied moved =
      rw (pickable_edges-all edges ready.sources, add_random_edge, found, copied)
        (rw (copied, moved) refl)

  pub add_random_edge-Grown :
      Choices teams actions edges
      → (r : R)
      → (h : Graph) × (rest : R) × (add_random_edge rng g v edges r ≡ (h, ok tt, rest))
        × Grown rank teams actions edges v g h
        × (length (outgoing_of h.vertices v) ≡ suc (length (outgoing_of g.vertices v)))
  add_random_edge-Grown choices r =
      let inv = ready.consistent in
      let n = length edges in
      let (least, most) = laws.uint64_range 0 (sub64 n 1) r (omega arith) in
      let bound = sub64-le n 1 choices.some_edge in
      let (k, drawn, listed) =
        chosen edges (rng.uint64 0 (sub64 n 1) r).0 (omega (arith, choices.some_edge)) in
      let (e, found, starts, ends) = ready.sources k listed in
      let (source_there, there, goes) = ends_exist g k e inv found in
      let new = g.next_id in
      let unused = inv.fresh_edges new (omega arith) in
      let (h, added, first, last) =
        add_new_edge-Relinked g e.source e.destination e.program inv goes there in
      let copy : Edge = record e { id = new } in
      let at_new : find_edge h.edges new ≡ some copy = ground (arith, first.edges_now new) in
      let (j, moved, second) =
        set_edge_source-Relinked h new copy first.consistent at_new v
          (first.kinds_kept v ∙ ready.a_team) in
      let step =
        join-Relinked g h j new (some copy) (some (record copy { source = v })) first second in
      (
        j,
        (rng.uint64 0 (sub64 n 1) r).1,
        added_edge r k new h j drawn (cloned k e h new found added) moved,
        record {
          ready =
              Ready-Relinked g j v new _ (inl unused) step rank teams actions edges ready
                (λ d same. ground arith)
                (λ d same. let lands = ready.settled k e found in ground arith);
          kept = Kept-Relinked g j v new _ (inl unused) step;
          programs_from =
              ProgramsFrom-Relinked g j new _ step (λ d same. (k, e, found, ground arith));
        },
        longer g j v new inv (record copy { source = v }) unused step (ground arith),
      )

module _ {D R : Type 0} (F : Doubles D) (rng : Rng D R) (laws : RngLaws rng) (rank : ℕ → ℕ)
    (teams actions edges : List ℕ) (v : ℕ) (g : Graph)
    (ready : Ready rank teams actions edges v g) where
  pub mutate_edge_destination-Grown :
      Choices teams actions edges
      → (p_action : D) (k : ℕ) (e : Edge) (r : R) → find_edge g.edges k ≡ some e
      → (e.source == v) ≡ true
      → (h : Graph) × (rest : R) × (mutate_edge_destination F rng p_action g k teams actions r
          ≡ (h, ok tt, rest))
        × Grown rank teams actions edges v g h
        × (length (outgoing_of h.vertices v) ≡ length (outgoing_of g.vertices v))
        × ((j : ℕ) → leaves h.edges j v ≡ leaves g.edges j v)
  mutate_edge_destination-Grown choices p_action k e r found mine =
      let inv = ready.consistent in
      let own : leaves g.edges k v ≡ true = ground arith in
      let (new, drawn, listed) =
        draw_target-member F rng laws p_action teams actions r choices.some_team
          choices.some_action in
      let (there, below) = ready.targets new listed in
      let (h, set, step) = set_edge_destination-Relinked g k e inv found new there in
      (
        h,
        (draw_target F rng p_action teams actions r).1,
        changed F rng laws p_action g h k new teams actions r drawn set,
        record {
          ready =
              Ready-Relinked g h v k _ (inr own) step rank teams actions edges ready
                (λ d same. ground arith) (λ d same. ground arith);
          kept = Kept-Relinked g h v k _ (inr own) step;
          programs_from =
              ProgramsFrom-Relinked g h k _ step (λ d same. (k, e, found, ground arith));
        },
        as_long g h v k inv (record e { destination = new }) own step mine,
        λ j. ground (arith, step.edges_now j),
      )
