-- ===== src/GraphMutator/Targets.antt =====
-- mutateEdgeDestination of gegelatilib/src/mutator/tpgMutator.cpp.
use gegelati.Base.{
  some, Bool-cases, ◌||◌, if◌then◌else◌, List, [], arith, elem_at, inl, inr, length, member, ok,
  out_of_range, refl, sub64, sub64-le, suc, true, zero, ℕ, ◌==◌, ◌∷◌, ◌≡◌, ◌≤◌, ◌<◌, set,
}
use gegelati.Doubles.{Doubles}
use gegelati.Rng.{Rng, RngLaws}
use gegelati.Graph.{Edge, Graph, find_edge, set_edge_destination}
use gegelati.Graph.Lookup.{enters, has, is_team, leaves}
use gegelati.Graph.Invariant.{Inv}
use gegelati.Graph.Redirect.{set_edge_destination-Inv}
use gegelati.GraphMutator.{draw_target, mutate_edge_destination}

elem_at-member :
    (xs : List ℕ) (i : ℕ)
    → i < length xs
    → (v : ℕ) × (elem_at xs i out_of_range ≡ ok v) × (member v xs ≡ true)
elem_at-member [] i h = absurd (omega arith)
elem_at-member (x ∷ xs) zero h = (x, refl, ground arith)
elem_at-member (x ∷ xs) (suc i) h =
    let (v, found, there) = elem_at-member xs i (omega arith) in (v, found, ground arith)

module _ {D R : Type 0} (F : Doubles D) (rng : Rng D R) (laws : RngLaws rng) where
  pub drawn_from :
      (targets : List ℕ) (r : R)
      → 1 ≤ length targets
      → (v : ℕ) × (elem_at targets (rng.uint64 0 (sub64 (length targets) 1) r).0 out_of_range
          ≡ ok v)
        × (member v targets ≡ true)
  drawn_from targets r some_target =
      let n = length targets in
      let (least, most) = laws.uint64_range 0 (sub64 n 1) r (omega arith) in
      let bound = sub64-le n 1 some_target in
      elem_at-member targets (rng.uint64 0 (sub64 n 1) r).0 (omega arith)

  pub draw_target-member :
      (p_action : D) (teams actions : List ℕ) (r : R)
      → 1 ≤ length teams
      → 1 ≤ length actions
      → (v : ℕ) × ((draw_target F rng p_action teams actions r).0 ≡ ok v)
        × ((member v teams || member v actions) ≡ true)
  unfolding draw_target
  draw_target-member p_action teams actions r some_team some_action =
      elim (Bool-cases (F.lt (rng.unit_double r).0 p_action)) [
        | inl acts ↦
            let (v, found, there) = drawn_from actions (rng.unit_double r).1 some_action in
            (v, rw (acts, found) refl, ground arith)
        | inr goes ↦
            let (v, found, there) = drawn_from teams (rng.unit_double r).1 some_team in
            (v, rw (goes, found) refl, ground arith)
      ]

  pub changed :
      (p_action : D) (g h : Graph) (k v : ℕ) (teams actions : List ℕ) (r : R)
      → (draw_target F rng p_action teams actions r).0 ≡ ok v
      → set_edge_destination g k v ≡ (h, ok true)
      → mutate_edge_destination F rng p_action g k teams actions r
        ≡ (h, ok tt, (draw_target F rng p_action teams actions r).1)
  unfolding mutate_edge_destination draw_target
  changed p_action g h k v teams actions r drawn set = rw (mutate_edge_destination, drawn, set) refl

  -- On a consistent graph with the edge, where there is a team and an action to choose from and all
  -- of them are in the graph, mutateEdgeDestination does not throw. The graph stays consistent, the
  -- edge ends at one of these teams and actions, and every other edge ends where it did; every edge
  -- keeps its source, and every vertex stays what it was.
  pub mutate_edge_destination-Inv :
      (p_action : D) (g : Graph) (k : ℕ) (e : Edge) (teams actions : List ℕ) (r : R)
      → Inv g
      → find_edge g.edges k ≡ some e
      → 1 ≤ length teams
      → 1 ≤ length actions
      → ((v : ℕ) → (member v teams || member v actions) ≡ true → has g.vertices v ≡ true)
      → (h : Graph) × (new : ℕ) × (rest : R) × (mutate_edge_destination F rng p_action g k teams
            actions r
          ≡ (h, ok tt, rest))
        × ((member new teams || member new actions) ≡ true)
        × Inv h
        × ((j v : ℕ) → enters h.edges j v ≡ (if k == j then new == v else enters g.edges j v))
        × ((j v : ℕ) → leaves h.edges j v ≡ leaves g.edges j v)
        × ((v : ℕ) → has h.vertices v ≡ has g.vertices v)
        × ((v : ℕ) → is_team h.vertices v ≡ is_team g.vertices v)
  mutate_edge_destination-Inv p_action g k e teams actions r inv found some_team some_action known =
      let (new, drawn, chosen) =
        draw_target-member p_action teams actions r some_team some_action in
      let (h, set, inv', ends, starts, kept, kinds) =
        set_edge_destination-Inv g k new e inv found (known new chosen) in
      (
        h,
        new,
        (draw_target F rng p_action teams actions r).1,
        changed p_action g h k new teams actions r drawn set,
        chosen,
        inv',
        ends,
        starts,
        kept,
        kinds,
      )
