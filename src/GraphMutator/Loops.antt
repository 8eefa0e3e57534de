-- ===== src/GraphMutator/Loops.antt =====
-- The first two loops of mutateTPGTeam (gegelatilib/src/mutator/tpgMutator.cpp).
use gegelati.Base.{
  arith, Bool-cases, false, inl, inr, length, List, ltb, ok, refl, suc, true, zero, ℕ, ◌+◌, ◌∙◌,
  ◌≡◌, ◌≤◌, ◌⊎◌,
}
use gegelati.Doubles.{Doubles}
use gegelati.Rng.{Rng, RngLaws}
use gegelati.Graph.{Graph}
use gegelati.Graph.Lookup.{outgoing_of}
use gegelati.GraphMutator.{add_random_edge, add_random_edges, remove_random_edges}
use gegelati.GraphMutator.Own.{Choices, Kept-self, Ready, join-Kept}
use gegelati.GraphMutator.Steps.{
  Grown, add_random_edge-Grown, join-ProgramsFrom, remove_random_edge-Grown,
}
use gegelati.GraphMutator.Thinning.{few_edges, lucky, unlucky}

abbrev pub nb_outgoing : Graph → ℕ → ℕ
nb_outgoing g v = length (outgoing_of g.vertices v)

module _ (rank : ℕ → ℕ) (teams actions edges : List ℕ) (v : ℕ) where
  pub Grown-self :
      (g : Graph) → Ready rank teams actions edges v g → Grown rank teams actions edges v g g
  Grown-self g ready = record {
    ready = ready;
    kept = Kept-self g v;
    programs_from = λ j e found. (j, e, found, refl);
  }

  pub join-Grown :
      (g h j : Graph)
      → Grown rank teams actions edges v g h
      → Grown rank teams actions edges v h j
      → Grown rank teams actions edges v g j
  join-Grown g h j first second = record {
    ready = second.ready;
    kept = join-Kept g h j v first.kept second.kept;
    programs_from = join-ProgramsFrom g h j first.programs_from second.programs_from;
  }

module _ {D R : Type 0} (F : Doubles D) (rng : Rng D R) (laws : RngLaws rng) (rank : ℕ → ℕ)
    (teams actions edges : List ℕ) (v : ℕ) where
  -- Enough rounds of the first loop leave the team an edge, if it had one.
  pub remove_random_edges-Grown :
      (fuel : ℕ) (p_deletion proba : D) (g : Graph) (r : R)
      → Ready rank teams actions edges v g
      → nb_outgoing g v ≤ fuel
      → (h : Graph) × (rest : R) × (remove_random_edges F rng fuel p_deletion proba g v r
          ≡ (h, ok tt, rest))
        × Grown rank teams actions edges v g h
        × (nb_outgoing h v ≤ nb_outgoing g v)
        × (1 ≤ nb_outgoing g v → 1 ≤ nb_outgoing h v)
  remove_random_edges-Grown zero p_deletion proba g r ready enough = (
    g,
    r,
    few_edges F rng laws p_deletion proba g v r (ground arith) zero,
    Grown-self rank teams actions edges v g ready,
    omega arith,
    λ h. h,
  )
  remove_random_edges-Grown (suc fuel) p_deletion proba g r ready enough =
      elim (Bool-cases (ltb 2 (nb_outgoing g v))) [
        | inr few ↦ (
          g,
          r,
          few_edges F rng laws p_deletion proba g v r few (suc fuel),
          Grown-self rank teams actions edges v g ready,
          omega arith,
          λ h. h,
        )
        | inl many ↦ elim (Bool-cases (F.lt (rng.unit_double r).0 proba)) [
          | inr stop ↦ (
            g,
            (rng.unit_double r).1,
            unlucky F rng laws p_deletion proba g v r many stop (suc fuel) enough,
            Grown-self rank teams actions edges v g ready,
            omega arith,
            λ h. h,
          )
          | inl go ↦
              let (h, next, removed, grown, fewer) =
                remove_random_edge-Grown rng laws rank teams actions edges v g ready
                  (rng.unit_double r).1 (ground arith) in
              let (j, rest, looped, grown', less, left) =
                remove_random_edges-Grown fuel p_deletion (F.mul proba p_deletion) h next
                  grown.ready (omega arith) in
              (
                j,
                rest,
                lucky F rng laws p_deletion proba g v r many go h next removed fuel ∙ looped,
                join-Grown rank teams actions edges v g h j grown grown',
                omega arith,
                λ some_edge. left (ground arith),
              )
        ]
      ]

  module _ (most : ℕ) (p_addition proba : D) (g : Graph) (r : R) where
    all_added :
        ltb (nb_outgoing g v) most ≡ false
        → (fuel : ℕ) → add_random_edges F rng fuel most p_addition proba g v edges r ≡ (g, ok tt, r)
    unfolding add_random_edges
    all_added full zero = refl
    all_added full (suc fuel) = rw (full, add_random_edges) refl

    no_more :
        ltb (nb_outgoing g v) most ≡ true
        → F.lt (rng.unit_double r).0 proba ≡ false
        → (fuel : ℕ) → most ≤ fuel + nb_outgoing g v
        → add_random_edges F rng fuel most p_addition proba g v edges r
          ≡ (g, ok tt, (rng.unit_double r).1)
    unfolding add_random_edges
    no_more room stop zero enough = absurd (ground arith)
    no_more room stop (suc fuel) enough = rw (room, add_random_edges, stop) refl

    one_more :
        ltb (nb_outgoing g v) most ≡ true
        → F.lt (rng.unit_double r).0 proba ≡ true
        → (h : Graph) (rest : R)
        → add_random_edge rng g v edges (rng.unit_double r).1 ≡ (h, ok tt, rest)
        → (fuel : ℕ)
        → add_random_edges F rng (suc fuel) most p_addition proba g v edges r
          ≡ add_random_edges F rng fuel most p_addition (F.mul proba p_addition) h v edges rest
    unfolding add_random_edges
    one_more room go h rest added fuel = rw (room, add_random_edges, go, added) (rw added refl)

    one_or_more :
        (h : Graph) (next : R)
        → add_random_edge rng g v edges (rng.unit_double r).1 ≡ (h, ok tt, next)
        → (j : Graph) (rest : R) → ltb (nb_outgoing g v) most ≡ true
        → F.lt (rng.unit_double r).0 proba ≡ true
        → nb_outgoing h v ≡ suc (nb_outgoing g v)
        → ((fuel : ℕ)
            → most ≤ fuel + nb_outgoing h v
            → add_random_edges F rng fuel most p_addition (F.mul proba p_addition) h v edges next
              ≡ (j, ok tt, rest))
        → (fuel : ℕ) → most ≤ fuel + nb_outgoing g v
        → add_random_edges F rng fuel most p_addition proba g v edges r ≡ (j, ok tt, rest)
    one_or_more h next added j rest room go more looped zero enough = absurd (ground arith)
    one_or_more h next added j rest room go more looped (suc fuel) enough =
        one_more room go h next added fuel ∙ looped fuel (omega arith)

  -- The second loop ends by its tests, within as many rounds as there is room for edges.
  pub add_random_edges-Grown :
      (n : ℕ) (most : ℕ) (p_addition proba : D) (g : Graph) (r : R)
      → Choices teams actions edges
      → Ready rank teams actions edges v g
      → most ≤ n + nb_outgoing g v
      → (h : Graph) × (rest : R) × ((fuel : ℕ)
          → most ≤ fuel + nb_outgoing g v
          → add_random_edges F rng fuel most p_addition proba g v edges r ≡ (h, ok tt, rest))
        × Grown rank teams actions edges v g h
        × (nb_outgoing g v ≤ nb_outgoing h v)
        × ((nb_outgoing h v ≤ most) ⊎ (nb_outgoing h v ≡ nb_outgoing g v))
  add_random_edges-Grown zero most p_addition proba g r choices ready enough = (
    g,
    r,
    λ fuel room. all_added most p_addition proba g r (ground arith) fuel,
    Grown-self rank teams actions edges v g ready,
    omega arith,
    inr refl,
  )
  add_random_edges-Grown (suc n) most p_addition proba g r choices ready enough =
      elim (Bool-cases (ltb (nb_outgoing g v) most)) [
        | inr full ↦ (
          g,
          r,
          λ fuel room. all_added most p_addition proba g r full fuel,
          Grown-self rank teams actions edges v g ready,
          omega arith,
          inr refl,
        )
        | inl room ↦ elim (Bool-cases (F.lt (rng.unit_double r).0 proba)) [
          | inr stop ↦ (
            g,
            (rng.unit_double r).1,
            no_more most p_addition proba g r room stop,
            Grown-self rank teams actions edges v g ready,
            omega arith,
            inr refl,
          )
          | inl go ↦
              let (h, next, added, grown, more) =
                add_random_edge-Grown rng laws rank teams actions edges v g ready choices
                  (rng.unit_double r).1 in
              let (j, rest, looped, grown', least, bound) =
                add_random_edges-Grown n most p_addition (F.mul proba p_addition) h next choices
                  grown.ready (omega arith) in
              (
                j,
                rest,
                one_or_more most p_addition proba g r h next added j rest room go more looped,
                join-Grown rank teams actions edges v g h j grown grown',
                omega arith,
                inl (elim bound [ inl within ↦ within | inr same ↦ ground arith ]),
              )
        ]
      ]
