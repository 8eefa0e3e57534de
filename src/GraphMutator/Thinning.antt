-- ===== src/GraphMutator/Thinning.antt =====
-- The first loop of mutateTPGTeam (gegelatilib/src/mutator/tpgMutator.cpp), which removes random
-- edges of a team.
use gegelati.Base.{
  ◌⊎◌, Bool-cases, arith, false, inl, inr, length, ltb, ok, refl, suc, true, zero, ℕ, ◌==◌, ◌∙◌,
  ◌≡◌, ◌≤◌,
}
use gegelati.Doubles.{Doubles}
use gegelati.Rng.{Rng, RngLaws}
use gegelati.Graph.{Graph}
use gegelati.Graph.Lookup.{has, outgoing_of}
use gegelati.Graph.Invariant.{Inv}
use gegelati.GraphMutator.{remove_random_edge, remove_random_edges}
use gegelati.GraphMutator.Removal.{remove_random_edge-Inv}

-- What the removal of edges of a team leaves: the graph is consistent, its vertices and the edges
-- of other teams stay, and the team keeps two edges or all that it had.
pub record Thinned (g h : Graph) (v : ℕ) : Type 0 where
  pub consistent : Inv h
  pub vertices_kept : (u : ℕ) → has h.vertices u ≡ has g.vertices u
  pub others_kept : (u : ℕ) → (v == u) ≡ false → outgoing_of h.vertices u ≡ outgoing_of g.vertices u
  pub not_more : length (outgoing_of h.vertices v) ≤ length (outgoing_of g.vertices v)
  pub two_left :
      (2 ≤ length (outgoing_of h.vertices v))
      ⊎ (length (outgoing_of h.vertices v) ≡ length (outgoing_of g.vertices v))

unthinned : (g : Graph) (v : ℕ) → Inv g → Thinned g g v
unthinned g v inv = record {
  consistent = inv;
  vertices_kept = λ u. refl;
  others_kept = λ u h. refl;
  not_more = omega arith;
  two_left = inr refl;
}

module _ {D R : Type 0} (F : Doubles D) (rng : Rng D R) (laws : RngLaws rng) where
  module _ (p_deletion proba : D) (g : Graph) (v : ℕ) (r : R) where
    pub few_edges :
        ltb 2 (length (outgoing_of g.vertices v)) ≡ false
        → (fuel : ℕ) → remove_random_edges F rng fuel p_deletion proba g v r ≡ (g, ok tt, r)
    unfolding remove_random_edges
    few_edges few zero = refl
    few_edges few (suc fuel) = rw (few, remove_random_edges) refl

    pub unlucky :
        ltb 2 (length (outgoing_of g.vertices v)) ≡ true
        → F.lt (rng.unit_double r).0 proba ≡ false
        → (fuel : ℕ) → length (outgoing_of g.vertices v) ≤ fuel
        → remove_random_edges F rng fuel p_deletion proba g v r ≡ (g, ok tt, (rng.unit_double r).1)
    unfolding remove_random_edges
    unlucky many stop zero enough = absurd (ground arith)
    unlucky many stop (suc fuel) enough = rw (many, remove_random_edges, stop) refl

    pub lucky :
        ltb 2 (length (outgoing_of g.vertices v)) ≡ true
        → F.lt (rng.unit_double r).0 proba ≡ true
        → (h : Graph) (rest : R)
        → remove_random_edge rng g v (rng.unit_double r).1 ≡ (h, ok tt, rest)
        → (fuel : ℕ)
        → remove_random_edges F rng (suc fuel) p_deletion proba g v r
          ≡ remove_random_edges F rng fuel p_deletion (F.mul proba p_deletion) h v rest
    unfolding remove_random_edges
    lucky many go h rest removed fuel =
        rw (many, remove_random_edges, go, removed) (rw removed refl)

  join-Thinned :
      (g h j : Graph) (v : ℕ)
      → ltb 2 (length (outgoing_of g.vertices v)) ≡ true
      → suc (length (outgoing_of h.vertices v)) ≡ length (outgoing_of g.vertices v)
      → ((u : ℕ) → has h.vertices u ≡ has g.vertices u)
      → ((u : ℕ) → (v == u) ≡ false → outgoing_of h.vertices u ≡ outgoing_of g.vertices u)
      → Thinned h j v
      → Thinned g j v
  join-Thinned g h j v many fewer kept others rest = record {
    consistent = rest.consistent;
    vertices_kept = λ u. rest.vertices_kept u ∙ kept u;
    others_kept = λ u other. rest.others_kept u other ∙ others u other;
    not_more = ground (arith, rest.not_more);
    two_left = inl (ground (arith, rest.two_left));
  }

  -- The first loop of mutateTPGTeam on a consistent graph ends, whatever the random numbers: more
  -- rounds than the team has edges change nothing. It does not throw, and leaves a consistent
  -- graph with the same vertices and the same edges of every other team; the team keeps two edges
  -- at least, or all that it had.
  pub remove_random_edges-Thinned :
      (n : ℕ) (p_deletion proba : D) (g : Graph) (v : ℕ) (r : R)
      → length (outgoing_of g.vertices v) ≤ n
      → Inv g
      → (h : Graph) × (rest : R) × ((fuel : ℕ)
          → length (outgoing_of g.vertices v) ≤ fuel
          → remove_random_edges F rng fuel p_deletion proba g v r ≡ (h, ok tt, rest))
        × Thinned g h v
  remove_random_edges-Thinned zero p_deletion proba g v r bound inv =
      (g, r, λ fuel enough. few_edges p_deletion proba g v r (ground arith) fuel, unthinned g v inv)
  remove_random_edges-Thinned (suc n) p_deletion proba g v r bound inv =
      elim (Bool-cases (ltb 2 (length (outgoing_of g.vertices v)))) [
        | inr few ↦
            (g, r, λ fuel enough. few_edges p_deletion proba g v r few fuel, unthinned g v inv)
        | inl many ↦ elim (Bool-cases (F.lt (rng.unit_double r).0 proba)) [
          | inr stop ↦ (
            g,
            (rng.unit_double r).1,
            unlucky p_deletion proba g v r many stop,
            unthinned g v inv,
          )
          | inl go ↦
              let (h, next, removed, inv', fewer, kept, others) =
                remove_random_edge-Inv rng laws g v (rng.unit_double r).1 inv (ground arith) in
              let (j, rest, looped, thinned) =
                remove_random_edges-Thinned n p_deletion (F.mul proba p_deletion) h v next
                  (omega arith) inv' in
              (
                j,
                rest,
                λ fuel enough.
                    elim fuel
                        as (λ f.
                          length (outgoing_of g.vertices v) ≤ f
                          → remove_random_edges F rng f p_deletion proba g v r ≡ (j, ok tt, rest)) [
                            | zero ↦ λ enough. absurd (ground arith)
                            | suc f ↦ λ enough.
                                lucky p_deletion proba g v r many go h next removed f
                                ∙ looped f (omega arith)
                          ]
                      enough,
                join-Thinned g h j v many fewer kept others thinned,
              )
        ]
      ]
