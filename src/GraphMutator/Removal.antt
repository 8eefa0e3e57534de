-- ===== src/GraphMutator/Removal.antt =====
-- removeRandomEdge of gegelatilib/src/mutator/tpgMutator.cpp.
use gegelati.Base.{
  length-remove, List, Option-cases, [], arith, false, get_elem?, inl, inr, length, member, ok,
  refl, remove, some, sub64, sub64-le, suc, true, zero, ℕ, ◌==◌, ◌∷◌, ◌≡◌, ◌≤◌, ◌<◌,
}
use gegelati.Rng.{Rng, RngLaws}
use gegelati.Graph.{Edge, Graph, disconnect, find_edge, remove_edge}
use gegelati.Graph.Lookup.{find_edge-id, has, outgoing_of}
use gegelati.Graph.Connect.{outgoing_of-both}
use gegelati.Graph.Disconnect.{disconnect-Inv, has-unlinked, remove_edge-eq-disconnect}
use gegelati.Graph.Invariant.{Inv}
use gegelati.GraphMutator.{remove_random_edge}

pub chosen :
    (xs : List ℕ) (i : ℕ)
    → i < length xs
    → (k : ℕ) × (get_elem? xs i ≡ some k) × (member k xs ≡ true)
chosen [] i h = absurd (omega arith)
chosen (x ∷ xs) zero h = (x, refl, ground arith)
chosen (x ∷ xs) (suc i) h =
    let (k, found, there) = chosen xs i (omega arith) in (k, found, ground arith)

module _ (g : Graph) (v k : ℕ) (inv : Inv g)
    (there : member k (outgoing_of g.vertices v) ≡ true) where
  pub leaving : (e : Edge) × (find_edge g.edges k ≡ some e) × (e.source == v ≡ true)
  leaving = elim (Option-cases (find_edge g.edges k)) [
    | inl missing ↦ absurd (ground (arith, inv.outgoing_listed v k))
    | inr (e, found) ↦ (e, found, ground (arith, inv.outgoing_listed v k))
  ]

  disconnect-outgoing :
      (e : Edge)
      → find_edge g.edges k ≡ some e
      → e.source == v ≡ true
      → outgoing_of (disconnect g e).vertices v ≡ remove k (outgoing_of g.vertices v)
  unfolding disconnect
  disconnect-outgoing e found starts =
      let present : has g.vertices v ≡ true = ground (arith, there) in
      rw
        (
          outgoing_of-both g.vertices e.source e.destination (remove e.id) v,
          starts,
          present,
          find_edge-id g.edges k e found,
        )
        refl

  disconnect-others :
      (e : Edge)
      → e.source == v ≡ true
      → (u : ℕ) → (v == u) ≡ false
      → outgoing_of (disconnect g e).vertices u ≡ outgoing_of g.vertices u
  unfolding disconnect
  disconnect-others e starts u other =
      let elsewhere : (e.source == u) ≡ false = ground arith in
      rw (outgoing_of-both g.vertices e.source e.destination (remove e.id) u, elsewhere) refl

  disconnect-has :
      (e : Edge)
      → find_edge g.edges k ≡ some e
      → (u : ℕ) → has (disconnect g e).vertices u ≡ has g.vertices u
  unfolding disconnect
  disconnect-has e found u = has-unlinked g k e inv found u

  -- The edge goes, and the team has one edge less.
  edge_removed :
      (h : Graph) × (remove_edge g k ≡ (h, ok tt))
      × Inv h
      × (suc (length (outgoing_of h.vertices v)) ≡ length (outgoing_of g.vertices v))
      × ((u : ℕ) → has h.vertices u ≡ has g.vertices u)
      × ((u : ℕ) → (v == u) ≡ false → outgoing_of h.vertices u ≡ outgoing_of g.vertices u)
  edge_removed =
      let (e, found, starts) = leaving in
      (
        disconnect g e,
        remove_edge-eq-disconnect g k e inv found,
        disconnect-Inv g k e inv found,
        rw (disconnect-outgoing e found starts)
            (length-remove k (outgoing_of g.vertices v) (inv.outgoing_once v) there),
        disconnect-has e found,
        disconnect-others e starts,
      )

module _ {D R : Type 0} (rng : Rng D R) (laws : RngLaws rng) where
  pub drawn_edge :
      (g : Graph) (v : ℕ) (r : R) (k : ℕ) (h : Graph)
      → get_elem?
          (outgoing_of g.vertices v)
          (rng.uint64 0 (sub64 (length (outgoing_of g.vertices v)) 1) r).0
        ≡ some k
      → remove_edge g k ≡ (h, ok tt)
      → remove_random_edge rng g v r
        ≡ (h, ok tt, (rng.uint64 0 (sub64 (length (outgoing_of g.vertices v)) 1) r).1)
  unfolding remove_random_edge
  drawn_edge g v r k h found removed = rw (remove_random_edge, found, removed) refl

  -- In a consistent graph, for a team that has an edge, removeRandomEdge does not throw: it removes
  -- one edge of the team, and leaves every vertex, the edges of other teams and a consistent graph.
  pub remove_random_edge-Inv :
      (g : Graph) (v : ℕ) (r : R)
      → Inv g
      → 1 ≤ length (outgoing_of g.vertices v)
      → (h : Graph) × (rest : R) × (remove_random_edge rng g v r ≡ (h, ok tt, rest))
        × Inv h
        × (suc (length (outgoing_of h.vertices v)) ≡ length (outgoing_of g.vertices v))
        × ((u : ℕ) → has h.vertices u ≡ has g.vertices u)
        × ((u : ℕ) → (v == u) ≡ false → outgoing_of h.vertices u ≡ outgoing_of g.vertices u)
  remove_random_edge-Inv g v r inv some_edge =
      let n = length (outgoing_of g.vertices v) in
      let (least, most) = laws.uint64_range 0 (sub64 n 1) r (omega arith) in
      let bound = sub64-le n 1 some_edge in
      let (k, found, there) =
        chosen (outgoing_of g.vertices v) (rng.uint64 0 (sub64 n 1) r).0 (omega arith) in
      let (h, removed, inv', fewer, kept, others) = edge_removed g v k inv there in
      (
        h,
        (rng.uint64 0 (sub64 n 1) r).1,
        drawn_edge g v r k h found removed,
        inv',
        fewer,
        kept,
        others,
      )
