-- ===== src/Graph/Ends.antt =====
-- The edge lists of the vertices, before and after each change to them
-- (gegelatilib/src/tpg/tpgVertex.cpp).
use gegelati.Base.{
  List, Option-cases, [], arith, false, if◌then◌else◌, inl, inr, none, ℕ, ◌==◌, ◌≡◌,
}
use gegelati.Graph.{Vertex, find_vertex, update_incoming, update_outgoing}
use gegelati.Graph.Lookup.{
  find_vertex-update_incoming, find_vertex-update_outgoing, has, incoming_of, is_team, outgoing_of,
}

module _ (k : ℕ) (f : List ℕ → List ℕ) (vs : List Vertex) (v : ℕ) where
  pub has-update_outgoing : has (update_outgoing k f vs) v ≡ has vs v
  has-update_outgoing = ground (arith, find_vertex-update_outgoing k f vs v)

  pub has-update_incoming : has (update_incoming k f vs) v ≡ has vs v
  has-update_incoming = ground (arith, find_vertex-update_incoming k f vs v)

  pub is_team-update_outgoing : is_team (update_outgoing k f vs) v ≡ is_team vs v
  is_team-update_outgoing = ground (arith, find_vertex-update_outgoing k f vs v)

  pub is_team-update_incoming : is_team (update_incoming k f vs) v ≡ is_team vs v
  is_team-update_incoming = ground (arith, find_vertex-update_incoming k f vs v)

  pub outgoing_of-update_incoming : outgoing_of (update_incoming k f vs) v ≡ outgoing_of vs v
  outgoing_of-update_incoming = ground (arith, find_vertex-update_incoming k f vs v)

  pub incoming_of-update_outgoing : incoming_of (update_outgoing k f vs) v ≡ incoming_of vs v
  incoming_of-update_outgoing = ground (arith, find_vertex-update_outgoing k f vs v)

  pub outgoing_of-update_outgoing :
      outgoing_of (update_outgoing k f vs) v
      ≡ (if k == v then (if has vs v then f (outgoing_of vs v) else []) else outgoing_of vs v)
  outgoing_of-update_outgoing = ground (arith, find_vertex-update_outgoing k f vs v)

  pub incoming_of-update_incoming :
      incoming_of (update_incoming k f vs) v
      ≡ (if k == v then (if has vs v then f (incoming_of vs v) else []) else incoming_of vs v)
  incoming_of-update_incoming = ground (arith, find_vertex-update_incoming k f vs v)

pub find_vertex-none : (vs : List Vertex) (v : ℕ) → has vs v ≡ false → find_vertex vs v ≡ none
find_vertex-none vs v h = elim (Option-cases (find_vertex vs v)) [
  | inl e ↦ e
  | inr (x, e) ↦ absurd (ground arith)
]
