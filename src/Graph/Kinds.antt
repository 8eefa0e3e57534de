-- ===== src/Graph/Kinds.antt =====
-- The kinds of the vertices, before and after each change of their edges
-- (gegelatilib/src/tpg/tpgGraph.cpp).
use mathlib.Core.Option
use gegelati.Base.{List, Option, arith, ℕ, ◌∙◌, ◌≡◌}
use gegelati.Graph.{Kind, Vertex, find_vertex, update_incoming, update_outgoing}
use gegelati.Graph.Lookup.{find_vertex-update_incoming, find_vertex-update_outgoing}

-- The kind of the vertex at an address, a team or an action with its identifier.
abbrev pub kind_of : List Vertex → ℕ → Option Kind
kind_of vs v = Option.map (λ (x : Vertex). x.kind) (find_vertex vs v)

module _ (k : ℕ) (f : List ℕ → List ℕ) (vs : List Vertex) (v : ℕ) where
  pub kind_of-update_outgoing : kind_of (update_outgoing k f vs) v ≡ kind_of vs v
  kind_of-update_outgoing = ground (arith, find_vertex-update_outgoing k f vs v)

  pub kind_of-update_incoming : kind_of (update_incoming k f vs) v ≡ kind_of vs v
  kind_of-update_incoming = ground (arith, find_vertex-update_incoming k f vs v)

module _ (vs : List Vertex) (s d : ℕ) (f : List ℕ → List ℕ) (v : ℕ) where
  pub kind_of-both : kind_of (update_incoming d f (update_outgoing s f vs)) v ≡ kind_of vs v
  kind_of-both =
      kind_of-update_incoming d f (update_outgoing s f vs) v ∙ kind_of-update_outgoing s f vs v
