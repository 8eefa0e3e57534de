-- ===== src/Graph/Lookup.antt =====
-- What is read from the lists of vertices and edges, before and after each change to them
-- (gegelatilib/src/tpg/tpgGraph.cpp and tpgVertex.cpp).
use gegelati.Base.{
  inl, inr, ◌⊎◌, is_some, Bool, List, Option, [], arith, false, if◌then◌else◌, none, not, refl,
  some, ℕ, ◌++◌, ◌==◌, ◌∷◌, ◌≡◌,
}
use mathlib.Core.Option
use gegelati.Graph.{
  Kind, team, action, Edge, Vertex, erase_edge, erase_vertex, find_edge, find_vertex, in_list,
  is_action, out_list, update_edge, update_incoming, update_outgoing,
}

abbrev pub has : List Vertex → ℕ → Bool
has vs v = is_some (find_vertex vs v)

abbrev pub outgoing_of : List Vertex → ℕ → List ℕ
outgoing_of vs v = out_list (find_vertex vs v)

abbrev pub incoming_of : List Vertex → ℕ → List ℕ
incoming_of vs v = in_list (find_vertex vs v)

abbrev kind_is_team : Option Vertex → Bool
kind_is_team none = false
kind_is_team (some v) = not (is_action v.kind)

abbrev pub is_team : List Vertex → ℕ → Bool
is_team vs v = kind_is_team (find_vertex vs v)

abbrev starts_at : Option Edge → ℕ → Bool
starts_at none v = false
starts_at (some e) v = e.source == v

abbrev ends_at : Option Edge → ℕ → Bool
ends_at none v = false
ends_at (some e) v = e.destination == v

-- Is `k` an edge from `v`, and is it an edge to `v`?
abbrev pub leaves : List Edge → ℕ → ℕ → Bool
leaves es k v = starts_at (find_edge es k) v

abbrev pub enters : List Edge → ℕ → ℕ → Bool
enters es k v = ends_at (find_edge es k) v

abbrev pub with_outgoing : (List ℕ → List ℕ) → Vertex → Vertex
with_outgoing f v = record v { outgoing = f v.outgoing }

abbrev pub with_incoming : (List ℕ → List ℕ) → Vertex → Vertex
with_incoming f v = record v { incoming = f v.incoming }

pub find_vertex-update_outgoing :
    (k : ℕ) (f : List ℕ → List ℕ) (vs : List Vertex) (v : ℕ)
    → find_vertex (update_outgoing k f vs) v
      ≡ (if k == v then Option.map (with_outgoing f) (find_vertex vs v) else find_vertex vs v)
unfolding find_vertex update_outgoing
find_vertex-update_outgoing k f [] v = ground arith
find_vertex-update_outgoing k f (x ∷ vs) v = ground (arith, find_vertex-update_outgoing k f vs v)

pub find_vertex-update_incoming :
    (k : ℕ) (f : List ℕ → List ℕ) (vs : List Vertex) (v : ℕ)
    → find_vertex (update_incoming k f vs) v
      ≡ (if k == v then Option.map (with_incoming f) (find_vertex vs v) else find_vertex vs v)
unfolding find_vertex update_incoming
find_vertex-update_incoming k f [] v = ground arith
find_vertex-update_incoming k f (x ∷ vs) v = ground (arith, find_vertex-update_incoming k f vs v)

abbrev pub or_else {ℓ} : {A : Type ℓ} → Option A → Option A → Option A
or_else none o = o
or_else (some a) o = some a

pub find_vertex-snoc :
    (vs : List Vertex) (x : Vertex) (v : ℕ)
    → find_vertex (vs ++ x ∷ []) v ≡ or_else (find_vertex vs v) (if x.id == v then some x else none)
unfolding find_vertex
find_vertex-snoc [] x v = ground arith
find_vertex-snoc (y ∷ vs) x v = ground (arith, find_vertex-snoc vs x v)

pub find_edge-snoc :
    (es : List Edge) (e : Edge) (k : ℕ)
    → find_edge (es ++ e ∷ []) k ≡ or_else (find_edge es k) (if e.id == k then some e else none)
unfolding find_edge
find_edge-snoc [] e k = ground arith
find_edge-snoc (d ∷ es) e k = ground (arith, find_edge-snoc es e k)

-- A change to an edge that keeps its address.
pub find_edge-update :
    (k : ℕ) (f : Edge → Edge) (es : List Edge) (j : ℕ)
    → ((e : Edge) → (f e).id ≡ e.id)
    → find_edge (update_edge k f es) j
      ≡ (if k == j then Option.map f (find_edge es j) else find_edge es j)
unfolding find_edge update_edge
find_edge-update k f [] j keeps = ground arith
find_edge-update k f (e ∷ es) j keeps = ground (arith, find_edge-update k f es j keeps, keeps e)

pub find_vertex-id : (vs : List Vertex) (v : ℕ) (x : Vertex) → find_vertex vs v ≡ some x → x.id ≡ v
unfolding find_vertex
find_vertex-id [] v x h = cc
find_vertex-id (y ∷ vs) v x h = ground (arith, find_vertex-id vs v x)

pub find_edge-id : (es : List Edge) (k : ℕ) (e : Edge) → find_edge es k ≡ some e → e.id ≡ k
unfolding find_edge
find_edge-id [] k e h = cc
find_edge-id (d ∷ es) k e h = ground (arith, find_edge-id es k e)

-- The addresses are distinct.
abbrev pub DistinctVertices : List Vertex → Type 0
DistinctVertices [] = Unit {0}
DistinctVertices (v ∷ vs) = (has vs v.id ≡ false) × DistinctVertices vs

abbrev pub has_edge : List Edge → ℕ → Bool
has_edge es k = is_some (find_edge es k)

abbrev pub DistinctEdges : List Edge → Type 0
DistinctEdges [] = Unit {0}
DistinctEdges (e ∷ es) = (has_edge es e.id ≡ false) × DistinctEdges es

pub find_edge-erase :
    (k : ℕ) (es : List Edge) (j : ℕ)
    → DistinctEdges es
    → find_edge (erase_edge k es) j ≡ (if k == j then none else find_edge es j)
unfolding find_edge erase_edge
find_edge-erase k [] j h = ground arith
find_edge-erase k (e ∷ es) j h = ground (arith, find_edge-erase k es j)

pub find_vertex-erase :
    (k : ℕ) (vs : List Vertex) (j : ℕ)
    → DistinctVertices vs
    → find_vertex (erase_vertex k vs) j ≡ (if k == j then none else find_vertex vs j)
unfolding find_vertex erase_vertex
find_vertex-erase k [] j h = ground arith
find_vertex-erase k (v ∷ vs) j h = ground (arith, find_vertex-erase k vs j)

pub erase_edge-Distinct :
    (k : ℕ) (es : List Edge) → DistinctEdges es → DistinctEdges (erase_edge k es)
unfolding erase_edge
erase_edge-Distinct k [] h = tt
erase_edge-Distinct k (e ∷ es) h =
    ground (arith, erase_edge-Distinct k es h.1, find_edge-erase k es e.id h.1)

pub erase_vertex-Distinct :
    (k : ℕ) (vs : List Vertex) → DistinctVertices vs → DistinctVertices (erase_vertex k vs)
unfolding erase_vertex
erase_vertex-Distinct k [] h = tt
erase_vertex-Distinct k (v ∷ vs) h =
    ground (arith, erase_vertex-Distinct k vs h.1, find_vertex-erase k vs v.id h.1)

pub snoc-DistinctEdges :
    (es : List Edge) (e : Edge)
    → DistinctEdges es
    → has_edge es e.id ≡ false
    → DistinctEdges (es ++ e ∷ [])
unfolding find_edge
snoc-DistinctEdges [] e h fresh = (refl, tt)
snoc-DistinctEdges (d ∷ es) e h fresh =
    (ground (arith, find_edge-snoc es e d.id), snoc-DistinctEdges es e h.1 (ground arith))

pub snoc-DistinctVertices :
    (vs : List Vertex) (x : Vertex)
    → DistinctVertices vs
    → has vs x.id ≡ false
    → DistinctVertices (vs ++ x ∷ [])
unfolding find_vertex
snoc-DistinctVertices [] x h fresh = (refl, tt)
snoc-DistinctVertices (v ∷ vs) x h fresh =
    (ground (arith, find_vertex-snoc vs x v.id), snoc-DistinctVertices vs x h.1 (ground arith))

pub update_edge-Distinct :
    (k : ℕ) (f : Edge → Edge) (es : List Edge)
    → ((e : Edge) → (f e).id ≡ e.id)
    → DistinctEdges es
    → DistinctEdges (update_edge k f es)
unfolding update_edge
update_edge-Distinct k f [] keeps h = tt
update_edge-Distinct k f (e ∷ es) keeps h = (
  ground (arith, keeps e, find_edge-update k f es e.id keeps),
  update_edge-Distinct k f es keeps h.1,
)

pub update_outgoing-Distinct :
    (k : ℕ) (f : List ℕ → List ℕ) (vs : List Vertex)
    → DistinctVertices vs
    → DistinctVertices (update_outgoing k f vs)
unfolding update_outgoing
update_outgoing-Distinct k f [] h = tt
update_outgoing-Distinct k f (v ∷ vs) h =
    (ground (arith, find_vertex-update_outgoing k f vs v.id), update_outgoing-Distinct k f vs h.1)

pub update_incoming-Distinct :
    (k : ℕ) (f : List ℕ → List ℕ) (vs : List Vertex)
    → DistinctVertices vs
    → DistinctVertices (update_incoming k f vs)
unfolding update_incoming
update_incoming-Distinct k f [] h = tt
update_incoming-Distinct k f (v ∷ vs) h =
    (ground (arith, find_vertex-update_incoming k f vs v.id), update_incoming-Distinct k f vs h.1)

pub Kind-cases : (kind : Kind) → (kind ≡ team) ⊎ ((n : ℕ) × (kind ≡ action n))
Kind-cases team = inl refl
Kind-cases (action n) = inr (n, refl)
