-- ===== src/Graph/Connect.antt =====
-- addNewEdge keeps the invariant of the graph (gegelatilib/src/tpg/tpgGraph.cpp).
use gegelati.Base.{
  add_new, is_some, Option-cases, ◌∙◌, sym, Bool-cases, List, member-add_new, [], ap, arith, false,
  if◌then◌else◌, inl, inr, member, none, refl, some, suc, true, ℕ, ◌==◌, ◌≡◌, ◌++◌, ◌∷◌, Bool, ◌≤◌,
  Unique, add_new-Unique,
}
use gegelati.Graph.{
  Edge, Graph, add_new_edge, connect, has_vertex, is_action, Vertex, find_edge, find_vertex,
  update_incoming, update_outgoing,
}
use gegelati.Graph.Lookup.{
  find_vertex-id, enters, find_edge-snoc, update_incoming-Distinct, update_outgoing-Distinct,
  snoc-DistinctEdges, has, incoming_of, is_team, leaves, outgoing_of,
}
use gegelati.Graph.Invariant.{Inv, pop_back-snoc}
use gegelati.Graph.Ends.{
  has-update_outgoing, has-update_incoming, find_vertex-none, incoming_of-update_incoming,
  incoming_of-update_outgoing, is_team-update_incoming, is_team-update_outgoing,
  outgoing_of-update_incoming, outgoing_of-update_outgoing,
}

leaves-snoc :
    (es : List Edge) (e : Edge) (k v : ℕ)
    → find_edge es e.id ≡ none
    → leaves (es ++ e ∷ []) k v ≡ (if e.id == k then e.source == v else leaves es k v)
leaves-snoc es e k v free = ground (arith, find_edge-snoc es e k)

enters-snoc :
    (es : List Edge) (e : Edge) (k v : ℕ)
    → find_edge es e.id ≡ none
    → enters (es ++ e ∷ []) k v ≡ (if e.id == k then e.destination == v else enters es k v)
enters-snoc es e k v free = ground (arith, find_edge-snoc es e k)

module _ (vs : List Vertex) (s d : ℕ) (f : List ℕ → List ℕ) (v : ℕ) where
  pub outgoing_of-both :
      outgoing_of (update_incoming d f (update_outgoing s f vs)) v
      ≡ (if s == v then (if has vs v then f (outgoing_of vs v) else []) else outgoing_of vs v)
  outgoing_of-both =
      rw (outgoing_of-update_incoming d f (update_outgoing s f vs) v)
        (outgoing_of-update_outgoing s f vs v)

  pub incoming_of-both :
      incoming_of (update_incoming d f (update_outgoing s f vs)) v
      ≡ (if d == v then (if has vs v then f (incoming_of vs v) else []) else incoming_of vs v)
  incoming_of-both =
      rw
        (
          incoming_of-update_incoming d f (update_outgoing s f vs) v,
          incoming_of-update_outgoing s f vs v,
          has-update_outgoing s f vs v,
        )
        refl

  pub is_team-both : is_team (update_incoming d f (update_outgoing s f vs)) v ≡ is_team vs v
  is_team-both =
      rw (is_team-update_incoming d f (update_outgoing s f vs) v) (is_team-update_outgoing s f vs v)

pub both-Unique :
    (f : List ℕ → List ℕ) (old : List ℕ) (here present : Bool)
    → Unique old
    → Unique (f old)
    → Unique (if here then (if present then f old else []) else old)
both-Unique f old false present once changed = once
both-Unique f old true true once changed = changed
both-Unique f old true false once changed = tt

-- A list that gains `n`, against a relation that gains the pair of `n` and `s`.
pub member-gain :
    (old : List ℕ) (present was : Bool) (n k s v : ℕ)
    → member k old ≡ was
    → (n == k ≡ true → was ≡ false)
    → (s == v ≡ true → present ≡ true)
    → member k (if s == v then (if present then add_new n old else []) else old)
      ≡ (if n == k then s == v else was)
member-gain old present was n k s v h fresh there = elim (Bool-cases (s == v)) [
  | inl e ↦ rw (e, there e, member-add_new k n old, h) (ground arith)
  | inr e ↦ rw (e, h) (ground arith)
]

module _ (g : Graph) (s d program : ℕ) (inv : Inv g) where
  abbrev pub new_edge : Edge
  new_edge = record { id = g.next_id; source = s; destination = d; program = program }

  abbrev pub linked : List Vertex
  linked = update_incoming d (add_new g.next_id) (update_outgoing s (add_new g.next_id) g.vertices)

  abbrev pub connected : Graph
  connected = record g {
    vertices = linked;
    edges = g.edges ++ new_edge ∷ [];
    next_id = suc g.next_id;
  }

  pub free : find_edge g.edges g.next_id ≡ none
  free = inv.fresh_edges g.next_id (omega arith)

  not_yet : (k v : ℕ) → (g.next_id == k) ≡ true → leaves g.edges k v ≡ false
  not_yet k v same = ground (arith, inv.fresh_edges k (ground arith))

  not_yet_in : (k v : ℕ) → (g.next_id == k) ≡ true → enters g.edges k v ≡ false
  not_yet_in k v same = ground (arith, inv.fresh_edges k (ground arith))

  connected-outgoing :
      has g.vertices s ≡ true
      → (v k : ℕ) → member k (outgoing_of linked v) ≡ leaves (g.edges ++ new_edge ∷ []) k v
  connected-outgoing present v k =
      rw
        (
          outgoing_of-both g.vertices s d (add_new g.next_id) v,
          leaves-snoc g.edges new_edge k v free,
        )
        (member-gain (outgoing_of g.vertices v) (has g.vertices v) (leaves g.edges k v) g.next_id k
          s v (inv.outgoing_listed v k) (not_yet k v) (λ same. ground (arith)))

  connected-incoming :
      has g.vertices d ≡ true
      → (v k : ℕ) → member k (incoming_of linked v) ≡ enters (g.edges ++ new_edge ∷ []) k v
  connected-incoming present v k =
      rw
        (
          incoming_of-both g.vertices s d (add_new g.next_id) v,
          enters-snoc g.edges new_edge k v free,
        )
        (member-gain (incoming_of g.vertices v) (has g.vertices v) (enters g.edges k v) g.next_id k
          d v (inv.incoming_listed v k) (not_yet_in k v) (λ same. ground (arith)))

  connected-fresh : (k : ℕ) → suc g.next_id ≤ k → find_edge (g.edges ++ new_edge ∷ []) k ≡ none
  connected-fresh k h =
      rw (find_edge-snoc g.edges new_edge k, inv.fresh_edges k (omega arith)) (ground arith)

  connected-teams :
      is_team g.vertices s ≡ true
      → (v k : ℕ) → leaves (g.edges ++ new_edge ∷ []) k v ≡ true
      → is_team linked v ≡ true
  connected-teams source v k h =
      let split = sym (leaves-snoc g.edges new_edge k v free) ∙ h in
      is_team-both g.vertices s d (add_new g.next_id) v ∙ ground (arith, inv.from_teams v k)

  connected-vertices : (v : ℕ) → suc g.next_id ≤ v → find_vertex linked v ≡ none
  connected-vertices v h =
      let none_yet = inv.fresh_vertices v (omega arith) in
      find_vertex-none linked v (
        has-update_incoming d (add_new g.next_id) (update_outgoing s (add_new g.next_id) g.vertices)
          v
        ∙ has-update_outgoing s (add_new g.next_id) g.vertices v
        ∙ ap is_some none_yet)

  connected_once : (v : ℕ) → Unique (outgoing_of linked v)
  connected_once v = rw (outgoing_of-both g.vertices s d (add_new g.next_id) v) (
      both-Unique (add_new g.next_id) (outgoing_of g.vertices v) (s == v) (has g.vertices v)
        (inv.outgoing_once v)
        (add_new-Unique g.next_id (outgoing_of g.vertices v) (inv.outgoing_once v)))

  connected_once_in : (v : ℕ) → Unique (incoming_of linked v)
  connected_once_in v = rw (incoming_of-both g.vertices s d (add_new g.next_id) v) (
      both-Unique (add_new g.next_id) (incoming_of g.vertices v) (d == v) (has g.vertices v)
        (inv.incoming_once v)
        (add_new-Unique g.next_id (incoming_of g.vertices v) (inv.incoming_once v)))

  pub connected-Inv : is_team g.vertices s ≡ true → has g.vertices d ≡ true → Inv connected
  connected-Inv source present = record {
    distinct_vertices =
        update_incoming-Distinct d _ _
          (update_outgoing-Distinct s _ g.vertices inv.distinct_vertices);
    distinct_edges = snoc-DistinctEdges g.edges new_edge inv.distinct_edges (ap is_some free);
    fresh_vertices = connected-vertices;
    fresh_edges = connected-fresh;
    outgoing_listed = connected-outgoing (ground arith);
    incoming_listed = connected-incoming present;
    outgoing_once = connected_once;
    incoming_once = connected_once_in;
    from_teams = connected-teams source;
  }

  refused-Inv : Inv (record g { edges = g.edges; next_id = suc g.next_id })
  refused-Inv = record {
    distinct_vertices = inv.distinct_vertices;
    distinct_edges = inv.distinct_edges;
    fresh_vertices = λ v h. inv.fresh_vertices v (omega arith);
    fresh_edges = λ k h. inv.fresh_edges k (omega arith);
    outgoing_listed = inv.outgoing_listed;
    incoming_listed = inv.incoming_listed;
    outgoing_once = inv.outgoing_once;
    incoming_once = inv.incoming_once;
    from_teams = inv.from_teams;
  }

pub is_team-found :
    (g : Graph) (x : Vertex)
    → find_vertex g.vertices x.id ≡ some x
    → is_action x.kind ≡ false
    → is_team g.vertices x.id ≡ true
unfolding is_action
is_team-found g x found source = ground arith

pub found_itself :
    (g : Graph) (v : ℕ) (x : Vertex)
    → find_vertex g.vertices v ≡ some x
    → find_vertex g.vertices x.id ≡ some x
found_itself g v x found = ap (find_vertex g.vertices) (find_vertex-id g.vertices v x found) ∙ found

connect-Inv :
    (g : Graph) (x : Vertex) (d program : ℕ)
    → Inv g
    → find_vertex g.vertices x.id ≡ some x
    → has g.vertices d ≡ true
    → Inv (connect g x d program).0
unfolding connect
connect-Inv g x d program inv found present = elim (Bool-cases (is_action x.kind)) [
  | inl refuses ↦
      rw (refuses, pop_back-snoc g.edges (new_edge g x.id d program inv))
        (refused-Inv g x.id d program inv)
  | inr source ↦
      rw (source) (connected-Inv g x.id d program inv (is_team-found g x found source) present)
]

-- addNewEdge keeps the invariant of the graph, whether it links the two vertices or throws.
pub add_new_edge-Inv :
    (g : Graph) (src dest program : ℕ) → Inv g → Inv (add_new_edge g src dest program).0
unfolding add_new_edge has_vertex
add_new_edge-Inv g src dest program inv = elim (Option-cases (find_vertex g.vertices src)) [
  | inl missing ↦ rw (missing, add_new_edge) inv
  | inr (x, found) ↦ elim (Bool-cases (has_vertex g dest)) [
    | inl present ↦
        rw (found, add_new_edge, present)
          (connect-Inv g x dest program inv (found_itself g src x found) present)
    | inr absent ↦ rw (found, add_new_edge, absent) inv
  ]
]
