-- ===== src/Graph.antt =====
-- gegelatilib/src/tpg/tpgGraph.cpp with tpgVertex.cpp, tpgEdge.cpp, tpgAction.cpp and tpgTeam.h:
-- the graph of teams and actions. Vertices and edges are objects known by their addresses, here
-- numbers that `next_id` hands out. The graph owns its vertices and edges, in the order of the
-- C++ lists; a vertex lists the addresses of its incoming and outgoing edges, and an edge holds
-- those of its two ends and of its program. A method that throws returns the graph as it left it.
pub mod Lookup
pub mod Kinds
pub mod Ends
pub mod Invariant
pub mod Acyclic
pub mod Connect
pub mod Disconnect
pub mod Unlinking
pub mod Removal
pub mod Clearing
pub mod Copying
pub mod Cloning
pub mod Roots
pub mod Redirect
pub mod NewSource
pub mod Relink
pub mod Steps
pub mod Samples
mod Tests
use gegelati.Base.{
  is_some, Bool, List, Option, Result, [], add_new, err, false, filter, if◌then◌else◌, length, none,
  ok, remove, runtime_error, some, suc, true, undefined, zero, ℕ, ◌&&◌, ◌++◌, ◌==◌, ◌∷◌,
}

pub data Kind : Type 0 where
  team : Kind
  action : ℕ → Kind

pub record Vertex : Type 0 where
  pub id : ℕ
  pub kind : Kind
  pub incoming : List ℕ
  pub outgoing : List ℕ

pub record Edge : Type 0 where
  pub id : ℕ
  pub source : ℕ
  pub destination : ℕ
  pub program : ℕ

pub record Graph : Type 0 where
  pub vertices : List Vertex
  pub edges : List Edge
  pub next_id : ℕ

-- The graph after a call, and what the call returned or threw.
abbrev pub Outcome : Type 0 → Type 0
Outcome A = Graph × Result A

-- findVertex and findEdge
unfoldable pub find_vertex : List Vertex → ℕ → Option Vertex
find_vertex [] k = none
find_vertex (v ∷ vs) k = if v.id == k then some v else find_vertex vs k

unfoldable pub find_edge : List Edge → ℕ → Option Edge
find_edge [] k = none
find_edge (e ∷ es) k = if e.id == k then some e else find_edge es k

unfoldable pub has_vertex : Graph → ℕ → Bool
has_vertex g v = is_some (find_vertex g.vertices v)

unfoldable pub is_action : Kind → Bool
is_action team = false
is_action (action n) = true

-- The methods of a vertex on its edge lists, made on the vertex at an address.
unfoldable pub update_incoming : ℕ → (List ℕ → List ℕ) → List Vertex → List Vertex
update_incoming k f [] = []
update_incoming k f (v ∷ vs) =
    (if v.id == k then record v { incoming = f v.incoming } else v) ∷ update_incoming k f vs

unfoldable pub update_outgoing : ℕ → (List ℕ → List ℕ) → List Vertex → List Vertex
update_outgoing k f [] = []
update_outgoing k f (v ∷ vs) =
    (if v.id == k then record v { outgoing = f v.outgoing } else v) ∷ update_outgoing k f vs

unfoldable pub update_edge : ℕ → (Edge → Edge) → List Edge → List Edge
update_edge k f [] = []
update_edge k f (e ∷ es) = (if e.id == k then f e else e) ∷ update_edge k f es

-- `erase` of the iterator that a search returned.
unfoldable pub erase_vertex : ℕ → List Vertex → List Vertex
erase_vertex k [] = []
erase_vertex k (v ∷ vs) = if v.id == k then vs else v ∷ erase_vertex k vs

unfoldable pub erase_edge : ℕ → List Edge → List Edge
erase_edge k [] = []
erase_edge k (e ∷ es) = if e.id == k then es else e ∷ erase_edge k es

unfoldable pub pop_back : List Edge → List Edge
pop_back [] = []
pop_back (e ∷ []) = []
pop_back (e ∷ d ∷ es) = e ∷ pop_back (d ∷ es)

abbrev pub new_graph : Graph
new_graph = record { vertices = []; edges = []; next_id = 0 }

-- addNewTeam and addNewAction, by the kind of vertex.
unfoldable pub add_new_vertex : Graph → Kind → Graph × ℕ
add_new_vertex g kind = (
  record g {
    vertices =
        g.vertices ++ record { id = g.next_id; kind = kind; incoming = []; outgoing = [] } ∷ [];
    next_id = suc g.next_id;
  },
  g.next_id,
)

unfoldable pub get_root_vertices : Graph → List Vertex
get_root_vertices g = filter (λ v. length v.incoming == 0) g.vertices

-- The edge of addNewEdge is created before its source may refuse it, and is removed again then.
-- An address is not handed out twice.
unfoldable pub connect : Graph → Vertex → ℕ → ℕ → Outcome ℕ
unfolding pop_back is_action
connect g src dest program =
    let k = g.next_id in
    let edges =
      g.edges ++ record { id = k; source = src.id; destination = dest; program = program } ∷ [] in
    if is_action src.kind
    then (record g { edges = pop_back edges; next_id = suc k }, err runtime_error)
    else (
      record g {
        vertices = update_incoming dest (add_new k) (update_outgoing src.id (add_new k) g.vertices);
        edges = edges;
        next_id = suc k;
      },
      ok k,
    )

unfoldable pub add_new_edge : Graph → ℕ → ℕ → ℕ → Outcome ℕ
unfolding connect find_vertex has_vertex
add_new_edge g src dest program = elim (find_vertex g.vertices src) [
  | none ↦ (g, err runtime_error)
  | some x ↦ if has_vertex g dest then connect g x dest program else (g, err runtime_error)
]

unfoldable pub disconnect : Graph → Edge → Graph
disconnect g e = record g {
  vertices =
      update_incoming e.destination (remove e.id)
        (update_outgoing e.source (remove e.id) g.vertices);
  edges = erase_edge e.id g.edges;
}

-- To dereference the end of the list of vertices is undefined.
unfoldable pub remove_edge : Graph → ℕ → Outcome (Unit {0})
unfolding disconnect find_edge has_vertex
remove_edge g k = elim (find_edge g.edges k) [
  | none ↦ (g, err runtime_error)
  | some e ↦
      if has_vertex g e.source && has_vertex g e.destination
      then (disconnect g e, ok tt)
      else (g, err undefined)
]

unfoldable pub remove_edges : Graph → List ℕ → Outcome (Unit {0})
unfolding remove_edge
remove_edges g [] = (g, ok tt)
remove_edges g (k ∷ ks) = elim ((remove_edge g k).1) [
  | ok _ ↦ remove_edges (remove_edge g k).0 ks
  | err e ↦ ((remove_edge g k).0, err e)
]

abbrev pub out_list : Option Vertex → List ℕ
out_list none = []
out_list (some v) = v.outgoing

abbrev pub in_list : Option Vertex → List ℕ
in_list none = []
in_list (some v) = v.incoming

-- Each list of edges is copied when its loop starts. A vertex that is not there is no error.
unfoldable pub remove_vertex : Graph → ℕ → Outcome (Unit {0})
unfolding remove_edges find_vertex has_vertex
remove_vertex g v =
    let (g1, first) = remove_edges g (in_list (find_vertex g.vertices v)) in
    let (g2, second) = remove_edges g1 (out_list (find_vertex g1.vertices v)) in
    let done : Outcome (Unit {0}) = elim first [
      | err e ↦ (g1, err e)
      | ok _ ↦ elim second [
        | err e ↦ (g2, err e)
        | ok _ ↦ (record g2 { vertices = erase_vertex v g2.vertices }, ok tt)
      ]
    ] in
    if has_vertex g v then done else (g, ok tt)

-- The edges of a cloned vertex, one after the other, with `new` as their source.
unfoldable pub copy_edges : Graph → ℕ → List ℕ → Outcome (Unit {0})
unfolding add_new_edge find_edge
copy_edges g new [] = (g, ok tt)
copy_edges g new (k ∷ ks) = elim (find_edge g.edges k) [
  | none ↦ (g, err undefined)
  | some e ↦
      let (after, result) = add_new_edge g new e.destination e.program in
      elim result [ ok _ ↦ copy_edges after new ks | err d ↦ (after, err d) ]
]

unfoldable pub clone_vertex : Graph → ℕ → Outcome ℕ
unfolding copy_edges add_new_vertex find_vertex
clone_vertex g v = elim (find_vertex g.vertices v) [
  | none ↦ (g, err runtime_error)
  | some x ↦
      let (added, new) = add_new_vertex g x.kind in
      let (after, result) = copy_edges added new x.outgoing in
      elim result [ ok _ ↦ (after, ok new) | err d ↦ (after, err d) ]
]

unfoldable pub clone_edge : Graph → ℕ → Outcome ℕ
unfolding add_new_edge find_edge
clone_edge g k = elim (find_edge g.edges k) [
  | none ↦ (g, err runtime_error)
  | some e ↦ add_new_edge g e.source e.destination e.program
]

-- TPGEdge::setProgram
unfoldable pub set_program : Graph → ℕ → ℕ → Graph
unfolding update_edge
set_program g k program = record g {
  edges = update_edge k (λ e. record e { program = program }) g.edges;
}

unfoldable pub redirect : Graph → Edge → ℕ → Graph
redirect g e new = record g {
  vertices =
      update_incoming new (add_new e.id) (update_incoming e.destination (remove e.id) g.vertices);
  edges = update_edge e.id (λ d. record d { destination = new }) g.edges;
}

unfoldable pub set_edge_destination : Graph → ℕ → ℕ → Outcome Bool
unfolding redirect find_edge has_vertex
set_edge_destination g k new = elim (find_edge g.edges k) [
  | none ↦ (g, ok false)
  | some e ↦
      if has_vertex g new
      then (if has_vertex g e.destination then (redirect g e new, ok true) else (g, err undefined))
      else (g, ok false)
]

-- The edge leaves the list of its old source before the new source may refuse it.
unfoldable pub move_source : Graph → Edge → Vertex → Outcome Bool
unfolding is_action
move_source g e new =
    let dropped = update_outgoing e.source (remove e.id) g.vertices in
    if is_action new.kind then (record g { vertices = dropped }, err runtime_error) else (
      record g {
        vertices = update_outgoing new.id (add_new e.id) dropped;
        edges = update_edge e.id (λ d. record d { source = new.id }) g.edges;
      },
      ok true,
    )

unfoldable pub set_edge_source : Graph → ℕ → ℕ → Outcome Bool
unfolding move_source find_edge find_vertex has_vertex
set_edge_source g k new = elim (find_edge g.edges k) [
  | none ↦ (g, ok false)
  | some e ↦ elim (find_vertex g.vertices new) [
    | none ↦ (g, ok false)
    | some x ↦ if has_vertex g e.source then move_source g e x else (g, err undefined)
  ]
]

-- clear: the first vertex goes until none is left, one round for each.
unfoldable pub clear_rounds : ℕ → Graph → Outcome (Unit {0})
unfolding remove_vertex
clear_rounds zero g = (g, ok tt)
clear_rounds (suc fuel) g = elim g.vertices [
  | [] ↦ (g, ok tt)
  | v ∷ vs ↦
      let (after, result) = remove_vertex g v.id in
      elim result [ ok _ ↦ clear_rounds fuel after | err e ↦ (after, err e) ]
]

unfoldable pub clear : Graph → Outcome (Unit {0})
unfolding clear_rounds
clear g = clear_rounds (length g.vertices) g
