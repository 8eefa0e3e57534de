-- ===== src/GraphMutator/Population/Herd.antt =====
-- The graphs between the rounds of populateTPG (gegelatilib/src/mutator/tpgMutator.cpp).
use gegelati.Base.{
  List, Option-cases, Unique, arith, false, inl, inr, length, length-map, length-within, member,
  member_some, some, true, ℕ, ◌<◌, ◌==◌, ◌||◌, ◌∙◌, ◌≡◌, ◌≤◌,
}
use gegelati.Environment.{Environment}
use gegelati.Graph.{Edge, Graph, Vertex, find_edge, get_root_vertices}
use gegelati.Graph.Lookup.{enters, has, is_team, outgoing_of}
use gegelati.Graph.Acyclic.{Ranked}
use gegelati.Graph.Invariant.{Inv}
use gegelati.GraphMutator.Removal.{chosen, leaving}
use gegelati.GraphMutator.Own.{Before, Settled}
use gegelati.GraphMutator.Team.{Breeding}
use gegelati.GraphMutator.Team.Bred.{Stocked}
use gegelati.GraphMutator.Loops.{nb_outgoing}
use gegelati.Graph.Roots.{not_entered-root, root_ids}

-- Every team of the graph has an edge.
abbrev pub Linked : Graph → Type 0
Linked g = (u : ℕ) → is_team g.vertices u ≡ true → 1 ≤ nb_outgoing g u

pub some_leaving :
    (g : Graph) (u : ℕ)
    → Inv g
    → 1 ≤ nb_outgoing g u
    → (k : ℕ) × (e : Edge) × (find_edge g.edges k ≡ some e) × ((e.source == u) ≡ true)
some_leaving g u inv some_edge =
    let (k, at_first, listed) = chosen (outgoing_of g.vertices u) 0 (omega arith) in
    let (e, found, mine) = leaving g u k inv listed in (k, e, found, mine)

pub left_one :
    (g : Graph) (u k : ℕ) (e : Edge)
    → Inv g
    → find_edge g.edges k ≡ some e
    → (e.source == u) ≡ true
    → 1 ≤ nb_outgoing g u
left_one g u k e inv found mine =
    member_some k (outgoing_of g.vertices u) (inv.outgoing_listed u k ∙ ground arith)

-- The population that the loop has grown from the graph `g0` with `next0` programs, where `fresh`
-- lists the new teams.
pub record Herd {D R : Type 0} (env : Environment D) (rank : ℕ → ℕ)
    (teams actions edges roots : List ℕ) (s0 s : Breeding R) (fresh : List ℕ) : Type 0 where
  pub consistent : Inv s.graph
  pub ranked : Ranked s.graph rank
  pub settled : Settled teams actions s.graph
  pub stocked : Stocked env s
  pub linked : Linked s.graph
  pub targets :
      (u : ℕ)
      → (member u teams || member u actions) ≡ true
      → (has s.graph.vertices u ≡ true) × (u < s0.graph.next_id)
  pub above :
      (u v : ℕ)
      → (member u teams || member u actions) ≡ true
      → s0.graph.next_id ≤ v
      → rank u < rank v
  pub sources : (k : ℕ) → member k edges ≡ true → Before s.graph s0.graph.next_id k
  pub roots_there : (r : ℕ) → member r roots ≡ true → is_team s.graph.vertices r ≡ true
  pub edges_kept :
      (j : ℕ) (e : Edge) → find_edge s0.graph.edges j ≡ some e → find_edge s.graph.edges j ≡ some e
  pub vertices_kept : (u : ℕ) → has s0.graph.vertices u ≡ true → has s.graph.vertices u ≡ true
  pub programs_kept : (n : ℕ) → n < s0.next_program → s.programs n ≡ s0.programs n
  pub no_reuse : s0.graph.next_id ≤ s.graph.next_id
  pub store_grows : s0.next_program ≤ s.next_program
  pub fresh_once : Unique fresh
  pub fresh_there :
      (u : ℕ) → member u fresh ≡ true → (has s.graph.vertices u ≡ true) × (s0.graph.next_id ≤ u)

module _ {D R : Type 0} (env : Environment D) (rank : ℕ → ℕ) (teams actions edges roots : List ℕ)
    (s0 s : Breeding R) (fresh : List ℕ)
    (herd : Herd env rank teams actions edges roots s0 s fresh) where
  -- No edge leads to a vertex that is new.
  not_entered : (u : ℕ) → s0.graph.next_id ≤ u → (k : ℕ) → enters s.graph.edges k u ≡ false
  not_entered u new k = elim (Option-cases (find_edge s.graph.edges k)) [
    | inl absent ↦ ground arith
    | inr (e, at_k) ↦
        let (there, below) = herd.targets e.destination (herd.settled k e at_k) in ground arith
  ]

  fresh_root : (u : ℕ) → member u fresh ≡ true → member u (root_ids s.graph.vertices) ≡ true
  fresh_root u listed =
      let (there, new) = herd.fresh_there u listed in
      not_entered-root s.graph u herd.consistent there (not_entered u new)

  -- Every new team is a root.
  pub all_roots : length fresh ≤ length (get_root_vertices s.graph)
  unfolding get_root_vertices
  all_roots =
      let within = length-within fresh (root_ids s.graph.vertices) herd.fresh_once fresh_root in
      let same = length-map (λ (x : Vertex). x.id) (get_root_vertices s.graph) in omega arith
