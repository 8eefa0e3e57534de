-- ===== src/GraphMutator/Own.antt =====
-- The edges of one team of a graph (gegelatilib/src/tpg/tpgGraph.cpp) and all others, for the
-- mutation of that team (mutateTPGTeam of gegelatilib/src/mutator/tpgMutator.cpp).
use gegelati.Base.{
  Bool-cases, List, Option, ap, arith, false, inl, inr, length, length-Unique, length-remove,
  member, member-remove, none, refl, remove, remove-Unique, some, subst, suc, sym, true, ℕ, ◌<◌,
  ◌==◌, ◌||◌, ◌∙◌, ◌≡◌, ◌≤◌, ◌⊎◌,
}
use gegelati.Graph.{Edge, Graph, find_edge}
use gegelati.Graph.Lookup.{has, is_team, leaves, outgoing_of}
use gegelati.Graph.Invariant.{Inv}
use gegelati.Graph.Acyclic.{Ranked}
use gegelati.Graph.Relink.{Relinked}

-- An edge between vertices that are older than `v`.
abbrev pub Before : Graph → ℕ → ℕ → Type 0
Before g v k = (e : Edge) × (find_edge g.edges k ≡ some e) × (e.source < v) × (e.destination < v)

-- Between `g` and `h` only edges of the team `v` have changed.
pub record Kept (g h : Graph) (v : ℕ) : Type 0 where
  pub others_kept :
      (j : ℕ) (e : Edge)
      → find_edge g.edges j ≡ some e
      → (e.source == v) ≡ false
      → find_edge h.edges j ≡ some e
  pub vertices_kept : (u : ℕ) → has h.vertices u ≡ has g.vertices u
  pub kinds_kept : (u : ℕ) → is_team h.vertices u ≡ is_team g.vertices u
  pub no_reuse : g.next_id ≤ h.next_id

pub Kept-self : (g : Graph) (v : ℕ) → Kept g g v
Kept-self g v = record {
  others_kept = λ j e found other. found;
  vertices_kept = λ u. refl;
  kinds_kept = λ u. refl;
  no_reuse = omega arith;
}

pub join-Kept : (g h j : Graph) (v : ℕ) → Kept g h v → Kept h j v → Kept g j v
join-Kept g h j v first second = record {
  others_kept = λ k e found other. second.others_kept k e (first.others_kept k e found other) other;
  vertices_kept = λ u. second.vertices_kept u ∙ first.vertices_kept u;
  kinds_kept = λ u. second.kinds_kept u ∙ first.kinds_kept u;
  no_reuse = omega (arith, first.no_reuse, second.no_reuse);
}

-- The vertices and edges that the mutation of the team `v` may choose from.
pub record Choices (teams actions : List ℕ) (edges : List ℕ) : Type 0 where
  pub some_team : 1 ≤ length teams
  pub some_action : 1 ≤ length actions
  pub some_edge : 1 ≤ length edges

-- Every edge leads to a vertex of the two lists.
abbrev pub Settled : List ℕ → List ℕ → Graph → Type 0
Settled teams actions g =
    (k : ℕ) (e : Edge)
    → find_edge g.edges k ≡ some e
    → (member e.destination teams || member e.destination actions) ≡ true

-- A consistent graph where `v` is a team, the vertices and edges to choose from are there and older
-- than `v`, every edge leads to one of these vertices, and, so that there is no cycle, to a lower
-- rank; the rank of `v` is above those of the vertices to choose from.
pub record Ready (rank : ℕ → ℕ) (teams actions edges : List ℕ) (v : ℕ) (g : Graph) : Type 0 where
  pub consistent : Inv g
  pub ranked : Ranked g rank
  pub settled : Settled teams actions g
  pub a_team : is_team g.vertices v ≡ true
  pub targets :
      (u : ℕ) → (member u teams || member u actions) ≡ true → (has g.vertices u ≡ true) × (u < v)
  pub above : (u : ℕ) → (member u teams || member u actions) ≡ true → rank u < rank v
  pub sources : (k : ℕ) → member k edges ≡ true → Before g v k

-- The address `k` is free, or that of an edge of `v`.
abbrev pub IsOwn : Graph → ℕ → ℕ → Type 0
IsOwn g v k = (find_edge g.edges k ≡ none) ⊎ (leaves g.edges k v ≡ true)

module _ (g h : Graph) (v k : ℕ) (o : Option Edge) (own : IsOwn g v k)
    (step : Relinked g h k o) where
  other_address :
      (j : ℕ) (e : Edge) → find_edge g.edges j ≡ some e → (e.source == v) ≡ false → (k == j) ≡ false
  other_address j e found other = elim own [ inl unused ↦ ground arith | inr mine ↦ ground arith ]

  pub Kept-Relinked : Kept g h v
  Kept-Relinked = record {
    others_kept =
        λ j e found other. ground (arith, step.edges_now j, other_address j e found other);
    vertices_kept = step.vertices_kept;
    kinds_kept = step.kinds_kept;
    no_reuse = step.no_reuse;
  }

  module _ (rank : ℕ → ℕ) (teams actions edges : List ℕ)
      (ready : Ready rank teams actions edges v g)
      (mine : (e : Edge) → o ≡ some e → (e.source == v) ≡ true)
      (lands : (e : Edge)
        → o ≡ some e
        → (member e.destination teams || member e.destination actions) ≡ true) where
    pub Ready-Relinked : Ready rank teams actions edges v h
    Ready-Relinked = record {
      consistent = step.consistent;
      ranked = λ j e found. elim (Bool-cases (k == j)) [
        | inl same ↦
            let here : o ≡ some e = ground (arith, step.edges_now j) in
            let itself : e.source ≡ v = ground (arith, mine e here) in
            subst (λ u. rank e.destination < rank u) (sym itself)
              (ready.above e.destination (lands e here))
        | inr other ↦ ready.ranked j e (ground (arith, step.edges_now j))
      ];
      settled = λ j e found. elim (Bool-cases (k == j)) [
        | inl same ↦ lands e (ground (arith, step.edges_now j))
        | inr other ↦ ready.settled j e (ground (arith, step.edges_now j))
      ];
      a_team = step.kinds_kept v ∙ ready.a_team;
      targets = λ u listed.
          let (there, below) = ready.targets u listed in (step.vertices_kept u ∙ there, below);
      above = ready.above;
      sources = λ j listed.
          let (e, found, starts, ends) = ready.sources j listed in
          (
            e,
            ground (arith, step.edges_now j, other_address j e found (ground arith)),
            starts,
            ends,
          );
    }

module _ (g h : Graph) (v k : ℕ) (inv : Inv g) where
  -- A new edge of `v` makes its list of outgoing edges longer by one.
  pub longer :
      (e : Edge)
      → find_edge g.edges k ≡ none
      → Relinked g h k (some e)
      → (e.source == v) ≡ true
      → length (outgoing_of h.vertices v) ≡ suc (length (outgoing_of g.vertices v))
  longer e unused step mine =
      let inv' = step.consistent in
      let here : member k (outgoing_of h.vertices v) ≡ true =
        ground (arith, inv'.outgoing_listed v k, step.edges_now k) in
      let same =
        length-Unique (remove k (outgoing_of h.vertices v)) (outgoing_of g.vertices v)
          (remove-Unique k (outgoing_of h.vertices v) (inv'.outgoing_once v)) (inv.outgoing_once v)
          (λ j. ground (
            arith,
            member-remove j k (outgoing_of h.vertices v),
            inv'.outgoing_listed v j,
            inv.outgoing_listed v j,
            step.edges_now j,
          )) in
      sym (length-remove k (outgoing_of h.vertices v) (inv'.outgoing_once v) here) ∙ ap suc same

  -- A change of an edge of `v` keeps the length.
  pub as_long :
      (e : Edge)
      → leaves g.edges k v ≡ true
      → Relinked g h k (some e)
      → (e.source == v) ≡ true
      → length (outgoing_of h.vertices v) ≡ length (outgoing_of g.vertices v)
  as_long e was step mine =
      let inv' = step.consistent in
      length-Unique (outgoing_of h.vertices v) (outgoing_of g.vertices v) (inv'.outgoing_once v)
        (inv.outgoing_once v)
        (λ j. ground (arith, inv'.outgoing_listed v j, inv.outgoing_listed v j, step.edges_now j))

  -- Without an edge of `v` the list is shorter by one.
  pub shorter :
      leaves g.edges k v ≡ true
      → Relinked g h k none
      → suc (length (outgoing_of h.vertices v)) ≡ length (outgoing_of g.vertices v)
  shorter was step =
      let inv' = step.consistent in
      let here : member k (outgoing_of g.vertices v) ≡ true =
        ground (arith, inv.outgoing_listed v k) in
      let same =
        length-Unique (outgoing_of h.vertices v) (remove k (outgoing_of g.vertices v))
          (inv'.outgoing_once v) (remove-Unique k (outgoing_of g.vertices v) (inv.outgoing_once v))
          (λ j. ground (
            arith,
            member-remove j k (outgoing_of g.vertices v),
            inv'.outgoing_listed v j,
            inv.outgoing_listed v j,
            step.edges_now j,
          )) in
      ap suc same ∙ length-remove k (outgoing_of g.vertices v) (inv.outgoing_once v) here
