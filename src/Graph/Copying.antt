-- ===== src/Graph/Copying.antt =====
-- The loop of cloneVertex (gegelatilib/src/tpg/tpgGraph.cpp) that copies edges.
use mathlib.Core.List.{append-nil, append_assoc, map-append}
use mathlib.Core.Option
use gegelati.Base.{
  Bool-cases, List, Option, Option-cases, [], ap, arith, inl, inr, map, member, member-append, ok,
  refl, some, sym, true, ℕ, ◌++◌, ◌==◌, ◌∙◌, ◌∷◌, ◌≡◌, ◌≤◌, ◌⊎◌,
}
use gegelati.Graph.{Edge, Graph, add_new_edge, copy_edges, find_edge}
use gegelati.Graph.Lookup.{has, is_team, outgoing_of}
use gegelati.Graph.Kinds.{kind_of}
use gegelati.Graph.Invariant.{Inv, ends_exist}
use gegelati.Graph.Relink.{Relinked, add_new_edge-Relinked}

-- Where the edge at the address `k` leads, and its program.
abbrev pub lead : Graph → ℕ → Option (ℕ × ℕ)
lead g k = Option.map (λ (e : Edge). (e.destination, e.program)) (find_edge g.edges k)

-- Every address is that of an edge of the graph.
abbrev pub Present : Graph → List ℕ → Type 0
Present g ks = (k : ℕ) → member k ks ≡ true → (e : Edge) × (find_edge g.edges k ≡ some e)

-- What the copies of the edges `ks`, as edges of the team `new`, leave of the graph `g`.
pub record Copying (g h : Graph) (new : ℕ) (ks : List ℕ) : Type 0 where
  pub consistent : Inv h
  pub edges_kept : (j : ℕ) (e : Edge) → find_edge g.edges j ≡ some e → find_edge h.edges j ≡ some e
  pub edges_from :
      (j : ℕ) (e : Edge)
      → find_edge h.edges j ≡ some e
      → (find_edge g.edges j ≡ some e)
        ⊎ ((e.source ≡ new) × ((i : ℕ) × (member i ks ≡ true) × (lead g i ≡ lead h j)))
  pub vertices_kept : (u : ℕ) → has h.vertices u ≡ has g.vertices u
  pub kinds_kept : (u : ℕ) → is_team h.vertices u ≡ is_team g.vertices u
  pub same_kinds : (u : ℕ) → kind_of h.vertices u ≡ kind_of g.vertices u
  pub no_reuse : g.next_id ≤ h.next_id
  pub copied :
      map (lead h) (outgoing_of h.vertices new)
      ≡ map (lead g) (outgoing_of g.vertices new) ++ map (lead g) ks

module _ (g h : Graph)
    (kept : (j : ℕ) (e : Edge) → find_edge g.edges j ≡ some e → find_edge h.edges j ≡ some e) where
  lead_kept : (k : ℕ) (e : Edge) → find_edge g.edges k ≡ some e → lead h k ≡ lead g k
  lead_kept k e found = rw (found, kept k e found) refl

  map-lead : (ks : List ℕ) → Present g ks → map (lead h) ks ≡ map (lead g) ks
  map-lead [] present = refl
  map-lead (k ∷ ks) present =
      let (e, found) = present k (ground arith) in
      rw (lead_kept k e found, map-lead ks (λ j listed. present j (ground arith))) refl

  Present-kept : (ks : List ℕ) → Present g ks → Present h ks
  Present-kept ks present k listed = let (e, found) = present k listed in (e, kept k e found)

pub Copying-self : (g : Graph) (new : ℕ) → Inv g → Copying g g new []
Copying-self g new inv = record {
  consistent = inv;
  edges_kept = λ j e found. found;
  edges_from = λ j e found. inl found;
  vertices_kept = λ u. refl;
  kinds_kept = λ u. refl;
  same_kinds = λ u. refl;
  no_reuse = omega arith;
  copied = sym (append-nil (map (lead g) (outgoing_of g.vertices new)));
}

pub listed-Present : (g : Graph) (v : ℕ) → Inv g → Present g (outgoing_of g.vertices v)
listed-Present g v inv k listed = elim (Option-cases (find_edge g.edges k)) [
  | inl absent ↦ absurd (ground (arith, inv.outgoing_listed v k))
  | inr present ↦ present
]

-- One copy.
Copying-Relinked :
    (g h : Graph) (new k : ℕ) (e : Edge)
    → Inv g
    → find_edge g.edges k ≡ some e
    → Relinked g h g.next_id (
        some (record {
          id = g.next_id;
          source = new;
          destination = e.destination;
          program = e.program;
        }))
    → outgoing_of h.vertices new ≡ outgoing_of g.vertices new ++ g.next_id ∷ []
    → Copying g h new (k ∷ [])
Copying-Relinked g h new k e inv found step last =
    let unused = inv.fresh_edges g.next_id (omega arith) in
    let kept : (j : ℕ) (e : Edge) → find_edge g.edges j ≡ some e → find_edge h.edges j ≡ some e =
      λ j d at_j. ground (arith, step.edges_now j) in
    let leads : lead h g.next_id ≡ lead g k = rw (step.edges_now g.next_id, found) (ground arith) in
    record {
      consistent = step.consistent;
      edges_kept = kept;
      edges_from = λ j d at_j. elim (Bool-cases (g.next_id == j)) [
        | inl same ↦
            inr (
              ground (arith, step.edges_now j),
              (k, ground arith, ground (arith, step.edges_now j)),
            )
        | inr other ↦ inl (ground (arith, step.edges_now j))
      ];
      vertices_kept = step.vertices_kept;
      kinds_kept = step.kinds_kept;
      same_kinds = step.same_kinds;
      no_reuse = step.no_reuse;
      copied =
          ap (map (lead h)) last
          ∙ map-append (lead h) (outgoing_of g.vertices new) (g.next_id ∷ [])
          ∙ rw (map-lead g h kept (outgoing_of g.vertices new) (listed-Present g new inv), leads)
              refl;
    }

join-Copying :
    (g h j : Graph) (new : ℕ) (ks ls : List ℕ)
    → Present g ls
    → Copying g h new ks
    → Copying h j new ls
    → Copying g j new (ks ++ ls)
join-Copying g h j new ks ls present first second = record {
  consistent = second.consistent;
  edges_kept = λ i e found. second.edges_kept i e (first.edges_kept i e found);
  edges_from = λ i e found. elim (second.edges_from i e found) [
    | inl old ↦ elim (first.edges_from i e old) [
      | inl older ↦ inl older
      | inr (own, (k, listed, leads)) ↦ inr (
        own,
        (
          k,
          ground (arith, member-append k ks ls),
          leads ∙ sym (lead_kept h j second.edges_kept i e old),
        ),
      )
    ]
    | inr (own, (k, listed, leads)) ↦
        let (d, at_k) = present k listed in
        inr (
          own,
          (
            k,
            ground (arith, member-append k ks ls),
            sym (lead_kept g h first.edges_kept k d at_k) ∙ leads,
          ),
        )
  ];
  vertices_kept = λ u. second.vertices_kept u ∙ first.vertices_kept u;
  kinds_kept = λ u. second.kinds_kept u ∙ first.kinds_kept u;
  same_kinds = λ u. second.same_kinds u ∙ first.same_kinds u;
  no_reuse = omega (arith, first.no_reuse, second.no_reuse);
  copied =
      second.copied
      ∙ rw (first.copied, map-lead g h first.edges_kept ls present) refl
      ∙ append_assoc (map (lead g) (outgoing_of g.vertices new)) (map (lead g) ks) (map (lead g) ls)
      ∙ ap (λ l. map (lead g) (outgoing_of g.vertices new) ++ l) (sym (map-append (lead g) ks ls));
}

module _ (g : Graph) (new : ℕ) where
  copy_one :
      (k n : ℕ) (ks : List ℕ) (e : Edge) (h : Graph)
      → find_edge g.edges k ≡ some e
      → add_new_edge g new e.destination e.program ≡ (h, ok n)
      → copy_edges g new (k ∷ ks) ≡ copy_edges h new ks
  unfolding copy_edges
  copy_one k n ks e h found added = rw (found, copy_edges, added) (rw added refl)

pub copy_edges-Copying :
    (g : Graph) (new : ℕ) (ks : List ℕ)
    → Inv g
    → is_team g.vertices new ≡ true
    → Present g ks
    → (h : Graph) × (copy_edges g new ks ≡ (h, ok tt)) × Copying g h new ks
unfolding copy_edges
copy_edges-Copying g new [] inv goes present = (g, refl, Copying-self g new inv)
copy_edges-Copying g new (k ∷ ks) inv goes present =
    let (e, found) = present k (ground arith) in
    let (source_there, there, source_goes) = ends_exist g k e inv found in
    let (h, added, step, last) =
      add_new_edge-Relinked g new e.destination e.program inv goes there in
    let first = Copying-Relinked g h new k e inv found step last in
    let others : Present g ks = λ j listed. present j (ground arith) in
    let (j, ran, rest) =
      copy_edges-Copying h new ks first.consistent (first.kinds_kept new ∙ goes)
        (Present-kept g h first.edges_kept ks others) in
    (
      j,
      copy_one g new k g.next_id ks e h found added ∙ ran,
      join-Copying g h j new (k ∷ []) ks others first rest,
    )
