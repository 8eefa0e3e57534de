-- ===== src/GraphMutator/Team/Bred.antt =====
-- What mutateTPGTeam (gegelatilib/src/mutator/tpgMutator.cpp) keeps, and one round of its third
-- loop.
use gegelati.Base.{
  arith, Bool-cases, Option-cases, false, inl, inr, List, [], ok, refl, some, suc, true, ℕ, ◌<◌,
  ◌==◌, ◌∙◌, ◌∷◌, ◌++◌, ◌≡◌, ◌≤◌, subst,
}
use gegelati.Doubles.{Doubles}
use gegelati.Rng.{Rng, RngLaws}
use gegelati.Environment.{Environment}
use gegelati.Program.{Program}
use gegelati.ProgramMutator.Valid.{Valid}
use gegelati.Graph.{Edge, Graph, find_edge, set_program}
use gegelati.Graph.Lookup.{leaves}
use gegelati.Graph.Relink.{set_program-Relinked}
use gegelati.GraphMutator.{mutate_edge_destination}
use gegelati.GraphMutator.Own.{
  Choices, Kept, Kept-Relinked, Kept-self, Ready, Ready-Relinked, as_long, join-Kept,
}
use gegelati.GraphMutator.Steps.{Grown, mutate_edge_destination-Grown, ProgramsFrom}
use gegelati.GraphMutator.Loops.{nb_outgoing}
use gegelati.GraphMutator.Team.{Breeding, TpgParameters, mutate_outgoing_edge, put_program}

pub leaving_edge :
    (g : Graph) (k v : ℕ)
    → leaves g.edges k v ≡ true
    → (e : Edge) × (find_edge g.edges k ≡ some e) × ((e.source == v) ≡ true)
leaving_edge g k v own = elim (Option-cases (find_edge g.edges k)) [
  | inl missing ↦ absurd (ground arith)
  | inr (e, found) ↦ (e, found, ground arith)
]

module _ {D : Type 0} (env : Environment D) where
  -- The program of every edge is in the store, and valid.
  abbrev pub Stocked : {R : Type 0} → Breeding R → Type 0
  Stocked s =
      (k : ℕ) (e : Edge)
      → find_edge s.graph.edges k ≡ some e
      → (e.program < s.next_program) × Valid env (s.programs e.program)

  -- The state `t` after steps from `s` on the team `v`: only edges of the team have changed, every
  -- program that was there before is still what it was, and the team has as many edges.
  pub record Bred {R : Type 0} (rank : ℕ → ℕ) (teams actions edges : List ℕ) (v : ℕ)
      (s t : Breeding R) : Type 0 where
    pub ready : Ready rank teams actions edges v t.graph
    pub stocked : Stocked t
    pub kept : Kept s.graph t.graph v
    pub programs_kept : (n : ℕ) → n < s.next_program → t.programs n ≡ s.programs n
    pub store_grows : s.next_program ≤ t.next_program
    pub own_kept : (j : ℕ) → leaves t.graph.edges j v ≡ leaves s.graph.edges j v
    pub as_many : nb_outgoing t.graph v ≡ nb_outgoing s.graph v

  pub join-Bred :
      {R : Type 0} (rank : ℕ → ℕ) (teams actions edges : List ℕ) (v : ℕ) (s t u : Breeding R)
      → Bred rank teams actions edges v s t
      → Bred rank teams actions edges v t u
      → Bred rank teams actions edges v s u
  join-Bred rank teams actions edges v s t u first second = record {
    ready = second.ready;
    stocked = second.stocked;
    kept = join-Kept s.graph t.graph u.graph v first.kept second.kept;
    programs_kept = λ n old.
        second.programs_kept n (omega (arith, first.store_grows)) ∙ first.programs_kept n old;
    store_grows = omega (arith, first.store_grows, second.store_grows);
    own_kept = λ j. second.own_kept j ∙ first.own_kept j;
    as_many = second.as_many ∙ first.as_many;
  }

  -- Another graph over the same programs, and another state of the random engine.
  pub Stocked-Grown :
      {R : Type 0} (s : Breeding R) (h : Graph) (r : R)
      → ProgramsFrom s.graph h
      → Stocked s
      → Stocked (record s { graph = h; rng = r })
  Stocked-Grown s h r from stocked k e found =
      let (i, d, found', same) = from k e found in
      subst (λ n. (n < s.next_program) × Valid env (s.programs n)) same (stocked i d found')

  pub Bred-self :
      {R : Type 0} (rank : ℕ → ℕ) (teams actions edges : List ℕ) (v : ℕ) (s : Breeding R) (r : R)
      → Ready rank teams actions edges v s.graph
      → Stocked s
      → Bred rank teams actions edges v s (record s { rng = r })
  Bred-self rank teams actions edges v s r ready stocked = record {
    ready = ready;
    stocked = stocked;
    kept = Kept-self s.graph v;
    programs_kept = λ n old. refl;
    store_grows = omega arith;
    own_kept = λ j. refl;
    as_many = refl;
  }

  -- The edge has a copy of its program, at a new address.
  abbrev pub copied : {R : Type 0} → Breeding R → ℕ → Edge → R → Breeding R
  copied s k e r = record s {
    graph = set_program s.graph k s.next_program;
    programs = put_program s.programs s.next_program (s.programs e.program);
    next_program = suc s.next_program;
    new_programs = s.new_programs ++ s.next_program ∷ [];
    rng = r;
  }

  stored :
      (programs : ℕ → Program) (n : ℕ) (p : Program) (i : ℕ)
      → ((n == i) ≡ true → Valid env p)
      → ((n == i) ≡ false → Valid env (programs i))
      → Valid env (put_program programs n p i)
  stored programs n p i new old = elim (Bool-cases (n == i)) [
    | inl same ↦ rw same (new same)
    | inr other ↦ rw other (old other)
  ]

  -- A step on the graph that keeps the number of edges.
  pub Bred-Grown :
      {R : Type 0} (rank : ℕ → ℕ) (teams actions edges : List ℕ) (v : ℕ) (s : Breeding R)
      (h : Graph) (r : R)
      → Grown rank teams actions edges v s.graph h
      → nb_outgoing h v ≡ nb_outgoing s.graph v
      → ((j : ℕ) → leaves h.edges j v ≡ leaves s.graph.edges j v)
      → Stocked s
      → Bred rank teams actions edges v s (record s { graph = h; rng = r })
  Bred-Grown rank teams actions edges v s h r grown same own stocked = record {
    ready = grown.ready;
    stocked = Stocked-Grown s h r grown.programs_from stocked;
    kept = grown.kept;
    programs_kept = λ n old. refl;
    store_grows = omega arith;
    own_kept = own;
    as_many = same;
  }

  module _ {R : Type 0} (rank : ℕ → ℕ) (teams actions edges : List ℕ) (v : ℕ) (s : Breeding R)
      (ready : Ready rank teams actions edges v s.graph) (stocked : Stocked s) where
    copied-Bred :
        (k : ℕ) (e : Edge) (r : R)
        → find_edge s.graph.edges k ≡ some e
        → (e.source == v) ≡ true
        → Bred rank teams actions edges v s (copied s k e r)
    copied-Bred k e r found mine =
        let step = set_program-Relinked s.graph k e ready.consistent found s.next_program in
        let own : leaves s.graph.edges k v ≡ true = ground arith in
        record {
          ready =
              Ready-Relinked s.graph _ v k _ (inr own) step rank teams actions edges ready
                (λ d same. ground arith)
                (λ d same. let lands = ready.settled k e found in ground arith);
          stocked = λ j d at_j. elim (Bool-cases (k == j)) [
            | inl same ↦
                let number : d.program ≡ s.next_program = ground (arith, step.edges_now j) in
                let (before, valid) = stocked k e found in
                (
                  omega arith,
                  stored s.programs s.next_program (s.programs e.program) d.program (λ h. valid)
                      (λ h. absurd (ground arith)),
                )
            | inr other ↦
                let (before, valid) = stocked j d (ground (arith, step.edges_now j)) in
                (
                  omega arith,
                  stored s.programs s.next_program (s.programs e.program) d.program
                      (λ h. absurd (ground arith)) (λ h. valid),
                )
          ];
          kept = Kept-Relinked s.graph _ v k _ (inr own) step;
          programs_kept = λ n old. ground arith;
          store_grows = omega arith;
          own_kept = λ j. ground (arith, step.edges_now j);
          as_many =
              as_long s.graph _ v k ready.consistent (record e { program = s.next_program }) own
                step mine;
        }

  module _ {R : Type 0} (F : Doubles D) (rng : Rng D R) (laws : RngLaws rng)
      (params : TpgParameters D) (rank : ℕ → ℕ) (teams actions edges : List ℕ) (v : ℕ)
      (choices : Choices teams actions edges) where
    kept_destination :
        (s : Breeding R) (k : ℕ) (e : Edge)
        → find_edge s.graph.edges k ≡ some e
        → F.lt (rng.unit_double s.rng).0 params.p_edge_destination_change ≡ false
        → mutate_outgoing_edge F rng params teams actions edges s k
          ≡ (copied s k e (rng.unit_double s.rng).1, ok tt)
    unfolding mutate_outgoing_edge
    kept_destination s k e found stays = rw (found, mutate_outgoing_edge, stays) refl

    new_destination :
        (s : Breeding R) (k : ℕ) (e : Edge) (h : Graph) (rest : R)
        → find_edge s.graph.edges k ≡ some e
        → F.lt (rng.unit_double s.rng).0 params.p_edge_destination_change ≡ true
        → mutate_edge_destination F rng params.p_edge_destination_is_action
            (set_program s.graph k s.next_program)
            k
            teams
            actions
            (rng.unit_double s.rng).1
          ≡ (h, ok tt, rest)
        → mutate_outgoing_edge F rng params teams actions edges s k
          ≡ (record (copied s k e rest) { graph = h }, ok tt)
    unfolding mutate_outgoing_edge
    new_destination s k e h rest found goes changed =
        rw (found, mutate_outgoing_edge, goes, changed) refl

    pub mutate_outgoing_edge-Bred :
        (s : Breeding R) (k : ℕ)
        → Ready rank teams actions edges v s.graph
        → Stocked s
        → leaves s.graph.edges k v ≡ true
        → (t : Breeding R) × (mutate_outgoing_edge F rng params teams actions edges s k
            ≡ (t, ok tt))
          × Bred rank teams actions edges v s t
    mutate_outgoing_edge-Bred s k ready stocked was =
        let (e, found, mine) = leaving_edge s.graph k v was in
        let asked = rng.unit_double s.rng in
        let first = copied-Bred rank teams actions edges v s ready stocked k e asked.1 found mine in
        elim (Bool-cases (F.lt asked.0 params.p_edge_destination_change)) [
          | inr stays ↦ (copied s k e asked.1, kept_destination s k e found stays, first)
          | inl goes ↦
              let step = set_program-Relinked s.graph k e ready.consistent found s.next_program in
              let now : find_edge (copied s k e asked.1).graph.edges k
                  ≡ some (record e { program = s.next_program }) =
                ground (arith, step.edges_now k) in
              let (h, rest, changed, grown, same, own) =
                mutate_edge_destination-Grown F rng laws rank teams actions edges v
                  (copied s k e asked.1).graph first.ready choices
                  params.p_edge_destination_is_action k (record e { program = s.next_program })
                  asked.1 now mine in
              (
                record (copied s k e rest) { graph = h },
                new_destination s k e h rest found goes changed,
                join-Bred rank teams actions edges v s (copied s k e asked.1) _ first (
                    Bred-Grown rank teams actions edges v (copied s k e asked.1) h rest grown same
                      own first.stocked),
              )
        ]
