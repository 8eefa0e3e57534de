-- ===== src/Execution/Root.antt =====
-- executeFromRoot of gegelatilib/src/tpg/tpgExecutionEngine.cpp returns, and follows the winning
-- edges to an action.
use gegelati.Base.{
  List, Option, [], false, if◌then◌else◌, length, none, ok, refl, some, ℕ, ◌<◌, ◌∷◌, ◌≡◌, ◌≢◌, ◌≤◌,
  Option-cases, arith, inl, inr, member, member-append, suc, true, zero, Each,
}
use gegelati.Doubles.{DoubleLaws, Doubles}
use gegelati.Environment.{Environment}
use gegelati.Program.{Program}
use gegelati.Archive.{Archive}
use gegelati.Archive.Adding.{add_recording-Inv}
use gegelati.Archive.Invariant
use gegelati.Graph.{Graph, Edge, Vertex, action, find_edge, find_vertex, team}
use gegelati.Execution.{
  best_from, bid_of, evaluate_edge, evaluate_team, record_bid, execute_from_root,
}
use gegelati.Execution.Team.{Wins, evaluate_team-Wins}
use gegelati.Graph.Acyclic.{Ranked, top}
use gegelati.Graph.Invariant.{Inv, ends_exist}
use gegelati.Graph.Lookup.{has, Kind-cases}

-- The archive of the engine, if there is one, is consistent and within its size.
abbrev pub Consistent : {D R : Type 0} → Option (Archive D R) → Type 0
Consistent none = Unit {0}
Consistent (some a) = Invariant.Inv a × (length a.recordings ≤ a.max_size)

abbrev pub TeamsHaveEdges : Graph → Type 0
TeamsHaveEdges g =
    (v : ℕ) (x : Vertex) → find_vertex g.vertices v ≡ some x → x.kind ≡ team → x.outgoing ≢ []

module _ {D : Type 0} (d0 : D) (F : Doubles D) (env : Environment D) (programs : ℕ → Program)
    (g : Graph) where
  -- The program of every edge runs.
  abbrev pub ProgramsRun : Type 0
  ProgramsRun =
      (k : ℕ) (e : Edge)
      → find_edge g.edges k ≡ some e
      → (b : D) × (bid_of d0 F env programs e ≡ ok b)

module _ {D R : Type 0} (d0 : D) (F : Doubles D) (laws : DoubleLaws F) (draw : R → D × R)
    (env : Environment D) (programs : ℕ → Program) (g : Graph) where
  -- From a vertex over the winning edge of each team to an action.
  pub data Walk : ℕ → List ℕ → Type 0 where
    stop :
        (v : ℕ) (x : Vertex) (n : ℕ)
        → find_vertex g.vertices v ≡ some x
        → x.kind ≡ action n
        → Walk v (v ∷ [])
    step :
        (v : ℕ) (x : Vertex) (e : Edge) (top : D) (rest : List ℕ)
        → find_vertex g.vertices v ≡ some x
        → x.kind ≡ team
        → bid_of d0 F env programs e ≡ ok top
        → Wins d0 F laws draw env programs g e top x.outgoing
        → Walk e.destination rest
        → Walk v (v ∷ rest)

  record_bid-Consistent :
      (engine : Option (Archive D R)) (program : ℕ) (b : D)
      → Consistent engine
      → (after : Option (Archive D R)) × (record_bid F draw env engine program b ≡ ok after)
        × Consistent after
  unfolding record_bid
  record_bid-Consistent none program b sound = (none, refl, tt)
  record_bid-Consistent (some a) program b sound =
      let (after, stored, inv, bounded) =
        add_recording-Inv F draw a program env.data_sources b sound.0 false sound.1 in
      (some after, rw stored refl, (inv, bounded))

  evaluate_edge-Consistent :
      (engine : Option (Archive D R)) (e : Edge) (b : D)
      → Consistent engine
      → bid_of d0 F env programs e ≡ ok b
      → (after : Option (Archive D R)) × (evaluate_edge d0 F draw env programs g engine e
          ≡ ok (b, after))
        × Consistent after
  unfolding evaluate_edge
  evaluate_edge-Consistent engine e b sound bids =
      let (after, recorded, sound') = record_bid-Consistent engine e.program b sound in
      (after, rw (bids, recorded) refl, sound')

  team_round :
      (fuel v : ℕ) (engine : Option (Archive D R)) (x : Vertex) (r : Edge × Option (Archive D R))
      (rest : List ℕ × Option (Archive D R))
      → find_vertex g.vertices v ≡ some x
      → x.kind ≡ team
      → evaluate_team d0 F draw env programs g engine x.outgoing ≡ ok r
      → execute_from_root d0 F draw env programs g fuel r.1 (r.0).destination ≡ some (ok rest)
      → execute_from_root d0 F draw env programs g (suc fuel) engine v
        ≡ some (ok (v ∷ rest.0, rest.1))
  unfolding execute_from_root
  team_round fuel v engine x r rest found goes chose done =
      rw (found, execute_from_root, goes, chose, done) refl

  action_round :
      (fuel v n : ℕ) (engine : Option (Archive D R)) (x : Vertex)
      → find_vertex g.vertices v ≡ some x
      → x.kind ≡ action n
      → execute_from_root d0 F draw env programs g (suc fuel) engine v ≡ some (ok (v ∷ [], engine))
  unfolding execute_from_root
  action_round fuel v n engine x found stops = rw (found, execute_from_root, stops) refl

  module _ (runs : ProgramsRun d0 F env programs g) where
    abbrev Listed : ℕ → Type 0
    Listed k = (e : Edge) × (find_edge g.edges k ≡ some e)

    best_from-Consistent :
        (ks : List ℕ) (engine : Option (Archive D R)) (best : Edge) (best_bid : D)
        → Consistent engine
        → Each Listed ks
        → (r : Edge × Option (Archive D R)) × (best_from d0 F draw env programs g engine best
              best_bid ks
            ≡ ok r)
          × Consistent r.1
    unfolding best_from
    best_from-Consistent [] engine best best_bid sound listed = ((best, engine), refl, sound)
    best_from-Consistent (k ∷ ks) engine best best_bid sound ((e, found), listed) =
        let (b, bids) = runs k e found in
        let (after, ran, sound') = evaluate_edge-Consistent engine e b sound bids in
        let (r, done, last) =
          best_from-Consistent ks after (if F.le best_bid b then e else best)
            (if F.le best_bid b then b else best_bid) sound' listed in
        (r, rw (found, ran) done, last)

    evaluate_team-Consistent :
        (ks : List ℕ) (engine : Option (Archive D R))
        → Consistent engine
        → ks ≢ []
        → Each Listed ks
        → (r : Edge × Option (Archive D R)) × (evaluate_team d0 F draw env programs g engine ks
            ≡ ok r)
          × Consistent r.1
    unfolding evaluate_team
    evaluate_team-Consistent [] engine sound some_edge listed = absurd (some_edge refl)
    evaluate_team-Consistent (k ∷ ks) engine sound some_edge ((e, found), listed) =
        let (b, bids) = runs k e found in
        let (after, ran, sound') = evaluate_edge-Consistent engine e b sound bids in
        let (r, done, last) = best_from-Consistent ks after e b sound' listed in
        (r, rw (found, ran) done, last)

    module _ (inv : Inv g) where
      Listed-member : (ks : List ℕ) → ((k : ℕ) → member k ks ≡ true → Listed k) → Each Listed ks
      Listed-member [] all = tt
      Listed-member (k ∷ ks) all =
          (all k (ground arith), Listed-member ks (λ j h. all j (ground arith)))

      outgoing-Listed :
          (v : ℕ) (x : Vertex) → find_vertex g.vertices v ≡ some x → Each Listed x.outgoing
      outgoing-Listed v x found = Listed-member x.outgoing (λ k h. listed k h)
        where
          listed : (k : ℕ) → member k x.outgoing ≡ true → Listed k
          listed k h = elim (Option-cases (find_edge g.edges k)) [
            | inl e ↦ absurd (ground (arith, inv.outgoing_listed v k))
            | inr (e, at_k) ↦ (e, at_k)
          ]

      winner_source :
          (v : ℕ) (x : Vertex) (e : Edge) (top : D)
          → find_vertex g.vertices v ≡ some x
          → Wins d0 F laws draw env programs g e top x.outgoing
          → (k : ℕ) × (find_edge g.edges k ≡ some e) × (e.source ≡ v)
      winner_source v x e top found (before, k, after, split, at_k, most, below) =
          let here = member-append k before (k ∷ after) in
          let listed = inv.outgoing_listed v k in (k, at_k, ground arith)

      module _ (rank : ℕ → ℕ) (ranked : Ranked g rank) (edges : TeamsHaveEdges g) where
        -- In a consistent graph without cycles, whose teams all have an edge and whose programs
        -- all run, executeFromRoot returns from every vertex: it visits the vertices on the way
        -- from the root, over the winning edge of each team, to an action, where it stops; and the
        -- archive stays consistent. The rank of the root bounds the number of rounds.
        pub execute_from_root-Walk :
            (fuel v : ℕ) (engine : Option (Archive D R))
            → rank v < fuel
            → has g.vertices v ≡ true
            → Consistent engine
            → (visited : List ℕ) × (after : Option (Archive D R)) × (execute_from_root d0 F draw env
                  programs g fuel engine v
                ≡ some (ok (visited, after)))
              × Walk v visited
              × Consistent after
        execute_from_root-Walk zero v engine enough present sound = absurd (omega arith)
        execute_from_root-Walk (suc fuel) v engine enough present sound =
            elim (Option-cases (find_vertex g.vertices v)) [
              | inl missing ↦ absurd (ground arith)
              | inr (x, found) ↦ elim (Kind-cases x.kind) [
                | inr (n, stops) ↦ (
                  v ∷ [],
                  engine,
                  action_round fuel v n engine x found stops,
                  Walk.stop v x n found stops,
                  sound,
                )
                | inl goes ↦
                    let (r, chose, sound') =
                      evaluate_team-Consistent x.outgoing engine sound (edges v x found goes)
                        (outgoing-Listed v x found) in
                    let (top, bids, wins) =
                      evaluate_team-Wins d0 F laws draw env programs g x.outgoing engine r chose in
                    let (k, at_k, starts) = winner_source v x r.0 top found wins in
                    let falls = ranked k r.0 at_k in
                    let (_, there, _) = ends_exist g k r.0 inv at_k in
                    let (visited, after, done, walk, last) =
                      execute_from_root-Walk fuel (r.0).destination r.1 (ground arith) there
                        sound' in
                    (
                      v ∷ visited,
                      after,
                      team_round fuel v engine x r (visited, after) found goes chose done,
                      Walk.step v x r.0 top visited found goes bids wins walk,
                      last,
                    )
              ]
            ]
