-- ===== src/Execution.antt =====
-- gegelatilib/src/tpg/tpgExecutionEngine.cpp: the execution of a graph from one of its vertices.
-- An engine holds a program engine over the data sources of the environment, and may have an
-- archive (`none` is the null pointer). Programs are objects known by number; `programs` is the
-- store. A pointer to an edge or vertex that the graph does not have is undefined behaviour.
pub mod Team
pub mod Root
pub mod Valid
pub mod Populated
mod Tests
use gegelati.Base.{
  List, Option, Result, [], ok, ◌>>=◌, some, none, ℕ, ◌∷◌, zero, suc, if◌then◌else◌, err, false,
  or_fail, undefined,
}
use gegelati.Doubles.{Doubles}
use gegelati.Environment.{Environment}
use gegelati.Program.{Program}
use gegelati.Program.Engine.{execute_program, program_sources}
use gegelati.Archive.{Archive, add_recording}
use gegelati.Graph.{Graph, Edge, find_edge, find_vertex, team, action}

module _ {D R : Type 0} (F : Doubles D) (draw : R → D × R) (env : Environment D) where
  -- setArchive is an assignment to this part of the state.
  abbrev pub Engine : Type 0
  Engine = Option (Archive D R)

  unfoldable pub record_bid : Engine → ℕ → D → Result Engine
  unfolding add_recording
  record_bid none program bid = ok none
  record_bid (some archive) program bid = do
    after ← add_recording F draw archive program env.data_sources bid false
    ok (some after)

module _ {D : Type 0} (d0 : D) (F : Doubles D) (env : Environment D) (programs : ℕ → Program) where
  -- The first part of evaluateEdge: the program runs, and NaN becomes minus infinity.
  unfoldable pub bid_of : Edge → Result D
  unfolding program_sources execute_program
  bid_of edge =
      let program = programs edge.program in
      do
        sources ← program_sources env program env.data_sources
        result ← execute_program d0 env sources false program.lines
        ok (if F.is_nan result then F.neg_infinity else result)

module _ {D R : Type 0} (d0 : D) (F : Doubles D) (draw : R → D × R) (env : Environment D)
    (programs : ℕ → Program) (g : Graph) where
  unfoldable pub evaluate_edge : Option (Archive D R) → Edge → Result (D × Option (Archive D R))
  unfolding bid_of record_bid
  evaluate_edge engine edge = do
    bid ← bid_of d0 F env programs edge
    after ← record_bid F draw env engine edge.program bid
    ok (bid, after)

  -- The loop of evaluateTeam, from the best edge so far and its bid.
  unfoldable pub best_from :
      Option (Archive D R) → Edge → D → List ℕ → Result (Edge × Option (Archive D R))
  unfolding evaluate_edge find_edge
  best_from engine best best_bid [] = ok (best, engine)
  best_from engine best best_bid (k ∷ ks) = do
    edge ← or_fail (find_edge g.edges k) undefined
    evaluated ← evaluate_edge engine edge
    let better = F.le best_bid evaluated.0
    best_from evaluated.1 (if better then edge else best) (if better then evaluated.0 else best_bid)
        ks

  -- evaluateTeam, on the outgoing edges of the team. The first of no edges is undefined.
  unfoldable pub evaluate_team :
      Option (Archive D R) → List ℕ → Result (Edge × Option (Archive D R))
  unfolding best_from
  evaluate_team engine [] = err undefined
  evaluate_team engine (k ∷ ks) = do
    edge ← or_fail (find_edge g.edges k) undefined
    evaluated ← evaluate_edge engine edge
    best_from evaluated.1 edge evaluated.0 ks

  abbrev pub with_first :
      ℕ → Result (List ℕ × Option (Archive D R)) → Result (List ℕ × Option (Archive D R))
  with_first v rest = rest >>= λ visited. ok (v ∷ visited.0, visited.1)

  abbrev pub continue {ℓ} :
      {A : Type ℓ} → Option (Result A) → (Result A → Result A) → Option (Result A)
  continue none f = none
  continue (some r) f = some (f r)

  -- executeFromRoot, as the vertices that are visited and the engine afterwards; `none` means that
  -- the fuel of the loop ran out.
  unfoldable pub execute_from_root :
      ℕ → Option (Archive D R) → ℕ → Option (Result (List ℕ × Option (Archive D R)))
  unfolding evaluate_team find_vertex
  execute_from_root zero engine v = none
  execute_from_root (suc fuel) engine v = elim (find_vertex g.vertices v) [
    | none ↦ some (err undefined)
    | some x ↦ elim x.kind [
      | action n ↦ some (ok (v ∷ [], engine))
      | team ↦ elim (evaluate_team engine x.outgoing) [
        | err e ↦ some (err e)
        | ok chosen ↦
            continue (execute_from_root fuel chosen.1 (chosen.0).destination) (with_first v)
      ]
    ]
  ]
