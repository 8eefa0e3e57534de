-- ===== src/GraphMutator/Population.antt =====
-- populateTPG of gegelatilib/src/mutator/tpgMutator.cpp, for a graph that has a root team, before
-- the new programs are mutated.
pub mod Herd
pub mod Growth
pub mod Lists
pub mod Rounds
use gegelati.Base.{
  List, Option, Result, [], elem_at, err, false, if◌then◌else◌, length, ltb, none, ok, out_of_range,
  some, sub64, suc, true, zero, ℕ, ◌∷◌,
}
use gegelati.Doubles.{Doubles}
use gegelati.Rng.{Rng}
use gegelati.Graph.{Edge, Vertex, clone_vertex, get_root_vertices, is_action}
use gegelati.GraphMutator.Team.{Breeding, TpgParameters, mutate_team}

-- preExistingActions and preExistingTeams: the vertices that are actions, and all others.
unfoldable pub action_vertices : List Vertex → List ℕ
unfolding is_action
action_vertices [] = []
action_vertices (x ∷ xs) =
    let rest = action_vertices xs in if is_action x.kind then x.id ∷ rest else rest

unfoldable pub team_vertices : List Vertex → List ℕ
unfolding is_action
team_vertices [] = []
team_vertices (x ∷ xs) =
    let rest = team_vertices xs in if is_action x.kind then rest else x.id ∷ rest

-- preExistingEdges
unfoldable pub all_edges : List Edge → List ℕ
all_edges [] = []
all_edges (e ∷ es) = e.id ∷ all_edges es

module _ {D R : Type 0} (F : Doubles D) (rng : Rng D R) (params : TpgParameters D)
    (teams actions edges roots : List ℕ) where
  -- The loop of populateTPG, on fuel; `rounds` is the fuel of mutateTPGTeam, and `none` means that
  -- one of the two ran out.
  unfoldable pub populate_rounds : ℕ → ℕ → Breeding R → Option (Breeding R × Result (Unit {0}))
  unfolding get_root_vertices clone_vertex mutate_team
  populate_rounds zero rounds s = none
  populate_rounds (suc fuel) rounds s =
      elim (ltb (length (get_root_vertices s.graph)) params.nb_roots) [
        | false ↦ some (s, ok tt)
        | true ↦
            let drawn = rng.uint64 0 (sub64 (length roots) 1) s.rng in
            elim (elem_at roots drawn.0 out_of_range) [
              | err e ↦ some (record s { rng = drawn.1 }, err e)
              | ok root ↦
                  let (h, cloned) = clone_vertex s.graph root in
                  let copied = record s { graph = h; rng = drawn.1 } in
                  elim cloned [
                    | err e ↦ some (copied, err e)
                    | ok new ↦
                        elim (mutate_team F rng params teams actions edges rounds new copied) [
                          | none ↦ none
                          | some (after, result) ↦ elim result [
                            | err e ↦ some (after, err e)
                            | ok _ ↦ populate_rounds fuel rounds after
                          ]
                        ]
                  ]
            ]
      ]

-- populateTPG from the computation of the root teams to the loop.
unfoldable pub populate_tpg :
    {D R : Type 0}
    → Doubles D
    → Rng D R
    → TpgParameters D
    → ℕ
    → ℕ
    → Breeding R
    → Option (Breeding R × Result (Unit {0}))
unfolding populate_rounds action_vertices team_vertices all_edges get_root_vertices
populate_tpg F rng params fuel rounds s =
    populate_rounds F rng params (team_vertices s.graph.vertices) (action_vertices s.graph.vertices)
      (all_edges s.graph.edges) (team_vertices (get_root_vertices s.graph)) fuel rounds s
