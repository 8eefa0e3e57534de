-- ===== src/GraphMutator/Team.antt =====
-- mutateTPGTeam of gegelatilib/src/mutator/tpgMutator.cpp, with mutateOutgoingEdge.
pub mod Bred
pub mod Rounds
use gegelati.Base.{
  Bool, Option, [], ◌==◌, ◌∷◌, ◌++◌, List, if◌then◌else◌, Result, ℕ, err, false, length, none, ok,
  some, suc, true, undefined, zero,
}
use gegelati.Doubles.{Doubles}
use gegelati.Rng.{Rng}
use gegelati.Program.{Program}
use gegelati.Graph.{find_edge, set_program, Graph, find_vertex, out_list}
use gegelati.GraphMutator.{remove_random_edges, add_random_edges, mutate_edge_destination}

-- The parameters of a mutation (TPGParameters of mutator/mutationParameters.h).
pub record TpgParameters (D : Type 0) : Type 0 where
  pub nb_roots : ℕ
  pub init_nb_roots : ℕ
  pub max_init_outgoing_edges : ℕ
  pub max_outgoing_edges : ℕ
  pub p_edge_deletion : D
  pub p_edge_addition : D
  pub p_program_mutation : D
  pub force_program_behavior_change_on_mutation : Bool
  pub p_edge_destination_change : D
  pub p_edge_destination_is_action : D

-- A graph with the store of the programs of its edges, where `next_program` is the next address,
-- the list newPrograms and the random engine.
pub record Breeding (R : Type 0) : Type 0 where
  pub graph : Graph
  pub programs : ℕ → Program
  pub next_program : ℕ
  pub new_programs : List ℕ
  pub rng : R

abbrev pub put_program : (ℕ → Program) → ℕ → Program → ℕ → Program
put_program programs n p j = if n == j then p else programs j

module _ {D R : Type 0} (F : Doubles D) (rng : Rng D R) (params : TpgParameters D)
    (teams actions edges : List ℕ) where
  -- mutateOutgoingEdge: the edge gets a copy of its program, and perhaps a new destination.
  unfoldable pub mutate_outgoing_edge : Breeding R → ℕ → Breeding R × Result (Unit {0})
  unfolding mutate_edge_destination find_edge set_program
  mutate_outgoing_edge s k = elim (find_edge s.graph.edges k) [
    | none ↦ (s, err undefined)
    | some e ↦
        let asked = rng.unit_double s.rng in
        let copied = record s {
          graph = set_program s.graph k s.next_program;
          programs = put_program s.programs s.next_program (s.programs e.program);
          next_program = suc s.next_program;
          new_programs = s.new_programs ++ s.next_program ∷ [];
          rng = asked.1;
        } in
        elim (F.lt asked.0 params.p_edge_destination_change) [
          | false ↦ (copied, ok tt)
          | true ↦
              let (h, result, rest) =
                mutate_edge_destination F rng params.p_edge_destination_is_action copied.graph k
                  teams actions copied.rng in
              (record copied { graph = h; rng = rest }, result)
        ]
  ]

  -- The loop over the edges of the team, with the flag anyMutationDone.
  unfoldable pub mutate_edges : List ℕ → Bool → Breeding R → Breeding R × Result Bool
  unfolding mutate_outgoing_edge
  mutate_edges [] any s = (s, ok any)
  mutate_edges (k ∷ ks) any s =
      let asked = rng.unit_double s.rng in
      let t = record s { rng = asked.1 } in
      elim (F.lt asked.0 params.p_program_mutation) [
        | false ↦ mutate_edges ks any t
        | true ↦
            let (after, result) = mutate_outgoing_edge t k in
            elim result [ err e ↦ (after, err e) | ok _ ↦ mutate_edges ks true after ]
      ]

  -- The third loop of mutateTPGTeam: rounds until an edge has been mutated; `none` means that the
  -- fuel ran out.
  unfoldable pub mutate_rounds : ℕ → ℕ → Breeding R → Option (Breeding R × Result (Unit {0}))
  unfolding mutate_edges find_vertex
  mutate_rounds zero v s = none
  mutate_rounds (suc fuel) v s =
      let (after, result) = mutate_edges (out_list (find_vertex s.graph.vertices v)) false s in
      elim result [
        | err e ↦ some (after, err e)
        | ok any ↦ elim any [ true ↦ some (after, ok tt) | false ↦ mutate_rounds fuel v after ]
      ]

  -- mutateTPGTeam
  unfoldable pub mutate_team : ℕ → ℕ → Breeding R → Option (Breeding R × Result (Unit {0}))
  unfolding mutate_rounds remove_random_edges add_random_edges find_vertex
  mutate_team fuel v s =
      let nb_edges = length (out_list (find_vertex s.graph.vertices v)) in
      let (g1, first, r1) =
        remove_random_edges F rng nb_edges params.p_edge_deletion (F.of_nat 1) s.graph v s.rng in
      elim first [
        | err e ↦ some (record s { graph = g1; rng = r1 }, err e)
        | ok _ ↦
            let (g2, second, r2) =
              add_random_edges F rng params.max_outgoing_edges params.max_outgoing_edges
                params.p_edge_addition (F.of_nat 1) g1 v edges r1 in
            elim second [
              | err e ↦ some (record s { graph = g2; rng = r2 }, err e)
              | ok _ ↦ mutate_rounds fuel v (record s { graph = g2; rng = r2 })
            ]
      ]
