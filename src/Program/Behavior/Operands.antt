-- ===== src/Program/Behavior/Operands.antt =====
-- Lines that pass the comparison of hasIdenticalBehavior run alike, with the constants of either
-- program (gegelatilib/src/program/program.cpp).
use gegelati.Program.Behavior.Constants.{
  ==ℤ-same, NoConstantArray, NoConstantArray-elem_at, NoConstantArrays, SameConstant,
  SameConstant-scaled_constant, both_true, is_constant_array, line_eq_sound, no_space-array,
  no_space-scalar,
}
use gegelati.Base.{
  ==_iff, Bool-cases, List, Result, [], ap, arith, bind_ok, elem_at, err, false, inl, inr, length,
  ltb, lt→ltb, map, ok, ok-injective, out_of_range, refl, suc, sym, true, undefined, zero, ℕ, ℤ,
  ◌+◌, ◌<◌, ◌==◌, ◌>>=◌, ◌∙◌, ◌∷◌, ◌≡◌,
}
use gegelati.Data.{Cell, DataHandler, TypeInfo, Untyped, array, constant_type, int, scalar, scale}
use gegelati.Environment.{Environment, Instruction}
use gegelati.Program.{Line, get_operand, line_eq}
use gegelati.Data.Arrays.{get_address_space, get_data_at, handler, space_of}
use gegelati.Program.Behavior.{same_lines, same_operand, same_operands, scaled_constant}
use gegelati.Program.Engine.{
  constants_array, execute_line, fetch_operand, fetch_operands, next, source_at,
}

module _ {D : Type 0} where
  abbrev cells_of : List ℤ → List (Cell D)
  cells_of values = map int values

  elem_at-map :
      (values : List ℤ) (index : ℕ) (value : ℤ)
      → elem_at values index out_of_range ≡ ok value
      → elem_at (cells_of values) index out_of_range ≡ ok (int value)
  elem_at-map [] index value h = cc
  elem_at-map (x ∷ values) zero value h = ap ok (ap int (ok-injective h))
  elem_at-map (x ∷ values) (suc index) value h = elem_at-map values index value h

  abbrev fetch_constant : List ℤ → ℕ → TypeInfo → Result (Untyped D)
  fetch_constant constants location type = do
    scaled ← scale location (get_address_space (constants_array {D = D} constants) type)
    get_data_at (constants_array {D = D} constants) type scaled

  fetch_constant-scalar :
      (constants : List ℤ) (location index : ℕ) (value : ℤ)
      → scale location (length constants) ≡ ok index
      → index < length constants
      → elem_at constants index out_of_range ≡ ok value
      → fetch_constant constants location constant_type
        ≡ ok (record { type = constant_type; cells = int value ∷ [] })
  unfolding get_address_space get_data_at
  fetch_constant-scalar constants location index value scaled inside found =
      let read = elem_at-map constants index value found in
      rw (scaled, lt→ltb 0 (length constants) (omega arith), lt→ltb _ _ inside, read)

  fetch_constant-no_space :
      (constants : List ℤ) (location : ℕ) (type : TypeInfo)
      → space_of 1 (length constants) type ≡ 0
      → fetch_constant constants location type ≡ err undefined
  unfolding scale get_address_space
  fetch_constant-no_space constants location type h = rw h

  fetch_constant_agree :
      (here there : List ℤ) (location : ℕ) (type : TypeInfo)
      → length here ≡ length there
      → is_constant_array type ≡ false
      → SameConstant here there location
      → fetch_constant here location type ≡ fetch_constant there location type
  fetch_constant_agree here there location (array s n) size other same =
      fetch_constant-no_space here location (array s n) (no_space-array here s n other)
      ∙ sym (fetch_constant-no_space there location (array s n) (no_space-array there s n other))
  fetch_constant_agree here there location (scalar s) size other same = elim (Bool-cases (s == 1)) [
    | inl e ↦ rw ((==_iff _ _).0 e) (
        fetch_constant-scalar here location same.index same.value same.scaled same.inside same.first
        ∙ sym (
            fetch_constant-scalar there location same.index same.value (rw (← size) same.scaled)
              (rw (← size) same.inside) same.second))
    | inr e ↦
        fetch_constant-no_space here location (scalar s) (no_space-scalar here s e)
        ∙ sym (fetch_constant-no_space there location (scalar s) (no_space-scalar there s e))
  ]

module _ {D : Type 0} (env : Environment D) (here there : List ℤ)
    (sources : List (DataHandler D)) where
  abbrev sources_here : List (DataHandler D)
  sources_here = handler (constants_array here) ∷ sources

  abbrev sources_there : List (DataHandler D)
  sources_there = handler (constants_array there) ∷ sources

  -- An operand that passes the comparison is the same in both programs.
  read_operand_agree :
      (r : List (Cell D)) (operand : ℕ × ℕ) (type : TypeInfo)
      → length here ≡ length there
      → is_constant_array type ≡ false
      → (operand.0 ≡ 1 → SameConstant here there operand.1)
      → (do
        source ← source_at env sources_here r operand.0
        location ← scale operand.1 (source.address_space type)
        source.data_at type location)
        ≡ (do
          source ← source_at env sources_there r operand.0
          location ← scale operand.1 (source.address_space type)
          source.data_at type location)
  unfolding source_at handler
  read_operand_agree r (zero, location) type size plain same = refl
  read_operand_agree r (suc zero, location) type size plain same =
      fetch_constant_agree here there location type size plain (same refl)
  read_operand_agree r (suc (suc k), location) type size plain same = refl

  same_operand-inverse :
      (line : Line) (idx : ℕ)
      → length here ≡ length there
      → same_operand env here there line line idx ≡ ok true
      → (operand : ℕ × ℕ) × (get_operand env line idx ≡ ok operand)
        × (operand.0 ≡ 1 → SameConstant here there operand.1)
  unfolding same_operand
  same_operand-inverse line idx size h =
      let (operand, got, next) = bind_ok (get_operand env line idx) _ h in
      (
        operand,
        got,
        λ e.
            let (b, first, next') = bind_ok (scaled_constant here operand.1) _ (rw e at next) in
            let (other, got', next'') = bind_ok (get_operand env line idx) _ next' in
            let (c, second, equal) = bind_ok (scaled_constant there other.1) _ next'' in
            let same : other ≡ operand = ok-injective (sym got' ∙ got) in
            SameConstant-scaled_constant here there operand.1 b size first
              (rw (==ℤ-same b c equal, ← ap (λ (t : ℕ × ℕ). t.1) same) second),
      )

  fetch_operands-same :
      (r : List (Cell D)) (line : Line) (idx : ℕ) (types : List TypeInfo)
      → length here ≡ length there
      → NoConstantArray types
      → same_operands env here there line line idx types ≡ ok true
      → fetch_operands env sources_here r line idx types
        ≡ fetch_operands env sources_there r line idx types
  unfolding fetch_operands same_operands fetch_operand
  fetch_operands-same r line idx [] size plain h = refl
  fetch_operands-same r line idx (t ∷ types) size plain h =
      let (same, first, next) = bind_ok (same_operand env here there line line idx) _ h in
      let (passes, rest) = both_true same _ next in
      let (operand, got, constant) = same_operand-inverse line idx size (rw passes at first) in
      let one = read_operand_agree r operand t size plain.0 constant in
      let more = fetch_operands-same r line (idx + 1) types size plain.1 rest in rw (got, one, more)

  same_lines-inverse :
      (l m : Line)
      → ltb 0 env.nb_constants ≡ true
      → same_lines env here there l m ≡ ok true
      → (instruction : Instruction D) × (line_eq env.max_nb_operands l m ≡ true)
        × (elem_at env.instruction_set l.instruction_index out_of_range ≡ ok instruction)
        × (same_operands env here there l m 0 instruction.operand_types ≡ ok true)
  unfolding same_lines
  same_lines-inverse l m some_constant h = elim (Bool-cases (line_eq env.max_nb_operands l m)) [
    | inl e ↦
        let (instruction, found, same) =
          bind_ok (elem_at env.instruction_set l.instruction_index out_of_range) _
            (rw (e, some_constant) at h) in
        (instruction, e, found, same)
    | inr e ↦ let refused : ok false ≡ ok true = rw e at h in absurd (ground arith)
  ]

  pub execute_line-same :
      (r : List (Cell D)) (l m : Line)
      → length here ≡ length there
      → NoConstantArrays env.instruction_set
      → length l.operands ≡ env.max_nb_operands
      → length m.operands ≡ env.max_nb_operands
      → ltb 0 env.nb_constants ≡ true
      → same_lines env here there l m ≡ ok true
      → execute_line env sources_here r l ≡ execute_line env sources_there r m
  unfolding execute_line
  execute_line-same r l m size plain fits_l fits_m some_constant h =
      let (instruction, equal, found, same) = same_lines-inverse l m some_constant h in
      let one : l ≡ m = line_eq_sound env.max_nb_operands l m fits_l fits_m equal in
      let fetched =
        fetch_operands-same r m 0 instruction.operand_types size
          (NoConstantArray-elem_at env.instruction_set l.instruction_index instruction plain found)
          (rw one at same) in
      rw (one, rw one at found, fetched)
