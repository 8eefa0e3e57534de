-- ===== src/Data/Arrays.antt =====
-- gegelatilib/include/data/arrayWrapper.h and primitiveTypeArray.h: arrays of one element type,
-- read whole cells or runs of cells, by type. Registers are an array of doubles, and the constants
-- of a program (constantHandler.h) an array of Data::Constant.
use gegelati.Base.{
  Bool, List, Option, Result, [], elem_at, domain_error, err, guard, if◌then◌else◌,
  invalid_argument, leb, length, ltb, none, ok, out_of_range, runtime_error, set, some, suc, zero,
  ℕ, ◌+◌, ◌-◌, ◌==◌, ◌>>=◌, ◌>>◌, ◌||◌, ◌∷◌,
}
use gegelati.Data.{TypeInfo, scalar, array, type_eq, Cell, Untyped, DataHandler}

-- ArrayWrapper<T>, with T numbered by `element` and the vector behind containerPtr.
pub record ArrayWrapper (D : Type 0) : Type 0 where
  pub id : ℕ
  pub element : ℕ
  pub nb_elements : ℕ
  pub container : Option (List (Cell D))

unfoldable pub space_of : ℕ → ℕ → TypeInfo → ℕ
space_of element nb (scalar s) = if s == element then nb else 0
space_of element nb (array s n) = if s == element then (if leb n nb then nb - n + 1 else 0) else 0

-- `address`, `address + 1`, and so on.
unfoldable pub addresses_from : ℕ → ℕ → List ℕ
addresses_from address zero = []
addresses_from address (suc n) = address ∷ addresses_from (address + 1) n

module _ {D : Type 0} where
  unfoldable pub get_address_space : ArrayWrapper D → TypeInfo → ℕ
  unfolding space_of
  get_address_space w type = space_of w.element w.nb_elements type

  unfoldable pub can_handle : ArrayWrapper D → TypeInfo → Bool
  unfolding get_address_space
  can_handle w type = type_eq (scalar w.element) type || ltb 0 (get_address_space w type)

  unfoldable pub check_address_and_type : ArrayWrapper D → TypeInfo → ℕ → Result (Unit {0})
  unfolding get_address_space
  check_address_and_type w type address = do
    guard (ltb 0 (get_address_space w type)) invalid_argument
    guard (ltb address (get_address_space w type)) out_of_range

  unfoldable pub get_addresses_accessed : ArrayWrapper D → TypeInfo → ℕ → List ℕ
  unfolding get_address_space addresses_from
  get_addresses_accessed w type address =
      if ltb address (get_address_space w type)
      then (if type_eq type (scalar w.element)
          then address ∷ []
          else addresses_from address (w.nb_elements + 1 - get_address_space w type))
      else []

  -- The elements at the listed addresses, each by `containerPtr->at`.
  unfoldable pub read_cells : List (Cell D) → List ℕ → Result (List (Cell D))
  read_cells cells [] = ok []
  read_cells cells (a ∷ addresses) = do
    cell ← elem_at cells a out_of_range
    rest ← read_cells cells addresses
    ok (cell ∷ rest)

  unfoldable pub read_data : ArrayWrapper D → List (Cell D) → TypeInfo → ℕ → Result (Untyped D)
  unfolding read_cells check_address_and_type
  read_data w cells type address = do
    check_address_and_type w type address
    read ← read_cells cells (
        if type_eq type (scalar w.element)
        then address ∷ []
        else addresses_from address (w.nb_elements + 1 - get_address_space w type))
    ok (record { type = type; cells = read })

  unfoldable pub get_data_at : ArrayWrapper D → TypeInfo → ℕ → Result (Untyped D)
  unfolding read_data
  get_data_at w type address = elim w.container [
    | none ↦ err runtime_error
    | some cells ↦ read_data w cells type address
  ]

  -- PrimitiveTypeArray<T>::setDataAt, whose vector is never null.
  unfoldable pub set_cells :
      ArrayWrapper D → List (Cell D) → TypeInfo → ℕ → Cell D → Result (List (Cell D))
  unfolding check_address_and_type
  set_cells w cells type address value = do
    check_address_and_type w type address
    _ ← elem_at cells address out_of_range
    ok (set cells address value)

  unfoldable pub set_data_at : ArrayWrapper D → TypeInfo → ℕ → Cell D → Result (ArrayWrapper D)
  unfolding set_cells
  set_data_at w type address value = elim w.container [
    | none ↦ err out_of_range
    | some cells ↦ do
      written ← set_cells w cells type address value
      ok (record w { container = some written })
  ]

  -- setPointer, `none` for a null pointer.
  unfoldable pub set_pointer : ArrayWrapper D → Option (List (Cell D)) → Result (ArrayWrapper D)
  set_pointer w none = ok (record w { container = none })
  set_pointer w (some cells) =
      if length cells == w.nb_elements
      then ok (record w { container = some cells })
      else err domain_error

  -- An array as the DataHandler that it is. Its hash is of no account to programs.
  unfoldable pub handler : ArrayWrapper D → DataHandler D
  unfolding get_data_at get_addresses_accessed can_handle
  handler w = record {
    id = w.id;
    can_handle = can_handle w;
    address_space = get_address_space w;
    largest_address_space = w.nb_elements;
    data_at = get_data_at w;
    addresses_accessed = get_addresses_accessed w;
    hash = 0;
  }
