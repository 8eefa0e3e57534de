-- ===== src/Data/Writing.antt =====
-- What PrimitiveTypeArray::setDataAt (gegelatilib/include/data/primitiveTypeArray.h) writes and
-- ArrayWrapper::getDataAt (gegelatilib/include/data/arrayWrapper.h) reads.
use gegelati.Base.{
  Error, List, [], ap, arith, elem_at, elem_at-eq-or_fail, elem_at-inside, false, get_elem?-set,
  length, ltb, ok, out_of_range, refl, set, some, sym, true, ℕ, ◌<◌, ◌==◌, ◌∙◌, ◌∷◌, ◌≡◌,
}
use gegelati.Data.{Cell, TypeInfo, scalar, type_eq}
use gegelati.Data.Arrays.{ArrayWrapper, get_address_space, get_data_at, set_data_at, space_of}

elem_at-set :
    {A : Type 0} (xs : List A) (i j : ℕ) (v : A) (e : Error)
    → (i == j) ≡ false
    → elem_at (set xs i v) j e ≡ elem_at xs j e
elem_at-set xs i j v e other =
    elem_at-eq-or_fail (set xs i v) j e
    ∙ rw (get_elem?-set xs i j v, other) (sym (elem_at-eq-or_fail xs j e))

module _ {D : Type 0} (w : ArrayWrapper D) (cells : List (Cell D))
    (filled : w.container ≡ some cells) (counted : length cells ≡ w.nb_elements) where
  abbrev written : ℕ → Cell D → ArrayWrapper D
  written address value = record w { container = some (set cells address value) }

  module _ (address : ℕ) (inside : address < w.nb_elements) where
    some_address : ltb 0 (get_address_space w (scalar w.element)) ≡ true
    unfolding get_address_space space_of
    some_address = ground arith

    within : ltb address (get_address_space w (scalar w.element)) ≡ true
    unfolding get_address_space space_of
    within = ground arith

    own_type : type_eq (scalar w.element) (scalar w.element) ≡ true
    own_type = ground arith

    set_there :
        (value : Cell D)
        → set_data_at w (scalar w.element) address value ≡ ok (written address value)
    unfolding set_data_at
    set_there value =
        let (cell, at_address) = elem_at-inside cells address out_of_range (omega arith) in
        rw (filled, set_data_at, some_address, within, at_address) refl

    scalar_read :
        (cs : List (Cell D)) (cell : Cell D)
        → elem_at cs address out_of_range ≡ ok cell
        → get_data_at (record w { container = some cs }) (scalar w.element) address
          ≡ ok (record { type = scalar w.element; cells = cell ∷ [] })
    unfolding get_data_at
    scalar_read cs cell at_address =
        rw (get_data_at, some_address, within, own_type, at_address) refl

  value_set :
      (address : ℕ) (value : Cell D)
      → address < w.nb_elements
      → elem_at (set cells address value) address out_of_range ≡ ok value
  value_set address value inside =
      let here : (address == address) ≡ true = ground arith in
      let below : ltb address (length cells) ≡ true = ground arith in
      elem_at-eq-or_fail (set cells address value) address out_of_range
      ∙ rw (get_elem?-set cells address address value, here, below) refl

  unchanged :
      (address b : ℕ) (value : Cell D)
      → b < w.nb_elements
      → (address == b) ≡ false
      → get_data_at (written address value) (scalar w.element) b
        ≡ get_data_at w (scalar w.element) b
  unchanged address b value inside other =
      let (cell, at_b) = elem_at-inside cells b out_of_range (omega arith) in
      scalar_read b inside (set cells address value) cell
        (elem_at-set cells address b value out_of_range other ∙ at_b)
      ∙ sym (scalar_read b inside cells cell at_b)
      ∙ ap (λ c. get_data_at (record w { container = c }) (scalar w.element) b) (sym filled)

  -- At an address of an array, setDataAt of a value of the element type succeeds. getDataAt then
  -- reads this value at the address, and at every other address of the array what it read before.
  -- The address spaces stay the same.
  pub get_data_at-set_data_at :
      (address : ℕ) (value : Cell D)
      → address < w.nb_elements
      → (v : ArrayWrapper D) × (set_data_at w (scalar w.element) address value ≡ ok v)
        × (get_data_at v (scalar w.element) address
            ≡ ok (record { type = scalar w.element; cells = value ∷ [] }))
        × ((b : ℕ)
            → b < w.nb_elements
            → (address == b) ≡ false
            → get_data_at v (scalar w.element) b ≡ get_data_at w (scalar w.element) b)
        × ((t : TypeInfo) → get_address_space v t ≡ get_address_space w t)
  unfolding get_address_space
  get_data_at-set_data_at address value inside = (
    written address value,
    set_there address inside value,
    scalar_read address inside (set cells address value) value (value_set address value inside),
    λ b within_b other. unchanged address b value within_b other,
    λ t. refl,
  )
