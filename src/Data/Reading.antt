-- ===== src/Data/Reading.antt =====
-- Data sources that can be read: gegelatilib/include/data/dataHandler.h says that getDataAt throws
-- only for an address outside of getAddressSpace or a type that the source does not provide.
use gegelati.Base.{
  ℕ, zero, suc, List, [], ◌∷◌, ok, some, true, arith, elem_at-inside, length, ltb, out_of_range,
  refl, ◌+◌, ◌-◌, ◌<◌, ◌≤◌, ◌≡◌,
}
use gegelati.Data.{Cell, DataHandler, TypeInfo, Untyped, scalar, array}
use gegelati.Data.Arrays.{
  ArrayWrapper, addresses_from, can_handle, get_address_space, get_data_at, handler, read_cells,
  space_of,
}

-- The source has an address for each type that it provides, and can be read at each address.
pub record IsReadable {D : Type 0} (h : DataHandler D) : Type 0 where
  pub addressed : (t : TypeInfo) → h.can_handle t ≡ true → 0 < h.address_space t
  pub read :
      (t : TypeInfo) (address : ℕ)
      → address < h.address_space t
      → (u : Untyped D) × (h.data_at t address ≡ ok u)

module _ {D : Type 0} where
  read_cells-inside :
      (cells : List (Cell D)) (address n : ℕ)
      → address + n ≤ length cells
      → (found : List (Cell D)) × (read_cells cells (addresses_from address n) ≡ ok found)
  unfolding read_cells addresses_from
  read_cells-inside cells address zero h = ([], refl)
  read_cells-inside cells address (suc n) h =
      let (cell, at_address) = elem_at-inside cells address out_of_range (omega arith) in
      let (rest, read) = read_cells-inside cells (address + 1) n (omega arith) in
      (cell ∷ rest, rw (at_address, read) refl)

  module _ (w : ArrayWrapper D) (cells : List (Cell D)) (filled : w.container ≡ some cells)
      (counted : length cells ≡ w.nb_elements) where
    run_read :
        (s n address : ℕ) (found : List (Cell D))
        → address < get_address_space w (array s n)
        → w.nb_elements + 1 - get_address_space w (array s n) ≡ n
        → read_cells cells (addresses_from address n) ≡ ok found
        → get_data_at w (array s n) address ≡ ok (record { type = array s n; cells = found })
    unfolding get_data_at
    run_read s n address found inside same read =
        let some_address : ltb 0 (get_address_space w (array s n)) ≡ true = ground arith in
        let within : ltb address (get_address_space w (array s n)) ≡ true = ground arith in
        rw (filled, get_data_at, some_address, within, same, read) refl

    read_array :
        (t : TypeInfo) (address : ℕ)
        → address < get_address_space w t
        → (u : Untyped D) × (get_data_at w t address ≡ ok u)
    unfolding get_data_at get_address_space space_of
    read_array (scalar s) address h =
        let (cell, at_address) = elem_at-inside cells address out_of_range (ground arith) in
        (record { type = scalar s; cells = cell ∷ [] }, ground (arith, filled))
    read_array (array s n) address h =
        let (found, read) = read_cells-inside cells address n (ground arith) in
        let same : w.nb_elements + 1 - get_address_space w (array s n) ≡ n = ground arith in
        (record { type = array s n; cells = found }, run_read s n address found h same read)

    handled : 0 < w.nb_elements → (t : TypeInfo) → can_handle w t ≡ true → 0 < get_address_space w t
    unfolding can_handle get_address_space space_of
    handled some_element (scalar s) h = ground arith
    handled some_element (array s n) h = ground arith

    pub handler-IsReadable : 0 < w.nb_elements → IsReadable (handler w)
    unfolding handler
    handler-IsReadable some_element = record { addressed = handled some_element; read = read_array }
