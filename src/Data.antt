-- ===== src/Data.antt =====
-- The data sources of programs: gegelatilib/include/data/dataHandler.h, the abstract class, and
-- gegelatilib/include/data/arrayWrapper.h with primitiveTypeArray.h and constantHandler.h, the
-- arrays of registers and of constants.
-- A std::type_info is `scalar s` for a primitive type numbered s, or `array s n` for s[n] (and
-- const s[n]), which the code tells apart by a regular expression on the demangled name.
-- A value behind an UntypedSharedPtr is its type with the elements that it points to.
-- The memo table cachedAddressSpace is left out: it repeats what getAddressSpace computes, and
-- nbElements never changes. The address checks are those of a build without NDEBUG.
pub mod Arrays
pub mod Reading
pub mod Writing
use gegelati.Base.{
  ℕ, ◌%◌, Bool, false, ◌&&◌, List, ◌==◌, if◌then◌else◌, Result, ok, err, undefined, ℤ,
}

pub data TypeInfo : Type 0 where
  scalar : ℕ → TypeInfo
  array : ℕ → ℕ → TypeInfo

abbrev pub type_eq : TypeInfo → TypeInfo → Bool
type_eq (scalar s) (scalar t) = s == t
type_eq (array s m) (array t n) = s == t && m == n
type_eq _ _ = false

-- typeid(double) and typeid(Data::Constant)
abbrev pub double_type : TypeInfo
double_type = scalar 0

abbrev pub constant_type : TypeInfo
constant_type = scalar 1

-- An element of a data source, where D is the type of double values.
pub data Cell (D : Type 0) : Type 0 where
  real : D → Cell D
  int : ℤ → Cell D

pub record Untyped (D : Type 0) : Type 0 where
  pub type : TypeInfo
  pub cells : List (Cell D)

-- The virtual methods of Data::DataHandler that programs use, over one unchanging content.
pub record DataHandler (D : Type 0) : Type 0 where
  pub id : ℕ
  pub can_handle : TypeInfo → Bool
  pub address_space : TypeInfo → ℕ
  pub largest_address_space : ℕ
  pub data_at : TypeInfo → ℕ → Result (Untyped D)
  pub addresses_accessed : TypeInfo → ℕ → List ℕ
  pub hash : ℕ

-- A remainder by 0 is undefined behaviour.
unfoldable pub scale : ℕ → ℕ → Result ℕ
scale location space = if space == 0 then err undefined else ok (location % space)

unfoldable pub scale_location : {D : Type 0} → DataHandler D → ℕ → TypeInfo → Result ℕ
unfolding scale
scale_location handler location type = scale location (handler.address_space type)
