-- ===== src/Program/Engine/Reads.antt =====
-- What an instruction reads from the registers is among the addresses that identifyIntrons takes
-- for useful.
use gegelati.Base.{
  List, [], add_new, arith, elem_at-eq-or_fail, get_elem?, length, member, member-add_new,
  out_of_range, refl, true, ℕ, ◌<◌, ◌||◌, ◌∷◌, ◌≡◌, bind_ok, lt→ltb, ok, ok-injective, ◌+◌, ◌∙◌,
  ==_iff, Bool-cases, false, inl, inr, suc, zero, ◌==◌, ◌⊎◌, ap, sym, ◌>>=◌,
}
use gegelati.Environment.{Environment, registers_of}
use gegelati.Program.{Line, get_operand}
use gegelati.Data.{Cell, TypeInfo, DataHandler, scale}
use gegelati.Data.Arrays.{
  get_address_space, get_addresses_accessed, get_data_at, read_cells, ArrayWrapper, handler,
  read_data,
}
use gegelati.Program.Introns.{insert_all, use_operand, use_operands}
use gegelati.Program.Engine.{registers_array, fetch_operand, fetch_operands, next, source_at}

-- Two states of the registers that hold the same at the listed addresses.
pub record Agree {D : Type 0} (addresses : List ℕ) (r s : List (Cell D)) : Type 0 where
  pub same_size : length r ≡ length s
  pub same_cells : (i : ℕ) → member i addresses ≡ true → get_elem? r i ≡ get_elem? s i

abbrev pub Subset : List ℕ → List ℕ → Type 0
Subset xs ys = (i : ℕ) → member i xs ≡ true → member i ys ≡ true

pub Agree-Subset :
    {D : Type 0} (xs ys : List ℕ) {r s : List (Cell D)} → Subset xs ys → Agree ys r s → Agree xs r s
Agree-Subset xs ys sub a = record {
  same_size = a.same_size;
  same_cells = λ i m. a.same_cells i (sub i m);
}

member-insert_all :
    (i : ℕ) (xs ys : List ℕ) → member i (insert_all xs ys) ≡ (member i xs || member i ys)
unfolding insert_all
member-insert_all i [] ys = refl
member-insert_all i (x ∷ xs) ys =
    ground (arith, member-insert_all i xs (add_new x ys), member-add_new i x ys)

pub scale-lt : (location space register : ℕ) → scale location space ≡ ok register → register < space
unfolding scale
scale-lt location space register h = ground arith

module _ {D : Type 0} where
  read_cells-Agree :
      (addresses : List ℕ) (r s : List (Cell D))
      → Agree addresses r s
      → read_cells r addresses ≡ read_cells s addresses
  unfolding read_cells
  read_cells-Agree [] r s a = refl
  read_cells-Agree (x ∷ addresses) r s a =
      let rest =
        read_cells-Agree addresses r s
          (Agree-Subset addresses (x ∷ addresses) (λ i m. ground arith) a) in
      let first = a.same_cells x (ground arith) in
      rw (elem_at-eq-or_fail r x out_of_range, elem_at-eq-or_fail s x out_of_range, first, rest)

  read_data-Agree :
      (w : ArrayWrapper D) (type : TypeInfo) (address : ℕ) (r s : List (Cell D))
      → address < get_address_space w type
      → Agree (get_addresses_accessed w type address) r s
      → read_data w r type address ≡ read_data w s type address
  unfolding read_data get_addresses_accessed
  read_data-Agree w type address r s h a =
      let cells = read_cells-Agree _ r s (rw (lt→ltb _ _ h) at a) in rw cells

  read_data-size :
      (cells r s : List (Cell D)) (type : TypeInfo) (address : ℕ)
      → length r ≡ length s
      → read_data (registers_array r) cells type address
        ≡ read_data (registers_array s) cells type address
  unfolding read_data
  read_data-size cells r s type address e = rw e refl

  -- Reading the registers at an address of the type's space touches only the addresses accessed.
  data_at-Agree :
      (type : TypeInfo) (address : ℕ) (r s : List (Cell D))
      → address < get_address_space (registers_array r) type
      → Agree (get_addresses_accessed (registers_array r) type address) r s
      → get_data_at (registers_array r) type address ≡ get_data_at (registers_array s) type address
  unfolding get_data_at
  data_at-Agree type address r s h a =
      read_data-Agree (registers_array r) type address r s h a
      ∙ read_data-size s r s type address a.same_size

source_at-other :
    {D : Type 0} (env : Environment D) (sources : List (DataHandler D)) (k : ℕ)
    (r s : List (Cell D))
    → (k == 0) ≡ false
    → source_at env sources r k ≡ source_at env sources s k
unfolding source_at
source_at-other env sources zero r s h = absurd (ground arith)
source_at-other env sources (suc k) r s h = refl

module _ {D : Type 0} (d0 : D) (env : Environment D) (sources : List (DataHandler D)) where
  abbrev pub fake : DataHandler D
  fake = handler (registers_of d0 env.nb_registers)

  -- What use_operand has done when it succeeds: the operand is a register or it is not.
  record Used (line : Line) (idx : ℕ) (type : TypeInfo) (useful more : List ℕ) : Type 0 where
    operand : ℕ × ℕ
    got : get_operand env line idx ≡ ok operand
    outcome :
        ((register : ℕ) × (operand.0 ≡ 0)
          × (scale operand.1 (fake.address_space type) ≡ ok register)
          × (insert_all (fake.addresses_accessed type register) useful ≡ more))
        ⊎ ((operand.0 == 0) ≡ false) × (useful ≡ more)

  use_operand-Used :
      (line : Line) (idx : ℕ) (type : TypeInfo) (useful more : List ℕ)
      → use_operand env fake line idx type useful ≡ ok more
      → Used line idx type useful more
  unfolding use_operand
  use_operand-Used line idx type useful more h =
      let (operand, got, next) = bind_ok (get_operand env line idx) _ h in
      record {
        operand = operand;
        got = got;
        outcome = elim (Bool-cases (operand.0 == 0)) [
          | inl e ↦
              let (register, scaled, done) =
                bind_ok (scale operand.1 (fake.address_space type)) _ (rw e at next) in
              inl (register, (==_iff _ _).0 e, scaled, ok-injective done)
          | inr e ↦ inr (e, ok-injective (rw e at next))
        ];
      }

  use_operand_mono :
      (line : Line) (idx : ℕ) (type : TypeInfo) (useful more : List ℕ)
      → use_operand env fake line idx type useful ≡ ok more
      → Subset useful more
  use_operand_mono line idx type useful more h i m =
      elim ((use_operand-Used line idx type useful more h).outcome) [
        | inl (register, _, _, done) ↦
            rw (← done)
              (ground (arith, member-insert_all i (fake.addresses_accessed type register) useful))
        | inr (_, done) ↦ rw done at m
      ]

  pub use_operands_mono :
      (line : Line) (idx : ℕ) (types : List TypeInfo) (useful more : List ℕ)
      → use_operands env fake line idx types useful ≡ ok more
      → Subset useful more
  unfolding use_operands
  use_operands_mono line idx [] useful more h i m = rw (ok-injective h) at m
  use_operands_mono line idx (t ∷ types) useful more h i m =
      let (mid, first, rest) = bind_ok (use_operand env fake line idx t useful) _ h in
      use_operands_mono line (idx + 1) types mid more rest i
        (use_operand_mono line idx t useful mid first i m)

  space_of_registers :
      (r : List (Cell D)) (type : TypeInfo)
      → length r ≡ env.nb_registers
      → get_address_space (registers_array r) type ≡ fake.address_space type
  unfolding get_address_space handler
  space_of_registers r type size = rw size

  accessed_of_registers :
      (r : List (Cell D)) (type : TypeInfo) (register : ℕ)
      → length r ≡ env.nb_registers
      → get_addresses_accessed (registers_array r) type register
        ≡ fake.addresses_accessed type register
  unfolding get_addresses_accessed get_address_space handler
  accessed_of_registers r type register size = rw size

  read_register-Agree :
      (type : TypeInfo) (location register : ℕ) (useful more : List ℕ) (r s : List (Cell D))
      → length r ≡ env.nb_registers
      → scale location (fake.address_space type) ≡ ok register
      → insert_all (fake.addresses_accessed type register) useful ≡ more
      → Agree more r s
      → (do
        scaled ← scale location (get_address_space (registers_array r) type)
        get_data_at (registers_array r) type scaled)
        ≡ (do
          scaled ← scale location (get_address_space (registers_array s) type)
          get_data_at (registers_array s) type scaled)
  read_register-Agree type location register useful more r s size scaled done a =
      let near = space_of_registers r type size in
      let far = space_of_registers s type (sym a.same_size ∙ size) in
      let inside =
        scale-lt location (get_address_space (registers_array r) type) register (rw near scaled) in
      let sub : Subset (get_addresses_accessed (registers_array r) type register) more = λ i m.
        rw (← done) (
          ground (
            arith,
            member-insert_all i (fake.addresses_accessed type register) useful,
            ap (member i) (accessed_of_registers r type register size),
          )) in
      rw (near, far, scaled) (data_at-Agree type register r s inside (Agree-Subset _ more sub a))

  fetch_operand-Agree :
      (line : Line) (idx : ℕ) (type : TypeInfo) (useful more : List ℕ) (r s : List (Cell D))
      → length r ≡ env.nb_registers
      → use_operand env fake line idx type useful ≡ ok more
      → Agree more r s
      → fetch_operand env sources r line idx type ≡ fetch_operand env sources s line idx type
  unfolding fetch_operand source_at handler
  fetch_operand-Agree line idx type useful more r s size h a =
      let u = use_operand-Used line idx type useful more h in
      elim (u.outcome) [
        | inl (register, zeroth, scaled, done) ↦
            rw (u.got, zeroth, source_at)
              (read_register-Agree type u.operand.1 register useful more r s size scaled done a)
        | inr (other, done) ↦ rw (u.got, source_at-other env sources u.operand.0 r s other)
      ]

  pub fetch_operands-Agree :
      (line : Line) (idx : ℕ) (types : List TypeInfo) (useful more : List ℕ) (r s : List (Cell D))
      → length r ≡ env.nb_registers
      → use_operands env fake line idx types useful ≡ ok more
      → Agree more r s
      → fetch_operands env sources r line idx types ≡ fetch_operands env sources s line idx types
  unfolding use_operands fetch_operands
  fetch_operands-Agree line idx [] useful more r s size h a = refl
  fetch_operands-Agree line idx (t ∷ types) useful more r s size h a =
      let (mid, first, rest) = bind_ok (use_operand env fake line idx t useful) _ h in
      let here =
        fetch_operand-Agree line idx t useful mid r s size first
          (Agree-Subset mid more (use_operands_mono line (idx + 1) types mid more rest) a) in
      let later = fetch_operands-Agree line (idx + 1) types mid more r s size rest a in
      rw (here, later)
