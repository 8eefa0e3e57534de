-- ===== src/Program.antt =====
-- gegelatilib/src/program/line.cpp and program.cpp, with their headers. A Line holds one operand
-- pair for each of the environment's maximum number of operands. A Program holds its lines, each
-- with the flag that marks it as an intron, and its constants; the environment that the C++ objects
-- point to is an argument here. Methods that throw return a Result.
pub mod Introns
pub mod Engine
pub mod Behavior
mod Tests
pub mod Samples
use gegelati.Base.{
  Bool, List, Result, [], elem_at, erase_at, err, false, if◌then◌else◌, insert_at, leb, length, ltb,
  ok, out_of_range, range_error, replicate, set, suc, true, undefined, zero, ℕ, ℤ, ◌&&◌, ◌+◌, ◌==◌,
  ◌>>=◌, ◌||◌, ◌∷◌,
}
use gegelati.Environment.{Environment}

pub record Line : Type 0 where
  pub instruction_index : ℕ
  pub destination_index : ℕ
  pub operands : List (ℕ × ℕ)

-- A line, and whether it is an intron.
abbrev pub Flagged : Type 0
Flagged = Line × Bool

pub record Program : Type 0 where
  pub lines : List Flagged
  pub constants : List ℤ

module _ {D : Type 0} (env : Environment D) where
  -- `calloc`: every index and operand of a new line is 0.
  unfoldable pub new_line : Line
  new_line = record {
    instruction_index = 0;
    destination_index = 0;
    operands = replicate env.max_nb_operands (0, 0);
  }

  unfoldable pub set_destination_index : Line → ℕ → Bool → Line × Bool
  set_destination_index line dest check =
      if check && leb env.nb_registers dest
      then (line, false)
      else (record line { destination_index = dest }, true)

  unfoldable pub set_instruction_index : Line → ℕ → Bool → Line × Bool
  set_instruction_index line instr check =
      if check && leb env.nb_instructions instr
      then (line, false)
      else (record line { instruction_index = instr }, true)

  unfoldable pub get_operand : Line → ℕ → Result (ℕ × ℕ)
  get_operand line idx =
      if leb env.max_nb_operands idx then err range_error else elem_at line.operands idx undefined

  unfoldable pub set_operand : Line → ℕ → ℕ → ℕ → Bool → Result (Line × Bool)
  set_operand line idx data_index location check =
      if leb env.max_nb_operands idx
      then err range_error
      else (if check
            && (leb env.nb_data_sources data_index || leb env.largest_address_space location)
          then ok (line, false)
          else ok (record line { operands = set line.operands idx (data_index, location) }, true))

-- Line::operator==
unfoldable pub operands_eq : ℕ → List (ℕ × ℕ) → List (ℕ × ℕ) → Bool
operands_eq zero xs ys = true
operands_eq (suc n) (x ∷ xs) (y ∷ ys) = x.0 == y.0 && x.1 == y.1 && operands_eq n xs ys
operands_eq (suc n) _ _ = false

unfoldable pub line_eq : ℕ → Line → Line → Bool
unfolding operands_eq
line_eq max_nb_operands l m =
    l.instruction_index == m.instruction_index
    && l.destination_index == m.destination_index
    && operands_eq max_nb_operands l.operands m.operands

abbrev pub nb_lines : Program → ℕ
nb_lines p = length p.lines

-- addNewLine(idx)
unfoldable pub add_new_line : Program → ℕ → Line → Result Program
add_new_line p idx line =
    if ltb (nb_lines p) idx
    then err out_of_range
    else ok (record p { lines = insert_at p.lines idx (line, false) })

unfoldable pub remove_line : Program → ℕ → Result Program
remove_line p idx = do
  _ ← elem_at p.lines idx out_of_range
  ok (record p { lines = erase_at p.lines idx })

unfoldable pub swap_lines : Program → ℕ → ℕ → Result Program
swap_lines p idx0 idx1 =
    if leb (nb_lines p) idx0 || leb (nb_lines p) idx1 then err out_of_range else (do
      line0 ← elem_at p.lines idx0 out_of_range
      line1 ← elem_at p.lines idx1 out_of_range
      ok (record p { lines = set (set p.lines idx0 line1) idx1 line0 }))

abbrev pub line_of : Result Flagged → Result Line
line_of r = r >>= λ entry. ok entry.0

abbrev pub flag_of : Result Flagged → Result Bool
flag_of r = r >>= λ entry. ok entry.1

unfoldable pub get_line : Program → ℕ → Result Line
get_line p idx = line_of (elem_at p.lines idx out_of_range)

unfoldable pub is_intron : Program → ℕ → Result Bool
is_intron p idx = flag_of (elem_at p.lines idx out_of_range)

-- `index < lines.size() && isIntron(index)`, which cannot throw.
unfoldable pub intron_at : List Flagged → ℕ → Bool
intron_at [] idx = false
intron_at (entry ∷ lines) zero = entry.1
intron_at (entry ∷ lines) (suc idx) = intron_at lines idx

-- The loop of clearIntrons, on fuel: one round for each line is enough.
unfoldable pub clear_from : ℕ → List Flagged → ℕ → List Flagged
unfolding intron_at
clear_from zero lines index = lines
clear_from (suc fuel) lines index =
    let removed = clear_from fuel (erase_at lines index) index in
    let next = clear_from fuel lines (index + 1) in
    if ltb index (length lines) then (if intron_at lines index then removed else next) else lines

unfoldable pub clear_introns : Program → Program
unfolding clear_from
clear_introns p = record p { lines = clear_from (nb_lines p) p.lines 0 }
