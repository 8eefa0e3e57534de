-- ===== src/Program/Introns.antt =====
-- Program::identifyIntrons (gegelatilib/src/program/program.cpp): the lines are scanned backward
-- with the set of the registers whose value is still needed.
pub mod Clear
use gegelati.Base.{
  List, Result, [], add_new, elem_at, false, if◌then◌else◌, member, ok, out_of_range, remove, true,
  ℕ, ◌+◌, ◌==◌, ◌>>=◌, ◌∷◌,
}
use gegelati.Data.{DataHandler, TypeInfo, scale}
use gegelati.Environment.{Environment}
use gegelati.Program.{Flagged, Line, Program, get_operand}

-- What the scan of the lines from some line to the last has found.
pub record Scan : Type 0 where
  pub flagged : List Flagged
  pub useful : List ℕ
  pub nb_introns : ℕ

unfoldable pub insert_all : List ℕ → List ℕ → List ℕ
insert_all [] useful = useful
insert_all (a ∷ addresses) useful = insert_all addresses (add_new a useful)

module _ {D : Type 0} (env : Environment D) (fake_registers : DataHandler D) where
  -- The registers that operand `idx` reads join the useful ones.
  unfoldable pub use_operand : Line → ℕ → TypeInfo → List ℕ → Result (List ℕ)
  unfolding insert_all get_operand scale
  use_operand line idx type useful = do
    operand ← get_operand env line idx
    if operand.0 == 0
        then (do
          register ← scale operand.1 (fake_registers.address_space type)
          ok (insert_all (fake_registers.addresses_accessed type register) useful))
        else ok useful

  -- The operands from `idx` on, whose types are listed.
  unfoldable pub use_operands : Line → ℕ → List TypeInfo → List ℕ → Result (List ℕ)
  unfolding use_operand
  use_operands line idx [] useful = ok useful
  use_operands line idx (t ∷ types) useful = do
    more ← use_operand line idx t useful
    use_operands line (idx + 1) types more

  -- One line, after the lines behind it.
  unfoldable pub scan_line : Line → Scan → Result Scan
  unfolding use_operands
  scan_line line s =
      if member line.destination_index s.useful
      then (do
        instruction ← elem_at env.instruction_set line.instruction_index out_of_range
        useful ←
            use_operands line 0 instruction.operand_types (remove line.destination_index s.useful)
        ok (record s { flagged = (line, false) ∷ s.flagged; useful = useful }))
      else ok (record s { flagged = (line, true) ∷ s.flagged; nb_introns = s.nb_introns + 1 })

  -- Register 0 is the result of the program.
  unfoldable pub scan : List Flagged → Result Scan
  unfolding scan_line
  scan [] = ok (record { flagged = []; useful = 0 ∷ []; nb_introns = 0 })
  scan (entry ∷ lines) = do behind ← scan lines; scan_line entry.0 behind

unfoldable pub identify_introns : {D : Type 0} → Environment D → Program → Result (Program × ℕ)
unfolding scan
identify_introns env p = do
  fake_registers ← elem_at env.fake_data_sources 0 out_of_range
  s ← scan env fake_registers p.lines
  ok (record p { lines = s.flagged }, s.nb_introns)
