-- ===== src/Program/Engine/Soundness.antt =====
-- Programs give the same result with and without their introns.
use gegelati.Program.Engine.Steps.{
  Ran, execute_line-Ran, process_line-eq-ok, process_line-ok, set-Agree-intron, set-Agree-useful,
  set_cells-inside,
}
use gegelati.Base.{
  Bool-cases, List, Option, Result, [], ap, arith, bind_ok, elem_at, elem_at-eq-or_fail, false, inl,
  inr, length, length-replicate, length-set, member, ok, ok-injective, or_fail, out_of_range, refl,
  remove, set, sym, true, ℕ, ◌+◌, ◌>>=◌, ◌∙◌, ◌∷◌, ◌≡◌,
}
use gegelati.Data.{Cell, DataHandler, double_type, real}
use gegelati.Data.Arrays.{get_data_at, handler}
use gegelati.Environment.{Environment, Instruction, registers_of}
use gegelati.Program.{Flagged, Line, Program}
use gegelati.Program.Engine.{
  as_double, execute_line, execute_program, fetch_operands, next, process_line, registers_array,
  reset_registers,
}
use gegelati.Program.Engine.Reads.{
  Agree, Agree-Subset, fake, fetch_operands-Agree, use_operands_mono,
}
use gegelati.Program.Engine.Loop.{iterate-eq-run, run_lines}
use gegelati.Program.Introns.{Scan, identify_introns, scan, scan_line, use_operands}
use gegelati.Program.Introns.Clear.{useful_lines}
use gegelati.Environment.Laws.{IsEnvironment}

pub record SameResult {D : Type 0} (f : List (Cell D)) (outcome : Result (List (Cell D)))
    : Type 0 where
  pub final : List (Cell D)
  pub reached : outcome ≡ ok final
  pub agree : Agree (0 ∷ []) f final

module _ {D : Type 0} (d0 : D) (env : Environment D) (sources : List (DataHandler D)) where
  abbrev fakes : DataHandler D
  fakes = handler (registers_of d0 env.nb_registers)

  -- What scan_line has done when it succeeds: the line is an intron, or its operands are useful.
  data Scanned (line : Line) (behind found : Scan) : Type 0 where
    intron :
        member line.destination_index behind.useful ≡ false
        → found ≡ record behind {
          flagged = (line, true) ∷ behind.flagged;
          nb_introns = behind.nb_introns + 1;
        }
        → Scanned line behind found
    useful :
        (instruction : Instruction D) (more : List ℕ)
        → elem_at env.instruction_set line.instruction_index out_of_range ≡ ok instruction
        → use_operands env fakes line 0 instruction.operand_types
            (remove line.destination_index behind.useful)
          ≡ ok more
        → found ≡ record behind { flagged = (line, false) ∷ behind.flagged; useful = more }
        → Scanned line behind found

  scan_line-Scanned :
      (line : Line) (behind found : Scan)
      → scan_line env fakes line behind ≡ ok found
      → Scanned line behind found
  unfolding scan_line
  scan_line-Scanned line behind found h =
      elim (Bool-cases (member line.destination_index behind.useful)) [
        | inl used ↦
            let (instruction, got, next) =
              bind_ok (elem_at env.instruction_set line.instruction_index out_of_range) _
                (rw used at h) in
            let (more, collected, done) =
              bind_ok
                (use_operands env fakes line 0 instruction.operand_types
                  (remove line.destination_index behind.useful))
                _ next in
            useful instruction more got collected (sym (ok-injective done))
        | inr idle ↦ intron idle (sym (ok-injective (rw idle at h)))
      ]

  -- A line whose operands read the same runs the same.
  execute_line-again :
      (line : Line) (r s w : List (Cell D)) (ran : Ran env sources r line w)
      → fetch_operands env sources r line 0 ran.instruction.operand_types
        ≡ fetch_operands env sources s line 0 ran.instruction.operand_types
      → length r ≡ length s
      → execute_line env sources s line
        ≡ ok (set s line.destination_index (real (ran.instruction.execute ran.operands)))
  unfolding execute_line
  execute_line-again line r s w ran same size =
      rw (ran.found, ← same, ran.fetched)
        (set_cells-inside env sources s line.destination_index _ (rw size at ran.inside))

  -- One line, run on both sides or an intron, then the rest of the lines.
  step-SameResult :
      (line : Line) (lines : List Flagged) (behind found : Scan) (r s w f : List (Cell D))
      → length r ≡ env.nb_registers
      → Scanned line behind found
      → Agree found.useful r s
      → Ran env sources r line w
      → ((t : List (Cell D))
          → Agree behind.useful w t
          → SameResult f (run_lines env sources false (useful_lines behind.flagged) t))
      → SameResult f (run_lines env sources false (useful_lines found.flagged) s)
  unfolding run_lines
  step-SameResult line lines behind found r s w f size (intron idle is) a ran go = rw is (
      go s (
        rw ran.written (
          set-Agree-intron env sources behind.useful line.destination_index _ r s idle
            (rw is at a))))
  step-SameResult line lines behind found r s w f size (useful instruction more got uses is) a ran
        go =
      let dest = line.destination_index in
      let agreed : Agree more r s = rw is at a in
      let known : instruction ≡ ran.instruction = ok-injective (sym got ∙ ran.found) in
      let same =
        fetch_operands-Agree d0 env sources line 0 ran.instruction.operand_types
          (remove dest behind.useful) more r s size (rw known at uses) agreed in
      let kept =
        use_operands_mono d0 env sources line 0 instruction.operand_types
          (remove dest behind.useful) more uses in
      let again =
        process_line-ok env sources false s line _
          (execute_line-again line r s w ran same a.same_size) in
      rw (is, again)
        (go _ (
          rw ran.written (
            set-Agree-useful env sources behind.useful dest _ r s
              (Agree-Subset (remove dest behind.useful) more kept agreed) ran.inside)))

  -- The lines from some line on, all of them on `r` and the useful ones on `s`.
  scan-SameResult :
      (lines : List Flagged) (found : Scan) (r s f : List (Cell D))
      → length r ≡ env.nb_registers
      → scan env fakes lines ≡ ok found
      → Agree found.useful r s
      → run_lines env sources false lines r ≡ ok f
      → SameResult f (run_lines env sources false (useful_lines found.flagged) s)
  unfolding scan run_lines
  scan-SameResult [] found r s f size h a run =
      rw (← ok-injective h)
        (record { final = s; reached = refl; agree = rw (← ok-injective h, ok-injective run) at a })
  scan-SameResult ((line, flag) ∷ lines) found r s f size h a run =
      let (behind, scanned, last) = bind_ok (scan env fakes lines) _ h in
      let (w, processed, rest) = bind_ok (process_line env sources false r line) _ run in
      let ran =
        execute_line-Ran env sources r line w (process_line-eq-ok env sources r line w processed) in
      let size' : length w ≡ env.nb_registers =
        ap length ran.written ∙ length-set r line.destination_index _ ∙ size in
      step-SameResult line lines behind found r s w f size
        (scan_line-Scanned line behind found last) a ran
        λ t b. scan-SameResult lines behind w t f size' scanned b rest

  -- executeProgram on a program without the skipping of introns: every line is processed.
  unfoldable pub execute_every_line : List Flagged → Result D
  unfolding get_data_at as_double
  execute_every_line lines = do
    registers ← run_lines env sources false lines (reset_registers d0 env sources)
    value ← get_data_at (registers_array registers) double_type 0
    as_double value

-- Register 0 is read alike from states that agree on it.
result-Agree :
    {D : Type 0} (r s : List (Cell D))
    → Agree (0 ∷ []) r s
    → get_data_at (registers_array r) double_type 0 ≡ get_data_at (registers_array s) double_type 0
unfolding get_data_at
result-Agree [] [] a = refl
result-Agree [] (y ∷ s) a = absurd (omega (arith, a.same_size))
result-Agree (x ∷ r) [] a = absurd (omega (arith, a.same_size))
result-Agree (x ∷ r) (y ∷ s) a = ground (arith, a.same_cells 0 (ground arith), a.same_size)

module _ {D : Type 0} (d0 : D) (env : Environment D) (sources : List (DataHandler D)) where
  identify_introns-scan :
      (p q : Program) (n : ℕ)
      → IsEnvironment d0 env
      → identify_introns env p ≡ ok (q, n)
      → (found : Scan) × (scan env (fakes d0 env sources) p.lines ≡ ok found)
        × (found.flagged ≡ q.lines)
        × (found.nb_introns ≡ n)
  unfolding identify_introns
  identify_introns-scan p q n valid h =
      let (fake, got, next) = bind_ok (elem_at env.fake_data_sources 0 out_of_range) _ h in
      let (found, scanned, done) = bind_ok (scan env fake p.lines) _ next in
      let known : ok (fakes d0 env sources) ≡ ok fake =
        ap (λ (o : Option (DataHandler D)). or_fail o out_of_range) (sym valid.fake_registers)
        ∙ sym (elem_at-eq-or_fail env.fake_data_sources 0 out_of_range)
        ∙ got in
      (
        found,
        rw (ok-injective known) scanned,
        ap (λ t. t.0.lines) (ok-injective done),
        ap (λ t. t.1) (ok-injective done),
      )

  -- Marking introns does not change what a program computes: in a constructed environment, when
  -- identifyIntrons succeeds and the program run line by line, introns included, returns a value,
  -- then the execution that skips the marked lines returns that value.
  pub identify_introns-keeps_result :
      (p q : Program) (n : ℕ) (d : D)
      → IsEnvironment d0 env
      → identify_introns env p ≡ ok (q, n)
      → execute_every_line d0 env sources p.lines ≡ ok d
      → execute_program d0 env sources false q.lines ≡ ok d
  unfolding execute_every_line execute_program
  identify_introns-keeps_result p q n d valid h run =
      let (found, scanned, flagged, _) = identify_introns-scan p q n valid h in
      let start = reset_registers d0 env sources in
      let (f, ran, read) = bind_ok (run_lines env sources false p.lines start) _ run in
      let same : Agree found.useful start start = record {
        same_size = refl;
        same_cells = λ i m. refl;
      } in
      let out =
        scan-SameResult d0 env sources p.lines found start start f
          (length-replicate env.nb_registers (real d0)) scanned same ran in
      rw
        (
          iterate-eq-run env sources false q.lines start,
          ← flagged,
          out.reached,
          ← result-Agree f out.final out.agree,
        )
        read
