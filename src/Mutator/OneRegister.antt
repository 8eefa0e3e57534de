-- ===== src/Mutator/OneRegister.antt =====
-- computeLineSize (gegelatilib/src/environment.cpp) counts the bits of the registers as those of
-- the instruction: what alterCorrectLine makes of it.
use gegelati.Base.{List, ok, ℕ, ◌∙◌, ◌≡◌}
use gegelati.Data.{DataHandler}
use gegelati.Environment.{Environment, Instruction, new_environment}
use gegelati.Environment.Laws.{instruction_bits, new_environment-IsEnvironment}
use gegelati.Program.{Line}
use gegelati.Rng.{Rng, RngLaws}
use gegelati.Mutator.{alter_correct_line}
use gegelati.Mutator.Indexes.{Correct}
use gegelati.Mutator.Alter.{alter_correct_line-same_instruction}

module _ {D R : Type 0} (d0 : D) (ceil_log2 : ℕ → ℕ) (is : List (Instruction D))
    (handlers : List (DataHandler D)) (consts : ℕ) (env : Environment D) where
  -- In an environment that is constructed with a single register, however many instructions it
  -- has, alterCorrectLine never changes the instruction of a correct line: the logarithm of the
  -- number of registers, which is 0, is taken for the bits of the instruction.
  pub alter_correct_line-one_register :
      (rng : Rng D R)
      → RngLaws rng
      → ceil_log2 1 ≡ 0
      → new_environment d0 ceil_log2 is handlers 1 consts ≡ ok env
      → (line : Line) (r : R) (res : Line × R) → Correct env line
      → alter_correct_line rng env line r ≡ ok res
      → res.0.instruction_index ≡ line.instruction_index
  alter_correct_line-one_register rng laws logarithm built line r res correct done =
      alter_correct_line-same_instruction rng laws d0 env
        (new_environment-IsEnvironment d0 ceil_log2 is handlers 1 consts env built).0 line correct r
        res (instruction_bits d0 ceil_log2 is handlers 1 consts env built ∙ logarithm) done
