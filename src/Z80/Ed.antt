-- ===== src/Z80/Ed.antt =====
-- The ED prefix, `exec_ed` of src/z80.c. An opcode that no case names does nothing in 8 cycles.
pub mod Registers
pub mod Block
use model_lib.Base.{ℕ, ◌++◌, switch}
use model_lib.Z80.Cpu.{Cpu, refresh}
use model_lib.Z80.Bus.{Bus, M, ◌>>=◌, ◌>>◌, ret, modify, fetch8}
use Registers.{port_cases, word_cases, mode_cases}
use Block.{block_cases}

module _ {C : Type 0} (bus : Bus C) where
  unfoldable pub ed_op : ℕ → M C ℕ
  ed_op op =
      switch op (port_cases bus op ++ (word_cases bus op ++ (mode_cases bus ++ block_cases bus)))
        (ret 8)

  unfoldable pub exec_ed : M C ℕ
  exec_ed = do op ← fetch8 bus; modify (λ s. record s { last_op = op }); modify refresh; ed_op op
