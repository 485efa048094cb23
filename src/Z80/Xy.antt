-- ===== src/Z80/Xy.antt =====
-- The DD and FD prefixes, `exec_xy` of src/z80.c. An opcode that no case names is put back: the
-- prefix costs 4 cycles and the opcode runs as if it stood alone.
pub mod Memory
pub mod Halves
use model_lib.Base.{ℕ, List, ◌++◌, switch, sub16, true}
use model_lib.Z80.Cpu.{Cpu, refresh}
use model_lib.Z80.Bus.{Bus, M, ◌>>=◌, ◌>>◌, ret, modify, cost, fetch8}
use Memory.{Index, xy_word_cases, xy_memory_cases}
use Halves.{xy_half_cases, xy_alu_cases}

-- The `default` case.
unfoldable pub put_back : Cpu → Cpu
put_back s = record s { last_prefix_ignored = true; pc = sub16 s.pc 1 }

module _ {C : Type 0} (bus : Bus C) (xy : Index) where
  unfoldable pub xy_cases : ℕ → List (List ℕ × M C ℕ)
  xy_cases op =
      xy_word_cases bus xy
      ++ (xy_memory_cases bus xy op ++ (xy_half_cases bus xy op ++ xy_alu_cases bus xy))

  unfoldable pub xy_op : ℕ → M C ℕ
  xy_op op = switch op (xy_cases op) (cost 4 (modify put_back))

  unfoldable pub exec_xy : M C ℕ
  exec_xy = do op ← fetch8 bus; modify (λ s. record s { last_op = op }); modify refresh; xy_op op
