-- ===== src/Z80/Cpu.antt =====
-- The state of the processor, `Z80` of src/z80.h, and its flag bits.
-- The register pairs are unions of two bytes with a 16-bit word. The bytes are stored, and the
-- word is computed with the low byte first, as on the little-endian hosts that the program is
-- built for.
use model_lib.Base.{ℕ, ◌+◌, ◌*◌, ◌/◌, ◌%◌, Bool, u16, sub16, bit_and, bit_or, nonzero}

abbrev pub flag_c : ℕ
flag_c = 0x01

abbrev pub flag_n : ℕ
flag_n = 0x02

abbrev pub flag_pv : ℕ
flag_pv = 0x04

abbrev pub flag_h : ℕ
flag_h = 0x10

abbrev pub flag_z : ℕ
flag_z = 0x40

abbrev pub flag_s : ℕ
flag_s = 0x80

pub record Cpu : Type 0 where
  pub f : ℕ
  pub a : ℕ
  pub c : ℕ
  pub b : ℕ
  pub e : ℕ
  pub d : ℕ
  pub l : ℕ
  pub h : ℕ
  -- the alternate pairs `af_`, `bc_`, `de_`, `hl_`
  pub af' : ℕ
  pub bc' : ℕ
  pub de' : ℕ
  pub hl' : ℕ
  pub ix : ℕ
  pub iy : ℕ
  pub sp : ℕ
  pub pc : ℕ
  pub i : ℕ
  pub r : ℕ
  pub iff1 : Bool
  pub iff2 : Bool
  pub ei_delay : Bool
  pub im : ℕ
  pub halted : Bool
  pub pending_irq : Bool
  pub int_accepted : Bool
  pub cycles : ℕ
  pub last_op : ℕ
  pub last_prefix : ℕ
  pub last_xycb : Bool
  pub last_prefix_ignored : Bool
  pub i_ws_adjust : ℕ

abbrev pub af : Cpu → ℕ
af s = s.a * 256 + s.f

abbrev pub bc : Cpu → ℕ
bc s = s.b * 256 + s.c

abbrev pub de : Cpu → ℕ
de s = s.d * 256 + s.e

abbrev pub hl : Cpu → ℕ
hl s = s.h * 256 + s.l

-- A store to a union's word, which the caller has cut to 16 bits.
abbrev pub set_af : ℕ → Cpu → Cpu
set_af v s = record s { f = v % 256; a = v / 256 % 256 }

abbrev pub set_bc : ℕ → Cpu → Cpu
set_bc v s = record s { c = v % 256; b = v / 256 % 256 }

abbrev pub set_de : ℕ → Cpu → Cpu
set_de v s = record s { e = v % 256; d = v / 256 % 256 }

abbrev pub set_hl : ℕ → Cpu → Cpu
set_hl v s = record s { l = v % 256; h = v / 256 % 256 }

abbrev pub set_f : ℕ → Cpu → Cpu
set_f v s = record s { f = v }

abbrev pub set_a : ℕ → Cpu → Cpu
set_a v s = record s { a = v }

abbrev pub set_b : ℕ → Cpu → Cpu
set_b v s = record s { b = v }

abbrev pub set_c : ℕ → Cpu → Cpu
set_c v s = record s { c = v }

abbrev pub set_d : ℕ → Cpu → Cpu
set_d v s = record s { d = v }

abbrev pub set_e : ℕ → Cpu → Cpu
set_e v s = record s { e = v }

abbrev pub set_h : ℕ → Cpu → Cpu
set_h v s = record s { h = v }

abbrev pub set_l : ℕ → Cpu → Cpu
set_l v s = record s { l = v }

abbrev pub set_sp : ℕ → Cpu → Cpu
set_sp v s = record s { sp = v }

abbrev pub set_pc : ℕ → Cpu → Cpu
set_pc v s = record s { pc = v }

-- `r++` and `r--` of a word.
abbrev pub inc16 : ℕ → ℕ
inc16 v = u16 (v + 1)

abbrev pub dec16 : ℕ → ℕ
dec16 v = sub16 v 1

-- `cpu->r = ((cpu->r + 1) & 0x7F) | (cpu->r & 0x80)`, at every opcode byte.
unfoldable pub refresh : Cpu → Cpu
refresh s = record s { r = bit_or (bit_and (s.r + 1) 0x7f) (bit_and s.r 0x80) }

-- `cpu->f & FLAG` as a condition.
abbrev pub flag : ℕ → Cpu → Bool
flag m s = nonzero (bit_and s.f m)
