-- ===== src/Z80/Step.antt =====
-- The interface of src/z80.c: `z80_init`, `z80_reset`, `z80_interrupt`, `z80_nmi` and `z80_step`.
-- `z80_step` reads MSX_Z80_LEGACY_TABLES once; what it finds is the argument `use_tables`.
use model_lib.Base.{ℕ, ◌+◌, Bool, true, false, not, ◌&&◌, ◌||◌, List, [], ◌∷◌, none, some}
use model_lib.Base.{◌==◌, if◌then◌else◌, from_bool, get_or, switch, u16, sub16}
use model_lib.Z80.Cpu.{Cpu}
use model_lib.Z80.Bus.{Bus, M, ◌>>=◌, ◌>>◌, ret, gets, modify}
use model_lib.Z80.Tables.{cc_op, cc_cb, cc_ed, cc_xy, cc_xycb, cc_ex}
use model_lib.Z80.Main.{z80_step_impl}

-- `memset` to 0, then SP and AF.
unfoldable pub z80_init : Cpu
z80_init = record {
  f = 0xff;
  a = 0xff;
  c = 0;
  b = 0;
  e = 0;
  d = 0;
  l = 0;
  h = 0;
  af' = 0;
  bc' = 0;
  de' = 0;
  hl' = 0;
  ix = 0;
  iy = 0;
  sp = 0xffff;
  pc = 0;
  i = 0;
  r = 0;
  iff1 = false;
  iff2 = false;
  ei_delay = false;
  im = 0;
  halted = false;
  pending_irq = false;
  int_accepted = false;
  cycles = 0;
  last_op = 0;
  last_prefix = 0;
  last_xycb = false;
  last_prefix_ignored = false;
  i_ws_adjust = 0;
}

unfoldable pub z80_reset : Cpu → Cpu
z80_reset s = record s {
  pc = 0;
  iff1 = false;
  iff2 = false;
  im = 0;
  halted = false;
  pending_irq = false;
  int_accepted = false;
  last_xycb = false;
  last_prefix_ignored = false;
  i_ws_adjust = 0;
}

unfoldable pub z80_interrupt : Cpu → Cpu
z80_interrupt s = record s { pending_irq = true }

unfoldable pub z80_nmi : Cpu → Cpu
z80_nmi s = record s { halted = false; iff1 = false }

abbrev return_ops : List ℕ
return_ops = 0xc0 ∷ 0xc8 ∷ 0xd0 ∷ 0xd8 ∷ 0xe0 ∷ 0xe8 ∷ 0xf0 ∷ 0xf8 ∷ []

abbrev call_ops : List ℕ
call_ops = 0xc4 ∷ 0xcc ∷ 0xd4 ∷ 0xdc ∷ 0xe4 ∷ 0xec ∷ 0xf4 ∷ 0xfc ∷ []

-- The count of the tables for the instruction that has left `s`.
unfoldable pub table_cycles : Cpu → ℕ
table_cycles s =
    let at = λ (t : List ℕ) (k : ℕ). get_or t k 0 in
    switch s.last_prefix
      ((0xcb ∷ [], at cc_op 0xcb + at cc_cb s.last_op)
        ∷ (0xed ∷ [], at cc_op 0xed + at cc_ed s.last_op)
        ∷ (
          0xdd ∷ 0xfd ∷ [],
          if s.last_prefix_ignored
              then at cc_op s.last_prefix
              else if s.last_xycb
              then at cc_op s.last_prefix + at cc_xy 0xcb + at cc_xycb s.last_op
              else at cc_op s.last_prefix + at cc_xy s.last_op,
        )
        ∷ [])
      (at cc_op s.last_op)

-- Whether a conditional branch was taken, or a block instruction repeats, from PC and SP before.
unfoldable pub branch_taken : ℕ → ℕ → Cpu → Bool
branch_taken pc_before sp_before s =
    if s.last_prefix == 0
    then switch s.last_op
        ((0x10 ∷ [], not (s.b == 0))
          ∷ (0x20 ∷ 0x28 ∷ 0x30 ∷ 0x38 ∷ [], not (s.pc == u16 (pc_before + 2)))
          ∷ (return_ops, s.sp == u16 (sp_before + 2))
          ∷ (call_ops, s.sp == sub16 sp_before 2)
          ∷ [])
        false
    else if s.last_prefix == 0xed
    then switch s.last_op
        ((
          0xb0 ∷ 0xb8 ∷ 0xb1 ∷ 0xb9 ∷ 0xb2 ∷ 0xba ∷ 0xb3 ∷ 0xbb ∷ [],
          not (s.pc == u16 (pc_before + 2)),
        )
          ∷ [])
        false
    else false

-- The pipeline hint for the next interrupt.
unfoldable pub bumps : Bool → Cpu → Bool
bumps taken s =
    if s.last_prefix == 0
    then switch s.last_op
        ((0x03 ∷ 0x0b ∷ 0x13 ∷ 0x1b ∷ 0x23 ∷ 0x2b ∷ 0x33 ∷ 0x3b ∷ 0xe3 ∷ 0xf9 ∷ [], true)
          ∷ (return_ops, not taken)
          ∷ [])
        false
    else if (s.last_prefix == 0xdd) || (s.last_prefix == 0xfd)
    then switch s.last_op
        ((0x23 ∷ 0x2b ∷ 0x03 ∷ 0x0b ∷ 0x13 ∷ 0x1b ∷ 0x33 ∷ 0x3b ∷ 0xe3 ∷ 0xf9 ∷ [], true)
          ∷ (return_ops, not taken)
          ∷ [])
        false
    else if s.last_prefix == 0xed
    then switch s.last_op
        ((0xb1 ∷ 0xb9 ∷ [], taken)
          ∷ (0xa0 ∷ 0xa8 ∷ 0xb0 ∷ 0xb8 ∷ 0x57 ∷ 0x5f ∷ 0x47 ∷ 0x4f ∷ [], true)
          ∷ [])
        false
    else false

module _ {C : Type 0} (bus : Bus C) where
  -- `if (bus->ticked_in_step) *bus->ticked_in_step = 0;`
  unfoldable pub reset_ticked : M C (Unit {0})
  reset_ticked s = elim bus.reset_ticked [
    | none ↦ (tt, s)
    | some reset ↦ (tt, record s { ctx = reset s.ctx })
  ]

  -- The opt-in path: the count of the instruction is replaced by that of the tables.
  unfoldable pub step_by_tables : M C ℕ
  step_by_tables = do
    before ← gets (λ s. s)
    orig ← z80_step_impl bus
    after ← gets (λ s. s)
    let taken = branch_taken before.pc before.sp after
    let count = table_cycles after + (if taken then get_or cc_ex after.last_op 0 else 0)
    if after.int_accepted || (after.halted && (after.pc == before.pc))
        then ret orig
        else (modify (λ s. record s { i_ws_adjust = from_bool (bumps taken s) }) >> ret count)

  unfoldable pub z80_step : Bool → M C ℕ
  z80_step use_tables = do reset_ticked; if use_tables then step_by_tables else z80_step_impl bus
