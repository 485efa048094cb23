-- ===== src/Z80/Tests.antt =====
-- Runs of the processor of src/z80.c on small machines.
use model_lib.Base.{ℕ, ◌+◌, ◌*◌, ◌<◌, ◌≤◌, ◌≡◌, ◌≢◌, ◌⊎◌, inr, refl, arith}
use model_lib.Base.{true, false, ◌==◌, if◌then◌else◌, leb}
use model_lib.Base.{u8, from_bool}
use model_lib.Z80.Cpu.{Cpu, flag, flag_c, flag_z, flag_s, flag_h, flag_pv, flag_n, refresh}
use model_lib.Z80.Bus.{fetch8, read8, Machine, ◌>>◌, push16, pop16}
use model_lib.Z80.Ram.{flat_bus, flat-IsRam}
use model_lib.Z80.Alu.{do_add, do_sub}
use model_lib.Z80.Xy.{xy_cases}
use model_lib.Z80.Xy.Halves.{xy_half_cases, xy_alu_cases}
use model_lib.Z80.Xy.Memory.{ix_reg, add_xy, double_xy, xy_word_cases, xy_memory_cases}
use model_lib.Z80.Main.{z80_step_impl, run_or_halt, run_opcode, main_op, main_cases}
use model_lib.Z80.Main.Loads.{load_cases, count_cases}
use model_lib.Z80.Main.Accumulator.{daa}
use model_lib.Z80.Step.{reset_ticked, z80_init, step_by_tables, z80_step}
use model_lib.Z80.Laws.Block.{AtLdir}
use model_lib.Z80.Laws.Ldir.{LeavesCode, Copied, steps, ldir_copies}
use model_lib.Z80.Laws.Copy.{ldir_moves}
use model_lib.Z80.Laws.Alu.{do_add_lem}
use model_lib.Z80.Laws.Decimal.{to_bcd, daa-do_add, daa-do_sub}
use model_lib.Z80.Laws.Index.{double_xy-half_carry}
use model_lib.Z80.Laws.Interrupts.{interrupt_mode_1}
use model_lib.Z80.Laws.Enable.{ei_nop_interrupt}
use model_lib.Z80.Laws.Stack.{pop16-push16}
use model_lib.Z80.Laws.Timing.{z80_step_cycles}
use model_lib.Z80.Laws.Prefix.{prefix_ignored}
use model_lib.Z80.Laws.Refresh.{halted_step}

-- ED B0 at 0x0100, DD 00 at 0x0110, and elsewhere the low byte of the address.
abbrev program : ℕ → ℕ
program a =
    if a == 0x100
    then 0xed
    else if a == 0x101
    then 0xb0
    else if a == 0x110
    then 0xdd
    else if a == 0x111
    then 0x00
    else u8 a

abbrev at : ℕ → Cpu
at a = record z80_init { pc = a; sp = 0xf000; r = 0xff; a = 0x45 }

-- Two bytes to copy from 0x0203 to 0x0300.
abbrev before_ldir : Machine (ℕ → ℕ)
before_ldir = record {
  cpu = record (at 0x100) { h = 2; l = 3; d = 3; e = 0; b = 0; c = 2 };
  ctx = program;
}

before_ldir-AtLdir : AtLdir flat-IsRam 2 before_ldir
unfolding z80_init
before_ldir-AtLdir = record {
  bytes = record {
    h = omega arith;
    l = omega arith;
    d = omega arith;
    e = omega arith;
    b = omega arith;
    c = omega arith;
  };
  quiet = refl;
  running = refl;
  pc_lt = omega arith;
  first = refl;
  second = refl;
  rounds_pos = omega arith;
  rounds_le = omega arith;
  count = refl;
}

before_ldir-LeavesCode : LeavesCode flat-IsRam 2 before_ldir
before_ldir-LeavesCode i h = (λ e. omega arith, λ e. omega arith)

ldir_copies_example : Copied flat-IsRam 2 before_ldir (steps flat-IsRam 2 before_ldir)
ldir_copies_example = ldir_copies flat-IsRam 2 before_ldir before_ldir-AtLdir before_ldir-LeavesCode

ldir_moves_example :
    let t = steps flat-IsRam 2 before_ldir in
    ((i : ℕ) → i < 2 → u8 (t.ctx (0x300 + i)) ≡ u8 (program (0x203 + i)))
    × ((b : ℕ) → (b < 0x300) ⊎ (0x302 ≤ b) → u8 (t.ctx b) ≡ u8 (program b))
ldir_moves_example =
    ldir_moves flat-IsRam 2 before_ldir before_ldir-AtLdir before_ldir-LeavesCode (omega arith)
      (omega arith) (inr (omega arith))

do_add_example :
    let t = do_add 0x7b true (at 0) in
    (t.a + 256 * from_bool (flag flag_c t) ≡ 0xc1)
    × (flag flag_z t ≡ (t.a == 0))
    × (flag flag_s t ≡ leb 128 t.a)
    × (flag flag_h t ≡ true)
    × (flag flag_pv t ≡ true)
    × (flag flag_n t ≡ false)
do_add_example = do_add_lem 0x7b true (at 0) (omega arith) (omega arith)

daa-do_add_example :
    let t = daa (do_add (to_bcd 77) true (at 0)) in
    (t.a ≡ to_bcd 23) × (from_bool (flag flag_c t) ≡ 1)
daa-do_add_example = daa-do_add 45 77 true (at 0) (omega arith) (omega arith) refl

daa-do_sub_example :
    let t = daa (do_sub (to_bcd 77) true (at 0)) in
    (t.a ≡ to_bcd 67) × (from_bool (flag flag_c t) ≡ 1)
daa-do_sub_example = daa-do_sub 45 77 true (at 0) (omega arith) (omega arith) refl

abbrev with_hl : Cpu
with_hl = record (at 0) { h = 0x7f; l = 0xff; f = 1; ix = 0x0900 }

abbrev interrupted : Machine (ℕ → ℕ)
interrupted = record {
  cpu = record (at 0x1234) { pending_irq = true; iff1 = true; iff2 = true; im = 1; halted = true };
  ctx = program;
}

interrupt_mode_1_example :
    let (n, t) = z80_step_impl flat_bus interrupted in
    (n ≡ 13)
    × (t.cpu.pc ≡ 0x0038)
    × (t.cpu.sp ≡ 0xeffe)
    × (t.cpu.iff1 ≡ false)
    × (t.cpu.iff2 ≡ false)
    × (t.cpu.pending_irq ≡ false)
    × (t.cpu.halted ≡ false)
    × (t.cpu.int_accepted ≡ true)
    × (u8 (t.ctx 0xeffe) ≡ 0x34)
    × (u8 (t.ctx 0xefff) ≡ 0x12)
unfolding z80_init
interrupt_mode_1_example =
    interrupt_mode_1 flat-IsRam interrupted refl refl (omega arith) (omega arith)

-- EI and NOP at 0x0120.
abbrev enabling : Machine (ℕ → ℕ)
enabling = record {
  cpu = record (at 0x120) { pending_irq = true; im = 1 };
  ctx = λ a. if a == 0x120 then 0xfb else 0x00;
}

ei_nop_interrupt_example :
    let t = (z80_step_impl flat_bus enabling).1 in
    let u = (z80_step_impl flat_bus t).1 in
    let v = (z80_step_impl flat_bus u).1 in
    (t.cpu.pc ≡ 0x121)
    × (u.cpu.pc ≡ 0x122)
    × (v.cpu.pc ≡ 0x0038)
    × (u8 (v.ctx 0xeffe) ≡ 0x22)
    × (u8 (v.ctx 0xefff) ≡ 0x01)
unfolding z80_init
ei_nop_interrupt_example =
    ei_nop_interrupt flat-IsRam enabling refl refl refl refl (omega arith) (omega arith) refl refl

pop16-push16_example :
    let t = (push16 flat_bus 0xabcd >> pop16 flat_bus) before_ldir in
    (t.0 ≡ 0xabcd)
    × (t.1.cpu ≡ before_ldir.cpu)
    × ((b : ℕ) → b ≢ 0xefff → b ≢ 0xeffe → u8 (t.1.ctx b) ≡ u8 (program b))
pop16-push16_example = pop16-push16 flat-IsRam 0xabcd before_ldir (omega arith) (omega arith)

-- At 0x0223 there is INC HL, which the tables count.
abbrev before_inc : Machine (ℕ → ℕ)
before_inc = record { cpu = at 0x223; ctx = program }

inc_operation : (z80_step flat_bus true before_inc).1.cpu.last_op ≡ 0x23
unfolding z80_init reset_ticked z80_step step_by_tables z80_step_impl run_or_halt run_opcode main_op
    main_cases fetch8 read8 load_cases refresh count_cases
inc_operation = refl

z80_step_cycles_example : let n = (z80_step flat_bus true before_inc).0 in (4 ≤ n) × (n ≤ 28)
z80_step_cycles_example = z80_step_cycles flat_bus true before_inc (omega (arith, inc_operation))

abbrev before_prefix : Machine (ℕ → ℕ)
before_prefix = record { cpu = at 0x110; ctx = program }

prefix_ignored_example :
    let (n, t) = z80_step_impl flat_bus before_prefix in
    (n ≡ 4)
    × (t.ctx ≡ program)
    × (t.cpu.pc ≡ 0x111)
    × (t.cpu.last_prefix_ignored ≡ true)
    × (t.cpu.r ≡ 0x81)
unfolding z80_init xy_cases xy_word_cases xy_memory_cases xy_half_cases xy_alu_cases
prefix_ignored_example =
    prefix_ignored flat-IsRam before_prefix 0x00 refl refl (omega arith) (omega arith) refl refl
      refl

abbrev asleep : Machine (ℕ → ℕ)
asleep = record { cpu = record (at 0x110) { halted = true }; ctx = program }

halted_step_example :
    let (n, t) = z80_step_impl flat_bus asleep in
    (n ≡ 4)
    × (t.ctx ≡ program)
    × (t.cpu.pc ≡ 0x110)
    × (t.cpu.halted ≡ true)
    × (t.cpu.r ≡ 0)
    × (128 ≤ 0xff → t.cpu.r ≢ (refresh (at 0x110)).r)
unfolding z80_init refresh
halted_step_example = halted_step flat_bus asleep refl refl (omega arith)

double_xy-half_carry_example :
    let t = double_xy ix_reg with_hl in
    let u = add_xy ix_reg 0x0900 with_hl in
    (t.ix ≡ u.ix)
    × (flag flag_c t ≡ flag flag_c u)
    × (flag flag_h t ≡ false)
    × (flag flag_h u ≡ true)
double_xy-half_carry_example = double_xy-half_carry with_hl (omega arith)
