-- ===== src/Z80/Laws/Timing.antt =====
-- The cycle counts that z80_step may report, without and with the tables.
use model_lib.Base.{
  ℕ, ◌+◌, ◌≤◌, ◌<◌, ◌≡◌, inl, inr, refl, Bool, true, false, ◌&&◌, ◌||◌, List, arith, leb, ◌==◌,
  if◌then◌else◌, ==_iff, Bool-cases, all_below, all_below_sound, get_or,
}
use model_lib.Z80.Cpu.{Cpu}
use model_lib.Z80.Bus.{Bus, Machine}
use model_lib.Z80.Main.{z80_step_impl}
use model_lib.Z80.Tables.{cc_op, cc_cb, cc_ed, cc_xy, cc_xycb, cc_ex}
use model_lib.Z80.Step.{table_cycles, branch_taken, step_by_tables, z80_step}
use model_lib.Z80.Laws.Cycles.{z80_step_impl-Timed}

-- What the entries of the tables for one operation keep to, with what a branch adds.
abbrev in_limits : ℕ → ℕ → ℕ → ℕ → ℕ → ℕ → Bool
in_limits op cb ed xy xycb extra =
    leb 4 op && leb (op + extra) 28 && leb cb 24 && leb (ed + extra) 24 && leb xy 24 && leb xycb 20

abbrev at : List ℕ → ℕ → ℕ
at t i = get_or t i 0

abbrev entries_fit : ℕ → Bool
entries_fit k =
    in_limits (at cc_op k) (at cc_cb k) (at cc_ed k) (at cc_xy k) (at cc_xycb k) (at cc_ex k)

entries_table : all_below 256 entries_fit ≡ true
unfolding all_below
entries_table = refl

entries : (k : ℕ) → k < 256 → entries_fit k ≡ true
entries k h = all_below_sound 256 entries_fit entries_table k h

-- A branch adds cycles only to an instruction without a prefix or with ED.
no_branch :
    (pc sp : ℕ) (s : Cpu)
    → (s.last_prefix == 0) ≡ false
    → (s.last_prefix == 0xed) ≡ false
    → branch_taken pc sp s ≡ false
unfolding branch_taken
no_branch pc sp s e f = simp (e, f) refl

-- The count for each prefix, of the entries for the operation.
abbrev by_prefix : Cpu → ℕ → ℕ → ℕ → ℕ → ℕ → ℕ
by_prefix s op cb ed xy xycb =
    if s.last_prefix == 0xcb
    then 4 + cb
    else if s.last_prefix == 0xed
    then 4 + ed
    else if (s.last_prefix == 0xdd) || (s.last_prefix == 0xfd)
    then (if s.last_prefix_ignored then 4 else if s.last_xycb then 4 + 4 + xycb else 4 + xy)
    else op

or_false : (b : Bool) → b || false ≡ b
or_false true = refl
or_false false = refl

table_cycles-by_prefix :
    (s : Cpu)
    → table_cycles s
      ≡ by_prefix s
          (at cc_op s.last_op)
          (at cc_cb s.last_op)
          (at cc_ed s.last_op)
          (at cc_xy s.last_op)
          (at cc_xycb s.last_op)
unfolding table_cycles
table_cycles-by_prefix s = elim (Bool-cases (s.last_prefix == 0xdd)) [
  | inl e ↦ rw ((==_iff s.last_prefix 0xdd).0 e) refl
  | inr e ↦ elim (Bool-cases (s.last_prefix == 0xfd)) [
    | inl f ↦ rw ((==_iff s.last_prefix 0xfd).0 f) refl
    | inr f ↦ simp (e, f, or_false) refl
  ]
]

count_fits :
    (s : Cpu) (op cb ed xy xycb extra : ℕ)
    → in_limits op cb ed xy xycb extra ≡ true
    → (taken : Bool)
    → ((s.last_prefix == 0) ≡ false → (s.last_prefix == 0xed) ≡ false → taken ≡ false)
    → let n = by_prefix s op cb ed xy xycb + (if taken then extra else 0) in (4 ≤ n) × (n ≤ 28)
count_fits s op cb ed xy xycb extra fits taken h = ground arith

-- The count of the tables for an operation that is a byte.
table_bound :
    (pc sp : ℕ) (s : Cpu)
    → s.last_op < 256
    → let n = table_cycles s + (if branch_taken pc sp s then get_or cc_ex s.last_op 0 else 0) in
      (4 ≤ n) × (n ≤ 28)
table_bound pc sp s h =
    rw (table_cycles-by_prefix s)
      (count_fits s _ _ _ _ _ _ (entries s.last_op h) (branch_taken pc sp s) (no_branch pc sp s))

module _ {C : Type 0} (bus : Bus C) where
  tables_cycles :
      (s : Machine C)
      → (step_by_tables bus s).1.cpu.last_op < 256
      → let n = (step_by_tables bus s).0 in (4 ≤ n) × (n ≤ 28)
  unfolding step_by_tables
  tables_cycles s h =
      let (orig, t) = z80_step_impl bus s in
      elim (Bool-cases (t.cpu.int_accepted || (t.cpu.halted && (t.cpu.pc == s.cpu.pc)))) [
        | inl e ↦ simp e (omega (arith, z80_step_impl-Timed bus s))
        | inr e ↦ simp e (table_bound s.cpu.pc s.cpu.sp t.cpu (simp e at h))
      ]

  -- An instruction, an interrupt or a halted step that leaves a byte as its last operation reports
  -- at least 4 cycles, and at most 25 without the tables and 28 with them, whatever the processor's
  -- state and the machine on the bus.
  pub z80_step_cycles :
      (use_tables : Bool) (s : Machine C)
      → (z80_step bus use_tables s).1.cpu.last_op < 256
      → let n = (z80_step bus use_tables s).0 in (4 ≤ n) × (n ≤ (if use_tables then 28 else 25))
  unfolding z80_step
  z80_step_cycles false s h = z80_step_impl-Timed bus _
  z80_step_cycles true s h = tables_cycles _ h
