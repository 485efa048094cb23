-- ===== src/Psg/Laws/Registers.antt =====
-- The registers of src/psg.c: what a read gives after a write.
use model_lib.Base.{ℕ, ◌%◌, ◌<◌, ◌≡◌, inl, inr, refl, ap, sym, ◌∙◌, arith, false, ◌||◌}
use model_lib.Base.{
  leb, ◌==◌, ==_iff, if◌then◌else◌, get_or, set, length, get_or-set_self, get_or-set_ne, Bool-cases,
}
use model_lib.Base.Bits.{bit_and-mask}
use model_lib.Psg.Chip.{
  Psg, visible, after_write, restart_envelope, psg_select, psg_write_register, psg_write_data,
  psg_read_register, psg_read_data,
}

after_write_registers :
    (reg value : ℕ) (s : Psg)
    → ((after_write reg value s).registers ≡ s.registers)
      × ((after_write reg value s).variant ≡ s.variant)
      × ((after_write reg value s).selected ≡ s.selected)
unfolding after_write restart_envelope
after_write_registers reg value s = elim (Bool-cases (leb reg 5)) [
  | inl e ↦ rw e (refl, refl, refl)
  | inr e ↦ elim (Bool-cases (reg == 6)) [
    | inl f ↦ rw (e, f) (refl, refl, refl)
    | inr f ↦ elim (Bool-cases ((reg == 11) || (reg == 12))) [
      | inl g ↦ rw (e, f, g) (refl, refl, refl)
      | inr g ↦ elim (Bool-cases (reg == 13)) [
        | inl h ↦ rw (e, f, g, h) (refl, refl, refl)
        | inr h ↦ rw (e, f, g, h) (refl, refl, refl)
      ]
    ]
  ]
]

stored :
    (reg value : ℕ) (s : Psg)
    → reg < 16
    → ((psg_write_register reg value s).registers ≡ set s.registers reg value)
      × ((psg_write_register reg value s).variant ≡ s.variant)
      × ((psg_write_register reg value s).selected ≡ s.selected)
unfolding psg_write_register
stored reg value s h =
    let inside : leb 16 reg ≡ false = ground arith in
    rw inside (after_write_registers reg value (record s { registers = set s.registers reg value }))

read_path :
    (reg : ℕ) (s : Psg)
    → reg < 16
    → psg_read_register reg s ≡ visible s.variant reg (get_or s.registers reg 0)
unfolding psg_read_register
read_path reg s h = let inside : leb 16 reg ≡ false = ground arith in rw inside

-- Through the ports: after `value` is written to the selected register, a register that is then
-- selected and read gives what the variant shows of the value if it is the same, and what it gave
-- before if it is another.
pub psg_read_data-psg_write_data :
    (reg other value : ℕ) (s : Psg)
    → length s.registers ≡ 16
    → let r = reg % 16 in
      let o = other % 16 in
      psg_read_data (psg_select other (psg_write_data value (psg_select reg s)))
      ≡ (if r == o then visible s.variant r value else psg_read_data (psg_select other s))
unfolding psg_read_data psg_select psg_write_data
psg_read_data-psg_write_data reg other value s hl =
    let r = reg % 16 in
    let o = other % 16 in
    let s1 : Psg = record s { selected = r } in
    let t = psg_write_register r value s1 in
    let kept = stored r value s1 (omega arith) in
    rw (bit_and-mask 4 reg, bit_and-mask 4 other)
      (read_path o (record t { selected = o }) (omega arith)
        ∙ ap (λ v. visible v o (get_or t.registers o 0)) kept.1
        ∙ ap (λ m. visible s.variant o (get_or m o 0)) kept.0
        ∙ elim (Bool-cases (r == o)) [
          | inl e ↦
              let same : o ≡ r = sym ((==_iff r o).0 e) in
              rw (e, same)
                (ap (visible s.variant r)
                  (get_or-set_self s.registers r value 0 (omega (arith, hl))))
          | inr e ↦ rw e (
              ap (visible s.variant o) (get_or-set_ne s.registers r o value 0 (λ g. ground arith))
              ∙ sym (read_path o (record s { selected = o }) (omega arith)))
        ])
