-- ===== src/Z80/Regs.antt =====
-- The register numbers of an opcode: `get_r`, `set_r`, `get_rr`, `set_rr` and the conditions `cc`.
use model_lib.Base.{ℕ, bit_and, Bool, not, false, [], ◌∷◌, switch}
use model_lib.Z80.Cpu.{Cpu, bc, de, hl, set_bc, set_de, set_hl, flag}
use model_lib.Z80.Cpu.{flag_c, flag_pv, flag_z, flag_s}
use model_lib.Z80.Bus.{Bus, M, ret, gets, modify, read8, write8}

module _ {C : Type 0} (bus : Bus C) where
  unfoldable pub get_r : ℕ → ℕ → M C ℕ
  get_r r hl =
      switch r
        ((0 ∷ [], gets (λ s. s.b))
          ∷ (1 ∷ [], gets (λ s. s.c))
          ∷ (2 ∷ [], gets (λ s. s.d))
          ∷ (3 ∷ [], gets (λ s. s.e))
          ∷ (4 ∷ [], gets (λ s. s.h))
          ∷ (5 ∷ [], gets (λ s. s.l))
          ∷ (6 ∷ [], read8 bus hl)
          ∷ (7 ∷ [], gets (λ s. s.a))
          ∷ [])
        (ret 0)

  unfoldable pub set_r : ℕ → ℕ → ℕ → M C (Unit {0})
  set_r r hl v =
      switch r
        ((0 ∷ [], modify (λ s. record s { b = v }))
          ∷ (1 ∷ [], modify (λ s. record s { c = v }))
          ∷ (2 ∷ [], modify (λ s. record s { d = v }))
          ∷ (3 ∷ [], modify (λ s. record s { e = v }))
          ∷ (4 ∷ [], modify (λ s. record s { h = v }))
          ∷ (5 ∷ [], modify (λ s. record s { l = v }))
          ∷ (6 ∷ [], write8 bus hl v)
          ∷ (7 ∷ [], modify (λ s. record s { a = v }))
          ∷ [])
        (ret tt)

unfoldable pub get_rr : ℕ → Cpu → ℕ
get_rr rr s = switch rr ((0 ∷ [], bc s) ∷ (1 ∷ [], de s) ∷ (2 ∷ [], hl s) ∷ (3 ∷ [], s.sp) ∷ []) 0

unfoldable pub set_rr : ℕ → ℕ → Cpu → Cpu
set_rr rr v s =
    switch rr
      ((0 ∷ [], set_bc v s)
        ∷ (1 ∷ [], set_de v s)
        ∷ (2 ∷ [], set_hl v s)
        ∷ (3 ∷ [], record s { sp = v })
        ∷ [])
      s

unfoldable pub cc : ℕ → Cpu → Bool
cc c s =
    switch (bit_and c 7)
      ((0 ∷ [], not (flag flag_z s))
        ∷ (1 ∷ [], flag flag_z s)
        ∷ (2 ∷ [], not (flag flag_c s))
        ∷ (3 ∷ [], flag flag_c s)
        ∷ (4 ∷ [], not (flag flag_pv s))
        ∷ (5 ∷ [], flag flag_pv s)
        ∷ (6 ∷ [], not (flag flag_s s))
        ∷ (7 ∷ [], flag flag_s s)
        ∷ [])
      false
