-- ===== src/Z80/Main/Loads.antt =====
-- Unprefixed opcodes 0x00 to 0x3F that load, count and exchange: cases of z80_step_impl in
-- src/z80.c.
use model_lib.Base.{ℕ, List, [], ◌∷◌}
use model_lib.Z80.Cpu.{Cpu, af, bc, de, hl, set_af, set_bc, set_de, set_hl, inc16, dec16}
use model_lib.Z80.Cpu.{set_a, set_b, set_c, set_d, set_e, set_h, set_l, set_sp}
use model_lib.Z80.Bus.{Bus, M, ◌>>=◌, gets, modify, apply, cost, read8, write8, fetch8}
use model_lib.Z80.Bus.{fetch16, read16, write16}
use model_lib.Z80.Alu.{do_inc, do_dec}

abbrev reg_a : Cpu → ℕ
reg_a s = s.a

-- EX AF,AF'
unfoldable pub exchange_af : Cpu → Cpu
exchange_af s = record (set_af s.af' s) { af' = af s }

module _ {C : Type 0} (bus : Bus C) where
  unfoldable pub load_cases : List (List ℕ × M C ℕ)
  load_cases =
      (0x01 ∷ [], cost 10 (fetch16 bus >>= (λ v. modify (set_bc v))))
      ∷ (0x11 ∷ [], cost 10 (fetch16 bus >>= (λ v. modify (set_de v))))
      ∷ (0x21 ∷ [], cost 10 (fetch16 bus >>= (λ v. modify (set_hl v))))
      ∷ (0x31 ∷ [], cost 10 (fetch16 bus >>= (λ v. modify (set_sp v))))
      ∷ (0x06 ∷ [], cost 7 (fetch8 bus >>= (λ v. modify (set_b v))))
      ∷ (0x0e ∷ [], cost 7 (fetch8 bus >>= (λ v. modify (set_c v))))
      ∷ (0x16 ∷ [], cost 7 (fetch8 bus >>= (λ v. modify (set_d v))))
      ∷ (0x1e ∷ [], cost 7 (fetch8 bus >>= (λ v. modify (set_e v))))
      ∷ (0x26 ∷ [], cost 7 (fetch8 bus >>= (λ v. modify (set_h v))))
      ∷ (0x2e ∷ [], cost 7 (fetch8 bus >>= (λ v. modify (set_l v))))
      ∷ (0x3e ∷ [], cost 7 (fetch8 bus >>= (λ v. modify (set_a v))))
      ∷ (0x36 ∷ [], cost 10 (do n ← fetch8 bus; addr ← gets hl; write8 bus addr n))
      ∷ (0x02 ∷ [], cost 7 (do addr ← gets bc; v ← gets reg_a; write8 bus addr v))
      ∷ (0x12 ∷ [], cost 7 (do addr ← gets de; v ← gets reg_a; write8 bus addr v))
      ∷ (0x32 ∷ [], cost 13 (do addr ← fetch16 bus; v ← gets reg_a; write8 bus addr v))
      ∷ (0x0a ∷ [], cost 7 (do addr ← gets bc; v ← read8 bus addr; modify (set_a v)))
      ∷ (0x1a ∷ [], cost 7 (do addr ← gets de; v ← read8 bus addr; modify (set_a v)))
      ∷ (0x3a ∷ [], cost 13 (do addr ← fetch16 bus; v ← read8 bus addr; modify (set_a v)))
      ∷ (0x22 ∷ [], cost 16 (do addr ← fetch16 bus; v ← gets hl; write16 bus addr v))
      ∷ (0x2a ∷ [], cost 16 (do addr ← fetch16 bus; v ← read16 bus addr; modify (set_hl v)))
      ∷ (0x08 ∷ [], cost 4 (modify exchange_af))
      ∷ []

  unfoldable pub count_cases : List (List ℕ × M C ℕ)
  count_cases =
      (0x03 ∷ [], cost 6 (modify (λ s. set_bc (inc16 (bc s)) s)))
      ∷ (0x0b ∷ [], cost 6 (modify (λ s. set_bc (dec16 (bc s)) s)))
      ∷ (0x13 ∷ [], cost 6 (modify (λ s. set_de (inc16 (de s)) s)))
      ∷ (0x1b ∷ [], cost 6 (modify (λ s. set_de (dec16 (de s)) s)))
      ∷ (0x23 ∷ [], cost 6 (modify (λ s. set_hl (inc16 (hl s)) s)))
      ∷ (0x2b ∷ [], cost 6 (modify (λ s. set_hl (dec16 (hl s)) s)))
      ∷ (0x33 ∷ [], cost 6 (modify (λ s. set_sp (inc16 s.sp) s)))
      ∷ (0x3b ∷ [], cost 6 (modify (λ s. set_sp (dec16 s.sp) s)))
      ∷ (0x04 ∷ [], cost 4 (modify (λ s. let (v, t) = do_inc s.b s in set_b v t)))
      ∷ (0x0c ∷ [], cost 4 (modify (λ s. let (v, t) = do_inc s.c s in set_c v t)))
      ∷ (0x14 ∷ [], cost 4 (modify (λ s. let (v, t) = do_inc s.d s in set_d v t)))
      ∷ (0x1c ∷ [], cost 4 (modify (λ s. let (v, t) = do_inc s.e s in set_e v t)))
      ∷ (0x24 ∷ [], cost 4 (modify (λ s. let (v, t) = do_inc s.h s in set_h v t)))
      ∷ (0x2c ∷ [], cost 4 (modify (λ s. let (v, t) = do_inc s.l s in set_l v t)))
      ∷ (0x3c ∷ [], cost 4 (modify (λ s. let (v, t) = do_inc s.a s in set_a v t)))
      ∷ (
        0x34 ∷ [],
        cost 11 (do
          addr ← gets hl
          v ← read8 bus addr
          w ← apply (do_inc v)
          at ← gets hl
          write8 bus at w),
      )
      ∷ (0x05 ∷ [], cost 4 (modify (λ s. let (v, t) = do_dec s.b s in set_b v t)))
      ∷ (0x0d ∷ [], cost 4 (modify (λ s. let (v, t) = do_dec s.c s in set_c v t)))
      ∷ (0x15 ∷ [], cost 4 (modify (λ s. let (v, t) = do_dec s.d s in set_d v t)))
      ∷ (0x1d ∷ [], cost 4 (modify (λ s. let (v, t) = do_dec s.e s in set_e v t)))
      ∷ (0x25 ∷ [], cost 4 (modify (λ s. let (v, t) = do_dec s.h s in set_h v t)))
      ∷ (0x2d ∷ [], cost 4 (modify (λ s. let (v, t) = do_dec s.l s in set_l v t)))
      ∷ (0x3d ∷ [], cost 4 (modify (λ s. let (v, t) = do_dec s.a s in set_a v t)))
      ∷ (
        0x35 ∷ [],
        cost 11 (do
          addr ← gets hl
          v ← read8 bus addr
          w ← apply (do_dec v)
          at ← gets hl
          write8 bus at w),
      )
      ∷ []
