-- ===== src/Z80/Laws/Copy.antt =====
-- The copy upwards that LDIR performs, as a move of a block.
use model_lib.Base.{ℕ, zero, suc, ◌+◌, ◌<◌, ◌≤◌, ◌≡◌, ◌⊎◌, inl, refl, ap, ◌∙◌, arith}
use model_lib.Base.{◌==◌, if◌then◌else◌}
use model_lib.Z80.Cpu.{hl, de, inc16}
use model_lib.Z80.Bus.{Bus, Machine}
use model_lib.Z80.Ram.{IsRam}
use model_lib.Z80.Laws.Block.{AtLdir, copy}
use model_lib.Z80.Laws.Ldir.{LeavesCode, steps, ldir_copies}

copy_outside :
    (n src dst : ℕ) (m : ℕ → ℕ) (b : ℕ)
    → dst + n ≤ 65536
    → (b < dst) ⊎ (dst + n ≤ b)
    → copy n src dst m b ≡ m b
unfolding copy
copy_outside zero src dst m b fits out = refl
copy_outside (suc zero) src dst m b fits out = ground arith
copy_outside (suc (suc n)) src dst m b fits out =
    let m' : ℕ → ℕ = λ x. if dst == x then m src else m x in
    copy_outside (suc n) (inc16 src) (inc16 dst) m' b (omega arith) (ground arith) ∙ ground arith

copy_inside :
    (n src dst : ℕ) (m : ℕ → ℕ) (i : ℕ)
    → i < n
    → src + n ≤ 65536
    → dst + n ≤ 65536
    → (dst ≤ src) ⊎ (src + n ≤ dst)
    → copy n src dst m (dst + i) ≡ m (src + i)
unfolding copy
copy_inside zero src dst m i h fits fits' apart = absurd (omega arith)
copy_inside (suc zero) src dst m i h fits fits' apart =
    let first : i ≡ 0 = omega arith in
    let at : dst + 0 ≡ dst = omega arith in
    let from : src + 0 ≡ src = omega arith in rw (first, at, from) (ground arith)
copy_inside (suc (suc n)) src dst m zero h fits fits' apart =
    let m' : ℕ → ℕ = λ x. if dst == x then m src else m x in
    let at : dst + 0 ≡ dst = omega arith in
    let from : src + 0 ≡ src = omega arith in
    rw (at, from)
      (copy_outside (suc n) (inc16 src) (inc16 dst) m' dst (omega arith) (inl (omega arith))
        ∙ ground arith)
copy_inside (suc (suc n)) src dst m (suc i) h fits fits' apart =
    let m' : ℕ → ℕ = λ x. if dst == x then m src else m x in
    let at : dst + suc i ≡ inc16 dst + i = omega arith in
    let from : inc16 src + i ≡ src + suc i = omega arith in
    rw at (
      copy_inside (suc n) (inc16 src) (inc16 dst) m' i (omega arith) (omega arith) (omega arith)
        (omega arith)
      ∙ rw from (ground arith))

module _ {C : Type 0} {bus : Bus C} (ram : IsRam bus) where
  open ram use {peek}

  -- LDIR as a block move: where the two blocks do not wrap and the destination does not begin
  -- inside the source, the destination holds what the source held, and every other byte of the
  -- memory is as it was.
  pub ldir_moves :
      (n : ℕ) (s : Machine C)
      → AtLdir ram n s
      → LeavesCode ram n s
      → hl s.cpu + n ≤ 65536
      → de s.cpu + n ≤ 65536
      → (de s.cpu ≤ hl s.cpu) ⊎ (hl s.cpu + n ≤ de s.cpu)
      → let t = steps ram n s in
        ((i : ℕ) → i < n → peek t.ctx (de s.cpu + i) ≡ peek s.ctx (hl s.cpu + i))
        × ((b : ℕ) → (b < de s.cpu) ⊎ (de s.cpu + n ≤ b) → peek t.ctx b ≡ peek s.ctx b)
  ldir_moves n s v clear fits fits' apart =
      let copied = ldir_copies ram n s v clear in
      (
        λ i h.
            ap (λ m. m (de s.cpu + i)) copied.memory
            ∙ copy_inside n (hl s.cpu) (de s.cpu) (peek s.ctx) i h fits fits' apart,
        λ b out.
            ap (λ m. m b) copied.memory
            ∙ copy_outside n (hl s.cpu) (de s.cpu) (peek s.ctx) b fits' out,
      )
