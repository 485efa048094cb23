-- ===== src/Base/Integers.antt =====
-- The `int` of C, over the native numbers, and the bound of its magnitude.
use Prim.Native.Nat.{ℕ, suc, ◌+◌, ◌-◌, ◌*◌, ◌/◌, ◌%◌, ◌^◌, ◌≤◌, ◌<◌}
use mathlib.Core.Path.{◌≡◌, refl}
use native.Mathlib.Omega.{arith}
use model_lib.Base.Tests.{ltb, if◌then◌else◌}

pub data ℤ : Type 0 where
  pos : ℕ → ℤ
  negsuc : ℕ → ℤ

infixl 65 ◌⊖◌ ◌+ℤ◌
-- The difference of two naturals.
abbrev pub ◌⊖◌ : ℕ → ℕ → ℤ
m ⊖ n = if ltb m n then negsuc (n - m - 1) else pos (m - n)

abbrev pub ◌+ℤ◌ : ℤ → ℤ → ℤ
pos a +ℤ pos b = pos (a + b)
pos a +ℤ negsuc b = a ⊖ suc b
negsuc a +ℤ pos b = b ⊖ suc a
negsuc a +ℤ negsuc b = negsuc (suc (a + b))

-- A product with a natural.
abbrev pub scale : ℤ → ℕ → ℤ
scale (pos a) n = pos (a * n)
scale (negsuc a) n = 0 ⊖ (suc a * n)

-- `z / n`, which rounds towards 0.
abbrev pub quotient : ℤ → ℕ → ℤ
quotient (pos a) n = pos (a / n)
quotient (negsuc a) n = 0 ⊖ (suc a / n)

-- `z >> k`, which rounds down.
abbrev pub shift_right : ℤ → ℕ → ℤ
shift_right (pos a) k = pos (a / 2 ^ k)
shift_right (negsuc a) k = negsuc (a / 2 ^ k)

-- `(s8)b` of a byte.
abbrev pub s8 : ℕ → ℤ
s8 b = if ltb b 128 then pos b else negsuc (255 - b)

-- A sum cut to the range of `s16`.
abbrev pub clamp16 : ℤ → ℤ
clamp16 (pos a) = if ltb 32767 a then pos 32767 else pos a
clamp16 (negsuc a) = if ltb 32767 a then negsuc 32767 else negsuc a

-- The `int` that 32 bits hold: a value out of range wraps around.
abbrev pub signed32 : ℕ → ℤ
signed32 w = if ltb w (2 ^ 31) then pos w else negsuc (2 ^ 32 - w - 1)

abbrev pub int32 : ℤ → ℤ
int32 (pos a) = signed32 (a % 2 ^ 32)
int32 (negsuc a) = signed32 (2 ^ 32 - 1 - a % 2 ^ 32)

abbrev pub opposite : ℤ → ℤ
opposite (pos a) = 0 ⊖ a
opposite (negsuc a) = pos (suc a)

-- `z / d`, which rounds towards 0.
abbrev pub divide : ℤ → ℤ → ℤ
divide z (pos d) = quotient z d
divide z (negsuc d) = opposite (quotient z (suc d))

abbrev pub magnitude : ℤ → ℕ
magnitude (pos a) = a
magnitude (negsuc a) = suc a

magnitude-⊖ : (m n : ℕ) → magnitude (m ⊖ n) ≤ m + n
magnitude-⊖ m n = ground arith

pub magnitude-+ℤ : (a b : ℤ) → magnitude (a +ℤ b) ≤ magnitude a + magnitude b
magnitude-+ℤ (pos a) (pos b) = omega arith
magnitude-+ℤ (pos a) (negsuc b) = magnitude-⊖ a (suc b)
magnitude-+ℤ (negsuc a) (pos b) = omega (arith, magnitude-⊖ b (suc a))
magnitude-+ℤ (negsuc a) (negsuc b) = omega arith

negated : (n : ℕ) → magnitude (0 ⊖ n) ≡ n
negated n = ground arith

pub magnitude-scale : (a : ℤ) (n : ℕ) → magnitude (scale a n) ≡ magnitude a * n
magnitude-scale (pos a) n = refl
magnitude-scale (negsuc a) n = negated (suc a * n)

pub magnitude-quotient : (a : ℤ) (n : ℕ) → magnitude (quotient a n) ≡ magnitude a / n
magnitude-quotient (pos a) n = refl
magnitude-quotient (negsuc a) n = negated (suc a / n)

pub clamp16-in_range : (a : ℤ) → magnitude a ≤ 32767 → clamp16 a ≡ a
clamp16-in_range (pos a) h = ground arith
clamp16-in_range (negsuc a) h = ground arith

pub int32-in_range : (z : ℤ) → magnitude z < 2 ^ 31 → int32 z ≡ z
int32-in_range (pos a) h = ground arith
int32-in_range (negsuc a) h = ground arith
