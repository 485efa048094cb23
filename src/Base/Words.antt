-- ===== src/Base/Words.antt =====
-- The casts of C to its unsigned types, shifts and complements.
use Prim.Native.Nat.{ℕ, ◌+◌, ◌-◌, ◌*◌, ◌/◌, ◌%◌, ◌^◌}
use model_lib.Base.Tests.{ltb, if◌then◌else◌}

abbrev pub u8 : ℕ → ℕ
u8 n = n % 256

abbrev pub u16 : ℕ → ℕ
u16 n = n % 65536

abbrev pub u32 : ℕ → ℕ
u32 n = n % 4294967296

-- A difference that wraps: `a - b` for `b` below the modulus.
abbrev pub sub8 : ℕ → ℕ → ℕ
sub8 a b = (a + 256 - b) % 256

abbrev pub sub16 : ℕ → ℕ → ℕ
sub16 a b = (a + 65536 - b) % 65536

-- `(u16)(a + (s8)d)` for a byte `d`.
abbrev pub add_s8 : ℕ → ℕ → ℕ
add_s8 a d = if ltb d 128 then (a + d) % 65536 else (a + 65536 + d - 256) % 65536

infixl 75 ◌<<<◌ ◌>>>◌
abbrev pub ◌<<<◌ : ℕ → ℕ → ℕ
x <<< k = x * 2 ^ k

abbrev pub ◌>>>◌ : ℕ → ℕ → ℕ
x >>> k = x / 2 ^ k

-- `~v` of a byte and of a 16-bit word.
abbrev pub not8 : ℕ → ℕ
not8 v = 255 - v

abbrev pub not16 : ℕ → ℕ
not16 v = 65535 - v
