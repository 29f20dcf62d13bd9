-- ===== src/Prelude/Int.antt =====
-- The C integer types over the native numbers: `ℤ` for the mathematical value of an `int`,
-- and the conversions to fixed-width types.
use Prim.Native.Nat.{ℕ, suc, ◌+◌, ◌-◌, ◌%◌}
use mathlib.Core.Bool.{Bool, ◌&&◌}
use j_a_r_v_i_s.Prelude.Tests.{ltb, leb, if◌then◌else◌}

-- `negsuc n` is -(n + 1).
pub data ℤ : Type 0 where
  pos : ℕ → ℤ
  negsuc : ℕ → ℤ

abbrev pub pos_part : ℤ → ℕ
pos_part (pos n) = n
pos_part (negsuc n) = 0

abbrev pub neg_part : ℤ → ℕ
neg_part (pos n) = 0
neg_part (negsuc n) = suc n

-- a - b, as an integer.
abbrev pub sub_ℕ : ℕ → ℕ → ℤ
sub_ℕ a b = if leb b a then pos (a - b) else negsuc (b - a - 1)

infixl 65 ◌+ℤ◌ ◌-ℤ◌
abbrev pub ◌+ℤ◌ : ℤ → ℤ → ℤ
a +ℤ b = sub_ℕ (pos_part a + pos_part b) (neg_part a + neg_part b)

abbrev pub ◌-ℤ◌ : ℤ → ℤ → ℤ
a -ℤ b = sub_ℕ (pos_part a + neg_part b) (neg_part a + pos_part b)

abbrev pub ltb_ℤ : ℤ → ℤ → Bool
ltb_ℤ a b = ltb (pos_part a + neg_part b) (pos_part b + neg_part a)

abbrev pub leb_ℤ : ℤ → ℤ → Bool
leb_ℤ a b = leb (pos_part a + neg_part b) (pos_part b + neg_part a)

abbrev pub eqb_ℤ : ℤ → ℤ → Bool
eqb_ℤ a b = leb_ℤ a b && leb_ℤ b a

-- `(unsigned short) n` of a value that is not negative.
abbrev pub u16 : ℕ → ℕ
u16 n = n % 65536

-- The bit pattern of an `int` cut to 16 bits.
abbrev pub low16 : ℤ → ℕ
low16 (pos n) = n % 65536
low16 (negsuc n) = 65535 - n % 65536

-- The value of a 16-bit pattern read as a `short`.
abbrev pub signed16 : ℕ → ℤ
signed16 w = if ltb w 32768 then pos w else negsuc (65535 - w)

-- `(short) z`.
abbrev pub int16 : ℤ → ℤ
int16 z = signed16 (low16 z)
