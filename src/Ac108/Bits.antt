-- ===== src/Ac108/Bits.antt =====
-- Single bits of native numbers, for the masks and shifts of the codec driver.
use Prim.Native.Nat.{max, bit_and, bit_or, digits, bitwise, bit_and-bitwise, bit_or-bitwise}
use native.Mathlib.Nat.{div-div-eq-div-mul, div-add-mod', pow-le-pow_right}
use j_a_r_v_i_s.Prelude.{
  ℕ, zero, suc, ◌+◌, ◌-◌, ◌*◌, ◌/◌, ◌%◌, ◌^◌, ◌≤◌, ◌<◌, min, ◌≡◌, refl, ap, sym, ◌∙◌, arith, ltb,
  ◌==◌, if◌then◌else◌,
}

-- Bit `i` of `x`, 0 or 1.
unfoldable pub bit : ℕ → ℕ → ℕ
bit x zero = x % 2
bit x (suc i) = bit (x / 2) i

-- The digits of an operation, one law for each of its two arguments' lowest digits.
module _ (past : ℕ → ℕ) (op : ℕ → ℕ → ℕ) where
  digits_of_zero : (fuel y : ℕ) → digits past op fuel 0 y ≡ past y
  digits_of_zero zero y = refl
  digits_of_zero (suc fuel) y = refl

  same_digits : (x y f g : ℕ) → x ≤ f → x ≤ g → digits past op f x y ≡ digits past op g x y
  same_digits zero y f g hf hg = digits_of_zero f y ∙ sym (digits_of_zero g y)
  same_digits (suc x) y zero g hf hg = absurd (omega arith)
  same_digits (suc x) y (suc f) zero hf hg = absurd (omega arith)
  same_digits (suc x) y (suc f) (suc g) hf hg =
      ap (λ t. t * 2 + op (suc x % 2) (y % 2))
        (same_digits (suc x / 2) (y / 2) f g (omega arith) (omega arith))

  lowest_digit :
      ((y : ℕ) → past y ≡ past (y / 2) * 2 + op 0 (y % 2))
      → (x y : ℕ) → bitwise past op x y ≡ bitwise past op (x / 2) (y / 2) * 2 + op (x % 2) (y % 2)
  lowest_digit unfolds zero y = unfolds y
  lowest_digit unfolds (suc x) y =
      ap (λ t. t * 2 + op (suc x % 2) (y % 2))
        (same_digits (suc x / 2) (y / 2) x (suc x / 2) (omega arith) (omega arith))

bit_and_low : (x y : ℕ) → bit_and x y ≡ bit_and (x / 2) (y / 2) * 2 + min (x % 2) (y % 2)
bit_and_low x y = omega (
  arith,
  lowest_digit (λ y. 0) min (λ y. omega arith) x y,
  bit_and-bitwise x y,
  bit_and-bitwise (x / 2) (y / 2),
)

bit_or_low : (x y : ℕ) → bit_or x y ≡ bit_or (x / 2) (y / 2) * 2 + max (x % 2) (y % 2)
bit_or_low x y = omega (
  arith,
  lowest_digit (λ y. y) max (λ y. omega arith) x y,
  bit_or-bitwise x y,
  bit_or-bitwise (x / 2) (y / 2),
)

bit_and-half : (a b : ℕ) → bit_and a b / 2 ≡ bit_and (a / 2) (b / 2)
bit_and-half a b = omega (arith, bit_and_low a b)

bit_or-half : (a b : ℕ) → bit_or a b / 2 ≡ bit_or (a / 2) (b / 2)
bit_or-half a b = omega (arith, bit_or_low a b)

pub bit-bit_and : (a b i : ℕ) → bit (bit_and a b) i ≡ min (bit a i) (bit b i)
unfolding bit
bit-bit_and a b zero = omega (arith, bit_and_low a b)
bit-bit_and a b (suc i) = rw (bit_and-half a b) (bit-bit_and (a / 2) (b / 2) i)

pub bit-bit_or : (a b i : ℕ) → bit (bit_or a b) i ≡ max (bit a i) (bit b i)
unfolding bit
bit-bit_or a b zero = omega (arith, bit_or_low a b)
bit-bit_or a b (suc i) = rw (bit_or-half a b) (bit-bit_or (a / 2) (b / 2) i)

pub bit-lt : (x i : ℕ) → bit x i < 2
unfolding bit
bit-lt x zero = omega arith
bit-lt x (suc i) = bit-lt (x / 2) i

pub bit-zero : (i : ℕ) → bit 0 i ≡ 0
unfolding bit
bit-zero zero = refl
bit-zero (suc i) = bit-zero i

pub pow_suc : (k : ℕ) → 2 ^ suc k ≡ 2 * 2 ^ k
pow_suc k = omega arith

-- The bits of the complement to `w` ones.
pub bit-complement : (w m i : ℕ) → m < 2 ^ w → i < w → bit (2 ^ w - 1 - m) i + bit m i ≡ 1
unfolding bit
bit-complement zero m i h lt = absurd (omega arith)
bit-complement (suc w) m zero h lt = omega (arith, pow_suc w)
bit-complement (suc w) m (suc i) h lt =
    let p = pow_suc w in
    let e : (2 ^ suc w - 1 - m) / 2 ≡ 2 ^ w - 1 - m / 2 = omega arith in
    rw e (bit-complement w (m / 2) i (omega arith) (omega arith))

mul_pow : (x s : ℕ) → x * 2 ^ suc s ≡ x * 2 ^ s * 2
mul_pow x s = rw (pow_suc s) (grind arith)

shr_suc : (x s : ℕ) → x / 2 ^ suc s ≡ x / 2 / 2 ^ s
shr_suc x s = ap (λ d. x / d) (pow_suc s) ∙ sym (div-div-eq-div-mul x 2 (2 ^ s))

pow_pos : (k : ℕ) → 0 < 2 ^ k
pow_pos zero = omega arith
pow_pos (suc k) = omega (arith, pow_suc k, pow_pos k)

mod_suc : (x k : ℕ) → x % 2 ^ suc k ≡ x / 2 % 2 ^ k * 2 + x % 2
mod_suc x k =
    let q : x / 2 ^ suc k * 2 ^ suc k ≡ x / 2 / 2 ^ k * 2 ^ k * 2 =
      ap (λ d. d * 2 ^ suc k) (shr_suc x k) ∙ mul_pow (x / 2 / 2 ^ k) k in
    omega (arith, q, div-add-mod' x (2 ^ suc k), div-add-mod' (x / 2) (2 ^ k))

-- `x << s` and `x >> s`.
pub bit-shl : (x s i : ℕ) → bit (x * 2 ^ s) (s + i) ≡ bit x i
unfolding bit
bit-shl x zero i = let e : 0 + i ≡ i = omega arith in let f : x * 1 ≡ x = omega arith in rw (f, e)
bit-shl x (suc s) i =
    let e : x * 2 ^ suc s / 2 ≡ x * 2 ^ s = omega (arith, mul_pow x s) in
    let n : suc s + i ≡ suc (s + i) = omega arith in
    ap (bit (x * 2 ^ suc s)) n ∙ ap (λ y. bit y (s + i)) e ∙ bit-shl x s i

pub bit-shr : (x s i : ℕ) → bit (x / 2 ^ s) i ≡ bit x (s + i)
unfolding bit
bit-shr x zero i = let e : 0 + i ≡ i = omega arith in let f : x / 1 ≡ x = omega arith in rw (f, e)
bit-shr x (suc s) i =
    let n : suc s + i ≡ suc (s + i) = omega arith in
    ap (λ y. bit y i) (shr_suc x s) ∙ bit-shr (x / 2) s i ∙ ap (bit x) (sym n)

-- A mask of `k` ones.
pub bit-ones : (k i : ℕ) → bit (2 ^ k - 1) i ≡ (if ltb i k then 1 else 0)
unfolding bit
bit-ones zero i = ground (arith, bit-zero i)
bit-ones (suc k) zero = ground (arith, pow_suc k, pow_pos k)
bit-ones (suc k) (suc i) =
    let e : (2 ^ suc k - 1) / 2 ≡ 2 ^ k - 1 = omega (arith, pow_suc k) in
    rw e (ground (arith, bit-ones k i))

pub bit-mod : (x k i : ℕ) → bit (x % 2 ^ k) i ≡ (if ltb i k then bit x i else 0)
unfolding bit
bit-mod x zero i = let e : x % 1 ≡ 0 = omega arith in rw e (ground (arith, bit-zero i))
bit-mod x (suc k) zero = ground (arith, mod_suc x k)
bit-mod x (suc k) (suc i) =
    let e : x % 2 ^ suc k / 2 ≡ x / 2 % 2 ^ k = omega (arith, mod_suc x k) in
    rw e (ground (arith, bit-mod (x / 2) k i))

-- Numbers below 2 ^ w with the same bits are equal.
pub eq_of_bits : (w x y : ℕ) → x < 2 ^ w → y < 2 ^ w → ((i : ℕ) → i < w → bit x i ≡ bit y i) → x ≡ y
unfolding bit
eq_of_bits zero x y hx hy h = omega arith
eq_of_bits (suc w) x y hx hy h =
    let p = pow_suc w in
    let rest =
      eq_of_bits w (x / 2) (y / 2) (omega arith) (omega arith) (λ i lt. h (suc i) (omega arith)) in
    omega (arith, h 0 (omega arith), rest)

-- What `regmap_update_bits` makes of the byte `old`: `(old & ~mask) | (val & mask)`.
unfoldable pub set_bits : ℕ → ℕ → ℕ → ℕ
set_bits old mask val = bit_or (bit_and old (255 - mask)) (bit_and val mask)

-- The bits under the mask are those of `val`, the others those of `old`.
pub bit-set_bits :
    (old mask val i : ℕ)
    → mask < 256
    → i < 8
    → bit (set_bits old mask val) i ≡ (if bit mask i == 1 then bit val i else bit old i)
unfolding set_bits
bit-set_bits old mask val i m lt =
    rw
      (
        bit-bit_or (bit_and old (255 - mask)) (bit_and val mask) i,
        bit-bit_and old (255 - mask) i,
        bit-bit_and val mask i,
      )
      (ground (
        arith,
        bit-complement 8 mask i m lt,
        bit-lt mask i,
        bit-lt val i,
        bit-lt old i,
        bit-lt (255 - mask) i,
      ))

pow_product : (k s : ℕ) → 2 ^ k * 2 ^ s ≡ 2 ^ (s + k)
pow_product k zero = let e : 0 + k ≡ k = omega arith in rw e (omega arith)
pow_product k (suc s) =
    let e : suc s + k ≡ suc (s + k) = omega arith in
    let t = pow_suc (s + k) in rw e (omega (arith, mul_pow (2 ^ k) s, pow_product k s, t))

suc_times : (a b : ℕ) → (a + 1) * b ≡ a * b + b
suc_times a b = grind arith

mul_mono : (a b c : ℕ) → a ≤ b → a * c ≤ b * c
mul_mono a b c h = grind arith

module _ (s k : ℕ) (fits : s + k ≤ 8) where
  pub field_mask-lt : (2 ^ k - 1) * 2 ^ s < 256
  field_mask-lt =
      let bound : 2 ^ (s + k) ≤ 2 ^ 8 = pow-le-pow_right (omega arith) fits in
      let le : (2 ^ k - 1) * 2 ^ s + 2 ^ s ≡ 2 ^ k * 2 ^ s =
        sym (suc_times (2 ^ k - 1) (2 ^ s))
        ∙ ap (λ t. t * 2 ^ s) (let q = pow_pos k in omega arith) in
      omega (arith, pow_product k s, pow_pos s)

  -- A field of `k` bits at `s` that is written through its mask reads back.
  pub field-set_bits :
      (old val : ℕ) → set_bits old ((2 ^ k - 1) * 2 ^ s) (val * 2 ^ s) / 2 ^ s % 2 ^ k ≡ val % 2 ^ k
  field-set_bits old val =
      let new = set_bits old ((2 ^ k - 1) * 2 ^ s) (val * 2 ^ s) in
      eq_of_bits k (new / 2 ^ s % 2 ^ k) (val % 2 ^ k) (omega (arith, pow_pos k))
        (omega (arith, pow_pos k))
        (λ i lt.
          rw
            (
              bit-mod (new / 2 ^ s) k i,
              bit-mod val k i,
              bit-shr new s i,
              bit-set_bits old ((2 ^ k - 1) * 2 ^ s) (val * 2 ^ s) (s + i) field_mask-lt
                  (omega arith),
              bit-shl (2 ^ k - 1) s i,
              bit-shl val s i,
              bit-ones k i,
            )
            (ground arith))

-- Two fields side by side are packed by `|`.
pub bit_or_fields : (s a b : ℕ) → a < 2 ^ s → bit_or a (b * 2 ^ s) ≡ a + b * 2 ^ s
bit_or_fields zero a b h =
    let e : a ≡ 0 = omega arith in
    let f : b * 1 ≡ b = omega arith in rw (e, f) (rw (bit_or-bitwise 0 b) (omega arith))
bit_or_fields (suc s) a b h =
    let e : b * 2 ^ suc s / 2 ≡ b * 2 ^ s = omega (arith, mul_pow b s) in
    let ih = bit_or_fields s (a / 2) b (omega (arith, pow_suc s)) in
    let step =
      bit_or_low a (b * 2 ^ suc s)
      ∙ ap (λ y. bit_or (a / 2) y * 2 + max (a % 2) (b * 2 ^ suc s % 2)) e in
    omega (arith, step, ih, mul_pow b s)

lt_pow : (x : ℕ) → x < 2 ^ x
lt_pow zero = omega arith
lt_pow (suc x) = omega (arith, pow_suc x, lt_pow x)

bit_and_nothing : (k x : ℕ) → x < 2 ^ k → bit_and x 0 ≡ 0
bit_and_nothing zero x h = let e : x ≡ 0 = omega arith in rw e (bit_and-bitwise 0 0)
bit_and_nothing (suc k) x h =
    omega (arith, bit_and_low x 0, bit_and_nothing k (x / 2) (omega (arith, pow_suc k)))

-- A mask of `k` ones takes the remainder.
pub bit_and-ones : (k a : ℕ) → bit_and a (2 ^ k - 1) ≡ a % 2 ^ k
bit_and-ones zero a = bit_and_nothing a a (lt_pow a) ∙ omega arith
bit_and-ones (suc k) a =
    let half : (2 ^ suc k - 1) / 2 ≡ 2 ^ k - 1 = omega (arith, pow_suc k) in
    let step =
      bit_and_low a (2 ^ suc k - 1)
      ∙ ap (λ m. bit_and (a / 2) m * 2 + min (a % 2) ((2 ^ suc k - 1) % 2)) half in
    omega (arith, step, bit_and-ones k (a / 2), mod_suc a k, pow_suc k, pow_pos k)

-- A field of a byte is a field of the number that was cut to the byte.
pub byte_field : (x s k : ℕ) → s + k ≤ 8 → x % 256 / 2 ^ s % 2 ^ k ≡ x / 2 ^ s % 2 ^ k
byte_field x s k fits =
    eq_of_bits k (x % 256 / 2 ^ s % 2 ^ k) (x / 2 ^ s % 2 ^ k) (omega (arith, pow_pos k))
      (omega (arith, pow_pos k))
      (λ i lt.
        rw
          (
            bit-mod (x % 256 / 2 ^ s) k i,
            bit-mod (x / 2 ^ s) k i,
            bit-shr (x % 256) s i,
            bit-shr x s i,
            bit-mod x 8 (s + i),
          )
          (ground arith))

-- A value of `k` bits, shifted to its field, is a byte.
pub field-byte : (s k : ℕ) → s + k ≤ 8 → (v : ℕ) → v < 2 ^ k → v * 2 ^ s < 256
field-byte s k fits v lt =
    let bound : 2 ^ (s + k) ≤ 2 ^ 8 = pow-le-pow_right (omega arith) fits in
    let le : v * 2 ^ s ≤ (2 ^ k - 1) * 2 ^ s = mul_mono v (2 ^ k - 1) (2 ^ s) (omega arith) in
    let m = field_mask-lt s k fits in omega arith

pub bit-shl_low : (x s i : ℕ) → i < s → bit (x * 2 ^ s) i ≡ 0
unfolding bit
bit-shl_low x zero i h = absurd (omega arith)
bit-shl_low x (suc s) zero h = omega (arith, mul_pow x s)
bit-shl_low x (suc s) (suc i) h =
    let e : x * 2 ^ suc s / 2 ≡ x * 2 ^ s = omega (arith, mul_pow x s) in
    ap (λ y. bit y i) e ∙ bit-shl_low x s i (omega arith)

-- Bit `s` of a flag that is shifted there.
pub bit_flag : (b s : ℕ) → b < 2 → bit (b * 2 ^ s) s ≡ b
unfolding bit
bit_flag b s h =
    let e : s + 0 ≡ s = omega arith in ap (bit (b * 2 ^ s)) (sym e) ∙ bit-shl b s 0 ∙ omega arith

-- The conversions to a byte keep the bits of the byte.
pub bit-byte : (x i : ℕ) → i < 8 → bit (x % 256 % 256) i ≡ bit x i
bit-byte x i h = bit-mod (x % 256) 8 i ∙ ground (arith, bit-mod x 8 i)
