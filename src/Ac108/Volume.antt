-- ===== src/Ac108/Volume.antt =====
-- The mixer controls of ac108.c: what is put is what is got.
use j_a_r_v_i_s.Prelude.{
  ℕ, ◌+◌, ◌-◌, ◌*◌, ◌/◌, ◌^◌, ◌≤◌, ◌<◌, ◌≡◌, refl, ◌∙◌, arith, Bool, true, false, if◌then◌else◌,
  ==-refl,
}
use native.Mathlib.Nat.{mod-eq_of_lt}
use Prim.Native.Nat.{bit_and}
use j_a_r_v_i_s.Prelude.Int.{pos}
use j_a_r_v_i_s.Ac108.Bits.{
  set_bits, field-set_bits, field_mask-lt, field-byte, byte_field, bit_and-ones,
}
use j_a_r_v_i_s.Ac108.Regmap.{
  Priv, Kernel, u8, u32, ◌<<◌, set_map, ac10x_read, ac10x_update_bits, update_at,
}
use j_a_r_v_i_s.Ac108.Controls.{single_value, snd_ac108_get_volsw, snd_ac108_put_volsw}
use j_a_r_v_i_s.Ac108.Works.{Works, Holds, assign, Holds-update}

-- The register's value after the update of a field reads back through the mask.
field_read :
    (old v s n : ℕ)
    → s + n ≤ 8
    → v < 2 ^ n
    → bit_and (u8 (set_bits old (u8 (((1 << n) - 1) << s)) (u8 (v << s))) / 2 ^ s) ((1 << n) - 1)
      ≡ v
field_read old v s n fits lt =
    let ones : (1 << n) ≡ 2 ^ n = omega arith in
    let mask : u8 ((2 ^ n - 1) * 2 ^ s) ≡ (2 ^ n - 1) * 2 ^ s =
      let m = field_mask-lt s n fits in omega arith in
    let val : u8 (v * 2 ^ s) ≡ v * 2 ^ s = let b = field-byte s n fits v lt in omega arith in
    rw (ones, mask, val)
      (bit_and-ones n (u8 (set_bits old ((2 ^ n - 1) * 2 ^ s) (v * 2 ^ s)) / 2 ^ s)
        ∙ byte_field (set_bits old ((2 ^ n - 1) * 2 ^ s) (v * 2 ^ s)) s n fits
        ∙ field-set_bits s n fits old v
        ∙ mod-eq_of_lt lt)

-- A value that fits is not changed by the mask.
mask_value : (v n : ℕ) → v < 2 ^ n → bit_and (v + 0) ((1 << n) - 1) ≡ v
mask_value v n lt =
    let ones : (1 << n) ≡ 2 ^ n = omega arith in
    let plus : v + 0 ≡ v = omega arith in rw (ones, plus) (bit_and-ones n v ∙ mod-eq_of_lt lt)

module _ {k : Kernel} (w : Works k) where
  -- The number that stands in the field for the value of a control.
  abbrev stored : ℕ → Bool → ℕ → ℕ
  stored max invert v = if invert then max - v else v

  stored-lt :
      (max v : ℕ) (invert : Bool) (n : ℕ) → v ≤ max → max < 2 ^ n → stored max invert v < 2 ^ n
  stored-lt max v false n le lt = omega arith
  stored-lt max v true n le lt = omega arith

  put_lem :
      (reg shift max chip v : ℕ) (invert : Bool) (p : Priv k.Regmap)
      → max < 2 ^ k.fls max
      → shift + k.fls max ≤ 8
      → v ≤ max
      → snd_ac108_put_volsw k (single_value reg shift max invert chip) v p
        ≡ update_at k chip reg (((1 << k.fls max) - 1) << shift) (stored max invert v << shift) p
  unfolding snd_ac108_put_volsw
  put_lem reg shift max chip v false p fls fits le =
      let n = mask_value v (k.fls max) (omega arith) in rw n refl
  put_lem reg shift max chip v true p fls fits le =
      let n = mask_value v (k.fls max) (omega arith) in
      let small = field-byte 0 (k.fls max) (omega arith) max fls in
      let e : u32 (max + 4294967296 - v) ≡ max - v = omega arith in rw (n, e) refl

  get_lem :
      (reg shift max chip v : ℕ) (invert : Bool) (p : Priv k.Regmap) (regs : ℕ → ℕ)
      → Holds w (p.i2cmap chip) regs
      → bit_and (u8 (regs (u8 reg)) / 2 ^ shift) ((1 << k.fls max) - 1) ≡ stored max invert v
      → v ≤ max
      → max < 256
      → snd_ac108_get_volsw k (single_value reg shift max invert chip) p ≡ (pos 0, v)
  unfolding snd_ac108_get_volsw ac10x_read
  get_lem reg shift max chip v false p regs h e le lt =
      let r = w.read_lem (p.i2cmap chip) (u8 reg) h.live in
      rw (r, h.values (u8 reg), e) (ground arith)
  get_lem reg shift max chip v true p regs h e le lt =
      let r = w.read_lem (p.i2cmap chip) (u8 reg) h.live in
      rw (r, h.values (u8 reg), e) (ground arith)

  -- On a bus that works, for a control whose field lies in its register: a value up to the maximum
  -- that is put is got back, inverted controls included, with both calls' statuses 0.
  pub get_volsw-put_volsw :
      (reg shift max chip v : ℕ) (invert : Bool) (p : Priv k.Regmap) (regs : ℕ → ℕ)
      → Holds w (p.i2cmap chip) regs
      → max < 2 ^ k.fls max
      → shift + k.fls max ≤ 8
      → v ≤ max
      → let mc = single_value reg shift max invert chip in
        let put = snd_ac108_put_volsw k mc v p in
        (put.0 ≡ pos 0) × (snd_ac108_get_volsw k mc put.1 ≡ (pos 0, v))
  unfolding update_at ac10x_update_bits
  get_volsw-put_volsw reg shift max chip v invert p regs h fls fits le =
      let n = k.fls max in
      let q = stored max invert v in
      let small : max < 256 = let b = field-byte 0 n (omega arith) max fls in omega arith in
      let lt : q < 2 ^ n = stored-lt max v invert n le fls in
      let mask = ((1 << n) - 1) << shift in
      let up = Holds-update w reg mask (q << shift) h in
      let there : Holds w
          (set_map k chip (ac10x_update_bits k reg mask (q << shift) (p.i2cmap chip)).1 p.i2cmap
            chip)
          (assign regs (u8 reg) (set_bits (regs (u8 reg)) (u8 mask) (u8 (q << shift)))) =
        rw (==-refl chip) up in
      rw (put_lem reg shift max chip v invert p fls fits le) (
        w.update_status (p.i2cmap chip) (u8 reg) (u8 mask) (u8 (q << shift)) h.live,
        get_lem reg shift max chip v invert (update_at k chip reg mask (q << shift) p).1
            (assign regs (u8 reg) (set_bits (regs (u8 reg)) (u8 mask) (u8 (q << shift)))) there
            (rw (==-refl (u8 reg)) (field_read (regs (u8 reg)) q shift n fits lt)) le small,
      )
