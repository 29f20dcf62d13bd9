-- ===== src/Ac108/Controls.antt =====
-- The mixer controls and the debug attribute (ac108.c, snd_ac108_get_volsw, snd_ac108_put_volsw and
-- ac108_store).
use Prim.Native.Nat.{bit_and}
use j_a_r_v_i_s.Prelude.{
  ℕ, zero, suc, ◌+◌, ◌-◌, ◌/◌, ◌^◌, List, [], ◌∷◌, Bool, false, not, ◌==◌, if◌then◌else◌, ◌++◌,
}
use j_a_r_v_i_s.Prelude.Int.{ℤ, pos, ltb_ℤ}
use j_a_r_v_i_s.Ac108.Regmap.{
  Priv, Kernel, St, u8, u32, ◌<<◌, ac10x_read, ac108_multi_write, update_at,
}

-- `struct soc_mixer_control`; `autodisable` holds the index of the chip.
pub record MixerControl : Type 0 where
  pub reg : ℕ
  pub shift : ℕ
  pub max : ℕ
  pub min : ℕ
  pub sign_bit : ℕ
  pub invert : Bool
  pub autodisable : ℕ

-- `SOC_SINGLE_VALUE`, of which the controls of the driver are made.
abbrev pub single_value : ℕ → ℕ → ℕ → Bool → ℕ → MixerControl
single_value reg shift max invert chip = record {
  reg = reg;
  shift = shift;
  max = max;
  min = 0;
  sign_bit = 0;
  invert = invert;
  autodisable = chip;
}

-- The four volumes and the four gains of one chip.
abbrev pub chip_controls : ℕ → List MixerControl
chip_controls chip =
    single_value 0x70 0 0xff false chip
    ∷ single_value 0x71 0 0xff false chip
    ∷ single_value 0x72 0 0xff false chip
    ∷ single_value 0x73 0 0xff false chip
    ∷ single_value 0x90 1 0x1f false chip
    ∷ single_value 0x91 1 0x1f false chip
    ∷ single_value 0x92 1 0x1f false chip
    ∷ single_value 0x93 1 0x1f false chip
    ∷ []

-- With two chips the first channels are those of chip 1.
unfoldable pub ac108_snd_controls : List MixerControl
ac108_snd_controls = chip_controls 0

unfoldable pub ac108tdm_snd_controls : List MixerControl
ac108tdm_snd_controls = chip_controls 1 ++ chip_controls 0

-- The register numbers of one debug read: `n` rounds from `reg`, a byte.
unfoldable pub read_regs : ℕ → ℕ → List ℕ
read_regs reg zero = []
read_regs reg (suc n) = reg ∷ read_regs (u8 (reg + 1)) n

module _ (k : Kernel) where
  open k use {Regmap, fls}

  -- The status, and the value if the status is not negative.
  unfoldable pub snd_ac108_get_volsw : MixerControl → Priv Regmap → ℤ × ℕ
  unfolding ac10x_read
  snd_ac108_get_volsw mc p =
      let mask = (1 << fls mc.max) - 1 in
      let read = ac10x_read k mc.reg (u8 k.uninitialised) (p.i2cmap mc.autodisable) in
      let val = u8 (bit_and (read.1 / 2 ^ mc.shift) mask + 4294967296 - mc.min) in
      (
        read.0,
        if ltb_ℤ read.0 (pos 0)
            then 0
            else if mc.invert
            then u8 (mc.max + 4294967296 - val)
            else val,
      )

  -- `value` is the bit pattern of the `long` in the request.
  unfoldable pub snd_ac108_put_volsw : MixerControl → ℕ → St Regmap ℤ
  unfolding update_at
  snd_ac108_put_volsw mc value p =
      let mask = if mc.sign_bit == 0 then (1 << fls mc.max) - 1 else (1 << (mc.sign_bit + 1)) - 1 in
      let val = bit_and (value + mc.min) mask in
      let val' = if mc.invert then u32 (mc.max + 4294967296 - val) else val in
      update_at k mc.autodisable mc.reg (mask << mc.shift) (val' << mc.shift) p

  -- `echo flag|reg|val`: a write to all chips, or the registers that are read of each chip. The
  -- counter of the rounds is tested after a round.
  unfoldable pub ac108_store : ℕ → Priv Regmap → List ℕ × Priv Regmap
  unfolding ac108_multi_write read_regs
  ac108_store val p =
      let reg = bit_and (val / 2 ^ 8) 0xff in
      let low = bit_and val 0xff in
      if not (bit_and (val / 2 ^ 16) 0xf == 0)
      then ([], (ac108_multi_write k reg low p).1)
      else (reg ∷ read_regs (u8 (reg + 1)) (low - 1), p)
