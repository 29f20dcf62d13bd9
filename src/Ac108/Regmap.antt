-- ===== src/Ac108/Regmap.antt =====
-- The state of the driver (struct ac10x_priv in include/ac10x/ac10x.h) and its access to the
-- registers (ac108.c, ac10x_read to ac108_codec_write). The kernel's register maps and the calls of
-- the AC101 driver, whose source is elsewhere, are parameters.
use Prim.Native.Nat.{bit_and, bit_or}
use j_a_r_v_i_s.Prelude.{
  ℕ, zero, suc, ◌+◌, ◌*◌, ◌%◌, ◌^◌, Option, none, some, Bool, true, false, not, ◌||◌, ◌==◌,
  if◌then◌else◌,
}
use j_a_r_v_i_s.Prelude.Int.{ℤ, pos, ltb_ℤ, eqb_ℤ}

-- `i2c` and `i2c101` hold the identities of the clients, `i2cmap` the register map of each chip.
pub record Priv (R : Type 0) : Type 0 where
  pub i2c : ℕ → Option ℕ
  pub i2cmap : ℕ → R
  pub codec_cnt : ℕ
  pub sysclk : ℕ
  pub mclk : ℕ
  pub clk_id : ℕ
  pub i2s_mode : ℕ
  pub data_protocol : ℕ
  pub tdm_chips_cnt : ℕ
  pub sysclk_en : ℕ
  pub codec : Option ℕ
  pub i2c101 : Option ℕ

-- A call that returns a value and changes the driver's state.
abbrev pub St : Type 0 → Type 0 → Type 0
St R A = Priv R → A × Priv R

module _ {R : Type 0} where
  abbrev pub pure : {A : Type 0} → A → St R A
  pure a p = (a, p)

  infixl 5 ◌>>=◌ ◌>>◌
  abbrev pub ◌>>=◌ : {A B : Type 0} → St R A → (A → St R B) → St R B
  ◌>>=◌ m f p = let (a, p') = m p in f a p'

  abbrev pub ◌>>◌ : {A B : Type 0} → St R A → St R B → St R B
  m >> k = m >>= λ _. k

  abbrev pub get : St R (Priv R)
  get p = (p, p)

  abbrev pub modify : (Priv R → Priv R) → St R (Unit {0})
  modify f p = (tt, f p)

  -- `if (b) m;` where nothing depends on the value of `m`.
  abbrev pub when : {A : Type 0} → Bool → St R A → St R (Unit {0})
  when b m p = (tt, if b then (m p).1 else p)

-- The commands of the PCM layer's trigger call.
pub data Trigger : Type 0 where
  start resume pause_release stop suspend pause_push other : Trigger

-- The fields of the format word, as the kernel's masks SND_SOC_DAIFMT_* cut them out.
pub data DaiClock : Type 0 where
  cbm_cfm cbs_cfs other_clock : DaiClock

pub data DaiFormat : Type 0 where
  i2s_format right_j left_j dsp_a dsp_b other_format : DaiFormat

pub data DaiInversion : Type 0 where
  nb_nf nb_if ib_nf ib_if other_inversion : DaiInversion

pub record DaiFmt : Type 0 where
  pub clock : DaiClock
  pub format : DaiFormat
  pub inversion : DaiInversion

-- `enum snd_soc_bias_level`
pub data BiasLevel : Type 0 where
  bias_on bias_prepare bias_standby bias_off : BiasLevel

-- The kernel: register maps (a NULL pointer is one of them), the calls of the AC101 driver, and the
-- value that an automatic variable has before it is assigned.
pub record Kernel : Type 1 where
  pub Regmap : Type 0
  pub null : Regmap
  pub regmap_read : Regmap → ℕ → ℤ × ℕ
  pub regmap_write : Regmap → ℕ → ℕ → ℤ × Regmap
  pub regmap_update_bits : Regmap → ℕ → ℕ → ℕ → ℤ × Regmap
  pub regcache_cache_only : Regmap → Bool → Regmap
  pub regcache_sync : Regmap → ℤ × Regmap
  pub fill_regcache : Regmap → Regmap
  pub fls : ℕ → ℕ
  pub uninitialised : ℕ
  pub ac101_hw_params : St Regmap ℤ
  pub ac101_set_dai_fmt : DaiFmt → St Regmap ℤ
  pub ac101_trigger : Trigger → St Regmap ℤ
  pub ac101_aif_shutdown : St Regmap (Unit {0})
  pub ac101_set_bias_level : BiasLevel → St Regmap ℤ
  pub ac101_codec_suspend : St Regmap ℤ
  pub ac101_codec_resume : St Regmap ℤ
  pub ac101_probe : ℕ → St Regmap ℤ
  pub ac101_remove : ℕ → St Regmap ℤ
  pub snd_soc_register_codec : Option ℕ → St Regmap ℤ

abbrev pub u8 : ℕ → ℕ
u8 x = x % 256

abbrev pub u32 : ℕ → ℕ
u32 x = x % 4294967296

-- `_MASTER_INDEX`
abbrev pub master_index : ℕ
master_index = 0

infixl 60 ◌<<◌
abbrev pub ◌<<◌ : ℕ → ℕ → ℕ
x << n = x * 2 ^ n

infixl 33 ◌bor◌
abbrev pub ◌bor◌ : ℕ → ℕ → ℕ
x bor y = bit_or x y

-- `if (reg & (0x01 << n))`
abbrev pub bit_set : ℕ → ℕ → Bool
bit_set reg n = not (bit_and reg (1 << n) == 0)

-- A status that is not zero.
abbrev pub failed : ℤ → Bool
failed r = not (eqb_ℤ r (pos 0))

abbrev pub is_some {ℓ} : {A : Type ℓ} → Option A → Bool
is_some none = false
is_some (some a) = true

module _ (k : Kernel) where
  open k use {Regmap, regmap_read, regmap_write, regmap_update_bits}

  -- The status, and the variable that the value is stored to, which keeps `old` on an error.
  unfoldable pub ac10x_read : ℕ → ℕ → Regmap → ℤ × ℕ
  ac10x_read reg old map =
      let (r, v) = regmap_read map (u8 reg) in (r, if ltb_ℤ r (pos 0) then old else u8 v)

  unfoldable pub ac10x_write : ℕ → ℕ → Regmap → ℤ × Regmap
  ac10x_write reg val map = regmap_write map (u8 reg) (u8 val)

  unfoldable pub ac10x_update_bits : ℕ → ℕ → ℕ → Regmap → ℤ × Regmap
  ac10x_update_bits reg mask val map = regmap_update_bits map (u8 reg) (u8 mask) (u8 val)

  abbrev pub set_map : ℕ → Regmap → (ℕ → Regmap) → ℕ → Regmap
  set_map i map maps j = if j == i then map else maps j

  -- `n` rounds of the loop over the chips from chip `i`.
  unfoldable pub write_each : ℕ → ℕ → ℕ → ℕ → (ℕ → Regmap) → ℕ → Regmap
  unfolding ac10x_write
  write_each reg val zero i maps = maps
  write_each reg val (suc n) i maps =
      write_each reg val n (i + 1) (set_map i (ac10x_write reg val (maps i)).1 maps)

  -- The flag says whether the `|=` of the statuses is not zero, all that the callers ask.
  unfoldable pub update_each : ℕ → ℕ → ℕ → ℕ → ℕ → Bool → (ℕ → Regmap) → Bool × (ℕ → Regmap)
  unfolding ac10x_update_bits
  update_each reg mask val zero i r maps = (r, maps)
  update_each reg mask val (suc n) i r maps =
      let s = ac10x_update_bits reg mask val (maps i) in
      update_each reg mask val n (i + 1) (r || failed s.0) (set_map i s.1 maps)

  unfoldable pub ac108_multi_write : ℕ → ℕ → St Regmap ℤ
  unfolding write_each
  ac108_multi_write reg val p =
      (pos 0, record p { i2cmap = write_each (u8 reg) (u8 val) p.codec_cnt 0 p.i2cmap })

  unfoldable pub ac108_multi_update_bits : ℕ → ℕ → ℕ → St Regmap Bool
  unfolding update_each
  ac108_multi_update_bits reg mask val p = (
    (update_each (u8 reg) (u8 mask) (u8 val) p.codec_cnt 0 false p.i2cmap).0,
    record p { i2cmap = (update_each (u8 reg) (u8 mask) (u8 val) p.codec_cnt 0 false p.i2cmap).1 },
  )

  -- A call on the map of one chip, `ac10x->i2cmap[i]`.
  unfoldable pub write_at : ℕ → ℕ → ℕ → St Regmap ℤ
  unfolding ac10x_write
  write_at i reg val p =
      let s = ac10x_write reg val (p.i2cmap i) in
      (s.0, record p { i2cmap = set_map i s.1 p.i2cmap })

  unfoldable pub update_at : ℕ → ℕ → ℕ → ℕ → St Regmap ℤ
  unfolding ac10x_update_bits
  update_at i reg mask val p =
      let s = ac10x_update_bits reg mask val (p.i2cmap i) in
      (s.0, record p { i2cmap = set_map i s.1 p.i2cmap })

  -- The register of the first chip, read into a variable that nothing was assigned to.
  unfoldable pub read_master : ℕ → St Regmap ℕ
  unfolding ac10x_read
  read_master reg p = ((ac10x_read reg (u8 k.uninitialised) (p.i2cmap master_index)).1, p)

  -- `ac108_codec_read` and `ac108_codec_write`
  unfoldable pub ac108_codec_read : ℕ → St Regmap ℕ
  unfolding read_master
  ac108_codec_read reg = read_master (u8 reg)

  unfoldable pub ac108_codec_write : ℕ → ℕ → St Regmap ℤ
  unfolding ac108_multi_write
  ac108_codec_write reg val = do ac108_multi_write reg val; pure (pos 0)
