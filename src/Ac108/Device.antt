-- ===== src/Ac108/Device.antt =====
-- The life of the device (ac108.c, ac108_audio_startup to ac108_codec_resume, ac108_i2c_probe and
-- ac108_i2c_remove).
use j_a_r_v_i_s.Prelude.{
  ℕ, zero, suc, ◌+◌, Option, none, some, Bool, true, false, not, ◌&&◌, ◌||◌, ◌==◌, ltb,
  if◌then◌else◌,
}
use j_a_r_v_i_s.Prelude.Int.{ℤ, pos, negsuc}
use j_a_r_v_i_s.Ac108.Registers.{
  chip_rst, chip_rst_val, mod_clk_en, mod_rst_ctrl, ana_adc1_ctrl1, ana_adc2_ctrl1, ana_adc3_ctrl1,
  ana_adc4_ctrl1, adc1_micbias_en, adc2_micbias_en, adc3_micbias_en, adc4_micbias_en,
}
use j_a_r_v_i_s.Ac108.Regmap.{
  Priv, Kernel, St, BiasLevel, bias_on, bias_prepare, bias_standby, bias_off, u8, pure, ◌>>=◌, ◌>>◌,
  get, modify, when, master_index, ◌<<◌, failed, is_some, set_map, ac10x_write, ac108_multi_write,
  ac108_multi_update_bits,
}
use j_a_r_v_i_s.Ac108.Format.{einval}

-- What a probe of a client meets: its identity and `driver_data`, the two properties of the device
-- tree, and what the calls of the kernel return.
pub record Probe (R : Type 0) : Type 0 where
  pub client : ℕ
  pub index : ℕ
  pub protocol : Option ℕ
  pub tdm_chips_count : Option ℕ
  pub memory : Bool
  pub regmap_init : R
  pub init_error : Option ℤ
  pub sysfs_status : ℤ

-- `AC101_I2C_ID`
abbrev pub ac101_i2c_id : ℕ
ac101_i2c_id = 4

abbrev pub or_default : Option ℕ → ℕ → ℕ
or_default none d = d
or_default (some v) d = v

abbrev pub same_client : Option ℕ → ℕ → Bool
same_client none c = false
same_client (some d) c = d == c

abbrev pub set_client : ℕ → Option ℕ → (ℕ → Option ℕ) → ℕ → Option ℕ
set_client i c clients j = if j == i then c else clients j

module _ (k : Kernel) where
  open k use {Regmap, null, regcache_cache_only, regcache_sync, fill_regcache}

  -- `kzalloc`
  unfoldable pub zeroed : Priv Regmap
  zeroed = record {
    i2c = λ i. none;
    i2cmap = λ i. null;
    codec_cnt = 0;
    sysclk = 0;
    mclk = 0;
    clk_id = 0;
    i2s_mode = 0;
    data_protocol = 0;
    tdm_chips_cnt = 0;
    sysclk_en = 0;
    codec = none;
    i2c101 = none;
  }

  -- The condition at `__ret`: all clients of the card are there.
  unfoldable pub all_ready : Priv Regmap → Bool
  all_ready p =
      not (p.codec_cnt == 0) && ltb p.tdm_chips_cnt 2
      || is_some (p.i2c 0) && is_some (p.i2c 1) && is_some p.i2c101

  unfoldable pub bind_codec : ℤ → St Regmap ℤ
  unfolding all_ready
  bind_codec ret p =
      if all_ready p then k.snd_soc_register_codec (p.i2c master_index) p else (ret, p)

  unfoldable pub probe_ac101 : ℕ → St Regmap ℤ
  unfolding bind_codec
  probe_ac101 client p =
      let s = k.ac101_probe client (record p { i2c101 = some client }) in
      if failed s.0 then (s.0, record s.1 { i2c101 = none }) else bind_codec s.0 s.1

  -- A chip whose map is there: it is reset and counted.
  unfoldable pub add_chip : ℕ → Priv Regmap → Priv Regmap
  unfolding ac10x_write
  add_chip index p = record p {
    i2cmap =
        set_map k index
          (fill_regcache
            (k.regmap_write (regcache_cache_only (p.i2cmap index) false) chip_rst chip_rst_val).1)
          p.i2cmap;
    codec_cnt = p.codec_cnt + 1;
  }

  -- The fields that are set before the map is tested for an error.
  unfoldable pub set_chip : Probe Regmap → ℕ → Priv Regmap → Priv Regmap
  set_chip pr protocol p = record p {
    data_protocol = u8 protocol;
    tdm_chips_cnt = or_default pr.tdm_chips_count 1;
    i2c = set_client pr.index (some pr.client) p.i2c;
    i2cmap = set_map k pr.index pr.regmap_init p.i2cmap;
  }

  unfoldable pub probe_ac108 : Probe Regmap → St Regmap ℤ
  unfolding bind_codec add_chip set_chip
  probe_ac108 pr p = elim pr.protocol [
    | none ↦ (einval, p)
    | some protocol ↦ elim pr.init_error [
      | some error ↦ (error, set_chip pr protocol p)
      | none ↦ bind_codec pr.sysfs_status (add_chip pr.index (set_chip pr protocol p))
    ]
  ]

  unfoldable pub probe_client : Probe Regmap → St Regmap ℤ
  unfolding probe_ac101 probe_ac108
  probe_client pr = if pr.index == ac101_i2c_id then probe_ac101 pr.client else probe_ac108 pr

  -- The driver's state is allocated by the first probe; -ENOMEM is -12.
  unfoldable pub ac108_i2c_probe : Probe Regmap → Option (Priv Regmap) → ℤ × Option (Priv Regmap)
  unfolding zeroed probe_client
  ac108_i2c_probe pr none =
      if not pr.memory then (negsuc 11, none) else let s = probe_client pr zeroed in (s.0, some s.1)
  ac108_i2c_probe pr (some p) = let s = probe_client pr p in (s.0, some s.1)

  -- The clients are cleared by identity; the counter of the chips is left as it is. With no client
  -- of the first two chips and no AC101 left, the state is freed.
  unfoldable pub clear_client : ℕ → Priv Regmap → Priv Regmap
  clear_client client p =
      if same_client p.i2c101 client
      then record ((k.ac101_remove client (record p { codec = none })).1) { i2c101 = none }
      else let a = if same_client (p.i2c 0) client then set_client 0 none p.i2c else p.i2c in
        let b = if same_client (a 1) client then set_client 1 none a else a in
        record p { codec = none; i2c = b }

  unfoldable pub ac108_i2c_remove : ℕ → Priv Regmap → Option (Priv Regmap)
  unfolding clear_client
  ac108_i2c_remove client p =
      let q = clear_client client p in
      if not (is_some (q.i2c 0)) && not (is_some (q.i2c 1)) && not (is_some q.i2c101)
      then none
      else some q

  -- Only the capture stream has clock modules of its own.
  unfoldable pub ac108_aif_shutdown : Bool → St Regmap (Unit {0})
  unfolding ac108_multi_write
  ac108_aif_shutdown capture = do
    when capture (do ac108_multi_write k mod_clk_en 0x0; ac108_multi_write k mod_rst_ctrl 0x0)
    p ← get
    when (is_some p.i2c101) k.ac101_aif_shutdown

  abbrev mic_bias : ℕ → St Regmap Bool
  mic_bias on = do
    ac108_multi_update_bits k ana_adc1_ctrl1 (1 << adc1_micbias_en) (on << adc1_micbias_en)
    ac108_multi_update_bits k ana_adc2_ctrl1 (1 << adc2_micbias_en) (on << adc2_micbias_en)
    ac108_multi_update_bits k ana_adc3_ctrl1 (1 << adc3_micbias_en) (on << adc3_micbias_en)
    ac108_multi_update_bits k ana_adc4_ctrl1 (1 << adc4_micbias_en) (on << adc4_micbias_en)

  unfoldable pub write_bias : BiasLevel → Priv Regmap → Priv Regmap
  unfolding ac108_multi_update_bits
  write_bias bias_on p = (mic_bias 1 p).1
  write_bias bias_prepare p = p
  write_bias bias_standby p = p
  write_bias bias_off p = (mic_bias 0 p).1

  unfoldable pub ac108_set_bias_level : BiasLevel → St Regmap ℤ
  unfolding write_bias
  ac108_set_bias_level level = do
    modify (write_bias level)
    p ← get
    when (is_some p.i2c101) (k.ac101_set_bias_level level)
    pure (pos 0)

  -- `regcache_cache_only(map, true)` for each chip.
  unfoldable pub suspend_each : ℕ → ℕ → (ℕ → Regmap) → ℕ → Regmap
  suspend_each zero i maps = maps
  suspend_each (suc n) i maps =
      suspend_each n (i + 1) (set_map k i (regcache_cache_only (maps i) true) maps)

  unfoldable pub resume_chip : Regmap → Regmap
  resume_chip map =
      let s = regcache_sync (regcache_cache_only map false) in
      if failed s.0 then regcache_cache_only s.1 true else s.1

  unfoldable pub resume_each : ℕ → ℕ → (ℕ → Regmap) → ℕ → Regmap
  unfolding resume_chip
  resume_each zero i maps = maps
  resume_each (suc n) i maps = resume_each n (i + 1) (set_map k i (resume_chip (maps i)) maps)

  unfoldable pub ac108_codec_suspend : St Regmap ℤ
  unfolding suspend_each
  ac108_codec_suspend = do
    modify (λ p. record p { i2cmap = suspend_each p.codec_cnt 0 p.i2cmap })
    p ← get
    if not (is_some p.i2c101) then pure (pos 0) else k.ac101_codec_suspend

  unfoldable pub ac108_codec_resume : St Regmap ℤ
  unfolding resume_each
  ac108_codec_resume = do
    modify (λ p. record p { i2cmap = resume_each p.codec_cnt 0 p.i2cmap })
    p ← get
    if not (is_some p.i2c101) then pure (pos 0) else k.ac101_codec_resume
