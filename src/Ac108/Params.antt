-- ===== src/Ac108/Params.antt =====
-- The parameters of a stream (ac108.c, the tables at its head, ac108_multi_chips_slots and
-- ac108_hw_params).
use Prim.Native.Nat.{bit_and}
use j_a_r_v_i_s.Prelude.{
  ℕ, zero, suc, ◌+◌, ◌-◌, ◌*◌, ◌/◌, ◌^◌, List, [], ◌∷◌, Option, none, some, not, ◌&&◌, ◌==◌, leb,
  if◌then◌else◌, get_or,
}
use j_a_r_v_i_s.Prelude.Int.{ℤ, pos, ltb_ℤ}
use j_a_r_v_i_s.Ac108.Registers.{
  mod_clk_en, mod_rst_ctrl, i2s_ctrl, i2s_bclk_ctrl, i2s_lrck_ctrl1, i2s_lrck_ctrl2, i2s_fmt_ctrl2,
  i2s_tx1_ctrl1, i2s_tx1_ctrl2, i2s_tx1_ctrl3, i2s_tx1_chmp_ctrl1, i2s_tx1_chmp_ctrl2,
  i2s_tx1_chmp_ctrl3, i2s_tx1_chmp_ctrl4, adc_sprc, hpf_en, i2s, adc_digital,
  mic_offset_calibration, adc_analog, bclk_ioen, lrck_ioen, bclkdiv, slot_width_sel,
  sample_resolution, adc_fs_i2s1, pcm_format,
}
use j_a_r_v_i_s.Ac108.Regmap.{
  Kernel, St, pure, ◌>>=◌, ◌>>◌, get, when, u32, master_index, ◌<<◌, ◌bor◌, bit_set, is_some,
  set_map, ac10x_write, ac108_multi_write, ac108_multi_update_bits, update_at, read_master,
}
use j_a_r_v_i_s.Ac108.Clock.{ac108_config_pll}
use j_a_r_v_i_s.Ac108.Format.{einval}

-- `struct real_val_to_reg_val`
pub record RegVal : Type 0 where
  pub real_val : ℕ
  pub reg_val : ℕ

abbrev entry : ℕ → ℕ → RegVal
entry real reg = record { real_val = real; reg_val = reg }

unfoldable pub ac108_sample_rate : List RegVal
ac108_sample_rate =
    entry 8000 0
    ∷ entry 11025 1
    ∷ entry 12000 2
    ∷ entry 16000 3
    ∷ entry 22050 4
    ∷ entry 24000 5
    ∷ entry 32000 6
    ∷ entry 44100 7
    ∷ entry 48000 8
    ∷ entry 96000 9
    ∷ []

unfoldable pub ac108_samp_res : List RegVal
ac108_samp_res =
    entry 8 1 ∷ entry 12 2 ∷ entry 16 3 ∷ entry 20 4 ∷ entry 24 5 ∷ entry 28 6 ∷ entry 32 7 ∷ []

unfoldable pub ac108_bclkdivs : List ℕ
ac108_bclkdivs = 0 ∷ 1 ∷ 2 ∷ 4 ∷ 6 ∷ 8 ∷ 12 ∷ 16 ∷ 24 ∷ 32 ∷ 48 ∷ 64 ∷ 96 ∷ 128 ∷ 176 ∷ 192 ∷ []

-- `params_format`
pub data PcmFormat : Type 0 where
  s8 s16_le s20_3le s24_le s32_le other_pcm : PcmFormat

-- The `switch` on the format: an index into the table of resolutions.
unfoldable pub samp_res_index : PcmFormat → Option ℕ
samp_res_index s8 = some 0
samp_res_index s16_le = some 2
samp_res_index s20_3le = some 3
samp_res_index s24_le = some 4
samp_res_index s32_le = some 6
samp_res_index other_pcm = none

-- The search of the table of rates.
unfoldable pub find_rate : ℕ → List RegVal → Option RegVal
find_rate rate [] = none
find_rate rate (e ∷ es) = if e.real_val == rate then some e else find_rate rate es

-- The search of the divisors, which does not look at the last: the index it stops at.
unfoldable pub bclk_index : ℕ → ℕ → List ℕ → ℕ
bclk_index ratio i [] = i
bclk_index ratio i (d ∷ []) = i
bclk_index ratio i (d ∷ e ∷ ds) = if leb ratio d then i else bclk_index ratio (i + 1) (e ∷ ds)

-- `vec_mask` and `vec_maps`; there are no more than four chips.
unfoldable pub vec_mask : ℕ → ℕ
vec_mask i = get_or ((3 << 6 bor 3) ∷ (0xf << 2) ∷ 0 ∷ 0 ∷ []) i 0

unfoldable pub vec_maps : ℕ → ℕ
vec_maps i =
    get_or
      ((0 << 12 bor 1 << 14 bor 2 << 0 bor 3 << 2)
        ∷ (0 << 4 bor 1 << 6 bor 2 << 8 bor 3 << 10)
        ∷ 0
        ∷ 0
        ∷ [])
      i 0

unfoldable pub slot_vec : ℕ → ℕ → ℕ
unfolding vec_mask
slot_vec codec_cnt i = if codec_cnt == 1 then 0xf else vec_mask i

-- With more than two chips the mask of the slots stands in the place of the map.
unfoldable pub map_vec : ℕ → ℕ → ℕ
unfolding vec_maps slot_vec
map_vec codec_cnt i =
    if codec_cnt == 1
    then 2 << 0 bor 3 << 2 bor 0 << 4 bor 1 << 6
    else if codec_cnt == 2
    then vec_maps i
    else slot_vec codec_cnt i

pub record HwParams : Type 0 where
  pub channels : ℕ
  pub format : PcmFormat
  pub rate : ℕ

-- The check of the rate and of the bit clock.
unfoldable pub check_rate : RegVal → ℕ → Option RegVal → Option (RegVal × RegVal)
check_rate res channels none = none
check_rate res channels (some rate) =
    if channels == 8 && rate.real_val == 96000 then none else some (res, rate)

-- The checks: the resolution and the rate, or none for parameters that are refused.
unfoldable pub check_params : HwParams → ℕ → Option (RegVal × RegVal)
unfolding samp_res_index ac108_samp_res check_rate find_rate ac108_sample_rate
check_params params data_protocol = elim (samp_res_index params.format) [
  | none ↦ none
  | some i ↦
      check_rate (get_or ac108_samp_res i (entry 0 0)) params.channels
        (find_rate (params.rate / (data_protocol + 1)) ac108_sample_rate)
]

module _ (k : Kernel) where
  open k use {Regmap, ac101_hw_params}

  abbrev write : ℕ → ℕ → Regmap → Regmap
  write reg val map = (ac10x_write k reg val map).1

  -- One round of the loop. `slots - 1` is an `int`, cut to a byte by the call.
  unfoldable pub chip_slots : ℕ → ℕ → ℕ → Regmap → Regmap
  unfolding slot_vec map_vec ac10x_write
  chip_slots slots codec_cnt i map =
      let vec = slot_vec codec_cnt i in
      let maps = map_vec codec_cnt i in
      let m1 = write i2s_tx1_ctrl1 (slots + 255) map in
      let m2 = write i2s_tx1_ctrl2 (bit_and vec 0xff) m1 in
      let m3 = write i2s_tx1_ctrl3 (bit_and (vec / 2 ^ 8) 0xff) m2 in
      let m4 = write i2s_tx1_chmp_ctrl1 (bit_and maps 0xff) m3 in
      let m5 = write i2s_tx1_chmp_ctrl2 (bit_and (maps / 2 ^ 8) 0xff) m4 in
      let m6 = write i2s_tx1_chmp_ctrl3 (bit_and (maps / 2 ^ 16) 0xff) m5 in
      write i2s_tx1_chmp_ctrl4 (bit_and (maps / 2 ^ 24) 0xff) m6

  unfoldable pub slots_each : ℕ → ℕ → ℕ → ℕ → (ℕ → Regmap) → ℕ → Regmap
  unfolding chip_slots
  slots_each slots codec_cnt zero i maps = maps
  slots_each slots codec_cnt (suc n) i maps =
      slots_each slots codec_cnt n (i + 1)
        (set_map k i (chip_slots slots codec_cnt i (maps i)) maps)

  unfoldable pub ac108_multi_chips_slots : ℕ → St Regmap ℤ
  unfolding slots_each
  ac108_multi_chips_slots slots p =
      (pos 0, record p { i2cmap = slots_each slots p.codec_cnt p.codec_cnt 0 p.i2cmap })

  -- The period of LRCK, registers 0x32 and 0x33.
  unfoldable pub write_period : ℕ → ℕ → St Regmap (Unit {0})
  unfolding ac108_multi_write ac108_multi_update_bits
  write_period real_res channels = do
    p ← get
    when (not (p.i2s_mode == pcm_format) && not (p.data_protocol == 0))
        (ac108_multi_write k i2s_lrck_ctrl2 (real_res - 1))
    when (not (p.i2s_mode == pcm_format)) (ac108_multi_update_bits k i2s_lrck_ctrl1 3 0)
    let div = u32 (real_res * channels + 4294967295)
    when (p.i2s_mode == pcm_format) (do
      ac108_multi_write k i2s_lrck_ctrl2 (bit_and div 0xff)
      ac108_multi_update_bits k i2s_lrck_ctrl1 3 (div / 2 ^ 8))

  -- The clock modules, registers 0x21 and 0x22.
  abbrev modules : ℕ
  modules = 1 << i2s bor 1 << adc_digital bor 1 << mic_offset_calibration bor 1 << adc_analog

  -- What follows the checks. The kernel hands over at least one channel, the least that the interface
  -- states, so nothing is divided by zero.
  unfoldable pub write_params : RegVal → RegVal → ℕ → St Regmap ℤ
  unfolding write_period ac108_multi_write ac108_multi_update_bits ac108_config_pll bclk_index
      ac108_bclkdivs ac108_multi_chips_slots
  write_params res rate channels = do
    write_period res.real_val channels
    ac108_multi_update_bits k i2s_fmt_ctrl2 (7 << sample_resolution bor 7 << slot_width_sel)
        (res.reg_val << sample_resolution bor res.reg_val << slot_width_sel)
    ac108_multi_update_bits k adc_sprc (0xf << adc_fs_i2s1) (rate.reg_val << adc_fs_i2s1)
    ac108_multi_write k hpf_en 0x0f
    p ← get
    ac108_config_pll k rate.real_val (if is_some p.i2c101 then u32 (res.real_val * channels) else 0)
    q ← get
    let ratio = q.mclk / u32 (rate.real_val * channels * res.real_val)
    ac108_multi_update_bits k i2s_bclk_ctrl (0xf << bclkdiv)
        (bclk_index ratio 0 ac108_bclkdivs << bclkdiv)
    ac108_multi_chips_slots channels
    ac108_multi_write k mod_clk_en modules
    ac108_multi_write k mod_rst_ctrl modules
    pure (pos 0)

  -- What is done before the checks: in master mode LRCK is taken off.
  unfoldable pub stop_lrck : St Regmap (Unit {0})
  unfolding read_master update_at
  stop_lrck = do
    v ← read_master k i2s_ctrl
    when (bit_set v bclk_ioen) (update_at k master_index i2s_ctrl (1 << lrck_ioen) (0 << lrck_ioen))

  -- Parameters that do not pass the checks are refused.
  unfoldable pub write_checked : ℕ → Option (RegVal × RegVal) → St Regmap ℤ
  unfolding write_params
  write_checked channels none = pure einval
  write_checked channels (some (res, rate)) = write_params res rate channels

  unfoldable pub hw_params_ac108 : HwParams → St Regmap ℤ
  unfolding stop_lrck check_params write_checked
  hw_params_ac108 params = do
    stop_lrck
    p ← get
    write_checked params.channels (check_params params p.data_protocol)

  -- A positive status of the AC101 driver says that it has configured the stream already.
  unfoldable pub ac108_hw_params : HwParams → St Regmap ℤ
  unfolding hw_params_ac108
  ac108_hw_params params = do
    p ← get
    ret ← λ q. if is_some p.i2c101 then ac101_hw_params q else (pos 0, q)
    if ltb_ℤ (pos 0) ret then pure (pos 0) else hw_params_ac108 params
