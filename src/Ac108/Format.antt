-- ===== src/Ac108/Format.antt =====
-- The format of the audio interface and the power registers (ac108.c, ac108_configure_power and
-- ac108_set_fmt).
use j_a_r_v_i_s.Prelude.{ℕ, Option, none, some, Bool, true, false, not, if◌then◌else◌}
use j_a_r_v_i_s.Prelude.Int.{ℤ, pos, negsuc}
use j_a_r_v_i_s.Ac108.Registers.{
  pwr_ctrl6, pwr_ctrl7, pwr_ctrl9, i2s_ctrl, i2s_bclk_ctrl, i2s_lrck_ctrl1, i2s_fmt_ctrl1,
  i2s_fmt_ctrl3, hpf_en, ldo33ana_enable, vref_sel, vref_faststart_enable, vref_enable,
  vrefp_faststart_enable, vrefp_resctrl, igen_trim, vrefp_enable, bclk_ioen, lrck_ioen, sdo1_en,
  txen, gen, bclk_polarity, lrck_polarity, encd_sel, mode_sel, tx2_offset, tx1_offset, tx_slot_hiz,
  tx_state, tx_mls, sext, lrck_width, tx_pdm, bclk_normal_drive_n_sample_p,
  bclk_invert_drive_p_sample_n, lrck_left_low_right_high, lrck_left_high_right_low, pcm_format,
  left_justified_format, right_justified_format,
}
use j_a_r_v_i_s.Ac108.Regmap.{
  Kernel, St, pure, ◌>>=◌, ◌>>◌, get, modify, master_index, ◌<<◌, ◌bor◌, is_some, DaiClock,
  DaiFormat, DaiInversion, DaiFmt, cbm_cfm, cbs_cfs, other_clock, i2s_format, right_j, left_j,
  dsp_a, dsp_b, other_format, nb_nf, nb_if, ib_nf, ib_if, other_inversion, ac108_multi_write,
  ac108_multi_update_bits, update_at,
}

-- The `switch` on the format: `i2s_mode` and `tx_offset`.
unfoldable pub format_of : DaiFormat → Option (ℕ × ℕ)
format_of i2s_format = some (left_justified_format, 1)
format_of right_j = some (right_justified_format, 0)
format_of left_j = some (left_justified_format, 0)
format_of dsp_a = some (pcm_format, 1)
format_of dsp_b = some (pcm_format, 0)
format_of other_format = none

-- The `switch` on the inversion: `brck_polarity` and `lrck_polarity`.
unfoldable pub polarity_of : DaiInversion → Option (ℕ × ℕ)
polarity_of nb_nf = some (bclk_normal_drive_n_sample_p, lrck_left_high_right_low)
polarity_of nb_if = some (bclk_normal_drive_n_sample_p, lrck_left_low_right_high)
polarity_of ib_nf = some (bclk_invert_drive_p_sample_n, lrck_left_high_right_low)
polarity_of ib_if = some (bclk_invert_drive_p_sample_n, lrck_left_low_right_high)
polarity_of other_inversion = none

-- `-EINVAL`
abbrev pub einval : ℤ
einval = negsuc 21

module _ (k : Kernel) where
  open k use {Regmap, ac101_set_dai_fmt}

  unfoldable pub ac108_configure_power : St Regmap Bool
  unfolding ac108_multi_update_bits
  ac108_configure_power = do
    ac108_multi_update_bits k pwr_ctrl6 (1 << ldo33ana_enable) (1 << ldo33ana_enable)
    ac108_multi_update_bits k pwr_ctrl7
        (0x1f << vref_sel bor 1 << vref_faststart_enable bor 1 << vref_enable)
        (0x13 << vref_sel bor 0 << vref_faststart_enable bor 1 << vref_enable)
    ac108_multi_update_bits k pwr_ctrl9
        (1 << vrefp_faststart_enable
          bor 3 << vrefp_resctrl
          bor 7 << igen_trim
          bor 1 << vrefp_enable)
        (0 << vrefp_faststart_enable
          bor 0 << vrefp_resctrl
          bor 4 << igen_trim
          bor 1 << vrefp_enable)

  -- All chips drive no clock; then the first alone drives BCLK.
  unfoldable pub set_master : St Regmap ℤ
  unfolding ac108_multi_update_bits update_at
  set_master = do
    ac108_multi_update_bits k i2s_ctrl (3 << lrck_ioen bor 3 << sdo1_en bor 1 << txen bor 1 << gen)
        (0 << lrck_ioen bor 3 << sdo1_en bor 1 << txen bor 1 << gen)
    update_at k master_index i2s_ctrl (3 << lrck_ioen) (1 << bclk_ioen)

  unfoldable pub set_slave : St Regmap Bool
  unfolding ac108_multi_update_bits
  set_slave =
      ac108_multi_update_bits k i2s_ctrl
        (3 << lrck_ioen bor 3 << sdo1_en bor 1 << txen bor 1 << gen)
        (0 << lrck_ioen bor 3 << sdo1_en bor 0 << txen bor 0 << gen)

  -- The `switch` on the clock. With an AC101 on the card, which is the master then, the first case
  -- falls through to the second.
  unfoldable pub set_clock_role : DaiClock → St Regmap Bool
  unfolding set_master set_slave
  set_clock_role cbm_cfm p =
      if not (is_some p.i2c101) then (true, (set_master p).1) else (true, (set_slave p).1)
  set_clock_role cbs_cfs p = (true, (set_slave p).1)
  set_clock_role other_clock p = (false, p)

  -- What follows the three switches.
  unfoldable pub write_format : ℕ → ℕ → ℕ → St Regmap (Unit {0})
  unfolding ac108_configure_power ac108_multi_update_bits ac108_multi_write
  write_format tx_offset brck lrck = do
    ac108_configure_power
    ac108_multi_update_bits k i2s_bclk_ctrl (1 << bclk_polarity) (brck << bclk_polarity)
    ac108_multi_update_bits k i2s_lrck_ctrl1 (1 << lrck_polarity) (lrck << lrck_polarity)
    p ← get
    ac108_multi_update_bits k i2s_fmt_ctrl1
        (1 << encd_sel
          bor 3 << mode_sel
          bor 1 << tx2_offset
          bor 1 << tx1_offset
          bor 1 << tx_slot_hiz
          bor 1 << tx_state)
        (p.data_protocol << encd_sel
          bor p.i2s_mode << mode_sel
          bor tx_offset << tx2_offset
          bor tx_offset << tx1_offset
          bor 0 << tx_slot_hiz
          bor 1 << tx_state)
    ac108_multi_update_bits k i2s_fmt_ctrl3
        (1 << tx_mls bor 3 << sext bor 1 << lrck_width bor 3 << tx_pdm)
        (0 << tx_mls bor 3 << sext bor 0 << lrck_width bor 0 << tx_pdm)
    ac108_multi_write k hpf_en 0x00
    pure tt

  -- The third switch and what follows it.
  unfoldable pub set_polarity : DaiFmt → ℕ → St Regmap ℤ
  unfolding polarity_of write_format
  set_polarity fmt tx_offset = elim (polarity_of fmt.inversion) [
    | none ↦ pure einval
    | some (brck, lrck) ↦ do
      write_format tx_offset brck lrck
      p ← get
      if is_some p.i2c101 then ac101_set_dai_fmt fmt else pure (pos 0)
  ]

  -- The second switch and what follows it.
  unfoldable pub set_format : DaiFmt → St Regmap ℤ
  unfolding format_of set_polarity
  set_format fmt = elim (format_of fmt.format) [
    | none ↦ pure einval
    | some (i2s_mode, tx_offset) ↦ do
      modify (λ q. record q { i2s_mode = i2s_mode })
      set_polarity fmt tx_offset
  ]

  -- A refused field leaves what the fields before it have written.
  unfoldable pub ac108_set_fmt : DaiFmt → St Regmap ℤ
  unfolding set_clock_role set_format
  ac108_set_fmt fmt = do
    known ← set_clock_role fmt.clock
    if not known then pure einval else set_format fmt
