-- ===== src/Ac108/Clock.antt =====
-- The clocks of the codec (ac108.c): the table of the PLL's divisors, ac108_config_pll,
-- ac108_set_sysclk, ac108_set_clock and ac108_trigger.
use j_a_r_v_i_s.Prelude.{
  ℕ, ◌*◌, ◌/◌, ◌%◌, List, [], ◌∷◌, Bool, true, false, not, ◌&&◌, ◌==◌, if◌then◌else◌,
}
use j_a_r_v_i_s.Prelude.Int.{ℤ, pos, negsuc}
use j_a_r_v_i_s.Ac108.Registers.{
  pll_ctrl1, pll_ctrl2, pll_ctrl3, pll_ctrl4, pll_ctrl5, pll_lock_ctrl, sysclk_ctrl, i2s_ctrl,
  pll_com_en, pll_en, pll_prediv2, pll_prediv1, pll_loopdiv_msb, pll_loopdiv_lsb, pll_postdiv2,
  pll_postdiv1, pll_lock_en, pllclk_en, pllclk_src, sysclk_src, sysclk_en, bclk_ioen, lrck_ioen,
  txen, gen, sysclk_src_mclk, sysclk_src_pll,
}
use j_a_r_v_i_s.Ac108.Regmap.{
  Kernel, St, Trigger, start, resume, pause_release, stop, suspend, pause_push, other, pure, ◌>>=◌,
  ◌>>◌, get, modify, when, u8, u32, master_index, ◌<<◌, ◌bor◌, bit_set, failed, is_some,
  ac108_multi_update_bits, update_at, read_master,
}

pub record PllDiv : Type 0 where
  pub freq_in : ℕ
  pub freq_out : ℕ
  pub m1 : ℕ
  pub m2 : ℕ
  pub n : ℕ
  pub k1 : ℕ
  pub k2 : ℕ

abbrev pub freq_24_576k : ℕ
freq_24_576k = 24576000

abbrev pub freq_22_579k : ℕ
freq_22_579k = 22579200

abbrev div : ℕ → ℕ → ℕ → ℕ → ℕ → ℕ → ℕ → PllDiv
div i o m1 m2 n k1 k2 = record {
  freq_in = i;
  freq_out = o;
  m1 = m1;
  m2 = m2;
  n = n;
  k1 = k1;
  k2 = k2;
}

-- FOUT = (FIN * N) / [(M1 + 1) * (M2 + 1) * (K1 + 1) * (K2 + 1)]
unfoldable pub ac108_pll_div_list : List PllDiv
ac108_pll_div_list =
    div 400000 freq_24_576k 0 0 614 4 1
    ∷ div 512000 freq_24_576k 0 0 960 9 1
    ∷ div 768000 freq_24_576k 0 0 640 9 1
    ∷ div 800000 freq_24_576k 0 0 614 9 1
    ∷ div 1024000 freq_24_576k 0 0 480 9 1
    ∷ div 1600000 freq_24_576k 0 0 307 9 1
    ∷ div 2048000 freq_24_576k 0 0 240 9 1
    ∷ div 3072000 freq_24_576k 0 0 160 9 1
    ∷ div 4096000 freq_24_576k 2 0 360 9 1
    ∷ div 6000000 freq_24_576k 4 0 410 9 1
    ∷ div 12000000 freq_24_576k 9 0 410 9 1
    ∷ div 13000000 freq_24_576k 8 0 340 9 1
    ∷ div 15360000 freq_24_576k 12 0 415 9 1
    ∷ div 16000000 freq_24_576k 12 0 400 9 1
    ∷ div 19200000 freq_24_576k 15 0 410 9 1
    ∷ div 19680000 freq_24_576k 15 0 400 9 1
    ∷ div 24000000 freq_24_576k 4 0 128 24 0
    ∷ div 400000 freq_22_579k 0 0 566 4 1
    ∷ div 512000 freq_22_579k 0 0 880 9 1
    ∷ div 768000 freq_22_579k 0 0 587 9 1
    ∷ div 800000 freq_22_579k 0 0 567 9 1
    ∷ div 1024000 freq_22_579k 0 0 440 9 1
    ∷ div 1600000 freq_22_579k 1 0 567 9 1
    ∷ div 2048000 freq_22_579k 0 0 220 9 1
    ∷ div 3072000 freq_22_579k 0 0 148 9 1
    ∷ div 4096000 freq_22_579k 2 0 330 9 1
    ∷ div 6000000 freq_22_579k 2 0 227 9 1
    ∷ div 12000000 freq_22_579k 8 0 340 9 1
    ∷ div 13000000 freq_22_579k 9 0 350 9 1
    ∷ div 15360000 freq_22_579k 10 0 325 9 1
    ∷ div 16000000 freq_22_579k 11 0 340 9 1
    ∷ div 19200000 freq_22_579k 13 0 330 9 1
    ∷ div 19680000 freq_22_579k 14 0 345 9 1
    ∷ div 24000000 freq_22_579k 24 0 588 24 0
    ∷ div (freq_24_576k / 1) freq_24_576k 9 0 200 9 1
    ∷ div (freq_24_576k / 2) freq_24_576k 9 0 400 9 1
    ∷ div (freq_24_576k / 4) freq_24_576k 4 0 400 9 1
    ∷ div (freq_24_576k / 16) freq_24_576k 0 0 320 9 1
    ∷ div (freq_24_576k / 64) freq_24_576k 0 0 640 4 1
    ∷ div (freq_24_576k / 96) freq_24_576k 0 0 960 4 1
    ∷ div (freq_24_576k / 128) freq_24_576k 0 0 512 1 1
    ∷ div (freq_24_576k / 176) freq_24_576k 0 0 880 4 0
    ∷ div (freq_24_576k / 192) freq_24_576k 0 0 960 4 0
    ∷ div (freq_22_579k / 1) freq_22_579k 9 0 200 9 1
    ∷ div (freq_22_579k / 2) freq_22_579k 9 0 400 9 1
    ∷ div (freq_22_579k / 4) freq_22_579k 4 0 400 9 1
    ∷ div (freq_22_579k / 16) freq_22_579k 0 0 320 9 1
    ∷ div (freq_22_579k / 64) freq_22_579k 0 0 640 4 1
    ∷ div (freq_22_579k / 96) freq_22_579k 0 0 960 4 1
    ∷ div (freq_22_579k / 128) freq_22_579k 0 0 512 1 1
    ∷ div (freq_22_579k / 176) freq_22_579k 0 0 880 4 0
    ∷ div (freq_22_579k / 192) freq_22_579k 0 0 960 4 0
    ∷ div (freq_22_579k / 6) freq_22_579k 2 0 360 9 1
    ∷ div (freq_22_579k / 8) freq_22_579k 0 0 160 9 1
    ∷ div (freq_22_579k / 12) freq_22_579k 0 0 240 9 1
    ∷ div (freq_22_579k / 24) freq_22_579k 0 0 480 9 1
    ∷ div (freq_22_579k / 32) freq_22_579k 0 0 640 9 1
    ∷ div (freq_22_579k / 48) freq_22_579k 0 0 960 9 1
    ∷ []

-- `struct pll_div ac108_pll_div = {0}`
abbrev pub no_div : PllDiv
no_div = div 0 0 0 0 0 0 0

-- The first entry for the input frequency whose output is a multiple of the rate.
unfoldable pub find_div : ℕ → ℕ → List PllDiv → PllDiv
find_div pll_freq_in rate [] = no_div
find_div pll_freq_in rate (d ∷ ds) =
    if d.freq_in == pll_freq_in && d.freq_out % rate == 0 then d else find_div pll_freq_in rate ds

module _ (k : Kernel) where
  open k use {Regmap, ac101_trigger}

  -- The registers of the PLL, from an entry of the table and the source of the clock.
  unfoldable pub write_pll : PllDiv → ℕ → St Regmap Bool
  unfolding ac108_multi_update_bits
  write_pll d pll_src = do
    ac108_multi_update_bits k pll_ctrl5 (0x1f << pll_postdiv1 bor 1 << pll_postdiv2)
        (d.k1 << pll_postdiv1 bor d.k2 << pll_postdiv2)
    ac108_multi_update_bits k pll_ctrl4 (0xff << pll_loopdiv_lsb) (u8 d.n << pll_loopdiv_lsb)
    ac108_multi_update_bits k pll_ctrl3 (0x3 << pll_loopdiv_msb) (d.n / 256 << pll_loopdiv_msb)
    ac108_multi_update_bits k pll_ctrl2 (0x1f << pll_prediv1 bor 1 << pll_prediv2)
        (d.m1 << pll_prediv1 bor d.m2 << pll_prediv2)
    ac108_multi_update_bits k pll_lock_ctrl (1 << pll_lock_en) (1 << pll_lock_en)
    ac108_multi_update_bits k sysclk_ctrl
        (1 << pllclk_en bor 3 << pllclk_src bor 1 << sysclk_src bor 1 << sysclk_en)
        (1 << pllclk_en bor pll_src << pllclk_src bor 1 << sysclk_src bor 1 << sysclk_en)

  -- `clk_id` is SYSCLK_SRC_PLL: the source is MCLK, or BCLK where a ratio is given.
  unfoldable pub config_from_pll : ℕ → ℕ → St Regmap (Unit {0})
  unfolding write_pll find_div ac108_pll_div_list
  config_from_pll rate lrck_ratio p =
      let pll_freq_in = if lrck_ratio == 0 then p.sysclk else u32 (rate * lrck_ratio) in
      let pll_src = if lrck_ratio == 0 then 0 else 1 in
      let d = find_div pll_freq_in rate ac108_pll_div_list in
      (do write_pll d pll_src; modify (λ q. record q { mclk = d.freq_out })) p

  -- `clk_id` is SYSCLK_SRC_MCLK.
  unfoldable pub config_from_mclk : St Regmap (Unit {0})
  unfolding ac108_multi_update_bits
  config_from_mclk = do
    ac108_multi_update_bits k sysclk_ctrl (1 << pllclk_en bor 1 << sysclk_src bor 1 << sysclk_en)
        (0 << pllclk_en bor 0 << sysclk_src bor 1 << sysclk_en)
    modify (λ q. record q { mclk = q.sysclk })

  unfoldable pub ac108_config_pll : ℕ → ℕ → St Regmap ℤ
  unfolding config_from_pll config_from_mclk
  ac108_config_pll rate lrck_ratio = do
    p ← get
    when (p.clk_id == sysclk_src_pll) (config_from_pll rate lrck_ratio)
    q ← get
    when (q.clk_id == sysclk_src_mclk) config_from_mclk
    pure (pos 0)

  -- Both arguments are replaced by constants before the switch, whose other cases are not reached.
  unfoldable pub ac108_set_sysclk : ℕ → ℕ → St Regmap ℤ
  unfolding ac108_multi_update_bits
  ac108_set_sysclk clk_id freq = do
    ac108_multi_update_bits k sysclk_ctrl (1 << sysclk_src) (sysclk_src_pll << sysclk_src)
    modify (λ q. record q { sysclk = 24000000; clk_id = sysclk_src_pll })
    pure (pos 0)

  -- `if (b) ret = ret || call`: the call is made only while nothing failed.
  abbrev pub or_call : Bool → Bool → St Regmap Bool → St Regmap Bool
  or_call b ret call p = if b && not ret then call p else (ret, p)

  abbrev pub update_master : ℕ → ℕ → ℕ → St Regmap Bool
  update_master reg mask val p =
      let s = update_at k master_index reg mask val p in (failed s.0, s.1)

  -- `ac108_set_clock` with the clock off and a start asked for.
  unfoldable pub start_clock : St Regmap Bool
  unfolding ac108_multi_update_bits update_at read_master
  start_clock = do
    reg ← read_master k i2s_ctrl
    ret ←
        or_call (bit_set reg bclk_ioen) false
          (update_master i2s_ctrl (3 << lrck_ioen) (3 << lrck_ioen))
    ret ← or_call true ret (
        ac108_multi_update_bits k pll_ctrl1 (1 << pll_en bor 1 << pll_com_en)
          (1 << pll_en bor 1 << pll_com_en))
    ret ←
        or_call true ret
          (ac108_multi_update_bits k i2s_ctrl (1 << txen bor 1 << gen) (1 << txen bor 1 << gen))
    modify (λ q. record q { sysclk_en = 1 })
    pure ret

  -- `ac108_set_clock` with the clock on and a stop asked for.
  unfoldable pub stop_clock : St Regmap Bool
  unfolding ac108_multi_update_bits update_at read_master
  stop_clock = do
    ret ←
        or_call true false
          (ac108_multi_update_bits k i2s_ctrl (1 << txen bor 1 << gen) (0 << txen bor 0 << gen))
    ret ← or_call true ret (
        ac108_multi_update_bits k pll_ctrl1 (1 << pll_en bor 1 << pll_com_en)
          (0 << pll_en bor 0 << pll_com_en))
    reg ← read_master k i2s_ctrl
    ret ←
        or_call (bit_set reg lrck_ioen) ret
          (update_master i2s_ctrl (3 << lrck_ioen) (1 << bclk_ioen))
    when (not ret) (modify (λ q. record q { sysclk_en = 0 }))
    pure ret

  -- The flag is the returned `int`, 0 or 1.
  unfoldable pub ac108_set_clock : Bool → Trigger → St Regmap Bool
  unfolding start_clock stop_clock
  ac108_set_clock y_start_n_stop cmd = do
    p ← get
    when (y_start_n_stop && is_some p.i2c101) (ac101_trigger cmd)
    q ← get
    if y_start_n_stop && q.sysclk_en == 0
        then start_clock
        else if not y_start_n_stop && not (q.sysclk_en == 0)
        then stop_clock
        else pure false

  -- `case SNDRV_PCM_TRIGGER_START` and the two that share its code: the clock is started later.
  unfoldable pub trigger_start : St Regmap ℤ
  unfolding ac108_multi_update_bits read_master
  trigger_start = do
    r ← read_master k i2s_ctrl
    when (bit_set r bclk_ioen && not (bit_set r lrck_ioen))
        (ac108_multi_update_bits k i2s_ctrl (1 << txen bor 1 << gen) (0 << txen bor 0 << gen))
    pure (pos 0)

  unfoldable pub trigger_stop : Trigger → St Regmap ℤ
  trigger_stop cmd = do p ← get; when (is_some p.i2c101) (ac101_trigger cmd); pure (pos 0)

  -- -EINVAL is -22.
  unfoldable pub ac108_trigger : Trigger → St Regmap ℤ
  unfolding trigger_start trigger_stop
  ac108_trigger start = trigger_start
  ac108_trigger resume = trigger_start
  ac108_trigger pause_release = trigger_start
  ac108_trigger stop = trigger_stop stop
  ac108_trigger suspend = trigger_stop suspend
  ac108_trigger pause_push = trigger_stop pause_push
  ac108_trigger other = pure (negsuc 21)
