-- ===== src/Tests/Microphone.antt =====
-- The codec driver on a kernel whose register maps are arrays of bytes, with two chips.
use j_a_r_v_i_s.Prelude.{
  ℕ, zero, suc, ◌*◌, ◌/◌, ◌<◌, ◌≡◌, ◌⊎◌, inr, refl, arith, [], ◌∷◌, none, some, true, false, ltb,
  if◌then◌else◌,
}
use j_a_r_v_i_s.Prelude.Int.{pos}
use j_a_r_v_i_s.Ac108.Registers.{i2s_ctrl, lrck_ioen}
use j_a_r_v_i_s.Ac108.Bits.{bit, set_bits}
use j_a_r_v_i_s.Ac108.Regmap.{Priv, Kernel, Trigger, DaiFmt, cbm_cfm, dsp_a, nb_nf, u32, pure}
use j_a_r_v_i_s.Ac108.Clock.{ac108_set_clock}
use j_a_r_v_i_s.Ac108.Format.{einval, ac108_set_fmt, format_of, polarity_of}
use j_a_r_v_i_s.Ac108.Params.{HwParams, s16_le, s32_le, ac108_hw_params, write_params, stop_lrck}
use j_a_r_v_i_s.Ac108.Controls.{single_value, snd_ac108_get_volsw, snd_ac108_put_volsw}
use j_a_r_v_i_s.Ac108.Works.{Works, Holds, assign}
use j_a_r_v_i_s.Ac108.Volume.{get_volsw-put_volsw}
use j_a_r_v_i_s.Ac108.Slots.{chip_sends, two_chips_slots}
use j_a_r_v_i_s.Ac108.StartStop.{ClockBits, ac108_set_clock_stop}
use j_a_r_v_i_s.Ac108.Roles.{RoleBits, ac108_set_fmt-one_master}
use j_a_r_v_i_s.Ac108.BitClock.{Clocked, write_params-Clocked}
use j_a_r_v_i_s.Ac108.Checks.{
  ac108_rates, ac108_formats, declares, documented_rates, accepts, ac108_hw_params_status,
}

-- The number of bits of a byte's value.
width : ℕ → ℕ → ℕ
width zero x = 0
width (suc fuel) x = if ltb x 1 then 0 else suc (width fuel (x / 2))

abbrev kernel : Kernel
kernel = record {
  Regmap = ℕ → ℕ;
  null = λ r. 0;
  regmap_read = λ m r. (pos 0, m r);
  regmap_write = λ m r v. (pos 0, assign m r v);
  regmap_update_bits = λ m r mask v. (pos 0, assign m r (set_bits (m r) mask v));
  regcache_cache_only = λ m b. m;
  regcache_sync = λ m. (pos 0, m);
  fill_regcache = λ m. m;
  fls = width 32;
  uninitialised = 0xa5;
  ac101_hw_params = pure (pos 0);
  ac101_set_dai_fmt = λ f. pure (pos 0);
  ac101_trigger = λ t. pure (pos 0);
  ac101_aif_shutdown = pure tt;
  ac101_set_bias_level = λ l. pure (pos 0);
  ac101_codec_suspend = pure (pos 0);
  ac101_codec_resume = pure (pos 0);
  ac101_probe = λ c. pure (pos 0);
  ac101_remove = λ c. pure (pos 0);
  snd_soc_register_codec = λ c. pure (pos 0);
}

abbrev works : Works kernel
works = record {
  Live = λ m. Unit {0};
  value = λ m r. m r;
  write_status = λ m r v l. refl;
  write-Live = λ m r v l. tt;
  value-write = λ m r v j l. refl;
  update_status = λ m r mask v l. refl;
  update-Live = λ m r mask v l. tt;
  value-update = λ m r mask v j l. refl;
  read_lem = λ m r l. refl;
}

-- Two chips that are set up for the PLL, with the clock on.
abbrev two_chips : Priv (ℕ → ℕ)
two_chips = record {
  i2c = λ i. some i;
  i2cmap = λ i r. i;
  codec_cnt = 2;
  sysclk = 24000000;
  mclk = 0;
  clk_id = 1;
  i2s_mode = 0;
  data_protocol = 0;
  tdm_chips_cnt = 2;
  sysclk_en = 1;
  codec = none;
  i2c101 = none;
}

abbrev held : (c : ℕ) → Holds works (two_chips.i2cmap c) (λ r. c)
held c = record { live = tt; values = λ r. refl }

get_volsw-put_volsw_example :
    let put = snd_ac108_put_volsw kernel (single_value 0x90 1 31 true 0) 20 two_chips in
    (put.0 ≡ pos 0)
    × (snd_ac108_get_volsw kernel (single_value 0x90 1 31 true 0) put.1 ≡ (pos 0, 20))
unfolding width
get_volsw-put_volsw_example =
    get_volsw-put_volsw works 0x90 1 31 0 20 true two_chips (λ r. 0) (held 0) (omega arith)
      (omega arith) (omega arith)

two_chips_slots_example :
    (chip_sends works 8 0 two_chips ≡ (0, 2) ∷ (1, 3) ∷ (6, 0) ∷ (7, 1) ∷ [])
    × (chip_sends works 8 1 two_chips ≡ (2, 0) ∷ (3, 1) ∷ (4, 2) ∷ (5, 3) ∷ [])
two_chips_slots_example = two_chips_slots works 8 two_chips (λ r. 0) (λ r. 1) refl (held 0) (held 1)

ac108_set_clock_stop_example :
    let (ret, p') = ac108_set_clock kernel false Trigger.stop two_chips in
    (ret ≡ false)
    × (p'.sysclk_en ≡ 0)
    × ClockBits works 0 (works.value (p'.i2cmap 1))
    × (bit (works.value (p'.i2cmap 0) i2s_ctrl) lrck_ioen ≡ 0)
ac108_set_clock_stop_example =
    ac108_set_clock_stop works Trigger.stop two_chips (λ c r. c) 1 (omega arith) (omega arith)
      (omega arith) (λ c lt. held c)

ac108_set_fmt-one_master_example :
    let fmt : DaiFmt = record { clock = cbm_cfm; format = dsp_a; inversion = nb_nf } in
    RoleBits 1 0 1 1 (works.value ((ac108_set_fmt kernel fmt two_chips).1.i2cmap 1))
unfolding format_of polarity_of
ac108_set_fmt-one_master_example =
    ac108_set_fmt-one_master works dsp_a nb_nf 0 1 0 1 1 two_chips (λ r. 1) refl refl refl
      (omega arith) (held 1)

write_params-Clocked_example :
    let p' =
      (write_params kernel
        (record { real_val = 32; reg_val = 7 })
        (record { real_val = 16000; reg_val = 3 })
        8
        two_chips).1 in
    Clocked works 1 (p'.mclk / u32 (16000 * 8 * 32)) (works.value (p'.i2cmap 1))
write_params-Clocked_example =
    write_params-Clocked works 1 (record { real_val = 32; reg_val = 7 })
      (record { real_val = 16000; reg_val = 3 }) 8 two_chips (omega arith) tt

ac108_hw_params_status_example :
    let params : HwParams = record { channels = 8; format = s32_le; rate = 96000 } in
    let (ret, p') = ac108_hw_params kernel params two_chips in
    ((accepts params 0 ≡ true) × (ret ≡ pos 0))
    ⊎ ((accepts params 0 ≡ false)
        × (ret ≡ einval)
        × (p' ≡ (stop_lrck kernel two_chips).1)
        × ((declares documented_rates params ≡ false) ⊎ (0 < 0)))
ac108_hw_params_status_example =
    ac108_hw_params_status kernel documented_rates 8 96000 s32_le two_chips (omega arith)
      (omega arith) (inr refl) refl

-- The interface declares what it is used for, and not all that ac108_hw_params accepts.
declared_rates :
    (declares documented_rates (record { channels = 2; format = s32_le; rate = 16000 }) ≡ true)
    × (declares documented_rates (record { channels = 2; format = s16_le; rate = 32000 }) ≡ false)
    × (accepts (record { channels = 2; format = s16_le; rate = 32000 }) 0 ≡ true)
unfolding declares ac108_rates ac108_formats
declared_rates = (refl, refl, refl)
