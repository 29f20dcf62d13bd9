-- ===== src/Ac108/BitClock.antt =====
-- The bit clock of a stream (ac108.c, ac108_hw_params): the divisor that the driver chooses, and the
-- parameters that it refuses.
use Prim.Native.Nat.{bit_and}
use mathlib.Core.Path.{subst}
use j_a_r_v_i_s.Prelude.{
  ℕ, suc, ◌+◌, ◌-◌, ◌*◌, ◌/◌, ◌%◌, ◌^◌, ◌≤◌, ◌<◌, ◌≡◌, refl, sym, ap, ◌∙◌, arith, List, [], ◌∷◌,
  length, get_or, take, not, ◌&&◌, ◌==◌, leb, if◌then◌else◌, ◌⊎◌, inl, inr, Bool-cases,
}
use j_a_r_v_i_s.Prelude.Int.{ℤ, pos}
use j_a_r_v_i_s.Ac108.Registers.{
  pll_ctrl2, pll_ctrl3, pll_ctrl4, pll_ctrl5, pll_lock_ctrl, sysclk_ctrl, mod_clk_en, mod_rst_ctrl,
  i2s_bclk_ctrl, i2s_lrck_ctrl1, i2s_lrck_ctrl2, i2s_fmt_ctrl2, adc_sprc, hpf_en, bclkdiv,
  slot_width_sel, sample_resolution, adc_fs_i2s1, sysclk_src_mclk, sysclk_src_pll, pcm_format,
}
use j_a_r_v_i_s.Ac108.Bits.{set_bits, field-set_bits}
use j_a_r_v_i_s.Ac108.Regmap.{
  Priv, Kernel, St, ◌>>=◌, ◌>>◌, pure, get, u8, u32, ◌<<◌, ◌bor◌, is_some, ac108_multi_write,
  ac108_multi_update_bits,
}
use j_a_r_v_i_s.Ac108.Clock.{write_pll, config_from_pll, config_from_mclk, ac108_config_pll, PllDiv}
use j_a_r_v_i_s.Ac108.Params.{
  RegVal, ac108_bclkdivs, bclk_index, ac108_multi_chips_slots, write_period, write_params, slot_vec,
  map_vec,
}
use j_a_r_v_i_s.Ac108.Works.{Works}
use j_a_r_v_i_s.Ac108.Acts.{
  Acts-update, Acts-write, updated, written, Keeps, Acts-Keeps, Keeps-bind, Keeps-when, Keeps-rest,
}
use j_a_r_v_i_s.Ac108.Pll.{chosen}
use j_a_r_v_i_s.Ac108.Slots.{slot_regs, Holds-multi_chips_slots}

abbrev All {ℓ} : (ℕ → Type ℓ) → List ℕ → Type ℓ
All P [] = Unit
All P (d ∷ ds) = P d × All P ds

-- The index is that of the first divisor that is large enough, or that of the last divisor.
bclk_index_least :
    (ratio i d : ℕ) (ds : List ℕ)
    → let n = bclk_index ratio i (d ∷ ds) in
      (m : ℕ) × (n ≡ i + m)
      × (m ≤ length ds)
      × ((m ≡ length ds) ⊎ (ratio ≤ get_or (d ∷ ds) m 0))
      × All (λ e. e < ratio) (take m (d ∷ ds))
unfolding bclk_index
bclk_index_least ratio i d [] = (0, omega arith, omega arith, inl refl, tt)
bclk_index_least ratio i d (e ∷ ds) = elim (Bool-cases (leb ratio d)) [
  | inl fits ↦ (0, rw fits (omega arith), omega arith, inr (ground (arith, fits)), tt)
  | inr small ↦
      let (m, at, bound, enough, below) = bclk_index_least ratio (i + 1) e ds in
      (
        suc m,
        rw small (omega (arith, at)),
        omega (arith, bound),
        ground (arith, enough),
        (ground (arith, small), below),
      )
]

-- `i` is the index of the first divisor of the table that is not below the ratio, or that of the
-- last divisor if those before it are all below.
abbrev pub IsChosen : ℕ → ℕ → Type 0
IsChosen ratio i =
    (i ≤ 15)
    × ((i ≡ 15) ⊎ (ratio ≤ get_or ac108_bclkdivs i 0))
    × All (λ d. d < ratio) (take i ac108_bclkdivs)

bclk_index-IsChosen : (ratio : ℕ) → IsChosen ratio (bclk_index ratio 0 ac108_bclkdivs)
unfolding ac108_bclkdivs
bclk_index-IsChosen ratio =
    let rest = 1 ∷ 2 ∷ 4 ∷ 6 ∷ 8 ∷ 12 ∷ 16 ∷ 24 ∷ 32 ∷ 48 ∷ 64 ∷ 96 ∷ 128 ∷ 176 ∷ 192 ∷ [] in
    let (m, at, bound, enough, below) = bclk_index_least ratio 0 0 rest in
    let same : bclk_index ratio 0 (0 ∷ rest) ≡ m = omega (arith, at) in
    subst (IsChosen ratio) (sym same) (bound, enough, below)

low_field : (old idx : ℕ) → idx ≤ 15 → set_bits old 15 (u8 (u8 (idx << 0))) % 16 ≡ idx
low_field old idx h =
    let e : u8 (u8 (idx << 0)) ≡ idx * 1 = omega arith in
    let f = field-set_bits 0 4 (omega arith) old idx in rw e (omega (arith, f))

-- The updates before the bit clock keep the map of a chip usable.
module _ {k : Kernel} (w : Works k) (c : ℕ) where
  Keeps-update : (reg mask val : ℕ) → Keeps w c (ac108_multi_update_bits k reg mask val)
  Keeps-update reg mask val = Acts-Keeps w c (Acts-update w c reg mask val)

  Keeps-write : (reg val : ℕ) → Keeps w c (ac108_multi_write k reg val)
  Keeps-write reg val = Acts-Keeps w c (Acts-write w c reg val)

  Keeps-pure : {A : Type 0} (a : A) → Keeps w c (pure {R = k.Regmap} a)
  Keeps-pure a = Keeps-rest w c (λ p. refl) (λ p. refl)

  Keeps-get : Keeps w c (get {R = k.Regmap})
  Keeps-get = Keeps-rest w c (λ p. refl) (λ p. refl)

  Keeps-write_pll : (d : PllDiv) (src : ℕ) → Keeps w c (write_pll k d src)
  unfolding write_pll
  Keeps-write_pll d src = Keeps-bind w c (Keeps-update pll_ctrl5 63 (d.k1 << 0 bor d.k2 << 5)) λ _.
      Keeps-bind w c (Keeps-update pll_ctrl4 255 (u8 d.n << 0)) λ _.
        Keeps-bind w c (Keeps-update pll_ctrl3 3 (d.n / 256 << 0)) λ _.
          Keeps-bind w c (Keeps-update pll_ctrl2 63 (d.m1 << 0 bor d.m2 << 5)) λ _.
            Keeps-bind w c (Keeps-update pll_lock_ctrl 1 1)
              λ _. Keeps-update sysclk_ctrl 0xb9 (1 << 7 bor src << 4 bor 1 << 3 bor 1 << 0)

  Keeps-from_pll : (rate lrck_ratio : ℕ) → Keeps w c (config_from_pll k rate lrck_ratio)
  unfolding config_from_pll
  Keeps-from_pll rate lrck_ratio = record {
    live = λ p lt l.
        (Keeps-write_pll (chosen w p rate lrck_ratio) (if lrck_ratio == 0 then 0 else 1)).live p lt
          l;
    same_count = λ p.
        (Keeps-write_pll (chosen w p rate lrck_ratio) (if lrck_ratio == 0 then 0 else 1)).same_count
          p;
  }

  Keeps-from_mclk : Keeps w c (config_from_mclk k)
  unfolding config_from_mclk
  Keeps-from_mclk = record {
    live = λ p lt l. (Keeps-update sysclk_ctrl 0x89 1).live p lt l;
    same_count = λ p. (Keeps-update sysclk_ctrl 0x89 1).same_count p;
  }

  Keeps-config_pll : (rate lrck_ratio : ℕ) → Keeps w c (ac108_config_pll k rate lrck_ratio)
  unfolding ac108_config_pll
  Keeps-config_pll rate lrck_ratio = Keeps-bind w c Keeps-get (λ p.
      Keeps-bind w c (Keeps-when w c (p.clk_id == sysclk_src_pll) (Keeps-from_pll rate lrck_ratio))
        (λ _. Keeps-bind w c Keeps-get (λ q.
          Keeps-bind w c (Keeps-when w c (q.clk_id == sysclk_src_mclk) Keeps-from_mclk)
            (λ _. Keeps-pure (pos 0)))))

  Keeps-write_period : (real_res channels : ℕ) → Keeps w c (write_period k real_res channels)
  unfolding write_period
  Keeps-write_period real_res channels =
      let div = u32 (real_res * channels + 4294967295) in
      Keeps-bind w c Keeps-get λ p.
        Keeps-bind w c
          (Keeps-when w c (not (p.i2s_mode == pcm_format) && not (p.data_protocol == 0))
            (Keeps-write i2s_lrck_ctrl2 (real_res - 1)))
          λ _.
            Keeps-bind w c
              (Keeps-when w c (not (p.i2s_mode == pcm_format)) (Keeps-update i2s_lrck_ctrl1 3 0))
              λ _. Keeps-when w c (p.i2s_mode == pcm_format) (
                Keeps-bind w c (Keeps-write i2s_lrck_ctrl2 (bit_and div 0xff))
                  (λ _. Keeps-update i2s_lrck_ctrl1 3 (div / 2 ^ 8)))

  -- All that is done before the bit clock is set.
  before_bclk : RegVal → RegVal → ℕ → St k.Regmap ℤ
  before_bclk res rate channels = do
    write_period k res.real_val channels
    ac108_multi_update_bits k i2s_fmt_ctrl2 (7 << sample_resolution bor 7 << slot_width_sel)
        (res.reg_val << sample_resolution bor res.reg_val << slot_width_sel)
    ac108_multi_update_bits k adc_sprc (0xf << adc_fs_i2s1) (rate.reg_val << adc_fs_i2s1)
    ac108_multi_write k hpf_en 0x0f
    p ← get
    ac108_config_pll k rate.real_val (if is_some p.i2c101 then u32 (res.real_val * channels) else 0)

  Keeps-before_bclk : (res rate : RegVal) (channels : ℕ) → Keeps w c (before_bclk res rate channels)
  unfolding before_bclk
  Keeps-before_bclk res rate channels =
      Keeps-bind w c (Keeps-write_period res.real_val channels) λ _.
        Keeps-bind w c
          (Keeps-update i2s_fmt_ctrl2 0x77
            (res.reg_val << sample_resolution bor res.reg_val << slot_width_sel))
          λ _. Keeps-bind w c (Keeps-update adc_sprc 0xf (rate.reg_val << adc_fs_i2s1)) λ _.
            Keeps-bind w c (Keeps-write hpf_en 0x0f) λ _. Keeps-bind w c Keeps-get λ p.
              Keeps-config_pll rate.real_val
                (if is_some p.i2c101 then u32 (res.real_val * channels) else 0)

  -- The bit clock and what follows it.
  set_bclk : ℕ → ℕ → St k.Regmap ℤ
  set_bclk ratio channels = do
    ac108_multi_update_bits k i2s_bclk_ctrl (0xf << bclkdiv)
        (bclk_index ratio 0 ac108_bclkdivs << bclkdiv)
    ac108_multi_chips_slots k channels
    ac108_multi_write k mod_clk_en 0x93
    ac108_multi_write k mod_rst_ctrl 0x93
    pure (pos 0)

  -- The divisor in the register, and the clock modules.
  abbrev pub Clocked : ℕ → (ℕ → ℕ) → Type 0
  Clocked ratio r =
      IsChosen ratio (r i2s_bclk_ctrl % 16) × (r mod_clk_en ≡ 0x93) × (r mod_rst_ctrl ≡ 0x93)

  -- What stands in the registers after the last steps, from any state.
  set_bclk-Clocked :
      (ratio channels : ℕ) (q : Priv k.Regmap)
      → c < q.codec_cnt
      → w.Live (q.i2cmap c)
      → Clocked ratio (w.value ((set_bclk ratio channels q).1.i2cmap c))
  unfolding set_bclk ac108_multi_update_bits ac108_multi_chips_slots ac108_multi_write
  set_bclk-Clocked ratio channels q lt l =
      let idx = bclk_index ratio 0 ac108_bclkdivs in
      let regs = w.value (q.i2cmap c) in
      let q1 = (ac108_multi_update_bits k i2s_bclk_ctrl 15 (idx << bclkdiv) q).1 in
      let q2 = (ac108_multi_chips_slots k channels q1).1 in
      let q3 = (ac108_multi_write k mod_clk_en 0x93 q2).1 in
      let r1 = updated i2s_bclk_ctrl 15 (idx << bclkdiv) regs in
      let r2 = slot_regs channels (slot_vec q.codec_cnt c) (map_vec q.codec_cnt c) r1 in
      let h1 =
        (Acts-update w c i2s_bclk_ctrl 15 (idx << bclkdiv)).chip q regs lt
          (record { live = l; values = λ r. refl }) in
      let h2 = Holds-multi_chips_slots w channels c q1 r1 lt h1 in
      let h3 = (Acts-write w c mod_clk_en 0x93).chip q2 r2 lt h2 in
      let h4 = (Acts-write w c mod_rst_ctrl 0x93).chip q3 (written mod_clk_en 0x93 r2) lt h3 in
      let chosen_idx = bclk_index-IsChosen ratio in
      let field = low_field (regs i2s_bclk_ctrl) idx chosen_idx.0 in
      (
        subst (IsChosen ratio) (sym (ap (λ r. r % 16) (h4.values i2s_bclk_ctrl) ∙ field))
            chosen_idx,
        h4.values mod_clk_en,
        h4.values mod_rst_ctrl,
      )

  -- On a bus that works, the parameters that pass the checks leave on every chip the divisor of BCLK
  -- that is the first of the table not below the ratio of the recorded clock to the wanted bit clock,
  -- or the last divisor, and the clock modules on and out of reset.
  pub write_params-Clocked :
      (res rate : RegVal) (channels : ℕ) (p : Priv k.Regmap)
      → c < p.codec_cnt
      → w.Live (p.i2cmap c)
      → let p' = (write_params k res rate channels p).1 in
        Clocked (p'.mclk / u32 (rate.real_val * channels * res.real_val)) (w.value (p'.i2cmap c))
  unfolding write_params before_bclk set_bclk ac108_multi_update_bits ac108_multi_chips_slots
      ac108_multi_write
  write_params-Clocked res rate channels p lt l =
      let q = (before_bclk res rate channels p).1 in
      let keeps = Keeps-before_bclk res rate channels in
      set_bclk-Clocked (q.mclk / u32 (rate.real_val * channels * res.real_val)) channels q
        (let e = keeps.same_count p in omega arith) (keeps.live p lt l)
