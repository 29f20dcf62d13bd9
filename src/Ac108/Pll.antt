-- ===== src/Ac108/Pll.antt =====
-- The PLL of ac108.c: what ac108_config_pll leaves in the registers of each chip.
use j_a_r_v_i_s.Prelude.{
  ℕ, ◌+◌, ◌-◌, ◌*◌, ◌/◌, ◌%◌, ◌^◌, ◌≤◌, ◌<◌, ◌≡◌, ◌⊎◌, inl, inr, refl, sym, ap, ◌∙◌, arith, List,
  [], ◌∷◌, ◌&&◌, ◌==◌, if◌then◌else◌, Bool-cases,
}
use mathlib.Core.Path.{fun_ext}
use j_a_r_v_i_s.Prelude.Int.{pos}
use j_a_r_v_i_s.Ac108.Registers.{
  pll_ctrl2, pll_ctrl3, pll_ctrl4, pll_ctrl5, pll_lock_ctrl, sysclk_ctrl, sysclk_src_pll,
}
use j_a_r_v_i_s.Ac108.Bits.{set_bits, field-set_bits, bit_or_fields}
use j_a_r_v_i_s.Ac108.Regmap.{Priv, Kernel, u8, u32, ◌<<◌, ◌bor◌, ac108_multi_update_bits}
use j_a_r_v_i_s.Ac108.Clock.{
  PllDiv, no_div, ac108_pll_div_list, find_div, write_pll, config_from_pll, ac108_config_pll,
}
use j_a_r_v_i_s.Ac108.Works.{Works, Holds}
use j_a_r_v_i_s.Ac108.Acts.{Acts, Acts-seq, Acts-update, updated}

-- The divisors fit in the fields of the registers.
abbrev pub Fits : PllDiv → Type 0
Fits d = (d.m1 < 32) × (d.m2 < 2) × (d.n < 1024) × (d.k1 < 32) × (d.k2 < 2)

abbrev divisor : PllDiv → ℕ
divisor d = (d.m1 + 1) * (d.m2 + 1) * (d.k1 + 1) * (d.k2 + 1)

-- The frequency that the divisors make of the input is within 0.8 percent of the output.
abbrev pub IsAccurate : PllDiv → Type 0
IsAccurate d =
    (1000 * (d.freq_in * d.n) ≤ 1008 * (d.freq_out * divisor d))
    × (992 * (d.freq_out * divisor d) ≤ 1000 * (d.freq_in * d.n))

abbrev All {ℓ} : (PllDiv → Type ℓ) → List PllDiv → Type ℓ
All P [] = Unit
All P (d ∷ ds) = P d × All P ds

table-Fits : All Fits ac108_pll_div_list
unfolding ac108_pll_div_list
table-Fits = omega arith

-- The search gives an entry for the input and a multiple of the rate, or none.
find_div_cases :
    (P : PllDiv → Type 0) (fin rate : ℕ) (ds : List PllDiv)
    → All P ds
    → (find_div fin rate ds ≡ no_div)
      ⊎ (P (find_div fin rate ds)
          × ((find_div fin rate ds).freq_in ≡ fin)
          × ((find_div fin rate ds).freq_out % rate ≡ 0))
unfolding find_div
find_div_cases P fin rate [] all = inl refl
find_div_cases P fin rate (d ∷ ds) all =
    elim (Bool-cases (d.freq_in == fin && d.freq_out % rate == 0)) [
      | inl e ↦ rw e (inr (all.0, ground arith, ground arith))
      | inr e ↦ rw e (find_div_cases P fin rate ds all.1)
    ]

-- The divisors as the registers of a chip hold them.
abbrev pub decoded : ℕ → ℕ → (ℕ → ℕ) → PllDiv
decoded fin fout regs = record {
  freq_in = fin;
  freq_out = fout;
  m1 = regs pll_ctrl2 % 32;
  m2 = regs pll_ctrl2 / 32 % 2;
  n = regs pll_ctrl4 % 256 + 256 * (regs pll_ctrl3 % 4);
  k1 = regs pll_ctrl5 % 32;
  k2 = regs pll_ctrl5 / 32 % 2;
}

-- A register with two fields, of five bits and of one, reads back.
two_fields :
    (old a b : ℕ)
    → a < 32
    → b < 2
    → let r = set_bits old 63 (u8 (u8 (a << 0 bor b << 5))) in (r % 32 ≡ a) × (r / 32 % 2 ≡ b)
two_fields old a b ha hb =
    let e : (a << 0 bor b << 5) ≡ a + b * 32 =
      rw (bit_or_fields 5 (a * 1) b (omega arith)) (omega arith) in
    let u : u8 (u8 (a << 0 bor b << 5)) ≡ (a + b * 32) * 1 = rw e (omega arith) in
    let f = field-set_bits 0 6 (omega arith) old (a + b * 32) in rw u (omega (arith, f))

one_field :
    (old val v k : ℕ) → k ≤ 8 → val ≡ v * 1 → set_bits old ((2 ^ k - 1) * 1) val % 2 ^ k ≡ v % 2 ^ k
one_field old val v k le e =
    let f = field-set_bits 0 k (omega arith) old v in
    let g : set_bits old ((2 ^ k - 1) * 1) (v * 1) / 1 ≡ set_bits old ((2 ^ k - 1) * 1) (v * 1) =
      omega arith in
    rw e (sym (ap (λ t. t % 2 ^ k) g) ∙ f)

-- The registers after the updates of `write_pll`.
abbrev pll_regs : PllDiv → ℕ → (ℕ → ℕ) → ℕ → ℕ
pll_regs d src regs =
    let r1 = updated pll_ctrl5 63 (d.k1 << 0 bor d.k2 << 5) regs in
    let r2 = updated pll_ctrl4 255 (u8 d.n << 0) r1 in
    let r3 = updated pll_ctrl3 3 (d.n / 256 << 0) r2 in
    let r4 = updated pll_ctrl2 63 (d.m1 << 0 bor d.m2 << 5) r3 in
    let r5 = updated pll_lock_ctrl 1 1 r4 in
    updated sysclk_ctrl 0xb9 (1 << 7 bor src << 4 bor 1 << 3 bor 1 << 0) r5

decoded-pll_regs :
    (d : PllDiv) (src : ℕ) (regs : ℕ → ℕ)
    → Fits d
    → decoded d.freq_in d.freq_out (pll_regs d src regs) ≡ d
decoded-pll_regs d src regs (h1, h2, h3, h4, h5) =
    let k = two_fields (regs pll_ctrl5) d.k1 d.k2 h4 h5 in
    let m = two_fields (regs pll_ctrl2) d.m1 d.m2 h1 h2 in
    let low =
      one_field (regs pll_ctrl4) (u8 (u8 (u8 d.n * 1))) (d.n % 256) 8 (omega arith) (omega arith) in
    let high =
      one_field (regs pll_ctrl3) (u8 (u8 (d.n / 256 * 1))) (d.n / 256) 2 (omega arith)
        (omega arith) in
    ground (arith, k, m, low, high)

module _ {k : Kernel} (w : Works k) where
  Acts-write_pll : (c : ℕ) (d : PllDiv) (src : ℕ) → Acts w c (write_pll k d src) (pll_regs d src)
  unfolding write_pll
  Acts-write_pll c d src = Acts-seq w c (Acts-update w c pll_ctrl5 63 (d.k1 << 0 bor d.k2 << 5)) (
      Acts-seq w c (Acts-update w c pll_ctrl4 255 (u8 d.n << 0)) (
        Acts-seq w c (Acts-update w c pll_ctrl3 3 (d.n / 256 << 0)) (
          Acts-seq w c (Acts-update w c pll_ctrl2 63 (d.m1 << 0 bor d.m2 << 5)) (
            Acts-seq w c (Acts-update w c pll_lock_ctrl 1 1)
              (Acts-update w c sysclk_ctrl 0xb9 (1 << 7 bor src << 4 bor 1 << 3 bor 1 << 0))))))

  -- The entry that the search gives for the state's clock.
  abbrev pub chosen : Priv k.Regmap → ℕ → ℕ → PllDiv
  chosen p rate lrck_ratio =
      find_div (if lrck_ratio == 0 then p.sysclk else u32 (rate * lrck_ratio)) rate
        ac108_pll_div_list

  chosen-Fits : (p : Priv k.Regmap) (rate lrck_ratio : ℕ) → Fits (chosen p rate lrck_ratio)
  chosen-Fits p rate lrck_ratio =
      let fin = if lrck_ratio == 0 then p.sysclk else u32 (rate * lrck_ratio) in
      elim (find_div_cases Fits fin rate ac108_pll_div_list table-Fits) [
        | inl none_found ↦ rw none_found (omega arith)
        | inr found ↦ found.0
      ]

  config_pll_taken :
      (p : Priv k.Regmap) (rate lrck_ratio : ℕ)
      → p.clk_id ≡ sysclk_src_pll
      → ac108_config_pll k rate lrck_ratio p ≡ (pos 0, (config_from_pll k rate lrck_ratio p).1)
  unfolding ac108_config_pll config_from_pll write_pll ac108_multi_update_bits
  config_pll_taken p rate lrck_ratio pll = rw pll

  -- With the PLL as the clock's source, on a bus that works, the registers of each chip decode to
  -- the entry that the search gives, whose output is recorded as the clock.
  pub ac108_config_pll_lem :
      (p : Priv k.Regmap) (rate lrck_ratio c : ℕ) (regs : ℕ → ℕ)
      → p.clk_id ≡ sysclk_src_pll
      → c < p.codec_cnt
      → Holds w (p.i2cmap c) regs
      → let p' = (ac108_config_pll k rate lrck_ratio p).1 in
        let d = chosen p rate lrck_ratio in
        (decoded d.freq_in d.freq_out (w.value (p'.i2cmap c)) ≡ d) × (p'.mclk ≡ d.freq_out)
  unfolding config_from_pll
  ac108_config_pll_lem p rate lrck_ratio c regs pll lt h =
      let d = chosen p rate lrck_ratio in
      let src : ℕ = if lrck_ratio == 0 then 0 else 1 in
      let held = (Acts-write_pll c d src).chip p regs lt h in
      let fits : Fits d = chosen-Fits p rate lrck_ratio in
      let taken = config_pll_taken p rate lrck_ratio pll in
      (
        ap (λ s. decoded d.freq_in d.freq_out (w.value (s.1.i2cmap c))) taken
            ∙ ap (decoded d.freq_in d.freq_out) (fun_ext held.values)
            ∙ decoded-pll_regs d src regs fits,
        ap (λ s. s.1.mclk) taken,
      )
