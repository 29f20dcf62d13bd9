-- ===== src/Ac108/Roles.antt =====
-- The format of the interface (ac108.c, ac108_set_fmt): which words are accepted, and what the
-- registers of the chips hold afterwards.
use mathlib.Core.Path.{fun_ext, subst}
use j_a_r_v_i_s.Prelude.{
  ℕ, ◌<◌, ◌≡◌, refl, sym, ◌∙◌, arith, Bool, true, false, ◌&&◌, ◌==◌, if◌then◌else◌, inl, inr,
  Bool-cases, none, some,
}
use j_a_r_v_i_s.Prelude.Int.{pos}
use j_a_r_v_i_s.Ac108.Registers.{
  pwr_ctrl6, pwr_ctrl7, pwr_ctrl9, i2s_ctrl, i2s_bclk_ctrl, i2s_lrck_ctrl1, i2s_fmt_ctrl1,
  i2s_fmt_ctrl3, hpf_en, bclk_ioen, lrck_ioen, bclk_polarity, lrck_polarity, encd_sel, mode_sel,
  tx2_offset, tx1_offset, tx_slot_hiz, tx_state, pcm_format, left_justified_format,
  right_justified_format,
}
use j_a_r_v_i_s.Ac108.Bits.{
  bit, set_bits, bit-set_bits, bit-bit_or, bit-byte, bit_flag, bit-shl_low,
}
use j_a_r_v_i_s.Ac108.Regmap.{
  Priv, Kernel, u8, ◌<<◌, ◌bor◌, ac10x_update_bits, ac108_multi_write, ac108_multi_update_bits,
  update_at, DaiClock, DaiFormat, DaiInversion, DaiFmt, cbm_cfm, cbs_cfs, other_clock, i2s_format,
  right_j, left_j, dsp_a, dsp_b, other_format, nb_nf, nb_if, ib_nf, ib_if, other_inversion,
}
use j_a_r_v_i_s.Ac108.Format.{
  format_of, polarity_of, einval, ac108_configure_power, set_master, set_slave, set_clock_role,
  set_polarity, set_format, write_format, ac108_set_fmt,
}
use j_a_r_v_i_s.Ac108.Works.{Works, Holds, Holds-update}
use j_a_r_v_i_s.Ac108.Acts.{Acts-seq, Acts-update, Acts-write, updated, written}

-- The words that the driver supports, field by field.
abbrev knows_clock : DaiClock → Bool
knows_clock cbm_cfm = true
knows_clock cbs_cfs = true
knows_clock other_clock = false

abbrev knows_format : DaiFormat → Bool
knows_format other_format = false
knows_format _ = true

abbrev knows_inversion : DaiInversion → Bool
knows_inversion other_inversion = false
knows_inversion _ = true

abbrev pub supports : DaiFmt → Bool
supports f = knows_clock f.clock && knows_format f.format && knows_inversion f.inversion

module _ (k : Kernel) where
  set_polarity_status :
      (clock : DaiClock) (format : DaiFormat) (inversion : DaiInversion) (tx_offset : ℕ)
      (p : Priv k.Regmap)
      → p.i2c101 ≡ none
      → (set_polarity k
          (record { clock = clock; format = format; inversion = inversion })
          tx_offset
          p).0
        ≡ (if knows_inversion inversion then pos 0 else einval)
  unfolding set_polarity polarity_of write_format ac108_configure_power ac108_multi_update_bits
      ac108_multi_write
  set_polarity_status clock format other_inversion tx_offset p e = refl
  set_polarity_status clock format inversion tx_offset p e = rw e refl

  set_format_status :
      (clock : DaiClock) (format : DaiFormat) (inversion : DaiInversion) (p : Priv k.Regmap)
      → p.i2c101 ≡ none
      → (set_format k (record { clock = clock; format = format; inversion = inversion }) p).0
        ≡ (if knows_format format && knows_inversion inversion then pos 0 else einval)
  unfolding set_format format_of
  set_format_status clock other_format inversion p e = refl
  set_format_status clock i2s_format inversion p e =
      set_polarity_status clock i2s_format inversion 1
        (record p { i2s_mode = left_justified_format }) e
  set_format_status clock right_j inversion p e =
      set_polarity_status clock right_j inversion 0 (record p { i2s_mode = right_justified_format })
        e
  set_format_status clock left_j inversion p e =
      set_polarity_status clock left_j inversion 0 (record p { i2s_mode = left_justified_format }) e
  set_format_status clock dsp_a inversion p e =
      set_polarity_status clock dsp_a inversion 1 (record p { i2s_mode = pcm_format }) e
  set_format_status clock dsp_b inversion p e =
      set_polarity_status clock dsp_b inversion 0 (record p { i2s_mode = pcm_format }) e

-- On a card without an AC101 a word is refused, with -EINVAL, exactly when one of its fields is not
-- supported.
pub ac108_set_fmt_status :
    (k : Kernel) (clock : DaiClock) (format : DaiFormat) (inversion : DaiInversion)
    (p : Priv k.Regmap)
    → p.i2c101 ≡ none
    → let fmt : DaiFmt = record { clock = clock; format = format; inversion = inversion } in
      (ac108_set_fmt k fmt p).0 ≡ (if supports fmt then pos 0 else einval)
unfolding ac108_set_fmt set_clock_role set_master set_slave ac108_multi_update_bits update_at
    format_of
ac108_set_fmt_status k other_clock format inversion p e = refl
ac108_set_fmt_status k cbm_cfm format inversion p e =
    rw e (ground (arith, set_format_status k cbm_cfm format inversion (set_master k p).1 e))
ac108_set_fmt_status k cbs_cfs format inversion p e =
    ground (arith, set_format_status k cbs_cfs format inversion (set_slave k p).1 e)

-- The word of I2S_FMT_CTRL1.
abbrev fmt_word : ℕ → ℕ → ℕ → ℕ
fmt_word data_protocol i2s_mode tx_offset =
    data_protocol << encd_sel
    bor i2s_mode << mode_sel
    bor tx_offset << tx2_offset
    bor tx_offset << tx1_offset
    bor 0 << tx_slot_hiz
    bor 1 << tx_state

-- The registers after what follows the switches.
abbrev fmt_regs : ℕ → ℕ → ℕ → ℕ → ℕ → (ℕ → ℕ) → ℕ → ℕ
fmt_regs data_protocol i2s_mode tx_offset brck lrck regs =
    let r1 = updated pwr_ctrl6 1 1 regs in
    let r2 = updated pwr_ctrl7 0xfb 0x99 r1 in
    let r3 = updated pwr_ctrl9 0xef 9 r2 in
    let r4 = updated i2s_bclk_ctrl 0x10 (brck << bclk_polarity) r3 in
    let r5 = updated i2s_lrck_ctrl1 0x10 (lrck << lrck_polarity) r4 in
    let r6 = updated i2s_fmt_ctrl1 0x7f (fmt_word data_protocol i2s_mode tx_offset) r5 in
    let r7 = updated i2s_fmt_ctrl3 0xe7 0x60 r6 in written hpf_en 0 r7

module _ {k : Kernel} (w : Works k) (c : ℕ) where
  Holds-write_format :
      (tx_offset brck lrck : ℕ) (p : Priv k.Regmap) (regs : ℕ → ℕ)
      → c < p.codec_cnt
      → Holds w (p.i2cmap c) regs
      → Holds w
          ((write_format k tx_offset brck lrck p).1.i2cmap c)
          (fmt_regs p.data_protocol p.i2s_mode tx_offset brck lrck regs)
  unfolding write_format ac108_configure_power ac108_multi_update_bits ac108_multi_write
  Holds-write_format tx_offset brck lrck p regs lt h =
      let all = Acts-seq w c (Acts-update w c pwr_ctrl6 1 1) (
        Acts-seq w c (Acts-update w c pwr_ctrl7 0xfb 0x99) (
          Acts-seq w c (Acts-update w c pwr_ctrl9 0xef 9) (
            Acts-seq w c (Acts-update w c i2s_bclk_ctrl 0x10 (brck << bclk_polarity)) (
              Acts-seq w c (Acts-update w c i2s_lrck_ctrl1 0x10 (lrck << lrck_polarity)) (
                Acts-seq w c
                  (Acts-update w c i2s_fmt_ctrl1 0x7f
                    (fmt_word p.data_protocol p.i2s_mode tx_offset))
                  (Acts-seq w c (Acts-update w c i2s_fmt_ctrl3 0xe7 0x60)
                    (Acts-write w c hpf_en 0))))))) in
      all.chip p regs lt h

  -- The registers of the chip after `set_master`.
  role_regs : (ℕ → ℕ) → ℕ → ℕ
  role_regs regs =
      let slave = updated i2s_ctrl 0xf5 0x35 regs in
      if c == 0 then updated i2s_ctrl 0xc0 0x80 slave else slave

  Holds-set_master :
      (p : Priv k.Regmap) (regs : ℕ → ℕ)
      → c < p.codec_cnt
      → Holds w (p.i2cmap c) regs
      → Holds w ((set_master k p).1.i2cmap c) (role_regs regs)
  unfolding set_master update_at role_regs
  Holds-set_master p regs lt h =
      let p1 = (ac108_multi_update_bits k i2s_ctrl 0xf5 0x35 p).1 in
      let h1 = (Acts-update w c i2s_ctrl 0xf5 0x35).chip p regs lt h in
      elim (Bool-cases (c == 0)) [
        | inl z ↦
            let first : c ≡ 0 = ground arith in
            rw z (
              subst
                (λ j.
                  Holds w (ac10x_update_bits k i2s_ctrl 0xc0 0x80 (p1.i2cmap j)).1
                    (updated i2s_ctrl 0xc0 0x80 (updated i2s_ctrl 0xf5 0x35 regs)))
                first (Holds-update w i2s_ctrl 0xc0 0x80 h1))
        | inr z ↦ rw z h1
      ]

-- What the switches give are flags.
format_of_flag : (f : DaiFormat) (mode off : ℕ) → format_of f ≡ some (mode, off) → off < 2
unfolding format_of
format_of_flag i2s_format mode off e = ground (arith, e)
format_of_flag right_j mode off e = ground (arith, e)
format_of_flag left_j mode off e = ground (arith, e)
format_of_flag dsp_a mode off e = ground (arith, e)
format_of_flag dsp_b mode off e = ground (arith, e)
format_of_flag other_format mode off e = cc

polarity_of_flags :
    (i : DaiInversion) (brck lrck : ℕ) → polarity_of i ≡ some (brck, lrck) → (brck < 2) × (lrck < 2)
unfolding polarity_of
polarity_of_flags other_inversion brck lrck e = cc
polarity_of_flags nb_nf brck lrck e = ground (arith, e)
polarity_of_flags nb_if brck lrck e = ground (arith, e)
polarity_of_flags ib_nf brck lrck e = ground (arith, e)
polarity_of_flags ib_if brck lrck e = ground (arith, e)

-- Bit 2 of the format word.
fmt_word_offset :
    (dp mode off : ℕ) → off < 2 → bit (u8 (u8 (fmt_word dp mode off))) tx1_offset ≡ off
unfolding bit
fmt_word_offset dp mode off h =
    let a = dp << 6 in
    let b = mode << 4 in
    let c = off << 3 in
    let d = off << 2 in
    bit-byte (fmt_word dp mode off) 2 (omega arith)
    ∙ omega (
      arith,
      bit-bit_or (a bor b bor c bor d bor 0) 1 2,
      bit-bit_or (a bor b bor c bor d) 0 2,
      bit-bit_or (a bor b bor c) d 2,
      bit-bit_or (a bor b) c 2,
      bit-bit_or a b 2,
      bit-shl_low dp 6 2 (omega arith),
      bit-shl_low mode 4 2 (omega arith),
      bit-shl_low off 3 2 (omega arith),
      bit_flag off 2 h,
    )

-- The bits of the registers of chip `c` that set its role on the bus and its format.
abbrev pub RoleBits : ℕ → ℕ → ℕ → ℕ → (ℕ → ℕ) → Type 0
RoleBits c brck lrck off r =
    (bit (r i2s_ctrl) bclk_ioen ≡ (if c == 0 then 1 else 0))
    × (bit (r i2s_ctrl) lrck_ioen ≡ 0)
    × (bit (r i2s_bclk_ctrl) bclk_polarity ≡ brck)
    × (bit (r i2s_lrck_ctrl1) lrck_polarity ≡ lrck)
    × (bit (r i2s_fmt_ctrl1) tx1_offset ≡ off)

flag_update : (old b : ℕ) → b < 2 → bit (set_bits old 0x10 (u8 (u8 (b << 4)))) 4 ≡ b
unfolding bit
flag_update old b h =
    bit-set_bits old 0x10 (u8 (u8 (b << 4))) 4 (omega arith) (omega arith)
    ∙ bit-byte (b << 4) 4 (omega arith)
    ∙ bit_flag b 4 h

module _ {k : Kernel} (w : Works k) (c : ℕ) where
  role_clock :
      (regs : ℕ → ℕ) → bit (role_regs w c regs i2s_ctrl) bclk_ioen ≡ (if c == 0 then 1 else 0)
  unfolding role_regs bit
  role_clock regs = elim (Bool-cases (c == 0)) [
    | inl e ↦
        rw e (
          bit-set_bits (set_bits (regs i2s_ctrl) 0xf5 0x35) 0xc0 0x80 7 (omega arith) (omega arith))
    | inr e ↦ rw e (bit-set_bits (regs i2s_ctrl) 0xf5 0x35 7 (omega arith) (omega arith))
  ]

  role_lrck : (regs : ℕ → ℕ) → bit (role_regs w c regs i2s_ctrl) lrck_ioen ≡ 0
  unfolding role_regs bit
  role_lrck regs = elim (Bool-cases (c == 0)) [
    | inl e ↦
        rw e (
          bit-set_bits (set_bits (regs i2s_ctrl) 0xf5 0x35) 0xc0 0x80 6 (omega arith) (omega arith))
    | inr e ↦ rw e (bit-set_bits (regs i2s_ctrl) 0xf5 0x35 6 (omega arith) (omega arith))
  ]

module _ {k : Kernel} (w : Works k) where
  set_fmt_steps :
      (format : DaiFormat) (inversion : DaiInversion) (mode off brck lrck : ℕ) (p : Priv k.Regmap)
      → p.i2c101 ≡ none
      → format_of format ≡ some (mode, off)
      → polarity_of inversion ≡ some (brck, lrck)
      → (ac108_set_fmt k (record { clock = cbm_cfm; format = format; inversion = inversion }) p).1
        ≡ (write_format k off brck lrck (record (set_master k p).1 { i2s_mode = mode })).1
  unfolding ac108_set_fmt set_clock_role set_format set_polarity set_master write_format
      ac108_configure_power ac108_multi_update_bits ac108_multi_write update_at
  set_fmt_steps format inversion mode off brck lrck p card ef ep =
      rw card (rw (ef, set_format) (rw (ep, set_polarity) refl))

  -- On a card without an AC101 whose chips work, with the codec as the master and a supported format
  -- and inversion: of all chips the first alone drives BCLK, none drives LRCK yet, and each has the
  -- polarities and the offset of the format.
  pub ac108_set_fmt-one_master :
      (format : DaiFormat) (inversion : DaiInversion) (mode off brck lrck c : ℕ) (p : Priv k.Regmap)
      (regs : ℕ → ℕ)
      → p.i2c101 ≡ none
      → format_of format ≡ some (mode, off)
      → polarity_of inversion ≡ some (brck, lrck)
      → c < p.codec_cnt
      → Holds w (p.i2cmap c) regs
      → let fmt : DaiFmt = record { clock = cbm_cfm; format = format; inversion = inversion } in
        let r = w.value ((ac108_set_fmt k fmt p).1.i2cmap c) in RoleBits c brck lrck off r
  unfolding bit set_master role_regs ac108_multi_update_bits update_at
  ac108_set_fmt-one_master format inversion mode off brck lrck c p regs card ef ep lt h =
      let q = record (set_master k p).1 { i2s_mode = mode } in
      let held =
        Holds-write_format w c off brck lrck q (role_regs w c regs) lt
          (Holds-set_master w c p regs lt h) in
      let final = fmt_regs p.data_protocol mode off brck lrck (role_regs w c regs) in
      let flags = polarity_of_flags inversion brck lrck ep in
      subst (λ s. RoleBits c brck lrck off (w.value (s.i2cmap c)))
        (sym (set_fmt_steps format inversion mode off brck lrck p card ef ep))
        (subst (RoleBits c brck lrck off) (sym (fun_ext held.values)) (
          role_clock w c regs,
          role_lrck w c regs,
          flag_update (role_regs w c regs i2s_bclk_ctrl) brck flags.0,
          flag_update (role_regs w c regs i2s_lrck_ctrl1) lrck flags.1,
          bit-set_bits (role_regs w c regs i2s_fmt_ctrl1) 0x7f
                (u8 (u8 (fmt_word p.data_protocol mode off))) 2 (omega arith) (omega arith)
              ∙ fmt_word_offset p.data_protocol mode off (format_of_flag format mode off ef),
        ))
