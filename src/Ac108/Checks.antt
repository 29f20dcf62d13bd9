-- ===== src/Ac108/Checks.antt =====
-- The parameters that ac108.c declares for its interface, those that ac108_hw_params accepts, and
-- what a refusal leaves behind.
use j_a_r_v_i_s.Prelude.{
  ℕ, zero, suc, ◌+◌, ◌/◌, ◌≤◌, ◌<◌, ◌≡◌, ◌⊎◌, refl, sym, ap, ◌∙◌, arith, List, [], ◌∷◌, map, none,
  some, Bool, true, false, not, ◌&&◌, ◌||◌, ◌==◌, if◌then◌else◌, leb, inl, inr, Bool-cases,
  Option-cases, if_false,
}
use j_a_r_v_i_s.Prelude.Int.{ℤ, pos, ltb_ℤ}
use j_a_r_v_i_s.Ac108.Regmap.{Priv, Kernel, pure, is_some}
use j_a_r_v_i_s.Ac108.Format.{einval}
use j_a_r_v_i_s.Ac108.Params.{
  RegVal, PcmFormat, s32_le, other_pcm, HwParams, ac108_sample_rate, samp_res_index, find_rate,
  check_params, check_rate, stop_lrck, write_params, write_checked, hw_params_ac108,
  ac108_hw_params,
}

abbrev contains : ℕ → List ℕ → Bool
contains a [] = false
contains a (x ∷ xs) = x == a || contains a xs

abbrev knows_format : PcmFormat → Bool
knows_format other_pcm = false
knows_format _ = true

-- `AC108_RATES`: the kernel's `SNDRV_PCM_RATE_8000_96000` is the argument.
unfoldable pub ac108_rates : List ℕ → ℕ → Bool
ac108_rates pcm_rate_8000_96000 rate =
    contains rate pcm_rate_8000_96000
    && not (rate == 32000 || rate == 64000 || rate == 88200 || rate == 96000)

-- `AC108_FORMATS`
unfoldable pub ac108_formats : PcmFormat → Bool
ac108_formats s32_le = true
ac108_formats _ = false

-- What `ac108_dai0` and `ac108_dai1` declare.
unfoldable pub declares : List ℕ → HwParams → Bool
unfolding ac108_rates ac108_formats
declares pcm_rate_8000_96000 params =
    leb 1 params.channels
    && leb params.channels 8
    && ac108_rates pcm_rate_8000_96000 params.rate
    && ac108_formats params.format

-- The rates that the kernel documents for `SNDRV_PCM_RATE_8000_96000`.
abbrev pub documented_rates : List ℕ
documented_rates = 8000 ∷ 11025 ∷ 16000 ∷ 22050 ∷ 32000 ∷ 44100 ∷ 48000 ∷ 64000 ∷ 88200 ∷ 96000 ∷ []

-- The rates of the codec, in samples a second.
abbrev rates : List ℕ
rates = 8000 ∷ 11025 ∷ 12000 ∷ 16000 ∷ 22050 ∷ 24000 ∷ 32000 ∷ 44100 ∷ 48000 ∷ 96000 ∷ []

-- What the checks let pass: a format of the codec, one of its rates, and not eight channels at the
-- highest. This is more than the interface declares.
abbrev pub accepts : HwParams → ℕ → Bool
accepts params data_protocol =
    let rate = params.rate / (data_protocol + 1) in
    knows_format params.format && contains rate rates && not (params.channels == 8 && rate == 96000)

find_rate_lem :
    (r : ℕ) (es : List RegVal)
    → ((find_rate r es ≡ none) × (contains r (map (λ e. e.real_val) es) ≡ false))
      ⊎ ((e : RegVal) × (find_rate r es ≡ some e)
          × (e.real_val ≡ r)
          × (contains r (map (λ e. e.real_val) es) ≡ true))
unfolding find_rate
find_rate_lem r [] = inl (refl, refl)
find_rate_lem r (e ∷ es) = elim (Bool-cases (e.real_val == r)) [
  | inl same ↦ inr (e, rw same refl, ground arith, rw same refl)
  | inr other ↦ rw other (find_rate_lem r es)
]

find_rate_table :
    (r : ℕ)
    → ((find_rate r ac108_sample_rate ≡ none) × (contains r rates ≡ false))
      ⊎ ((e : RegVal) × (find_rate r ac108_sample_rate ≡ some e)
          × (e.real_val ≡ r)
          × (contains r rates ≡ true))
unfolding ac108_sample_rate
find_rate_table r = find_rate_lem r ac108_sample_rate

check_params-accepts :
    (channels rate : ℕ) (format : PcmFormat) (data_protocol : ℕ)
    → let params : HwParams = record { channels = channels; format = format; rate = rate } in
      is_some (check_params params data_protocol) ≡ accepts params data_protocol
unfolding check_params samp_res_index check_rate
check_params-accepts channels rate other_pcm dp = refl
check_params-accepts channels rate format dp = elim (find_rate_table (rate / (dp + 1))) [
  | inl (e, c) ↦ rw (e, c) refl
  | inr (r, e, same, c) ↦ rw (e, c, same) (ground arith)
]

-- Rates that are declared are rates of the codec.
declared_rate :
    (mask : List ℕ) (rate : ℕ)
    → (contains rate mask ≡ false) ⊎ (contains rate documented_rates ≡ true)
    → ac108_rates mask rate ≡ true
    → (contains rate rates ≡ true) × ((rate == 96000) ≡ false)
unfolding ac108_rates
declared_rate mask rate (inl out) e = absurd (ground arith)
declared_rate mask rate (inr known) e = (ground arith, ground arith)

declares-accepts :
    (mask : List ℕ) (channels rate : ℕ) (format : PcmFormat)
    → (contains rate mask ≡ false) ⊎ (contains rate documented_rates ≡ true)
    → let params : HwParams = record { channels = channels; format = format; rate = rate } in
      declares mask params ≡ true → accepts params 0 ≡ true
unfolding declares
declares-accepts mask channels rate s32_le known e =
    let (codec_rate, low) = declared_rate mask rate known (ground arith) in
    let same : rate / 1 ≡ rate = omega arith in
    ap (λ r. contains r rates && not (channels == 8 && r == 96000)) same ∙ ground arith
declares-accepts mask channels rate format known e = absurd (ground arith)

-- What is refused is not declared, or the rate is that of an encoded stream.
refused-declares :
    (mask : List ℕ) (channels rate : ℕ) (format : PcmFormat) (data_protocol : ℕ)
    → (contains rate mask ≡ false) ⊎ (contains rate documented_rates ≡ true)
    → let params : HwParams = record { channels = channels; format = format; rate = rate } in
      accepts params data_protocol ≡ false → (declares mask params ≡ false) ⊎ (0 < data_protocol)
refused-declares mask channels rate format zero known e =
    elim (Bool-cases
      (declares mask (record { channels = channels; format = format; rate = rate }))) [
        | inl d ↦ let yes' = declares-accepts mask channels rate format known d in absurd (cc)
        | inr d ↦ inl d
      ]
refused-declares mask channels rate format (suc n) known e = inr (omega arith)

module _ (k : Kernel) where
  stop_lrck_protocol : (p : Priv k.Regmap) → (stop_lrck k p).1.data_protocol ≡ p.data_protocol
  unfolding stop_lrck
  stop_lrck_protocol p = ground arith

  alone :
      (params : HwParams) (p : Priv k.Regmap)
      → p.i2c101 ≡ none
      → ac108_hw_params k params p ≡ hw_params_ac108 k params p
  unfolding ac108_hw_params
  alone params p card =
      ap
        (λ (r : ℤ × Priv k.Regmap).
          (if ltb_ℤ (pos 0) r.0 then pure (pos 0) else hw_params_ac108 k params) r.1)
        (let no : is_some p.i2c101 ≡ false = ap is_some card in
          if_false (is_some p.i2c101) (k.ac101_hw_params p) (pos 0, p) no)

  refused :
      (params : HwParams) (p : Priv k.Regmap)
      → p.i2c101 ≡ none
      → check_params params (stop_lrck k p).1.data_protocol ≡ none
      → ac108_hw_params k params p ≡ (einval, (stop_lrck k p).1)
  unfolding hw_params_ac108 write_checked
  refused params p card e = alone params p card ∙ rw e refl

  accepted :
      (params : HwParams) (p : Priv k.Regmap) (res rate : RegVal)
      → p.i2c101 ≡ none
      → check_params params (stop_lrck k p).1.data_protocol ≡ some (res, rate)
      → ac108_hw_params k params p ≡ write_params k res rate params.channels (stop_lrck k p).1
  unfolding hw_params_ac108 write_checked
  accepted params p res rate card e = alone params p card ∙ rw e refl

  -- On a card without an AC101, for one to eight channels, where the kernel's mask of rates holds the
  -- rate only if the kernel documents that: ac108_hw_params accepts a format of the codec where the
  -- rate, divided by data_protocol + 1, is one of the codec's, except eight channels at 96000;
  -- anything else it refuses with -EINVAL, having done no more than take LRCK off. Nothing that the
  -- interface declares is refused, unless data_protocol is above 0, for an encoded stream.
  pub ac108_hw_params_status :
      (pcm_rate_8000_96000 : List ℕ) (channels rate : ℕ) (format : PcmFormat) (p : Priv k.Regmap)
      → 1 ≤ channels
      → channels ≤ 8
      → (contains rate pcm_rate_8000_96000 ≡ false) ⊎ (contains rate documented_rates ≡ true)
      → p.i2c101 ≡ none
      → let params : HwParams = record { channels = channels; format = format; rate = rate } in
        let (ret, p') = ac108_hw_params k params p in
        ((accepts params p.data_protocol ≡ true) × (ret ≡ pos 0))
        ⊎ ((accepts params p.data_protocol ≡ false)
            × (ret ≡ einval)
            × (p' ≡ (stop_lrck k p).1)
            × ((declares pcm_rate_8000_96000 params ≡ false) ⊎ (0 < p.data_protocol)))
  unfolding write_params
  ac108_hw_params_status mask channels rate format p some_channel few known card =
      let params : HwParams = record { channels = channels; format = format; rate = rate } in
      let dp = (stop_lrck k p).1.data_protocol in
      let same = stop_lrck_protocol p in
      let checked : is_some (check_params params dp) ≡ accepts params p.data_protocol =
        check_params-accepts channels rate format dp ∙ ap (accepts params) same in
      elim (Option-cases (check_params params dp)) [
        | inl e ↦
            let r = refused params p card e in
            let no_accept = sym checked ∙ ap is_some e in
            inr (
              no_accept,
              ap (λ s. s.0) r,
              ap (λ s. s.1) r,
              refused-declares mask channels rate format p.data_protocol known no_accept,
            )
        | inr ((res, hz), e) ↦
            inl (sym checked ∙ ap is_some e, ap (λ s. s.0) (accepted params p res hz card e))
      ]
