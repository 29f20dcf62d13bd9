-- ===== src/Ac108/StartStop.antt =====
-- Starting and stopping the clock (ac108.c, ac108_set_clock), on a bus that works and on one that
-- fails.
use Prim.Native.Nat.{bit_and}
use mathlib.Core.Path.{fun_ext, subst}
use j_a_r_v_i_s.Prelude.{
  ℕ, ◌+◌, ◌<◌, ◌≡◌, ◌≢◌, refl, sym, ap, ◌∙◌, arith, Bool, true, false, not, ◌&&◌, ◌==◌,
  if◌then◌else◌, inl, inr, Bool-cases,
}
use j_a_r_v_i_s.Ac108.Registers.{
  pll_ctrl1, i2s_ctrl, pll_com_en, pll_en, bclk_ioen, lrck_ioen, txen, gen,
}
use j_a_r_v_i_s.Ac108.Bits.{bit, bit-set_bits, bit-bit_and, bit-mod, bit-zero, bit-lt, bit-shl}
use j_a_r_v_i_s.Ac108.Regmap.{
  Priv, Kernel, St, Trigger, ◌>>=◌, ◌>>◌, pure, modify, when, u8, ◌<<◌, bit_set,
  ac108_multi_update_bits, ac10x_update_bits, ac10x_read, update_at, read_master, set_map,
}
use j_a_r_v_i_s.Ac108.Clock.{or_call, update_master, start_clock, stop_clock, ac108_set_clock}
use j_a_r_v_i_s.Ac108.Works.{Works, Holds, update_each_status, Holds-update}
use j_a_r_v_i_s.Ac108.Acts.{Acts-update, updated}

-- A stop that finds the clock on marks it off exactly when no call failed, whatever the bus does;
-- after a failure the clock is marked as it was, so that a later stop tries again.
pub stop_clock_mark :
    (k : Kernel) (p : Priv k.Regmap)
    → (stop_clock k p).1.sysclk_en ≡ (if (stop_clock k p).0 then p.sysclk_en else 0)
unfolding stop_clock ac108_multi_update_bits update_at read_master
stop_clock_mark k p = ground arith

-- A start marks the clock on whatever the bus does.
pub start_clock_mark : (k : Kernel) (p : Priv k.Regmap) → (start_clock k p).1.sysclk_en ≡ 1
unfolding start_clock
start_clock_mark k p = refl

one_bit : (n : ℕ) → bit (1 << n) n ≡ 1
unfolding bit
one_bit n = let e : n + 0 ≡ n = omega arith in ap (bit (1 << n)) (sym e) ∙ bit-shl 1 n 0

module _ {k : Kernel} (w : Works k) where
  -- All chips that are counted work.
  abbrev pub AllHold : Priv k.Regmap → (ℕ → ℕ → ℕ) → Type 0
  AllHold p regs = (c : ℕ) → c < p.codec_cnt → Holds w (p.i2cmap c) (regs c)

  multi_status :
      (reg mask val : ℕ) (p : Priv k.Regmap) (regs : ℕ → ℕ → ℕ)
      → AllHold p regs
      → (ac108_multi_update_bits k reg mask val p).0 ≡ false
  unfolding ac108_multi_update_bits
  multi_status reg mask val p regs all =
      update_each_status w (u8 reg) (u8 mask) (u8 val) p.codec_cnt 0 p.i2cmap
        (λ c lt. (all c (omega arith)).live)

  multi-AllHold :
      (reg mask val : ℕ) (p : Priv k.Regmap) (regs : ℕ → ℕ → ℕ)
      → AllHold p regs
      → AllHold (ac108_multi_update_bits k reg mask val p).1 (λ c. updated reg mask val (regs c))
  unfolding ac108_multi_update_bits
  multi-AllHold reg mask val p regs all =
      λ c lt. (Acts-update w c reg mask val).chip p (regs c) lt (all c lt)

  -- The last steps of a stop: LRCK is taken off the first chip if it is on.
  stop_tail : St k.Regmap Bool
  unfolding update_at read_master
  stop_tail = do
    reg ← read_master k i2s_ctrl
    ret ←
        or_call k (bit_set reg lrck_ioen) false
          (update_master k i2s_ctrl (3 << lrck_ioen) (1 << bclk_ioen))
    when (not ret) (modify (λ q. record q { sysclk_en = 0 }))
    pure ret

  stop_steps :
      (p : Priv k.Regmap) (regs : ℕ → ℕ → ℕ)
      → AllHold p regs
      → stop_clock k p
        ≡ stop_tail
            (ac108_multi_update_bits k pll_ctrl1 3 0 (ac108_multi_update_bits k i2s_ctrl 5 0 p).1).1
  unfolding stop_clock stop_tail
  stop_steps p regs all =
      let p1 = (ac108_multi_update_bits k i2s_ctrl 5 0 p).1 in
      let e0 = multi_status i2s_ctrl 5 0 p regs all in
      let e1 =
        multi_status pll_ctrl1 3 0 p1 (λ c. updated i2s_ctrl 5 0 (regs c))
          (multi-AllHold i2s_ctrl 5 0 p regs all) in
      rw e0 (rw e1 refl)

  -- A flag that the driver finds clear is bit `n` of the register.
  flag_clear : (x n : ℕ) → n < 8 → bit_set (u8 x) n ≡ false → bit x n ≡ 0
  flag_clear x n lt e =
      let z : bit_and (u8 x) (1 << n) ≡ 0 = ground (arith, e) in
      let b = bit-bit_and (u8 x) (1 << n) n in
      let one : bit (1 << n) n ≡ 1 = one_bit n in
      let m = bit-mod x 8 n in
      let low : bit (u8 x) n ≡ bit x n = m ∙ ground arith in
      let zero_bit = ap (λ y. bit y n) z ∙ bit-zero n in
      omega (arith, b, one, low, zero_bit, bit-lt x n)

  tail_state :
      (p : Priv k.Regmap) (regs : ℕ → ℕ → ℕ)
      → 0 < p.codec_cnt
      → AllHold p regs
      → stop_tail p ≡ (
        false,
        record p {
          sysclk_en = 0;
          i2cmap =
              if bit_set (u8 (regs 0 i2s_ctrl)) lrck_ioen
              then set_map k 0 (ac10x_update_bits k i2s_ctrl 0xc0 0x80 (p.i2cmap 0)).1 p.i2cmap
              else p.i2cmap;
        },
      )
  unfolding stop_tail read_master ac10x_read update_at ac10x_update_bits
  tail_state p regs pos_cnt all =
      let h = all 0 pos_cnt in
      let r = w.read_lem (p.i2cmap 0) i2s_ctrl h.live in
      let v = h.values i2s_ctrl in
      let s = w.update_status (p.i2cmap 0) i2s_ctrl 0xc0 0x80 h.live in
      elim (Bool-cases (bit_set (u8 (regs 0 i2s_ctrl)) lrck_ioen)) [
        | inl e ↦ rw (r, v, e, s) refl
        | inr e ↦ rw (r, v, e) refl
      ]

  -- The clock bits of a chip: the PLL, its common voltage, the transmitter and the whole block.
  abbrev pub ClockBits : ℕ → (ℕ → ℕ) → Type 0
  ClockBits b regs =
      (bit (regs pll_ctrl1) pll_en ≡ b)
      × (bit (regs pll_ctrl1) pll_com_en ≡ b)
      × (bit (regs i2s_ctrl) txen ≡ b)
      × (bit (regs i2s_ctrl) gen ≡ b)

  tail-Holds :
      (p : Priv k.Regmap) (regs : ℕ → ℕ → ℕ) (c : ℕ)
      → 0 < p.codec_cnt
      → c < p.codec_cnt
      → AllHold p regs
      → Holds w ((stop_tail p).1.i2cmap c) (
          if c == 0 && bit_set (u8 (regs 0 i2s_ctrl)) lrck_ioen
          then updated i2s_ctrl 0xc0 0x80 (regs c)
          else regs c)
  tail-Holds p regs c some_chip lt all =
      rw (tail_state p regs some_chip all)
        (elim (Bool-cases (bit_set (u8 (regs 0 i2s_ctrl)) lrck_ioen)) [
          | inl e ↦ elim (Bool-cases (c == 0)) [
            | inl z ↦
                let first : c ≡ 0 = ground arith in
                rw (e, first) (Holds-update w i2s_ctrl 0xc0 0x80 (all 0 some_chip))
            | inr z ↦ rw (e, z) (all c lt)
          ]
          | inr e ↦ elim (Bool-cases (c == 0)) [
            | inl z ↦ rw (e, z) (all c lt)
            | inr z ↦ rw (e, z) (all c lt)
          ]
        ])

  -- The registers of the first two updates of a stop.
  abbrev stopped : (ℕ → ℕ) → ℕ → ℕ
  stopped regs = updated pll_ctrl1 3 0 (updated i2s_ctrl 5 0 regs)

  stopped-ClockBits : (regs : ℕ → ℕ) → ClockBits 0 (stopped regs)
  unfolding bit
  stopped-ClockBits regs = (
    bit-set_bits (regs pll_ctrl1) 3 0 0 (omega arith) (omega arith),
    bit-set_bits (regs pll_ctrl1) 3 0 1 (omega arith) (omega arith),
    bit-set_bits (regs i2s_ctrl) 5 0 2 (omega arith) (omega arith),
    bit-set_bits (regs i2s_ctrl) 5 0 0 (omega arith) (omega arith),
  )

  lrck_off-ClockBits :
      (b : ℕ) (regs : ℕ → ℕ) → ClockBits b regs → ClockBits b (updated i2s_ctrl 0xc0 0x80 regs)
  unfolding bit
  lrck_off-ClockBits b regs (h1, h2, h3, h4) = (
    h1,
    h2,
    bit-set_bits (regs i2s_ctrl) 0xc0 0x80 2 (omega arith) (omega arith) ∙ h3,
    bit-set_bits (regs i2s_ctrl) 0xc0 0x80 0 (omega arith) (omega arith) ∙ h4,
  )

  tail-ClockBits :
      (regs : ℕ → ℕ) (t : Bool)
      → ClockBits 0 (if t then updated i2s_ctrl 0xc0 0x80 (stopped regs) else stopped regs)
  tail-ClockBits regs true = lrck_off-ClockBits 0 (stopped regs) (stopped-ClockBits regs)
  tail-ClockBits regs false = stopped-ClockBits regs

  -- On the first chip LRCK is off after the tail, whether it was on or not.
  tail_lrck :
      (regs : ℕ → ℕ)
      → bit
          ((if bit_set (u8 (stopped regs i2s_ctrl)) lrck_ioen
              then updated i2s_ctrl 0xc0 0x80 (stopped regs)
              else stopped regs)
            i2s_ctrl)
          lrck_ioen
        ≡ 0
  unfolding bit
  tail_lrck regs = elim (Bool-cases (bit_set (u8 (stopped regs i2s_ctrl)) lrck_ioen)) [
    | inl e ↦ rw e (bit-set_bits (stopped regs i2s_ctrl) 0xc0 0x80 6 (omega arith) (omega arith))
    | inr e ↦ rw e (flag_clear (stopped regs i2s_ctrl) 6 (omega arith) e)
  ]

  set_clock_stops :
      (cmd : Trigger) (p : Priv k.Regmap)
      → p.sysclk_en ≢ 0
      → ac108_set_clock k false cmd p ≡ stop_clock k p
  unfolding ac108_set_clock
  set_clock_stops cmd p on = let e : (p.sysclk_en == 0) ≡ false = ground arith in rw e refl

  -- On a bus that works, a stop that finds the clock on succeeds and marks it off; then on every
  -- chip the PLL, its common voltage, the transmitter and the block are off, and the first chip
  -- drives no LRCK.
  pub ac108_set_clock_stop :
      (cmd : Trigger) (p : Priv k.Regmap) (regs : ℕ → ℕ → ℕ) (c : ℕ)
      → p.sysclk_en ≢ 0
      → 0 < p.codec_cnt
      → c < p.codec_cnt
      → AllHold p regs
      → let (ret, p') = ac108_set_clock k false cmd p in
        (ret ≡ false)
        × (p'.sysclk_en ≡ 0)
        × ClockBits 0 (w.value (p'.i2cmap c))
        × (bit (w.value (p'.i2cmap 0) i2s_ctrl) lrck_ioen ≡ 0)
  unfolding ac108_multi_update_bits
  ac108_set_clock_stop cmd p regs c on some_chip lt all =
      let p2 =
        (ac108_multi_update_bits k pll_ctrl1 3 0 (ac108_multi_update_bits k i2s_ctrl 5 0 p).1).1 in
      let all2 =
        multi-AllHold pll_ctrl1 3 0 (ac108_multi_update_bits k i2s_ctrl 5 0 p).1
          (λ c. updated i2s_ctrl 5 0 (regs c)) (multi-AllHold i2s_ctrl 5 0 p regs all) in
      let steps = set_clock_stops cmd p on ∙ stop_steps p regs all in
      let state = tail_state p2 (λ c. stopped (regs c)) some_chip all2 in
      let held = λ (c : ℕ) (lt : c < p.codec_cnt).
        fun_ext (tail-Holds p2 (λ c. stopped (regs c)) c some_chip lt all2).values in
      (
        ap (λ s. s.0) (steps ∙ state),
        ap (λ s. s.1.sysclk_en) (steps ∙ state),
        subst (λ s. ClockBits 0 (w.value (s.1.i2cmap c))) (sym steps)
            (subst (ClockBits 0) (sym (held c lt)) (
              tail-ClockBits (regs c)
                (c == 0 && bit_set (u8 (stopped (regs 0) i2s_ctrl)) lrck_ioen))),
        ap (λ s. bit (w.value (s.1.i2cmap 0) i2s_ctrl) lrck_ioen) steps
            ∙ ap (λ r. bit (r i2s_ctrl) lrck_ioen) (held 0 some_chip)
            ∙ tail_lrck (regs 0),
      )
