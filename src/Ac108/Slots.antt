-- ===== src/Ac108/Slots.antt =====
-- The TDM slots of the chips (ac108.c, ac108_multi_chips_slots): who sends in which slot.
use Prim.Native.Nat.{bit_and}
use mathlib.Core.Path.{fun_ext}
use j_a_r_v_i_s.Prelude.{
  ℕ, zero, suc, ◌+◌, ◌*◌, ◌/◌, ◌%◌, ◌^◌, ◌<◌, ◌≡◌, refl, ap, ◌∙◌, arith, List, [], ◌∷◌, ◌==◌,
  if◌then◌else◌,
}
use j_a_r_v_i_s.Ac108.Registers.{
  i2s_tx1_ctrl1, i2s_tx1_ctrl2, i2s_tx1_ctrl3, i2s_tx1_chmp_ctrl1, i2s_tx1_chmp_ctrl2,
  i2s_tx1_chmp_ctrl3, i2s_tx1_chmp_ctrl4,
}
use j_a_r_v_i_s.Ac108.Bits.{bit}
use j_a_r_v_i_s.Ac108.Regmap.{Priv, Kernel, u8, set_map}
use j_a_r_v_i_s.Ac108.Params.{slot_vec, map_vec, chip_slots, slots_each, ac108_multi_chips_slots}
use j_a_r_v_i_s.Ac108.Works.{Works, Holds, assign, Holds-write, among, among_all}

-- The slots that a chip sends in, and the microphone that it sends in slot `i`.
abbrev pub slots_of : (ℕ → ℕ) → ℕ
slots_of regs = regs i2s_tx1_ctrl2 + 256 * regs i2s_tx1_ctrl3

abbrev pub maps_of : (ℕ → ℕ) → ℕ
maps_of regs =
    regs i2s_tx1_chmp_ctrl1
    + 256 * regs i2s_tx1_chmp_ctrl2
    + 65536 * regs i2s_tx1_chmp_ctrl3
    + 16777216 * regs i2s_tx1_chmp_ctrl4

-- The microphones of a chip with the slots that it sends them in, for `n` slots from slot `i`.
unfoldable pub sent : (ℕ → ℕ) → ℕ → ℕ → List (ℕ × ℕ)
unfolding bit
sent regs zero i = []
sent regs (suc n) i =
    let rest = sent regs n (i + 1) in
    if bit (slots_of regs) i == 1 then (i, maps_of regs / 4 ^ i % 4) ∷ rest else rest

slots_each-at :
    (k : Kernel) (slots cnt n i : ℕ) (maps : ℕ → k.Regmap) (c : ℕ)
    → slots_each k slots cnt n i maps c
      ≡ (if among k i n c then chip_slots k slots cnt c (maps c) else maps c)
unfolding slots_each
slots_each-at k slots cnt zero i maps c = ground arith
slots_each-at k slots cnt (suc n) i maps c =
    slots_each-at k slots cnt n (i + 1) (set_map k i (chip_slots k slots cnt i (maps i)) maps) c
    ∙ ground arith

-- The registers that one round writes.
abbrev pub slot_regs : ℕ → ℕ → ℕ → (ℕ → ℕ) → ℕ → ℕ
slot_regs slots vec maps regs =
    let r1 = assign regs i2s_tx1_ctrl1 (u8 (slots + 255)) in
    let r2 = assign r1 i2s_tx1_ctrl2 (u8 (bit_and vec 0xff)) in
    let r3 = assign r2 i2s_tx1_ctrl3 (u8 (bit_and (vec / 2 ^ 8) 0xff)) in
    let r4 = assign r3 i2s_tx1_chmp_ctrl1 (u8 (bit_and maps 0xff)) in
    let r5 = assign r4 i2s_tx1_chmp_ctrl2 (u8 (bit_and (maps / 2 ^ 8) 0xff)) in
    let r6 = assign r5 i2s_tx1_chmp_ctrl3 (u8 (bit_and (maps / 2 ^ 16) 0xff)) in
    assign r6 i2s_tx1_chmp_ctrl4 (u8 (bit_and (maps / 2 ^ 24) 0xff))

module _ {k : Kernel} (w : Works k) where
  Holds-chip_slots :
      (slots cnt c : ℕ) (map : k.Regmap) (regs : ℕ → ℕ)
      → Holds w map regs
      → Holds w
          (chip_slots k slots cnt c map)
          (slot_regs slots (slot_vec cnt c) (map_vec cnt c) regs)
  unfolding chip_slots
  Holds-chip_slots slots cnt c map regs h =
      let vec = slot_vec cnt c in
      let maps = map_vec cnt c in
      let h1 = Holds-write w i2s_tx1_ctrl1 (slots + 255) h in
      let h2 = Holds-write w i2s_tx1_ctrl2 (bit_and vec 0xff) h1 in
      let h3 = Holds-write w i2s_tx1_ctrl3 (bit_and (vec / 2 ^ 8) 0xff) h2 in
      let h4 = Holds-write w i2s_tx1_chmp_ctrl1 (bit_and maps 0xff) h3 in
      let h5 = Holds-write w i2s_tx1_chmp_ctrl2 (bit_and (maps / 2 ^ 8) 0xff) h4 in
      let h6 = Holds-write w i2s_tx1_chmp_ctrl3 (bit_and (maps / 2 ^ 16) 0xff) h5 in
      Holds-write w i2s_tx1_chmp_ctrl4 (bit_and (maps / 2 ^ 24) 0xff) h6

  pub Holds-multi_chips_slots :
      (slots c : ℕ) (p : Priv k.Regmap) (regs : ℕ → ℕ)
      → c < p.codec_cnt
      → Holds w (p.i2cmap c) regs
      → Holds w
          ((ac108_multi_chips_slots k slots p).1.i2cmap c)
          (slot_regs slots (slot_vec p.codec_cnt c) (map_vec p.codec_cnt c) regs)
  unfolding ac108_multi_chips_slots
  Holds-multi_chips_slots slots c p regs lt h =
      rw (slots_each-at k slots p.codec_cnt p.codec_cnt 0 p.i2cmap c, among_all k p.codec_cnt c lt)
        (Holds-chip_slots slots p.codec_cnt c (p.i2cmap c) regs h)

  -- The microphones that chip `c` sends, by slot.
  abbrev pub chip_sends : ℕ → ℕ → Priv k.Regmap → List (ℕ × ℕ)
  chip_sends slots c p = sent (w.value ((ac108_multi_chips_slots k slots p).1.i2cmap c)) 8 0

  sends_lem :
      (slots c : ℕ) (p : Priv k.Regmap) (regs : ℕ → ℕ)
      → c < p.codec_cnt
      → Holds w (p.i2cmap c) regs
      → chip_sends slots c p
        ≡ sent (slot_regs slots (slot_vec p.codec_cnt c) (map_vec p.codec_cnt c) regs) 8 0
  sends_lem slots c p regs lt h =
      ap (λ r. sent r 8 0) (fun_ext (Holds-multi_chips_slots slots c p regs lt h).values)

  -- With two chips that work, the eight slots of a frame are shared out: each microphone of each
  -- chip is sent in one slot, and no slot is sent by both chips.
  pub two_chips_slots :
      (slots : ℕ) (p : Priv k.Regmap) (regs0 regs1 : ℕ → ℕ)
      → p.codec_cnt ≡ 2
      → Holds w (p.i2cmap 0) regs0
      → Holds w (p.i2cmap 1) regs1
      → (chip_sends slots 0 p ≡ (0, 2) ∷ (1, 3) ∷ (6, 0) ∷ (7, 1) ∷ [])
        × (chip_sends slots 1 p ≡ (2, 0) ∷ (3, 1) ∷ (4, 2) ∷ (5, 3) ∷ [])
  unfolding sent slot_vec map_vec
  two_chips_slots slots p regs0 regs1 two h0 h1 = (
    sends_lem slots 0 p regs0 (omega arith) h0 ∙ rw two refl,
    sends_lem slots 1 p regs1 (omega arith) h1 ∙ rw two refl,
  )
