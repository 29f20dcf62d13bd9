-- ===== src/Ac108/Works.antt =====
-- The register maps of a bus on which every call works, and what the driver's loops over the chips
-- do to the registers then.
use j_a_r_v_i_s.Prelude.{
  ℕ, zero, suc, ◌+◌, ◌<◌, ◌≡◌, refl, ap, ◌∙◌, arith, Bool, true, false, ◌||◌, ◌&&◌, ◌==◌, leb, ltb,
  if◌then◌else◌, inl, inr, Bool-cases,
}
use j_a_r_v_i_s.Prelude.Int.{pos}
use j_a_r_v_i_s.Ac108.Bits.{set_bits}
use j_a_r_v_i_s.Ac108.Regmap.{
  Kernel, u8, failed, set_map, ac10x_write, ac10x_update_bits, write_each, update_each,
}

-- One register of a chip gets a value.
abbrev pub assign : (ℕ → ℕ) → ℕ → ℕ → ℕ → ℕ
assign regs reg val r = if r == reg then val else regs r

-- What the kernel documents of the calls on an initialised map: they succeed, a write sets one
-- register, and an update sets the bits of the mask in one register.
pub record Works (k : Kernel) : Type 1 where
  pub Live : k.Regmap → Type 0
  pub value : k.Regmap → ℕ → ℕ
  pub write_status : (m : k.Regmap) (r v : ℕ) → Live m → (k.regmap_write m r v).0 ≡ pos 0
  pub write-Live : (m : k.Regmap) (r v : ℕ) → Live m → Live (k.regmap_write m r v).1
  pub value-write :
      (m : k.Regmap) (r v j : ℕ)
      → Live m
      → value (k.regmap_write m r v).1 j ≡ assign (value m) r v j
  pub update_status :
      (m : k.Regmap) (r mask v : ℕ) → Live m → (k.regmap_update_bits m r mask v).0 ≡ pos 0
  pub update-Live :
      (m : k.Regmap) (r mask v : ℕ) → Live m → Live (k.regmap_update_bits m r mask v).1
  pub value-update :
      (m : k.Regmap) (r mask v j : ℕ)
      → Live m
      → value (k.regmap_update_bits m r mask v).1 j
        ≡ assign (value m) r (set_bits (value m r) mask v) j
  pub read_lem : (m : k.Regmap) (r : ℕ) → Live m → k.regmap_read m r ≡ (pos 0, value m r)

module _ {k : Kernel} (w : Works k) where
  open k use {Regmap}
  open w use {Live, value}

  -- The map is usable and the registers of its chip hold `regs`.
  pub record Holds (m : Regmap) (regs : ℕ → ℕ) : Type 0 where
    pub live : Live m
    pub values : (r : ℕ) → value m r ≡ regs r

  pub Holds-write :
      {m : Regmap} {regs : ℕ → ℕ} (reg val : ℕ)
      → Holds m regs
      → Holds (ac10x_write k reg val m).1 (assign regs (u8 reg) (u8 val))
  unfolding ac10x_write
  Holds-write {m} reg val h = record {
    live = w.write-Live m (u8 reg) (u8 val) h.live;
    values = λ r. w.value-write m (u8 reg) (u8 val) r h.live ∙ ground (arith, h.values r);
  }

  pub Holds-update :
      {m : Regmap} {regs : ℕ → ℕ} (reg mask val : ℕ)
      → Holds m regs
      → Holds
          (ac10x_update_bits k reg mask val m).1
          (assign regs (u8 reg) (set_bits (regs (u8 reg)) (u8 mask) (u8 val)))
  unfolding ac10x_update_bits
  Holds-update {m} {regs} reg mask val h = record {
    live = w.update-Live m (u8 reg) (u8 mask) (u8 val) h.live;
    values = λ r.
        w.value-update m (u8 reg) (u8 mask) (u8 val) r h.live
        ∙ ap (λ v. assign (value m) (u8 reg) (set_bits v (u8 mask) (u8 val)) r) (h.values (u8 reg))
        ∙ ground (arith, h.values r);
  }

-- A loop over `n` chips from chip `i` meets each of them once.
module _ (k : Kernel) where
  open k use {Regmap}

  abbrev pub among : ℕ → ℕ → ℕ → Bool
  among i n c = leb i c && ltb c (i + n)

  write_each-at :
      (reg val n i : ℕ) (maps : ℕ → Regmap) (c : ℕ)
      → write_each k reg val n i maps c
        ≡ (if among i n c then (ac10x_write k reg val (maps c)).1 else maps c)
  unfolding write_each
  write_each-at reg val zero i maps c = ground arith
  write_each-at reg val (suc n) i maps c =
      write_each-at reg val n (i + 1) (set_map k i (ac10x_write k reg val (maps i)).1 maps) c
      ∙ ground arith

  pub update_each-at :
      (reg mask val n i : ℕ) (r : Bool) (maps : ℕ → Regmap) (c : ℕ)
      → (update_each k reg mask val n i r maps).1 c
        ≡ (if among i n c then (ac10x_update_bits k reg mask val (maps c)).1 else maps c)
  unfolding update_each
  update_each-at reg mask val zero i r maps c = ground arith
  update_each-at reg mask val (suc n) i r maps c =
      let s = ac10x_update_bits k reg mask val (maps i) in
      update_each-at reg mask val n (i + 1) (r || failed s.0) (set_map k i s.1 maps) c
      ∙ ground arith

  pub among_all : (n c : ℕ) → c < n → among 0 n c ≡ true
  among_all n c h = ground arith

module _ {k : Kernel} (w : Works k) where
  open k use {Regmap}
  open w use {Live}

  -- What a call on all chips does to chip `c`.
  pub Holds-write_each :
      (reg val n c : ℕ) (maps : ℕ → Regmap) {regs : ℕ → ℕ}
      → c < n
      → Holds w (maps c) regs
      → Holds w (write_each k reg val n 0 maps c) (assign regs (u8 reg) (u8 val))
  Holds-write_each reg val n c maps lt h =
      rw (write_each-at k reg val n 0 maps c, among_all k n c lt) (Holds-write w reg val h)

  pub Holds-update_each :
      (reg mask val n c : ℕ) (maps : ℕ → Regmap) {regs : ℕ → ℕ}
      → c < n
      → Holds w (maps c) regs
      → Holds w
          ((update_each k reg mask val n 0 false maps).1 c)
          (assign regs (u8 reg) (set_bits (regs (u8 reg)) (u8 mask) (u8 val)))
  Holds-update_each reg mask val n c maps lt h =
      rw (update_each-at k reg mask val n 0 false maps c, among_all k n c lt)
        (Holds-update w reg mask val h)

  -- With usable maps no update fails.
  pub update_each_status :
      (reg mask val n i : ℕ) (maps : ℕ → Regmap)
      → ((c : ℕ) → c < i + n → Live (maps c))
      → (update_each k reg mask val n i false maps).0 ≡ false
  unfolding update_each ac10x_update_bits
  update_each_status reg mask val zero i maps live = refl
  update_each_status reg mask val (suc n) i maps live =
      let l = live i (omega arith) in
      let s = k.regmap_update_bits (maps i) (u8 reg) (u8 mask) (u8 val) in
      let z = w.update_status (maps i) (u8 reg) (u8 mask) (u8 val) l in
      rw (z, update_each, failed)
        (update_each_status reg mask val n (i + 1) (set_map k i s.1 maps) (λ c lt.
          elim (Bool-cases (c == i)) [
            | inl e ↦ rw e (w.update-Live (maps i) (u8 reg) (u8 mask) (u8 val) l)
            | inr e ↦ rw e (live c (omega arith))
          ]))
