-- ===== src/Ac108/Acts.antt =====
-- What a call of the driver does to the registers of one chip, and the rule for two calls in a row.
use j_a_r_v_i_s.Prelude.{ℕ, ◌<◌, ◌≡◌, refl, ◌∙◌, arith, Bool, true, false}
use j_a_r_v_i_s.Ac108.Bits.{set_bits}
use j_a_r_v_i_s.Ac108.Regmap.{
  Priv, Kernel, St, ◌>>=◌, ◌>>◌, when, u8, ac108_multi_write, ac108_multi_update_bits,
}
use j_a_r_v_i_s.Ac108.Works.{Works, Holds, assign, Holds-write_each, Holds-update_each}

-- The registers after a write and after an update, with the conversions of the calls.
abbrev pub written : ℕ → ℕ → (ℕ → ℕ) → ℕ → ℕ
written reg val regs = assign regs (u8 (u8 reg)) (u8 (u8 val))

abbrev pub updated : ℕ → ℕ → ℕ → (ℕ → ℕ) → ℕ → ℕ
updated reg mask val regs =
    assign regs (u8 (u8 reg)) (set_bits (regs (u8 (u8 reg))) (u8 (u8 mask)) (u8 (u8 val)))

module _ {k : Kernel} (w : Works k) (c : ℕ) where
  open k use {Regmap}

  -- On chip `c`, one of those that are counted, the call does `f` to the registers; the count stays.
  pub record Acts {A : Type 0} (call : St Regmap A) (f : (ℕ → ℕ) → ℕ → ℕ) : Type 0 where
    pub chip :
        (p : Priv Regmap) (regs : ℕ → ℕ)
        → c < p.codec_cnt
        → Holds w (p.i2cmap c) regs
        → Holds w ((call p).1.i2cmap c) (f regs)
    pub count : (p : Priv Regmap) → (call p).1.codec_cnt ≡ p.codec_cnt

  pub Acts-write : (reg val : ℕ) → Acts (ac108_multi_write k reg val) (written reg val)
  unfolding ac108_multi_write
  Acts-write reg val = record {
    chip = λ p regs lt h. Holds-write_each w (u8 reg) (u8 val) p.codec_cnt c p.i2cmap lt h;
    count = λ p. refl;
  }

  pub Acts-update :
      (reg mask val : ℕ) → Acts (ac108_multi_update_bits k reg mask val) (updated reg mask val)
  unfolding ac108_multi_update_bits
  Acts-update reg mask val = record {
    chip =
        λ p regs lt h. Holds-update_each w (u8 reg) (u8 mask) (u8 val) p.codec_cnt c p.i2cmap lt h;
    count = λ p. refl;
  }

  pub Acts-seq :
      {A B : Type 0} {m : St Regmap A} {n : St Regmap B} {f g : (ℕ → ℕ) → ℕ → ℕ}
      → Acts m f
      → Acts n g
      → Acts (m >> n) (λ regs. g (f regs))
  Acts-seq {m} {n} {f} a b = record {
    chip = λ p regs lt h.
        b.chip (m p).1 (f regs) (let e = a.count p in omega arith) (a.chip p regs lt h);
    count = λ p. b.count (m p).1 ∙ a.count p;
  }

  -- The call leaves the map of chip `c` usable, and the count as it was.
  pub record Keeps {A : Type 0} (call : St Regmap A) : Type 0 where
    pub live :
        (p : Priv Regmap) → c < p.codec_cnt → w.Live (p.i2cmap c) → w.Live ((call p).1.i2cmap c)
    pub same_count : (p : Priv Regmap) → (call p).1.codec_cnt ≡ p.codec_cnt

  pub Acts-Keeps :
      {A : Type 0} {call : St Regmap A} {f : (ℕ → ℕ) → ℕ → ℕ} → Acts call f → Keeps call
  Acts-Keeps a = record {
    live = λ p lt l.
        (a.chip p (w.value (p.i2cmap c)) lt (record { live = l; values = λ r. refl })).live;
    same_count = a.count;
  }

  pub Keeps-bind :
      {A B : Type 0} {m : St Regmap A} {f : A → St Regmap B}
      → Keeps m
      → ((a : A) → Keeps (f a))
      → Keeps (m >>= f)
  Keeps-bind {m} {f} a b = record {
    live =
        λ p lt l. (b (m p).0).live (m p).1 (let e = a.same_count p in omega arith) (a.live p lt l);
    same_count = λ p. (b (m p).0).same_count (m p).1 ∙ a.same_count p;
  }

  pub Keeps-when : {A : Type 0} {m : St Regmap A} (b : Bool) → Keeps m → Keeps (when b m)
  Keeps-when true a = record { live = a.live; same_count = a.same_count }
  Keeps-when false a = record { live = λ p lt l. l; same_count = λ p. refl }

  -- A call that leaves the maps alone.
  pub Keeps-rest :
      {A : Type 0} {m : St Regmap A}
      → ((p : Priv Regmap) → (m p).1.i2cmap ≡ p.i2cmap)
      → ((p : Priv Regmap) → (m p).1.codec_cnt ≡ p.codec_cnt)
      → Keeps m
  Keeps-rest maps count = record { live = λ p lt l. rw (maps p) l; same_count = count }
