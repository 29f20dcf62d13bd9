-- ===== src/RaopBuffer/Window.antt =====
-- Sequence numbers of raop_buffer.c as positions ahead of another one, modulo 2 ^ 16.
use j_a_r_v_i_s.Prelude.{ℕ, ◌+◌, ◌-◌, ◌%◌, ◌<◌, ◌≡◌, not, ◌&&◌, arith, ltb, leb, ◌==◌}
use j_a_r_v_i_s.Prelude.Int.{pos, ltb_ℤ, leb_ℤ, eqb_ℤ, ◌+ℤ◌, u16, int16, low16}
use j_a_r_v_i_s.RaopBuffer.{seqnum_cmp}

-- How many steps of `seqnum + 1` lead from `f` to `s`.
abbrev pub ahead : ℕ → ℕ → ℕ
ahead f s = (s + 65536 - f) % 65536

module _ (s f : ℕ) (hs : s < 65536) (hf : f < 65536) where
  pub ltb-seqnum_cmp : ltb_ℤ (seqnum_cmp s f) (pos 0) ≡ leb 32768 (ahead f s)
  unfolding seqnum_cmp
  ltb-seqnum_cmp = ground arith

  pub leb-seqnum_cmp : leb_ℤ (pos 0) (seqnum_cmp s f) ≡ ltb (ahead f s) 32768
  unfolding seqnum_cmp
  leb-seqnum_cmp = ground arith

  pub pos-seqnum_cmp :
      ltb_ℤ (pos 0) (seqnum_cmp s f) ≡ (not (ahead f s == 0) && ltb (ahead f s) 32768)
  unfolding seqnum_cmp
  pos-seqnum_cmp = ground arith

  pub eqb-seqnum_cmp : eqb_ℤ (seqnum_cmp s f) (pos 0) ≡ (s == f)
  unfolding seqnum_cmp
  eqb-seqnum_cmp = ground arith

  pub low16-seqnum_cmp : low16 (seqnum_cmp s f) ≡ ahead f s
  unfolding seqnum_cmp
  low16-seqnum_cmp = ground arith

  -- the number of entries that `raop_buffer_dequeue` computes, in terms of positions
  pub leb-entry_count :
      leb_ℤ (int16 (seqnum_cmp s f +ℤ pos 1)) (pos 0)
      ≡ not (leb 1 (ahead f (u16 (s + 1))) && ltb (ahead f (u16 (s + 1))) 32768)
  unfolding seqnum_cmp
  leb-entry_count = ground arith

  pub ltb-entry_count :
      ltb_ℤ (int16 (seqnum_cmp s f +ℤ pos 1)) (pos 32)
      ≡ not (leb 32 (ahead f (u16 (s + 1))) && ltb (ahead f (u16 (s + 1))) 32768)
  unfolding seqnum_cmp
  ltb-entry_count = ground arith
