-- ===== src/RaopRtp/Clock.antt =====
-- The 64-bit RTP time of raop_rtp.c, followed from the 32 bits in the packets.
use j_a_r_v_i_s.Prelude.{
  ℕ, ◌+◌, ◌%◌, ◌^◌, ◌≤◌, ◌<◌, ◌≡◌, ◌∙◌, ap, refl, arith, true, false, List, [], ◌∷◌, map, leb,
  Bool-cases, inl, inr, leb→le, leb-false→lt, if_true, if_false, if◌then◌else◌,
}
use j_a_r_v_i_s.ByteUtils.{u64, sub64, get_short_be, get_short, ntohs}
use j_a_r_v_i_s.RaopRtp.{RaopRtp, sub32, rtp64_time, resend_packet, resend_callback}

abbrev moved : ℕ → ℕ → ℕ
moved now rtp32 =
    if leb (sub32 rtp32 now) (sub32 now rtp32)
    then u64 (now + sub32 rtp32 now)
    else sub64 now (sub32 now rtp32)

moved_lem :
    (now time : ℕ)
    → now < 2 ^ 64
    → time < 2 ^ 64
    → time < now + 2 ^ 31
    → now < time + 2 ^ 31
    → moved now (time % 2 ^ 32) ≡ time
moved_lem now time h k near after =
    elim (Bool-cases (leb (sub32 (time % 2 ^ 32) now) (sub32 now (time % 2 ^ 32)))) [
      | inl e ↦ rw e (let l = leb→le _ _ e in omega arith)
      | inr e ↦ rw e (let l = leb-false→lt _ _ e in omega arith)
    ]

-- A time within 2 ^ 31 of the one before is found from its lowest 32 bits.
rtp64_time_step :
    (r : RaopRtp) (time : ℕ)
    → r.rtp_clock_started ≡ true
    → r.rtp_time < 2 ^ 64
    → time < 2 ^ 64
    → time < r.rtp_time + 2 ^ 31
    → r.rtp_time < time + 2 ^ 31
    → rtp64_time r (time % 2 ^ 32) ≡ (record r { rtp_time = time }, time)
unfolding rtp64_time
rtp64_time_step r time started h k near after =
    if_true r.rtp_clock_started _ _ started
    ∙ ap (λ (m : ℕ). (record r { rtp_time = m }, m)) (moved_lem r.rtp_time time h k near after)

rtp64_time_start :
    (r : RaopRtp) (time : ℕ)
    → r.rtp_clock_started ≡ false
    → 2 ^ 32 ≤ time
    → time < 2 ^ 33
    → rtp64_time r (time % 2 ^ 32)
      ≡ (record r { rtp_time = time; rtp_start_time = time; rtp_clock_started = true }, time)
unfolding rtp64_time
rtp64_time_start r time stopped lo hi =
    let e : 2 ^ 32 + time % 2 ^ 32 ≡ time = omega arith in
    if_false r.rtp_clock_started _ _ stopped
    ∙ ap (λ (m : ℕ). (record r { rtp_time = m; rtp_start_time = m; rtp_clock_started = true }, m)) e

-- The results of the calls for packets with these timestamps, in order.
unfoldable pub rtp64_times : RaopRtp → List ℕ → List ℕ
rtp64_times r [] = []
rtp64_times r (rtp32 ∷ later) = let (r', time) = rtp64_time r rtp32 in time ∷ rtp64_times r' later

-- Times of 64 bits that are each within 2 ^ 31 of the one before.
abbrev pub AllNear : ℕ → List ℕ → Type 0
AllNear now [] = now < 2 ^ 64
AllNear now (t ∷ ts) = (now < 2 ^ 64) × (t < now + 2 ^ 31) × (now < t + 2 ^ 31) × AllNear t ts

AllNear-lt : (now : ℕ) (ts : List ℕ) → AllNear now ts → now < 2 ^ 64
AllNear-lt now [] h = h
AllNear-lt now (t ∷ ts) h = h.0

rtp64_times_from :
    (ts : List ℕ) (r : RaopRtp)
    → r.rtp_clock_started ≡ true
    → AllNear r.rtp_time ts
    → rtp64_times r (map (λ t. t % 2 ^ 32) ts) ≡ ts
unfolding rtp64_times
rtp64_times_from [] r started h = refl
rtp64_times_from (t ∷ ts) r started (now, near, after, rest) =
    let step = rtp64_time_step r t started now (AllNear-lt t ts rest) near after in
    ap (λ x. x.1 ∷ rtp64_times x.0 (map (λ (u : ℕ). u % 2 ^ 32) ts)) step
    ∙ ap (◌∷◌ t) (rtp64_times_from ts (record r { rtp_time = t }) started rest)

-- Before the clock has started: for timestamps that are the lowest 32 bits of times, the first one
-- from 2 ^ 32 on and below 2 ^ 33, each within 2 ^ 31 of the one before and all below 2 ^ 64, the
-- results of rtp64_time are exactly these times.
pub rtp64_times_lem :
    (r : RaopRtp) (t : ℕ) (ts : List ℕ)
    → r.rtp_clock_started ≡ false
    → 2 ^ 32 ≤ t
    → t < 2 ^ 33
    → AllNear t ts
    → rtp64_times r (map (λ u. u % 2 ^ 32) (t ∷ ts)) ≡ t ∷ ts
unfolding rtp64_times
rtp64_times_lem r t ts stopped lo hi near =
    ap (λ x. x.1 ∷ rtp64_times x.0 (map (λ (u : ℕ). u % 2 ^ 32) ts))
      (rtp64_time_start r t stopped lo hi)
    ∙ ap (◌∷◌ t) (
        rtp64_times_from ts
          (record r { rtp_time = t; rtp_start_time = t; rtp_clock_started = true }) refl near)

-- The three numbers of a resend request are read back from the packet, and the next request has
-- the next number of 16 bits.
pub resend_callback_lem :
    (r : RaopRtp) (seqnum count : ℕ)
    → r.control_seqnum < 65536
    → seqnum < 65536
    → count < 65536
    → let (r', packet) = resend_callback r seqnum count in
      (get_short_be packet 2 ≡ r.control_seqnum)
      × (get_short_be packet 4 ≡ seqnum)
      × (get_short_be packet 6 ≡ count)
      × (r'.control_seqnum ≡ (r.control_seqnum + 1) % 65536)
unfolding resend_callback resend_packet get_short_be get_short ntohs
resend_callback_lem r seqnum count own_small seqnum_small count_small =
    (omega arith, omega arith, omega arith, refl)
