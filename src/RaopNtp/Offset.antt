-- ===== src/RaopNtp/Offset.antt =====
-- The clock offset of raop_ntp.c: what one exchange measures, which one is chosen, and how times
-- are converted with it.
use j_a_r_v_i_s.Prelude.{
  ℕ, ◌+◌, ◌-◌, ◌*◌, ◌/◌, ◌%◌, ◌^◌, ◌≤◌, ◌<◌, ◌≡◌, ◌∙◌, ap, refl, arith, inl, inr, ◌⊎◌,
}
use j_a_r_v_i_s.Prelude.Int.{ℤ, pos, negsuc, ◌+ℤ◌, ◌-ℤ◌, sub_ℕ, pos_part, neg_part}
use j_a_r_v_i_s.RaopNtp.{
  Sample, RaopNtp, to_u64, to_i64, half, convert_remote_time, convert_local_time, make_sample,
}

abbrev pub abs : ℤ → ℕ
abs z = pos_part z + neg_part z

-- The parts of a difference, of a half and of an integer of 64 bits.
sub_parts : (a b : ℕ) → (pos_part (sub_ℕ a b) ≡ a - b) × (neg_part (sub_ℕ a b) ≡ b - a)
sub_parts a b = ground arith

half_parts : (z : ℤ) → (pos_part (half z) ≡ pos_part z / 2) × (neg_part (half z) ≡ neg_part z / 2)
unfolding half
half_parts (pos n) = (refl, omega arith)
half_parts (negsuc n) = ground arith

same_parts : (x y : ℤ) → pos_part x ≡ pos_part y → neg_part x ≡ neg_part y → x ≡ y
same_parts (pos m) (pos n) p q = ap pos p
same_parts (pos m) (negsuc n) p q = absurd (omega arith)
same_parts (negsuc m) (pos n) p q = absurd (omega arith)
same_parts (negsuc m) (negsuc n) p q = let e : m ≡ n = omega arith in ap negsuc e

to_u64_lem : (z : ℤ) → to_u64 z ≡ (pos_part z + (2 ^ 64 - neg_part z % 2 ^ 64)) % 2 ^ 64
unfolding to_u64
to_u64_lem (pos n) = omega arith
to_u64_lem (negsuc n) = omega arith

to_i64_parts :
    (w : ℕ)
    → w < 2 ^ 64
    → ((pos_part (to_i64 w) ≡ w) × (neg_part (to_i64 w) ≡ 0))
      ⊎ ((pos_part (to_i64 w) ≡ 0) × (neg_part (to_i64 w) ≡ 2 ^ 64 - w))
unfolding to_i64
to_i64_parts w h = ground arith

to_u64-lt : (z : ℤ) → to_u64 z < 2 ^ 64
to_u64-lt z = omega (arith, to_u64_lem z)

to_u64-sub_ℕ : (a b : ℕ) → to_u64 (sub_ℕ a b) ≡ (a + (2 ^ 64 - b % 2 ^ 64)) % 2 ^ 64
to_u64-sub_ℕ a b = omega (arith, to_u64_lem (sub_ℕ a b), sub_parts a b)

shift_up :
    (z : ℤ) (w : ℕ)
    → w < 2 ^ 64
    → to_u64 (to_i64 w +ℤ z) ≡ (w + pos_part z + (2 ^ 64 - neg_part z % 2 ^ 64)) % 2 ^ 64
shift_up z w h =
    to_u64-sub_ℕ (pos_part (to_i64 w) + pos_part z) (neg_part (to_i64 w) + neg_part z)
    ∙ omega (arith, to_i64_parts w h)

shift_down :
    (z : ℤ) (w : ℕ)
    → w < 2 ^ 64
    → to_u64 (to_i64 w -ℤ z) ≡ (w + neg_part z + (2 ^ 64 - pos_part z % 2 ^ 64)) % 2 ^ 64
shift_down z w h =
    to_u64-sub_ℕ (pos_part (to_i64 w) + neg_part z) (neg_part (to_i64 w) + pos_part z)
    ∙ omega (arith, to_i64_parts w h)

-- A shift by an integer and back, on 64 bits.
shift_back :
    (z : ℤ) (w : ℕ)
    → w < 2 ^ 64
    → (to_u64 (to_i64 (to_u64 (to_i64 w +ℤ z)) -ℤ z) ≡ w)
      × (to_u64 (to_i64 (to_u64 (to_i64 w -ℤ z)) +ℤ z) ≡ w)
shift_back z w h = (
  shift_down z (to_u64 (to_i64 w +ℤ z)) (to_u64-lt (to_i64 w +ℤ z))
      ∙ rw (shift_up z w h) (omega arith),
  shift_up z (to_u64 (to_i64 w -ℤ z)) (to_u64-lt (to_i64 w -ℤ z))
      ∙ rw (shift_down z w h) (omega arith),
)

-- Local times below 2 ^ 64 are converted to the client's clock and back without loss, and times of
-- the client to local time and back too.
pub convert_remote_time-convert_local_time :
    (n : RaopNtp) (time : ℕ)
    → time < 2 ^ 64
    → (convert_remote_time n (convert_local_time n time) ≡ time)
      × (convert_local_time n (convert_remote_time n time) ≡ time)
unfolding convert_remote_time convert_local_time
convert_remote_time-convert_local_time n time h = shift_back n.sync_offset time h

-- A difference in equations without subtraction.
balance : (a b : ℕ) → pos_part (sub_ℕ a b) + b ≡ neg_part (sub_ℕ a b) + a
balance a b = omega (arith, sub_parts a b)

one_part : (z : ℤ) → (pos_part z ≡ 0) ⊎ (neg_part z ≡ 0)
one_part (pos n) = inr refl
one_part (negsuc n) = inl refl

same_balance : (x y : ℤ) → pos_part x + neg_part y ≡ neg_part x + pos_part y → x ≡ y
same_balance x y e =
    let p : pos_part x ≡ pos_part y = omega (arith, one_part x, one_part y) in
    same_parts x y p (omega arith)

-- The half of a number `z` that is twice `shift` and there - back.
half_bounds :
    (z shift : ℤ) (there back : ℕ)
    → pos_part z + 2 * neg_part shift + back ≡ neg_part z + 2 * pos_part shift + there
    → abs (half z -ℤ shift) * 2 ≤ there + back + 1
half_bounds z shift there back e =
    let d = sub_parts (pos_part (half z) + neg_part shift) (neg_part (half z) + pos_part shift) in
    omega (arith, d, half_parts z, one_part z, one_part shift)

-- The exchange of a request that leaves at `t0`, is under way for `there`, answered after `wait`,
-- under way back for `back`, where the client's clock is ahead by `shift`.
abbrev pub exchange : ℕ → ℕ → ℕ → ℕ → ℤ → Sample
exchange t0 there wait back shift =
    make_sample (pos t0) (pos (t0 + there) +ℤ shift) (pos (t0 + there + wait) +ℤ shift)
      (pos (t0 + there + wait + back))

-- For a client whose clock is ahead by `shift`: the delay measured is the time under way, and
-- twice the error of the offset measured is at most one nanosecond more than that.
pub make_sample_bounds :
    (t0 there wait back : ℕ) (shift : ℤ)
    → ((exchange t0 there wait back shift).delay ≡ pos (there + back))
      × (abs ((exchange t0 there wait back shift).offset -ℤ shift) * 2 ≤ there + back + 1)
unfolding make_sample
make_sample_bounds t0 there wait back shift =
    let t3 = t0 + there + wait + back in
    let t1 = pos (t0 + there) +ℤ shift in
    let t2 = pos (t0 + there + wait) +ℤ shift in
    let p1 = balance (t0 + there + pos_part shift) (0 + neg_part shift) in
    let p2 = balance (t0 + there + wait + pos_part shift) (0 + neg_part shift) in
    let p30 = balance (t3 + 0) (0 + t0) in
    let p21 = balance (pos_part t2 + neg_part t1) (neg_part t2 + pos_part t1) in
    let p10 = balance (pos_part t1 + 0) (neg_part t1 + t0) in
    let p23 = balance (pos_part t2 + 0) (neg_part t2 + t3) in
    let d =
      balance (pos_part (pos t3 -ℤ pos t0) + neg_part (t2 -ℤ t1))
        (neg_part (pos t3 -ℤ pos t0) + pos_part (t2 -ℤ t1)) in
    let o =
      balance (pos_part (t1 -ℤ pos t0) + pos_part (t2 -ℤ pos t3))
        (neg_part (t1 -ℤ pos t0) + neg_part (t2 -ℤ pos t3)) in
    (
      same_balance _ _ (omega (arith, p1, p2, p30, p21, d)),
      half_bounds ((t1 -ℤ pos t0) +ℤ (t2 -ℤ pos t3)) shift there back
          (omega (arith, p1, p2, p10, p23, o)),
    )
