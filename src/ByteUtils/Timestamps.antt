-- ===== src/ByteUtils/Timestamps.antt =====
-- Integers and NTP timestamps of byteutils.c, written and read back.
use j_a_r_v_i_s.Prelude.{
  ℕ, ◌+◌, ◌*◌, ◌/◌, ◌%◌, ◌^◌, ◌≤◌, ◌<◌, ◌≡◌, ◌≢◌, ◌∙◌, ap, List, arith, length, set, length-set,
  get_or-set_self, get_or-set_ne,
}
use j_a_r_v_i_s.ByteUtils.{
  byte_at, get_int, put_int, ntohl, ntp_to_ns, get_ntp_timestamp, put_ntp_timestamp,
  second_in_nsecs, seconds_from_1900_to_1970, u64, sub64,
}

length-put_int : (b : List ℕ) (o v : ℕ) → length (put_int b o v) ≡ length b
unfolding put_int
length-put_int b o v = rw (length-set, length-set, length-set, length-set)

-- The four bytes of an integer that was written.
byte_at-put_int :
    (b : List ℕ) (o v : ℕ)
    → o + 4 ≤ length b
    → (byte_at (put_int b o v) o ≡ v % 2 ^ 8)
      × (byte_at (put_int b o v) (o + 1) ≡ v / 2 ^ 8 % 2 ^ 8)
      × (byte_at (put_int b o v) (o + 2) ≡ v / 2 ^ 16 % 2 ^ 8)
      × (byte_at (put_int b o v) (o + 3) ≡ v / 2 ^ 24 % 2 ^ 8)
unfolding put_int
byte_at-put_int b o v h =
    let s0 = set b o (v % 2 ^ 8) in
    let s1 = set s0 (o + 1) (v / 2 ^ 8 % 2 ^ 8) in
    let s2 = set s1 (o + 2) (v / 2 ^ 16 % 2 ^ 8) in
    let v3 = v / 2 ^ 24 % 2 ^ 8 in
    let l0 : length s0 ≡ length b = length-set b o (v % 2 ^ 8) in
    let l1 : length s1 ≡ length s0 = length-set s0 (o + 1) (v / 2 ^ 8 % 2 ^ 8) in
    let l2 : length s2 ≡ length s1 = length-set s1 (o + 2) (v / 2 ^ 16 % 2 ^ 8) in
    (
      get_or-set_ne s2 (o + 3) o v3 0 (omega arith)
          ∙ get_or-set_ne s1 (o + 2) o (v / 2 ^ 16 % 2 ^ 8) 0 (omega arith)
          ∙ get_or-set_ne s0 (o + 1) o (v / 2 ^ 8 % 2 ^ 8) 0 (omega arith)
          ∙ get_or-set_self b o (v % 2 ^ 8) 0 (omega arith),
      get_or-set_ne s2 (o + 3) (o + 1) v3 0 (omega arith)
          ∙ get_or-set_ne s1 (o + 2) (o + 1) (v / 2 ^ 16 % 2 ^ 8) 0 (omega arith)
          ∙ get_or-set_self s0 (o + 1) (v / 2 ^ 8 % 2 ^ 8) 0 (omega arith),
      get_or-set_ne s2 (o + 3) (o + 2) v3 0 (omega arith)
          ∙ get_or-set_self s1 (o + 2) (v / 2 ^ 16 % 2 ^ 8) 0 (omega arith),
      get_or-set_self s2 (o + 3) v3 0 (omega arith),
    )

-- Other bytes stay as they were.
byte_at-put_int_ne :
    (b : List ℕ) (o v i : ℕ)
    → i ≢ o
    → i ≢ o + 1
    → i ≢ o + 2
    → i ≢ o + 3
    → byte_at (put_int b o v) i ≡ byte_at b i
unfolding put_int
byte_at-put_int_ne b o v i e0 e1 e2 e3 =
    get_or-set_ne _ (o + 3) i _ 0 (omega arith)
    ∙ get_or-set_ne _ (o + 2) i _ 0 (omega arith)
    ∙ get_or-set_ne _ (o + 1) i _ 0 (omega arith)
    ∙ get_or-set_ne b o i _ 0 (omega arith)

-- What was written is read back.
pub get_int-put_int :
    (b : List ℕ) (o v : ℕ) → o + 4 ≤ length b → v < 2 ^ 32 → get_int (put_int b o v) o ≡ v
unfolding get_int
get_int-put_int b o v h hv =
    let (b0, b1, b2, b3) = byte_at-put_int b o v h in omega (arith, b0, b1, b2, b3)

ntohl-ntohl : (x : ℕ) → x < 2 ^ 32 → ntohl (ntohl x) ≡ x
unfolding ntohl
ntohl-ntohl x h = omega arith

ntohl-lt : (x : ℕ) → ntohl x < 2 ^ 32
unfolding ntohl
ntohl-lt x = omega arith

-- Reading the first of two integers that stand side by side.
get_int-put_int_next :
    (b : List ℕ) (o v w : ℕ)
    → o + 8 ≤ length b
    → v < 2 ^ 32
    → get_int (put_int (put_int b o v) (o + 4) w) o ≡ v
get_int-put_int_next b o v w h hv =
    let b' = put_int b o v in
    let b0 =
      byte_at-put_int_ne b' (o + 4) w o (omega arith) (omega arith) (omega arith) (omega arith) in
    let b1 =
      byte_at-put_int_ne b' (o + 4) w (o + 1) (omega arith) (omega arith) (omega arith)
        (omega arith) in
    let b2 =
      byte_at-put_int_ne b' (o + 4) w (o + 2) (omega arith) (omega arith) (omega arith)
        (omega arith) in
    let b3 =
      byte_at-put_int_ne b' (o + 4) w (o + 3) (omega arith) (omega arith) (omega arith)
        (omega arith) in
    unfold get_int in omega (arith, b0, b1, b2, b3, get_int-put_int b o v (omega arith) hv)

-- The seconds and the fraction that a reader finds.
ntp_fields :
    (b : List ℕ) (o ns : ℕ)
    → o + 8 ≤ length b
    → ns / second_in_nsecs + seconds_from_1900_to_1970 < 2 ^ 32
    → get_ntp_timestamp (put_ntp_timestamp b o ns) o
      ≡ ntp_to_ns (ns / second_in_nsecs) (ns % second_in_nsecs * 2 ^ 32 / second_in_nsecs)
unfolding get_ntp_timestamp put_ntp_timestamp
ntp_fields b o ns h hs =
    let secs = u64 (ns / second_in_nsecs + seconds_from_1900_to_1970) % 2 ^ 32 in
    let frac = u64 (ns % second_in_nsecs * 2 ^ 32) / second_in_nsecs % 2 ^ 32 in
    let b' = put_int b o (ntohl secs) in
    let first = get_int-put_int_next b o (ntohl secs) (ntohl frac) h (ntohl-lt secs) in
    let second =
      get_int-put_int b' (o + 4) (ntohl frac) (omega (arith, length-put_int b o (ntohl secs)))
        (ntohl-lt frac) in
    let es : sub64 secs seconds_from_1900_to_1970 ≡ ns / second_in_nsecs = omega arith in
    let ef : frac ≡ ns % second_in_nsecs * 2 ^ 32 / second_in_nsecs = omega arith in
    rw (first, second, ntohl-ntohl secs (omega arith), ntohl-ntohl frac (omega arith), es)
      (ap (ntp_to_ns (ns / second_in_nsecs)) ef)

-- A time whose seconds since 1900 fit into 32 bits, written as an NTP timestamp into a packet with
-- room for it, is read back as the same or one nanosecond less.
pub ntp_timestamp_round_trip :
    (b : List ℕ) (o ns : ℕ)
    → o + 8 ≤ length b
    → ns / second_in_nsecs + seconds_from_1900_to_1970 < 2 ^ 32
    → (get_ntp_timestamp (put_ntp_timestamp b o ns) o ≤ ns)
      × (ns ≤ get_ntp_timestamp (put_ntp_timestamp b o ns) o + 1)
unfolding ntp_to_ns
ntp_timestamp_round_trip b o ns h hs = omega (arith, ntp_fields b o ns h hs)
