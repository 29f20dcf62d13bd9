-- ===== src/ByteUtils.antt =====
-- include/AirPlayServer/lib/byteutils.c: reading and writing integers and NTP timestamps in packets.
-- The code assumes a little endian machine, and so does the model.
pub mod Timestamps
use j_a_r_v_i_s.Prelude.{ℕ, ◌+◌, ◌-◌, ◌*◌, ◌/◌, ◌%◌, ◌^◌, List, get_or, set}

-- A byte of a packet; C does not check the bounds, and the callers' guards keep reads inside.
abbrev pub byte_at : List ℕ → ℕ → ℕ
byte_at b i = get_or b i 0

unfoldable pub get_short : List ℕ → ℕ → ℕ
get_short b offset = byte_at b offset + byte_at b (offset + 1) * 256

unfoldable pub get_int : List ℕ → ℕ → ℕ
get_int b offset =
    byte_at b offset
    + byte_at b (offset + 1) * 2 ^ 8
    + byte_at b (offset + 2) * 2 ^ 16
    + byte_at b (offset + 3) * 2 ^ 24

unfoldable pub get_long : List ℕ → ℕ → ℕ
get_long b offset = get_int b offset + get_int b (offset + 4) * 2 ^ 32

-- `ntohs`, `ntohl` and `be64toh` of a little endian machine.
unfoldable pub ntohs : ℕ → ℕ
ntohs x = x % 256 * 256 + x / 256 % 256

unfoldable pub ntohl : ℕ → ℕ
ntohl x =
    x % 2 ^ 8 * 2 ^ 24
    + x / 2 ^ 8 % 2 ^ 8 * 2 ^ 16
    + x / 2 ^ 16 % 2 ^ 8 * 2 ^ 8
    + x / 2 ^ 24 % 2 ^ 8

unfoldable pub ntohll : ℕ → ℕ
ntohll x = ntohl (x % 2 ^ 32) * 2 ^ 32 + ntohl (x / 2 ^ 32 % 2 ^ 32)

unfoldable pub get_short_be : List ℕ → ℕ → ℕ
get_short_be b offset = ntohs (get_short b offset)

unfoldable pub get_int_be : List ℕ → ℕ → ℕ
get_int_be b offset = ntohl (get_int b offset)

unfoldable pub get_long_be : List ℕ → ℕ → ℕ
get_long_be b offset = ntohll (get_long b offset)

-- Writes the four bytes of a `uint32_t`, lowest first.
unfoldable pub put_int : List ℕ → ℕ → ℕ → List ℕ
put_int b offset value =
    set
      (set (set (set b offset (value % 2 ^ 8)) (offset + 1) (value / 2 ^ 8 % 2 ^ 8)) (offset + 2)
        (value / 2 ^ 16 % 2 ^ 8))
      (offset + 3) (value / 2 ^ 24 % 2 ^ 8)

abbrev pub second_in_nsecs : ℕ
second_in_nsecs = 1000000000

abbrev pub seconds_from_1900_to_1970 : ℕ
seconds_from_1900_to_1970 = 2208988800

-- `uint64_t` addition, subtraction and multiplication.
abbrev pub u64 : ℕ → ℕ
u64 n = n % 2 ^ 64

abbrev pub sub64 : ℕ → ℕ → ℕ
sub64 a b = (a + 2 ^ 64 - b) % 2 ^ 64

-- (seconds * SECOND_IN_NSECS) + ((fraction * SECOND_IN_NSECS) >> 32), shared by the three decoders.
unfoldable pub ntp_to_ns : ℕ → ℕ → ℕ
ntp_to_ns seconds fraction =
    u64 (u64 (seconds * second_in_nsecs) + u64 (fraction * second_in_nsecs) / 2 ^ 32)

unfoldable pub get_ntp_timestamp : List ℕ → ℕ → ℕ
get_ntp_timestamp b offset =
    let seconds = sub64 (ntohl (get_int b offset)) seconds_from_1900_to_1970 in
    let fraction = ntohl (get_int b (offset + 4)) in ntp_to_ns seconds fraction

-- `htonl` takes a `uint32_t`, so its argument is cut to 32 bits.
unfoldable pub put_ntp_timestamp : List ℕ → ℕ → ℕ → List ℕ
put_ntp_timestamp b offset ns_since_1970 =
    let nanoseconds = ns_since_1970 % second_in_nsecs in
    let seconds = u64 (ns_since_1970 / second_in_nsecs + seconds_from_1900_to_1970) in
    let fraction = u64 (nanoseconds * 2 ^ 32) / second_in_nsecs in
    put_int (put_int b offset (ntohl (seconds % 2 ^ 32))) (offset + 4) (ntohl (fraction % 2 ^ 32))
