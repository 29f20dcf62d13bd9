-- ===== src/RaopRtpMirror.antt =====
-- include/AirPlayServer/lib/raop_rtp_mirror.c: the service that receives video packets.
-- A packet is its header of 128 bytes and its payload. An `int` size is a natural number below
-- 2 ^ 31; a sum that is not below it has no defined behaviour, and is the result `overflow`.
pub mod Bounds
pub mod Framing
pub mod Packets
pub mod Codec
pub mod Receive
pub mod Reassembly
pub mod Service
use j_a_r_v_i_s.Prelude.{
  ℕ, zero, suc, ◌+◌, ◌-◌, ◌^◌, ◌≤◌, Bool, true, false, not, ◌&&◌, ◌||◌, Option, none, some, List,
  [], ◌∷◌, ◌++◌, ltb, leb, ◌==◌, if◌then◌else◌, set,
}
use j_a_r_v_i_s.ByteUtils.{byte_at, get_int_be}

-- `memcpy(payload_decrypted + nalu_size, nal_start_code, 4)`
unfoldable pub put_start_code : List ℕ → ℕ → List ℕ
put_start_code b i = set (set (set (set b i 0) (i + 1) 0) (i + 2) 0) (i + 3) 1

-- What the loop over the units leaves.
pub record Units : Type 0 where
  pub bytes : List ℕ
  pub nalu_size : ℕ
  pub nalus_count : ℕ
  pub valid_data : Bool
  pub h265_video_detected : Bool

-- The test for a unit of h265 video: its first two bytes.
unfoldable pub is_h265 : ℕ → ℕ → Bool
is_h265 first second = second == 1 && (first == 0x28 || first == 0x02)

-- What one round of the loop comes to: what a `break` leaves, what the next round starts from, or
-- a sum of `int` values that overflows.
pub data RoundEnd : Type 0 where
  stops goes_on : Units → RoundEnd
  overflows : RoundEnd

-- One round of the loop.
unfoldable pub one_unit : ℕ → Units → RoundEnd
one_unit payload_size u =
    let nc_len = get_int_be u.bytes u.nalu_size in
    let bytes = put_start_code u.bytes u.nalu_size in
    let nalu_size = u.nalu_size + 4 in
    let first = byte_at bytes nalu_size in
    let second = byte_at bytes (nalu_size + 1) in
    let detected = u.h265_video_detected || is_h265 first second in
    let begun = record u {
      bytes = bytes;
      nalu_size = nalu_size;
      nalus_count = u.nalus_count + 1;
    } in
    if leb (2 ^ 31) nc_len
    then stops (record u { valid_data = false })
    else if leb (2 ^ 31) nalu_size
    then overflows
    else if ltb payload_size nalu_size
    then stops (record u { valid_data = false })
    else if leb 128 first
    then stops (record begun { valid_data = false })
    else if second == 1 && detected
    then stops (record begun { h265_video_detected = true })
    else if leb (2 ^ 31) (nalu_size + nc_len)
    then overflows
    else goes_on (record begun { nalu_size = nalu_size + nc_len })

-- What the loop comes to.
pub data Framed : Type 0 where
  framed : Units → Framed
  overflow : Framed

-- `while (nalu_size < payload_size)`, where `bytes` is the memory from `payload_decrypted` on.
-- `none` means that the fuel is used up.
unfoldable pub frame_units : ℕ → ℕ → Units → Option Framed
frame_units zero payload_size u = none
frame_units (suc fuel) payload_size u =
    if leb payload_size u.nalu_size then some (framed u) else elim (one_unit payload_size u) [
      | stops v ↦ some (framed v)
      | goes_on v ↦ frame_units fuel payload_size v
      | overflows ↦ some overflow
    ]

-- The loop from its start; each round adds at least 4 to `nalu_size`.
unfoldable pub frame : List ℕ → ℕ → Bool → Option Framed
frame bytes payload_size h265_video_detected = frame_units (suc payload_size) payload_size (record {
  bytes = bytes;
  nalu_size = 0;
  nalus_count = 0;
  valid_data = true;
  h265_video_detected = h265_video_detected;
})
