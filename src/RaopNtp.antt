-- ===== src/RaopNtp.antt =====
-- include/AirPlayServer/lib/raop_ntp.c: the clock of the client, estimated from NTP exchanges.
-- `int64_t` values are integers: the code has no defined behaviour where they overflow. Unsigned
-- arithmetic wraps at 2 ^ 64. `clock_gettime` and the socket are the arguments of a call.
pub mod Offset
pub mod History
pub mod Choice
pub mod Service
use j_a_r_v_i_s.Prelude.{
  ℕ, zero, suc, ◌+◌, ◌-◌, ◌*◌, ◌/◌, ◌%◌, ◌^◌, Bool, true, false, List, [], ◌∷◌, if◌then◌else◌,
  get_or, set, replicate, ltb, ◌==◌,
}
use j_a_r_v_i_s.Prelude.Int.{ℤ, pos, negsuc, ◌+ℤ◌, ◌-ℤ◌, ltb_ℤ}
use j_a_r_v_i_s.ByteUtils.{
  get_ntp_timestamp, get_long_be, ntp_to_ns, second_in_nsecs, seconds_from_1900_to_1970, u64, sub64,
}

pub record Sample : Type 0 where
  pub time : ℕ
  pub dispersion : ℕ
  pub delay : ℤ
  pub offset : ℤ

pub data TimingProtocol : Type 0 where
  ntp tp_none tp_other tp_unspecified : TimingProtocol

pub record RaopNtp : Type 0 where
  pub samples : List Sample
  pub data_index : ℕ
  pub sync_offset : ℤ
  pub sync_dispersion : ℤ
  pub sync_delay : ℤ
  pub time_protocol : TimingProtocol

abbrev pub data_count : ℕ
data_count = 8

abbrev pub phi_ppm : ℕ
phi_ppm = 15

-- `RAOP_NTP_R_RHO` and `RAOP_NTP_S_RHO`
abbrev pub rho : ℕ
rho = 2 ^ 32 / 1000

abbrev pub max_disp : ℕ
max_disp = 16 * 2 ^ 32

-- The bit pattern of an `int64_t`, and the value of such a pattern.
unfoldable pub to_u64 : ℤ → ℕ
to_u64 (pos n) = n % 2 ^ 64
to_u64 (negsuc n) = 2 ^ 64 - 1 - n % 2 ^ 64

unfoldable pub to_i64 : ℕ → ℤ
to_i64 w = if ltb w (2 ^ 63) then pos w else negsuc (2 ^ 64 - 1 - w)

-- Division by 2, which truncates toward 0.
unfoldable pub half : ℤ → ℤ
half (pos n) = pos (n / 2)
half (negsuc n) = if n == 0 then pos 0 else negsuc ((n + 1) / 2 - 1)

unfoldable pub init : ℕ → TimingProtocol → RaopNtp
init now time_protocol = record {
  samples =
      replicate data_count
        (record { time = now; dispersion = max_disp; delay = pos max_disp; offset = pos 0 });
  data_index = 0;
  sync_offset = pos 0;
  sync_dispersion = pos 0;
  sync_delay = pos 0;
  time_protocol = time_protocol;
}

-- `raop_ntp_timestamp_to_nano_seconds`
unfoldable pub timestamp_to_nano_seconds : ℕ → Bool → ℕ
timestamp_to_nano_seconds ntp_timestamp account_for_epoch_diff =
    let high = ntp_timestamp / 2 ^ 32 % 2 ^ 32 in
    let seconds = sub64 high (if account_for_epoch_diff then seconds_from_1900_to_1970 else 0) in
    ntp_to_ns seconds (ntp_timestamp % 2 ^ 32)

-- `if (raop_ntp->time_protocol == NTP)`
unfoldable pub is_ntp : TimingProtocol → Bool
is_ntp ntp = true
is_ntp tp_none = false
is_ntp tp_other = false
is_ntp tp_unspecified = false

-- `raop_remote_timestamp_to_nano_seconds`
unfoldable pub remote_timestamp_to_nano_seconds : RaopNtp → ℕ → ℕ
remote_timestamp_to_nano_seconds n timestamp =
    let high = timestamp / 2 ^ 32 % 2 ^ 32 in
    let seconds = if is_ntp n.time_protocol then sub64 high seconds_from_1900_to_1970 else high in
    ntp_to_ns seconds (timestamp % 2 ^ 32)

-- `raop_ntp_get_local_time`, of the `timespec` that the system gives.
unfoldable pub get_local_time : ℕ → ℕ → ℕ
get_local_time tv_sec tv_nsec = u64 (tv_nsec + u64 (tv_sec * second_in_nsecs))

-- `raop_ntp_get_remote_time`, at a local time.
unfoldable pub get_remote_time : RaopNtp → ℕ → ℕ
get_remote_time n local_time = to_u64 (to_i64 local_time +ℤ n.sync_offset)

-- `raop_ntp_convert_remote_time` and `raop_ntp_convert_local_time`
unfoldable pub convert_remote_time : RaopNtp → ℕ → ℕ
convert_remote_time n remote_time = to_u64 (to_i64 remote_time -ℤ n.sync_offset)

unfoldable pub convert_local_time : RaopNtp → ℕ → ℕ
convert_local_time n local_time = to_u64 (to_i64 local_time +ℤ n.sync_offset)

-- `qsort` with `raop_ntp_compare`: the samples in the order of their delays.
unfoldable pub insert_sample : Sample → List Sample → List Sample
insert_sample s [] = s ∷ []
insert_sample s (t ∷ ts) =
    let later = t ∷ insert_sample s ts in if ltb_ℤ t.delay s.delay then later else s ∷ t ∷ ts

unfoldable pub sort_samples : List Sample → List Sample
sort_samples [] = []
sort_samples (s ∷ ss) = insert_sample s (sort_samples ss)

-- The sample that a response gives: `t0` to `t3` are the four times of the exchange.
unfoldable pub make_sample : ℤ → ℤ → ℤ → ℤ → Sample
make_sample t0 t1 t2 t3 = record {
  time = to_u64 t3;
  dispersion = u64 (rho + rho + u64 (to_u64 (t3 -ℤ t0) * phi_ppm) / second_in_nsecs);
  delay = (t3 -ℤ t0) -ℤ (t2 -ℤ t1);
  offset = half ((t1 -ℤ t0) +ℤ (t2 -ℤ t3));
}

abbrev pub no_sample : Sample
no_sample = record { time = 0; dispersion = 0; delay = pos 0; offset = pos 0 }

-- The loop "Calculate dispersion": sample `i` counts by its share of 2 ^ (i + 1).
unfoldable pub sum_dispersion : ℕ → ℕ → List Sample → ℕ
sum_dispersion t3 share [] = 0
sum_dispersion t3 share (s ∷ ss) = u64 (
    u64 (s.dispersion + u64 (sub64 t3 s.time * phi_ppm) / second_in_nsecs) / share
    + sum_dispersion t3 (share * 2) ss)

-- The part of `raop_ntp_thread` that takes in a response.
unfoldable pub take_response : RaopNtp → ℤ → ℤ → ℤ → ℤ → RaopNtp
take_response n t0 t1 t2 t3 =
    let index = (n.data_index + 1) % data_count in
    let samples = set n.samples index (make_sample t0 t1 t2 t3) in
    let data_sorted = sort_samples samples in
    record n {
      data_index = index;
      samples = samples;
      sync_offset = (get_or data_sorted 0 no_sample).offset;
      sync_dispersion = to_i64 (sum_dispersion (to_u64 t3) 2 samples);
      sync_delay = (get_or data_sorted (data_count - 1) no_sample).delay;
    }

-- The times that are read from the packet, with the local time of its arrival.
unfoldable pub on_response : RaopNtp → List ℕ → ℕ → RaopNtp
on_response n response now =
    take_response n (to_i64 (get_ntp_timestamp response 8))
      (to_i64 (remote_timestamp_to_nano_seconds n (get_long_be response 16)))
      (to_i64 (remote_timestamp_to_nano_seconds n (get_long_be response 24))) (to_i64 now)
