-- ===== src/Tests/Clock.antt =====
-- include/AirPlayServer/lib/raop_ntp.c and byteutils.c on small inputs.
use mathlib.Core.List.{Memᴰ}
use j_a_r_v_i_s.Prelude.{ℕ, ◌+◌, ◌*◌, ◌≤◌, ◌≡◌, List, [], ◌∷◌, ◌++◌, arith, get_or, replicate}
use j_a_r_v_i_s.Prelude.Int.{pos, negsuc, ◌-ℤ◌}
use j_a_r_v_i_s.ByteUtils.{get_ntp_timestamp, put_ntp_timestamp}
use j_a_r_v_i_s.ByteUtils.Timestamps.{ntp_timestamp_round_trip}
use j_a_r_v_i_s.RaopNtp.{Sample, RaopNtp, ntp, init, no_sample, take_response}
use j_a_r_v_i_s.RaopNtp.Offset.{abs, exchange, make_sample_bounds}
use j_a_r_v_i_s.RaopNtp.History.{
  Times, sample_of, take_responses, init-IsValid, take_responses_history,
}
use j_a_r_v_i_s.RaopNtp.Choice.{Fastest, Slowest, take_response_lem}

-- The request packet of the thread, with its time at byte 24.
abbrev request : List ℕ
request = replicate 32 0

abbrev send_time : ℕ
send_time = 1700000000123456789

ntp_timestamp_round_trip_example :
    (get_ntp_timestamp (put_ntp_timestamp request 24 send_time) 24 ≤ send_time)
    × (send_time ≤ get_ntp_timestamp (put_ntp_timestamp request 24 send_time) 24 + 1)
ntp_timestamp_round_trip_example =
    ntp_timestamp_round_trip request 24 send_time (omega arith) (omega arith)

abbrev clock : RaopNtp
clock = record (init 5000 ntp) { sync_offset = negsuc 999 }

make_sample_bounds_example :
    ((exchange 9000 40 5 20 (negsuc 299)).delay ≡ pos 60)
    × (abs ((exchange 9000 40 5 20 (negsuc 299)).offset -ℤ negsuc 299) * 2 ≤ 61)
make_sample_bounds_example = make_sample_bounds 9000 40 5 20 (negsuc 299)

abbrev first_times : Times
first_times = record { t0 = pos 9000; t1 = pos 100; t2 = pos 110; t3 = pos 9060 }

abbrev second_times : Times
second_times = record { t0 = pos 9500; t1 = pos 600; t2 = pos 605; t3 = pos 9530 }

take_responses_history_example :
    get_or
      (take_responses
        (init 5000 ntp)
        ((first_times ∷ []) ++ first_times ∷ (second_times ∷ []))).samples
      2
      no_sample
    ≡ sample_of first_times
unfolding init
take_responses_history_example =
    take_responses_history (init 5000 ntp) (first_times ∷ []) first_times (second_times ∷ [])
      (init-IsValid 5000 ntp) (omega arith)

take_response_lem_example :
    let n' = take_response (init 5000 ntp) (pos 9000) (pos 100) (pos 110) (pos 9060) in
    ((s : Sample) × Memᴰ s n'.samples × (n'.sync_offset ≡ s.offset) × Fastest s n'.samples)
    × ((s : Sample) × Memᴰ s n'.samples × (n'.sync_delay ≡ s.delay) × Slowest s n'.samples)
take_response_lem_example = take_response_lem (init 5000 ntp) first_times (init-IsValid 5000 ntp)
