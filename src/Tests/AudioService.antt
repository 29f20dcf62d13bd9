-- ===== src/Tests/AudioService.antt =====
-- include/AirPlayServer/lib/raop_rtp.c on short sequences of packets and requests.
use j_a_r_v_i_s.Prelude.{
  ℕ, ◌%◌, ◌^◌, ◌≡◌, arith, refl, Bool, true, false, ◌&&◌, none, some, List, [], ◌∷◌, map, ◌==◌,
  is_none, replicate,
}
use j_a_r_v_i_s.Prelude.Int.{ℤ, pos, negsuc}
use j_a_r_v_i_s.RaopBuffer
use j_a_r_v_i_s.RaopBuffer.{RaopBuffer}
use j_a_r_v_i_s.RaopBuffer.Runs.{drain, enqueued, run, run-IsValid}
use j_a_r_v_i_s.RaopBuffer.Termination.{drain_ends}
use j_a_r_v_i_s.RaopNtp.{RaopNtp, ntp}
use j_a_r_v_i_s.RaopNtp
use j_a_r_v_i_s.RaopRtp.{RaopRtp, init, start_audio, run_service, init_sockets}
use j_a_r_v_i_s.RaopRtp.Events.{
  Request, set_volume, set_metadata, set_flush, Kind, emit_all, taken, process_events,
}
use j_a_r_v_i_s.RaopRtp.Delivery.{requested, newest, process_events-request}
use j_a_r_v_i_s.RaopRtp.Clock.{rtp64_times, rtp64_times_lem}
use j_a_r_v_i_s.RaopRtp.Packets.{Thread, packetlen_of, packet_type, on_control, on_data}
use j_a_r_v_i_s.RaopRtp.Errors.{on_data_abort}

-- A clock that wraps at 32 bits between the first two packets, and a late packet.
rtp64_times_lem_example :
    rtp64_times init (map (λ u. u % 2 ^ 32) (8589934000 ∷ 8589934700 ∷ 8589934300 ∷ []))
    ≡ 8589934000 ∷ 8589934700 ∷ 8589934300 ∷ []
unfolding init
rtp64_times_lem_example =
    rtp64_times_lem init 8589934000 (8589934700 ∷ 8589934300 ∷ []) refl (omega arith) (omega arith)
      (omega arith, omega arith, omega arith, (omega arith, omega arith, omega arith, omega arith))

abbrev running : RaopRtp
running = start_audio init 6001 0 0 2 44100 (some (7, 6002)) (some (8, 6003))

running_lem : running.running ≡ true
unfolding start_audio init run_service init_sockets
running_lem = refl

abbrev every_kind : Kind → Bool
every_kind k = true

-- Two volumes, of which the second is delivered, and no metadata.
abbrev requests : List Request
requests = set_volume (negsuc 5) ∷ set_metadata [] ∷ set_volume (negsuc 7) ∷ set_flush (pos 3) ∷ []

process_events-request_example :
    let r' = requested (process_events every_kind running).1 requests in
    process_events every_kind r'
    ≡ (false, record r' { pending = taken r'.pending }, emit_all every_kind (newest requests))
process_events-request_example = process_events-request every_kind running requests running_lem

abbrev no_cipher : List ℕ → List ℕ
no_cipher c = c

abbrev no_offset : RaopRtp → ℕ → ℕ → ℤ
no_offset r ntp_time rtp_time = pos 0

abbrev no_time : RaopRtp → ℕ → ℕ
no_time r rtp_time = 0

abbrev clock : RaopNtp
clock = RaopNtp.init 5000 ntp

abbrev synced : Thread
synced = record { rtp = running; have_synced = true }

-- A failed recvfrom behind a packet of the type 0x56.
abbrev resent : List ℕ
resent = 0x80 ∷ 0xd6 ∷ replicate 14 0

on_data_abort_example :
    (is_none (on_data no_cipher no_offset no_time clock synced resent (packetlen_of none)) ≡ true)
    × (is_none (on_control no_cipher no_offset no_time clock synced resent (packetlen_of none))
        ≡ (true && packet_type resent == 0x56))
on_data_abort_example = on_data_abort no_cipher no_offset no_time clock synced resent none tt

abbrev packet : ℕ → List ℕ
packet n = 0x80 ∷ 0x60 ∷ 0 ∷ n ∷ 0 ∷ 0 ∷ 0 ∷ 0 ∷ 0 ∷ 0 ∷ 0 ∷ 0 ∷ n ∷ 2 ∷ 3 ∷ []

abbrev two_packets : RaopBuffer
two_packets =
    run no_cipher RaopBuffer.init
      (enqueued (packet 5) 15 0 0 true ∷ enqueued (packet 7) 15 0 0 true ∷ [])

drain_ends_example : drain 1000 two_packets false ≡ drain 33 two_packets false
drain_ends_example =
    drain_ends 1000 false
      (run-IsValid no_cipher
        (enqueued (packet 5) 15 0 0 true ∷ enqueued (packet 7) 15 0 0 true ∷ []))
      (omega arith)
