-- ===== src/Tests/VideoService.antt =====
-- include/AirPlayServer/lib/raop_rtp_mirror.c on short payloads.
use j_a_r_v_i_s.Prelude.{
  ℕ, ◌+◌, ◌<◌, ◌≡◌, ◌⊎◌, arith, refl, true, false, none, some, List, [], ◌∷◌, ◌++◌, length, drop,
  replicate,
}
use j_a_r_v_i_s.ByteUtils.{get_long, get_int, get_int_be, ntohl}
use j_a_r_v_i_s.MirrorBuffer
use j_a_r_v_i_s.MirrorBuffer.{apply_stream, decrypt}
use j_a_r_v_i_s.MirrorBuffer.Stream.{init-InStep}
use j_a_r_v_i_s.RaopNtp
use j_a_r_v_i_s.RaopNtp.{RaopNtp, ntp, timestamp_to_nano_seconds, convert_remote_time}
use j_a_r_v_i_s.RaopRtpMirror.{
  Units, framed, overflow, frame, frame_units, one_unit, is_h265, put_start_code,
}
use j_a_r_v_i_s.RaopRtpMirror.Bounds.{TooLong, frame-Ends}
use j_a_r_v_i_s.RaopRtpMirror.Framing.{sized, delimited}
use j_a_r_v_i_s.RaopRtpMirror.Packets.{
  VideoThread, video_resume, video_process, video_pause, begin, on_packets,
}
use j_a_r_v_i_s.RaopRtpMirror.Codec.{codec_payload, parameter_sets, on_packets-codec}
use j_a_r_v_i_s.RaopRtpMirror.Receive.{fresh, Packet, receive, finish, receive_all, wanted}
use j_a_r_v_i_s.RaopRtpMirror.Reassembly.{receive_all-stream_of}

-- A unit of two bytes, and one whose length points behind the payload, before two other bytes.
abbrev broken : List ℕ
broken = 0 ∷ 0 ∷ 0 ∷ 2 ∷ 0x65 ∷ 7 ∷ 0 ∷ 0 ∷ 1 ∷ 0 ∷ 0x41 ∷ 9 ∷ 99 ∷ 98 ∷ []

frame-Ends_example :
    ((r : Units) × (frame broken 12 false ≡ some (framed r))
      × (length r.bytes ≡ length broken)
      × (drop 12 r.bytes ≡ drop 12 broken))
    ⊎ ((i : ℕ) × (i < 12) × TooLong broken i × (frame broken 12 false ≡ some overflow))
frame-Ends_example = frame-Ends broken 12 false

-- A length of 2 ^ 31 - 1 in a payload of six bytes.
too_long_overflows : frame (0x7f ∷ 0xff ∷ 0xff ∷ 0xff ∷ 0x65 ∷ 7 ∷ []) 6 false ≡ some overflow
unfolding frame frame_units one_unit is_h265 put_start_code get_int_be get_int ntohl
too_long_overflows = refl

-- The second unit is longer than the rest of the payload, so the sizes do not meet.
broken_is_framed :
    frame broken 12 false
    ≡ some (
        framed (record {
          bytes = 0 ∷ 0 ∷ 0 ∷ 1 ∷ 0x65 ∷ 7 ∷ 0 ∷ 0 ∷ 0 ∷ 1 ∷ 0x41 ∷ 9 ∷ 99 ∷ 98 ∷ [];
          nalu_size = 266;
          nalus_count = 2;
          valid_data = true;
          h265_video_detected = false;
        }))
unfolding frame frame_units one_unit is_h265 put_start_code get_int_be get_int ntohl
broken_is_framed = refl

-- A key stream that changes nothing.
abbrev no_stream : ℕ → ℕ
no_stream i = 0

abbrev clock : RaopNtp
clock = RaopNtp.init 5000 ntp

abbrev nals : List (List ℕ)
nals = (6 ∷ 5 ∷ []) ∷ (0x65 ∷ 7 ∷ 8 ∷ []) ∷ []

abbrev codec : List ℕ
codec = 0 ∷ 0 ∷ 0 ∷ 0 ∷ 1 ∷ 0 ∷ 0 ∷ 0 ∷ 9 ∷ 8 ∷ 7 ∷ 6 ∷ 5 ∷ 4 ∷ 3 ∷ 2 ∷ replicate 112 1

abbrev video : List ℕ
video = 0 ∷ 0 ∷ 0 ∷ 0 ∷ 0 ∷ 0 ∷ 0 ∷ 0 ∷ 9 ∷ 8 ∷ 7 ∷ 6 ∷ 5 ∷ 4 ∷ 3 ∷ 2 ∷ replicate 112 1

abbrev new_thread : VideoThread
new_thread = begin MirrorBuffer.init

nals_clear : apply_stream no_stream 0 (sized nals) ≡ sized nals
unfolding apply_stream
nals_clear = refl

on_packets-codec_example :
    let time = timestamp_to_nano_seconds (get_long video 8) false in
    on_packets no_stream clock [] false new_thread (
      (codec, codec_payload 1 2 3 4 5 6 1 (0x67 ∷ 4 ∷ []) (0x68 ∷ 2 ∷ 3 ∷ []) [])
      ∷ (video, sized nals)
      ∷ [])
    ≡ some (
      record new_thread {
        buffer = (decrypt no_stream new_thread.buffer (sized nals) (length (sized nals))).0;
        sps_pps = none;
        prepend_sps_pps = false;
        sps_pps_len = 2 + 3 + 8;
        ntp_timestamp_nal = get_long codec 8;
      },
      video_pause
          ∷ video_resume
          ∷ video_process (record {
            nal_count = 2 + 2;
            nal_data = parameter_sets (0x67 ∷ 4 ∷ []) (0x68 ∷ 2 ∷ 3 ∷ []) ++ delimited nals;
            data_len = length (sized nals) + (2 + 3 + 8);
            ntp_time_local = convert_remote_time clock time;
            ntp_time_remote = time;
          })
          ∷ [],
    )
unfolding begin MirrorBuffer.init is_h265 get_long get_int
on_packets-codec_example =
    on_packets-codec no_stream clock [] false new_thread codec video (sized nals) 1 2 3 4 5 6 1
      (0x67 ∷ 4 ∷ []) (0x68 ∷ 2 ∷ 3 ∷ []) [] nals (init-InStep no_stream) (omega arith) nals_clear
      ((omega arith, refl, omega arith), ((omega arith, refl, omega arith), tt)) (omega arith) refl
      refl refl refl (omega arith) (omega arith)

-- Two packets, one of them without a payload, in three pieces.
abbrev header : ℕ → List ℕ
header size = size ∷ replicate 127 0

abbrev two_packets : List Packet
two_packets = (header 3, 7 ∷ 8 ∷ 9 ∷ []) ∷ (header 0, []) ∷ []

abbrev pieces : List (List ℕ)
pieces = (3 ∷ replicate 99 0) ∷ replicate 28 0 ∷ (7 ∷ 8 ∷ []) ∷ (9 ∷ []) ∷ replicate 128 0 ∷ []

receive_all-stream_of_example : receive_all fresh pieces ≡ some (fresh, two_packets)
unfolding fresh receive finish wanted get_int
receive_all-stream_of_example =
    receive_all-stream_of pieces two_packets
      (refl, refl, omega arith, (refl, refl, omega arith, tt)) refl
      (omega arith, (omega arith, (omega arith, (omega arith, (omega arith, tt)))))
