-- ===== src/RaopRtpMirror/Codec.antt =====
-- How parameter sets and video of raop_rtp_mirror.c come together in one block for the renderer.
use j_a_r_v_i_s.Prelude.{
  ℕ, ◌+◌, ◌/◌, ◌%◌, ◌^◌, ◌≤◌, ◌<◌, ◌≡◌, ◌∙◌, ap, sym, refl, arith, Bool, true, false, none, some,
  List, [], ◌∷◌, ◌++◌, ltb, ◌==◌, if◌then◌else◌, length, take, drop, append_assoc, length-append,
  get_or-append_right, if_true, if_false, lt→leb-false, take-append_left, drop-append_left,
  drop-drop, lt→==-false, ==-refl, take-append_left, le→ltb-false,
}
use j_a_r_v_i_s.ByteUtils.{byte_at, get_long, get_short, get_short_be, ntohs}
use j_a_r_v_i_s.RaopNtp.{RaopNtp, timestamp_to_nano_seconds, convert_remote_time}
use j_a_r_v_i_s.RaopRtpMirror.Framing.{
  start_code, sized, delimited, AllUnits, frame-sized, length-delimited,
}
use j_a_r_v_i_s.MirrorBuffer.{decrypt, apply_stream}
use j_a_r_v_i_s.MirrorBuffer.Stream.{InStep, decrypt_packet, length-apply_stream}
use j_a_r_v_i_s.RaopRtpMirror.Packets.{
  VideoThread, video_report_size, video_pause, video_resume, video_process, sizes_of, discard,
  prefix, payload_out, deliver, decode, on_video, on_packet, on_packets, on_codec,
}

abbrev pub short_be : ℕ → List ℕ
short_be n = n / 2 ^ 8 % 2 ^ 8 ∷ n % 2 ^ 8 ∷ []

-- The payload of a codec packet: six bytes of information, the sequence parameter set behind its
-- size, a count, the picture parameter set behind its size, and a remainder.
abbrev pub codec_payload : ℕ → ℕ → ℕ → ℕ → ℕ → ℕ → ℕ → List ℕ → List ℕ → List ℕ → List ℕ
codec_payload a b c d e f count sps pps remainder =
    (a ∷ b ∷ c ∷ d ∷ e ∷ f ∷ short_be (length sps))
    ++ (sps ++ (count ∷ (short_be (length pps) ++ (pps ++ remainder))))

-- Both parameter sets behind start codes.
abbrev pub parameter_sets : List ℕ → List ℕ → List ℕ
parameter_sets sps pps = (start_code ++ sps) ++ (start_code ++ pps)

get_short_be-short_be :
    (pre ys : List ℕ) (x n i : ℕ)
    → n < 2 ^ 15
    → i ≡ length pre + 1
    → get_short_be (pre ++ (x ∷ (short_be n ++ ys))) i ≡ n
unfolding get_short_be get_short ntohs
get_short_be-short_be pre ys x n i h e =
    let all = pre ++ (x ∷ (short_be n ++ ys)) in
    let hi : byte_at all i ≡ n / 2 ^ 8 % 2 ^ 8 =
      ap (byte_at all) e ∙ get_or-append_right pre _ 1 0 in
    let next : i + 1 ≡ length pre + 2 = omega (arith, e) in
    let lo : byte_at all (i + 1) ≡ n % 2 ^ 8 =
      ap (byte_at all) next ∙ get_or-append_right pre _ 2 0 in
    rw (hi, lo) (omega arith)

on_codec-codec_payload :
    (reports_size : Bool) (t : VideoThread) (packet : List ℕ) (a b c d e f count : ℕ)
    (sps pps remainder : List ℕ)
    → length sps < 2 ^ 15
    → length pps < 2 ^ 15
    → on_codec reports_size t packet (codec_payload a b c d e f count sps pps remainder)
      ≡ some (
        record t {
          sps_pps = some (parameter_sets sps pps);
          prepend_sps_pps = true;
          sps_pps_len = length sps + length pps + 8;
          ntp_timestamp_nal = get_long packet 8;
        },
        (if reports_size then video_report_size (sizes_of packet) ∷ [] else [])
            ++ (video_pause ∷ []),
      )
unfolding on_codec
on_codec-codec_payload reports t packet a b c d e f count sps pps remainder hs hp =
    let tail = sps ++ (count ∷ (short_be (length pps) ++ (pps ++ remainder))) in
    let before = a ∷ b ∷ c ∷ d ∷ e ∷ f ∷ short_be (length sps) in
    let all = before ++ tail in
    let first = get_short_be-short_be (a ∷ b ∷ c ∷ d ∷ e ∷ []) tail f (length sps) 6 hs refl in
    let behind = count ∷ (short_be (length pps) ++ (pps ++ remainder)) in
    let assoc : all ≡ (before ++ sps) ++ behind = sym (append_assoc before sps behind) in
    let at : length sps + 9 ≡ length (before ++ sps) + 1 =
      omega (arith, length-append before sps) in
    let second : get_short_be all (length sps + 9) ≡ length pps =
      ap (λ l. get_short_be l (length sps + 9)) assoc
      ∙ get_short_be-short_be (before ++ sps) (pps ++ remainder) count (length pps) (length sps + 9)
          hp at in
    let rest : drop (length sps + 11) all ≡ pps ++ remainder =
      ap (drop (length sps + 11)) assoc
      ∙ ap (λ k. drop k ((before ++ sps) ++ behind))
          (let e : length sps + 11 ≡ length (before ++ sps) + 3 =
              omega (arith, length-append before sps) in
            e)
      ∙ sym (drop-drop (length (before ++ sps)) 3 ((before ++ sps) ++ behind))
      ∙ ap (drop 3) (drop-append_left (before ++ sps) behind) in
    let room : ltb (length all) (length sps + length pps + 11) ≡ false =
      le→ltb-false (length all) (length sps + length pps + 11)
        (omega (arith, length-append sps behind, length-append pps remainder)) in
    rw
      (
        first,
        second,
        rest,
        lt→leb-false (2 ^ 15) (length sps) hs,
        lt→leb-false (2 ^ 15) (length pps) hp,
        room,
        take-append_left sps behind,
        take-append_left pps remainder,
      )
      (if_false (length all == 0) _ _ (lt→==-false (length all) 0 (omega arith)))

payload_out-delimited :
    (before behind : List ℕ) (nals : List (List ℕ))
    → payload_out before
        (record {
          bytes = delimited nals ++ behind;
          nalu_size = length (sized nals);
          nalus_count = length nals;
          valid_data = true;
          h265_video_detected = false;
        })
        (length (sized nals))
      ≡ before ++ delimited nals
unfolding payload_out
payload_out-delimited before behind nals =
    if_true (length (sized nals) == length (sized nals)) _ _ (==-refl (length (sized nals)))
    ∙ ap (λ n. before ++ take n (delimited nals ++ behind)) (sym (length-delimited nals))
    ∙ ap (◌++◌ before) (take-append_left (delimited nals) behind)

module _ (keystream : ℕ → ℕ) (ntp : RaopNtp) (behind : List ℕ) where
  -- A packet that decrypts to h264 units, with parameter sets that are to go before it.
  decode-sized :
      {p : ℕ} (t : VideoThread) (payload before : List ℕ) (time : ℕ) (nals : List (List ℕ))
      → InStep keystream t.buffer p
      → t.buffer.next_decrypt_count ≤ length payload
      → apply_stream keystream p payload ≡ sized nals
      → AllUnits nals
      → length payload + t.sps_pps_len < 2 ^ 31
      → t.h265_video_detected ≡ false
      → t.prepend_sps_pps ≡ true
      → decode keystream ntp behind t payload time (some before)
        ≡ some (
          record t {
            buffer = (decrypt keystream t.buffer payload (length payload)).0;
            sps_pps = none;
            prepend_sps_pps = false;
          },
          video_resume
              ∷ video_process (record {
                nal_count = length nals + 2;
                nal_data = before ++ delimited nals;
                data_len = length payload + t.sps_pps_len;
                ntp_time_local = convert_remote_time ntp time;
                ntp_time_remote = time;
              })
              ∷ [],
        )
  unfolding decode deliver
  decode-sized {p} t payload before time nals s long plain units fits h264 prepend =
      let (written, _) = decrypt_packet keystream payload s long in
      let bytes = (decrypt keystream t.buffer payload (length payload)).1 in
      let same = written ∙ plain in
      let len : length (sized nals) ≡ length payload =
        sym (ap length plain) ∙ length-apply_stream keystream p payload in
      rw
        (
          same,
          sym len,
          prepend,
          lt→leb-false (2 ^ 31) (length (sized nals) + t.sps_pps_len) (omega (arith, len)),
          le→ltb-false (length (sized nals)) (length (sized nals)) (omega arith),
          h264,
          frame-sized nals behind units (omega (arith, len)),
          payload_out-delimited before behind nals,
        )
        refl

  -- For a codec packet in the layout of the protocol with both parameter sets shorter than 2 ^ 15
  -- bytes, and then a video packet with the same timestamp that the stream decrypts to h264 units,
  -- where no h265 video was seen and the block is shorter than 2 ^ 31 bytes: the renderer gets one
  -- block, which is both parameter sets and all the units, each behind a start code, with the units
  -- counted, and the parameter sets are used up.
  pub on_packets-codec :
      {p : ℕ} (reports_size : Bool) (t : VideoThread) (codec video payload : List ℕ)
      (a b c d e f count : ℕ) (sps pps remainder : List ℕ) (nals : List (List ℕ))
      → InStep keystream t.buffer p
      → t.buffer.next_decrypt_count ≤ length payload
      → apply_stream keystream p payload ≡ sized nals
      → AllUnits nals
      → length payload + (length sps + length pps + 8) < 2 ^ 31
      → t.h265_video_detected ≡ false
      → byte_at codec 4 ≡ 1
      → byte_at video 4 ≡ 0
      → get_long video 8 ≡ get_long codec 8
      → length sps < 2 ^ 15
      → length pps < 2 ^ 15
      → let time = timestamp_to_nano_seconds (get_long video 8) false in
        on_packets keystream ntp behind reports_size t
          ((codec, codec_payload a b c d e f count sps pps remainder) ∷ (video, payload) ∷ [])
        ≡ some (
          record t {
            buffer = (decrypt keystream t.buffer payload (length payload)).0;
            sps_pps = none;
            prepend_sps_pps = false;
            sps_pps_len = length sps + length pps + 8;
            ntp_timestamp_nal = get_long codec 8;
          },
          ((if reports_size then video_report_size (sizes_of codec) ∷ [] else [])
                ++ (video_pause ∷ []))
              ++ (video_resume
                  ∷ video_process (record {
                    nal_count = length nals + 2;
                    nal_data = parameter_sets sps pps ++ delimited nals;
                    data_len = length payload + (length sps + length pps + 8);
                    ntp_time_local = convert_remote_time ntp time;
                    ntp_time_remote = time;
                  })
                  ∷ []),
        )
  unfolding on_packets on_packet on_video discard prefix
  on_packets-codec {p} reports t codec video payload a b c d e f count sps pps remainder nals s long
        plain units fits h264 is_codec is_video same hs hp =
      let pending = record t {
        sps_pps = some (parameter_sets sps pps);
        prepend_sps_pps = true;
        sps_pps_len = length sps + length pps + 8;
        ntp_timestamp_nal = get_long codec 8;
      } in
      rw
        (
          is_codec,
          on_codec-codec_payload reports t codec a b c d e f count sps pps remainder hs hp,
          is_video,
          same,
          ==-refl (get_long codec 8),
          decode-sized pending payload (parameter_sets sps pps)
              (timestamp_to_nano_seconds (get_long codec 8) false) nals s long plain units fits h264
              refl,
        )
        refl
