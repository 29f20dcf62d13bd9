-- ===== src/RaopRtpMirror/Packets.antt =====
-- The packets that the video thread of raop_rtp_mirror.c handles: `raop_rtp_mirror_thread`.
-- `none` is a failed assert, or an access of the heap with no defined behaviour: a write behind a
-- block, or a copy from behind the payload, or an `int` that overflows. Sizes in a codec packet are `short` values.
use j_a_r_v_i_s.Prelude.{
  ℕ, ◌+◌, ◌^◌, Bool, true, false, not, ◌&&◌, ◌||◌, Option, none, some, List, [], ◌∷◌, ◌++◌, ltb,
  leb, ◌==◌, if◌then◌else◌, length, ◌>>=◌, map, set, take, drop,
}
use j_a_r_v_i_s.ByteUtils.{byte_at, get_long, get_short_be}
use j_a_r_v_i_s.MirrorBuffer.{MirrorBuffer, decrypt}
use j_a_r_v_i_s.RaopNtp.{RaopNtp, timestamp_to_nano_seconds, convert_remote_time}
use j_a_r_v_i_s.RaopRtpMirror.{Units, Framed, framed, overflow, frame}

-- `h264_decode_struct`: `nal_data` is its field `data`.
pub record H264 : Type 0 where
  pub nal_count : ℕ
  pub nal_data : List ℕ
  pub data_len : ℕ
  pub ntp_time_local : ℕ
  pub ntp_time_remote : ℕ

-- The callbacks that the thread makes. A size is the four bytes of each of its `float` values:
-- the width and the height of the source, and the width and the height.
pub data VideoCall : Type 0 where
  video_resume : VideoCall
  video_process : H264 → VideoCall
  video_report_size : List (List ℕ) → VideoCall
  video_pause : VideoCall

-- The variables of the thread, and its buffer.
pub record VideoThread : Type 0 where
  pub buffer : MirrorBuffer
  pub sps_pps : Option (List ℕ)
  pub prepend_sps_pps : Bool
  pub sps_pps_len : ℕ
  pub ntp_timestamp_nal : ℕ
  pub h265_video_detected : Bool

unfoldable pub begin : MirrorBuffer → VideoThread
begin buffer = record {
  buffer = buffer;
  sps_pps = none;
  prepend_sps_pps = false;
  sps_pps_len = 0;
  ntp_timestamp_nal = 0;
  h265_video_detected = false;
}

-- Parameter sets for an earlier or later time are discarded.
unfoldable pub discard : VideoThread → ℕ → VideoThread
discard t ntp_timestamp_raw =
    if t.prepend_sps_pps && not (ntp_timestamp_raw == t.ntp_timestamp_nal)
    then record t { sps_pps = none; prepend_sps_pps = false }
    else t

-- What stands before the video in `payload_out`.
unfoldable pub prefix : VideoThread → Option (List ℕ)
prefix t = if t.prepend_sps_pps then t.sps_pps else some []

-- The video behind the prefix, with the first byte of all set to 1 where it is not valid.
unfoldable pub payload_out : List ℕ → Units → ℕ → List ℕ
payload_out before u payload_size =
    let joined = before ++ take payload_size u.bytes in
    if u.valid_data && u.nalu_size == payload_size then joined else set joined 0 1

unfoldable pub sizes_of : List ℕ → List (List ℕ)
sizes_of packet = map (λ i. take 4 (drop i packet)) (40 ∷ 44 ∷ 56 ∷ 60 ∷ [])

-- `case 0x01`. The callback that reports sizes may be absent.
unfoldable pub on_codec :
    Bool → VideoThread → List ℕ → List ℕ → Option (VideoThread × List VideoCall)
on_codec reports_size t packet payload =
    let sps_size = get_short_be payload 6 in
    let pps_size = get_short_be payload (sps_size + 9) in
    let report = if reports_size then video_report_size (sizes_of packet) ∷ [] else [] in
    if length payload == 0
    then some (t, [])
    else if leb (2 ^ 15) sps_size
        || leb (2 ^ 15) pps_size
        || ltb (length payload) (sps_size + pps_size + 11)
    then none
    else some (
      record t {
        sps_pps = some (
            (0 ∷ 0 ∷ 0 ∷ 1 ∷ take sps_size (drop 8 payload))
            ++ (0 ∷ 0 ∷ 0 ∷ 1 ∷ take pps_size (drop (sps_size + 11) payload)));
        prepend_sps_pps = true;
        sps_pps_len = sps_size + pps_size + 8;
        ntp_timestamp_nal = get_long packet 8;
      },
      report ++ (video_pause ∷ []),
    )

-- `behind` is what the heap holds behind the block that the video is decrypted to.
module _ (keystream : ℕ → ℕ) (ntp : RaopNtp) (behind : List ℕ) where
  -- Behind the loop over the units.
  unfoldable pub deliver :
      VideoThread → List ℕ → ℕ → ℕ → Option Framed → Option (VideoThread × List VideoCall)
  deliver t before payload_size ntp_timestamp_remote none = none
  deliver t before payload_size ntp_timestamp_remote (some overflow) = none
  deliver t before payload_size ntp_timestamp_remote (some (framed u)) =
      let t' = record t { sps_pps = if t.prepend_sps_pps then none else t.sps_pps } in
      if u.h265_video_detected
      then some (record t' { h265_video_detected = true }, [])
      else some (
        record t' { prepend_sps_pps = false },
        video_resume
            ∷ video_process (record {
              nal_count = if t.prepend_sps_pps then u.nalus_count + 2 else u.nalus_count;
              nal_data = payload_out before u payload_size;
              data_len = if t.prepend_sps_pps then payload_size + t.sps_pps_len else payload_size;
              ntp_time_local = convert_remote_time ntp ntp_timestamp_remote;
              ntp_time_remote = ntp_timestamp_remote;
            })
            ∷ [],
      )

  unfoldable pub decode :
      VideoThread → List ℕ → ℕ → Option (List ℕ) → Option (VideoThread × List VideoCall)
  decode t payload ntp_timestamp_remote none = none
  decode t payload ntp_timestamp_remote (some before) =
      let payload_size = length payload in
      let (buffer, written) = decrypt keystream t.buffer payload payload_size in
      if t.prepend_sps_pps && leb (2 ^ 31) (payload_size + t.sps_pps_len)
        || ltb payload_size (length written)
      then none
      else deliver (record t { buffer = buffer }) before payload_size ntp_timestamp_remote
          (frame (written ++ behind) payload_size t.h265_video_detected)

  -- `case 0x00`
  unfoldable pub on_video : VideoThread → List ℕ → List ℕ → Option (VideoThread × List VideoCall)
  on_video t packet payload =
      let ntp_timestamp_raw = get_long packet 8 in
      let t' = discard t ntp_timestamp_raw in
      decode t' payload (timestamp_to_nano_seconds ntp_timestamp_raw false) (prefix t')

  -- `switch (packet[4])`: the other types are only logged.
  unfoldable pub on_packet :
      Bool → VideoThread → List ℕ → List ℕ → Option (VideoThread × List VideoCall)
  on_packet reports_size t packet payload =
      if byte_at packet 4 == 0x00
      then on_video t packet payload
      else if byte_at packet 4 == 0x01
      then on_codec reports_size t packet payload
      else some (t, [])

  -- Packets in the order of their arrival, with the callbacks made.
  unfoldable pub on_packets :
      Bool → VideoThread → List (List ℕ × List ℕ) → Option (VideoThread × List VideoCall)
  on_packets reports_size t [] = some (t, [])
  on_packets reports_size t ((packet, payload) ∷ packets) = do
    (t', calls) ← on_packet reports_size t packet payload
    (t'', more) ← on_packets reports_size t' packets
    some (t'', calls ++ more)
