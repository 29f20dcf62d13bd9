-- ===== src/RaopRtp/Packets.antt =====
-- The packets that the audio thread of raop_rtp.c receives: `raop_rtp_thread_udp`.
-- Two computations with floating-point numbers are parameters: the mean in `raop_rtp_sync_clock`,
-- and the playing time before the first sync event.
use j_a_r_v_i_s.Prelude.{
  ℕ, ◌-◌, ◌*◌, ◌%◌, ◌^◌, Bool, true, false, not, ◌&&◌, Option, none, some, List, [], ◌∷◌, map, ltb,
  leb, ◌==◌, if◌then◌else◌, drop,
}
use j_a_r_v_i_s.Prelude.Int.{ℤ, pos, ◌+ℤ◌, leb_ℤ}
use j_a_r_v_i_s.ByteUtils.{byte_at, get_int_be, get_long_be}
use j_a_r_v_i_s.RaopBuffer.{Packet, is_empty_packet, enqueue, handle_resends}
use j_a_r_v_i_s.RaopBuffer.Runs.{drain}
use j_a_r_v_i_s.RaopNtp.{
  RaopNtp, to_u64, remote_timestamp_to_nano_seconds, convert_remote_time, convert_local_time,
}
use j_a_r_v_i_s.RaopRtp.{RaopRtp, SyncData, rtp64_time, sync_clock, resend_callback}

-- The thread's state: the service, and its variable `have_synced`.
pub record Thread : Type 0 where
  pub rtp : RaopRtp
  pub have_synced : Bool

-- `audio_decode_struct`
pub record AudioData : Type 0 where
  pub payload : Option (List ℕ)
  pub ct : ℕ
  pub data_len : ℕ
  pub sync_status : Bool
  pub ntp_time_local : ℕ
  pub ntp_time_remote : ℕ
  pub rtp_time : ℕ
  pub seqnum : ℕ

abbrev forget_time : SyncData → SyncData
forget_time s = record s { ntp_time = 0 }

-- The start of the thread, at a local time.
unfoldable pub begin : RaopRtp → ℕ → Thread
begin r local_time = record {
  rtp = record r {
    ntp_start_time = local_time;
    rtp_clock_started = false;
    sync_data = map forget_time r.sync_data;
  };
  have_synced = false;
}

-- `packetlen`, an `unsigned int`, for the result of `recvfrom`, where -1 is `none`.
unfoldable pub packetlen_of : Option ℕ → ℕ
packetlen_of none = 2 ^ 32 - 1
packetlen_of (some n) = n

-- The time on the client's clock at an RTP time.
unfoldable pub ntp_of : RaopRtp → ℕ → ℕ
ntp_of r rtp_time = to_u64 (r.rtp_sync_offset +ℤ pos (r.rtp_clock_rate * rtp_time))

-- What the thread hands on: audio for playing, and requests for packets.
pub record Output : Type 0 where
  pub audio : List AudioData
  pub requests : List (List ℕ)

abbrev pub no_output : Output
no_output = record { audio = []; requests = [] }

-- The fuel of the playing loop: the window has 32 packets.
abbrev pub drain_fuel : ℕ
drain_fuel = 33

abbrev pub in_thread : Thread → Option RaopRtp → Option Thread
in_thread t none = none
in_thread t (some r) = some (record t { rtp = r })

-- `packet[1] & ~0x80`
abbrev pub packet_type : List ℕ → ℕ
packet_type packet = byte_at packet 1 % 128

module _ (aes_cbc_decrypt : List ℕ → List ℕ) (mean_offset : RaopRtp → ℕ → ℕ → ℤ)
    (unsynced_time : RaopRtp → ℕ → ℕ) (ntp : RaopNtp) where
  -- The arguments of `raop_buffer_enqueue`, whose `datalen` is an `unsigned short`, and the `assert`
  -- behind it: `none` is the end of the program.
  unfoldable pub enqueue_packet : Thread → RaopRtp → List ℕ → ℕ → ℕ → Option RaopRtp
  enqueue_packet t r packet packetlen rtp_time =
      let ntp_time = if t.have_synced then ntp_of r rtp_time else 0 in
      let (result, buffer) =
        enqueue aes_cbc_decrypt r.buffer packet (packetlen % 65536) ntp_time rtp_time true in
      if leb_ℤ (pos 0) result then some (record r { buffer = buffer }) else none

  -- A packet on the control socket.
  unfoldable pub on_control : Thread → List ℕ → ℕ → Option Thread
  on_control t packet packetlen =
      let resent_packet = drop 4 packet in
      let (resent, resent_time) = rtp64_time t.rtp (get_int_be resent_packet 4) in
      let (synced, sync_rtp64) = rtp64_time t.rtp (get_int_be packet 4) in
      let sync_ntp_remote = remote_timestamp_to_nano_seconds ntp (get_long_be packet 8) in
      let offset = mean_offset synced sync_ntp_remote sync_rtp64 in
      if packet_type packet == 0x56 && leb 8 packetlen
      then (if leb 12 (packetlen - 4)
          then in_thread t (enqueue_packet t resent resent_packet (packetlen - 4) resent_time)
          else some t)
      else if packet_type packet == 0x54 && leb 20 packetlen
      then some
          (record { rtp = sync_clock synced sync_ntp_remote sync_rtp64 offset; have_synced = true })
      else some t

  -- The fields of `audio_data`.
  unfoldable pub audio_data : Thread → Packet → AudioData
  audio_data t p =
      let remote = if p.ntp_timestamp == 0 then ntp_of t.rtp p.rtp_timestamp else p.ntp_timestamp in
      let local = unsynced_time t.rtp p.rtp_timestamp in
      record {
        payload = p.payload;
        ct = t.rtp.ct;
        data_len = p.length;
        sync_status = t.have_synced;
        ntp_time_local = if t.have_synced then convert_remote_time ntp remote else local;
        ntp_time_remote = if t.have_synced then remote else convert_local_time ntp local;
        rtp_time = p.rtp_timestamp;
        seqnum = p.seqnum;
      }

  -- The one call of `raop_rtp_resend_callback`, if there is one.
  unfoldable pub send_request : RaopRtp → Option (Option (ℕ × ℕ)) → RaopRtp × List (List ℕ)
  send_request r none = (r, [])
  send_request r (some none) = (r, [])
  send_request r (some (some (seqnum, count))) =
      let (r', packet) = resend_callback r seqnum count in (r', packet ∷ [])

  -- "Render continuous buffer entries" and "Handle possible resend requests"
  unfoldable pub play : Thread → RaopRtp → Thread × Output
  play t r =
      let no_resend = r.control_rport == 0 in
      let (buffer, packets) = drain drain_fuel r.buffer no_resend in
      let r' = record r { buffer = buffer } in
      let audio = map (audio_data (record t { rtp = r' })) packets in
      let (r'', requests) = send_request r' (handle_resends buffer) in
      if no_resend
      then (record t { rtp = r' }, record { audio = audio; requests = [] })
      else (record t { rtp = r'' }, record { audio = audio; requests = requests })

  -- What follows the `assert` behind the call of `raop_buffer_enqueue`.
  unfoldable pub after_enqueue : Thread → Option RaopRtp → Option (Thread × Output)
  after_enqueue t none = none
  after_enqueue t (some r) =
      if r.ct == 2 && not t.have_synced
      then some (record t { rtp = r }, no_output)
      else some (play t r)

  -- A packet on the data socket.
  unfoldable pub on_data : Thread → List ℕ → ℕ → Option (Thread × Output)
  on_data t packet packetlen =
      let (r, rtp_time) = rtp64_time t.rtp (get_int_be packet 4) in
      if ltb packetlen 12
      then some (t, no_output)
      else if r.ct == 2 && packetlen == 44
      then some (record t { rtp = r }, no_output)
      else if not t.have_synced && packetlen == 16 && is_empty_packet packet
      then some (record t { rtp = r }, no_output)
      else after_enqueue t (enqueue_packet t r packet packetlen rtp_time)
