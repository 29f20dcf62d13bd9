-- ===== src/RaopRtp.antt =====
-- include/AirPlayServer/lib/raop_rtp.c: the service that receives audio packets.
-- The division of `rtp_clock_rate` is one of integers, so the rate is a natural number; products
-- with it are exact in a `double` below 2 ^ 53. A `float` of the volume is the number of its units
-- of 2 ^ -149. Sockets are descriptors, `none` for -1.
pub mod Events
pub mod Packets
pub mod Clock
pub mod Delivery
pub mod Errors
use j_a_r_v_i_s.Prelude.{
  ℕ, ◌+◌, ◌-◌, ◌*◌, ◌/◌, ◌%◌, ◌^◌, Bool, true, false, not, ◌&&◌, ◌||◌, Option, none, some, List, [],
  ◌∷◌, ltb, leb, ◌==◌, if◌then◌else◌, set, replicate,
}
use j_a_r_v_i_s.Prelude.Int.{ℤ, pos, negsuc, ltb_ℤ, u16}
use j_a_r_v_i_s.ByteUtils.{u64, sub64, second_in_nsecs}
use j_a_r_v_i_s.RaopBuffer.{RaopBuffer}
use j_a_r_v_i_s.RaopBuffer

pub record SyncData : Type 0 where
  pub ntp_time : ℕ
  pub rtp_time : ℕ

abbrev pub sync_data_count : ℕ
sync_data_count = 8

-- The variables "MUTEX LOCKED" that a handler sets and the thread takes.
pub record Pending : Type 0 where
  pub volume : ℤ
  pub volume_changed : Bool
  pub metadata : Option (List ℕ)
  pub coverart : Option (List ℕ)
  pub dacp_id : Option (List ℕ)
  pub active_remote_header : Option (List ℕ)
  pub progress_start : ℕ
  pub progress_curr : ℕ
  pub progress_end : ℕ
  pub progress_changed : Bool
  pub flush : ℤ

pub record RaopRtp : Type 0 where
  pub rtp_clock_rate : ℕ
  pub rtp_sync_offset : ℤ
  pub sync_data : List SyncData
  pub sync_data_index : ℕ
  pub ntp_start_time : ℕ
  pub rtp_start_time : ℕ
  pub rtp_time : ℕ
  pub rtp_clock_started : Bool
  pub buffer : RaopBuffer
  pub running : Bool
  pub joined : Bool
  pub pending : Pending
  pub control_rport : ℕ
  pub csock : Option ℕ
  pub dsock : Option ℕ
  pub control_lport : ℕ
  pub data_lport : ℕ
  pub control_seqnum : ℕ
  pub ct : ℕ

-- `NO_FLUSH`
abbrev pub no_flush : ℤ
no_flush = negsuc 41

abbrev pub nothing_pending : Pending
nothing_pending = record {
  volume = pos 0;
  volume_changed = false;
  metadata = none;
  coverart = none;
  dacp_id = none;
  active_remote_header = none;
  progress_start = 0;
  progress_curr = 0;
  progress_end = 0;
  progress_changed = false;
  flush = no_flush;
}

-- `raop_rtp_init` after `calloc`, which leaves socket 0.
unfoldable pub init : RaopRtp
init = record {
  rtp_clock_rate = 0;
  rtp_sync_offset = pos 0;
  sync_data = replicate sync_data_count (record { ntp_time = 0; rtp_time = 0 });
  sync_data_index = 0;
  ntp_start_time = 0;
  rtp_start_time = 0;
  rtp_time = 0;
  rtp_clock_started = false;
  buffer = RaopBuffer.init;
  running = false;
  joined = true;
  pending = nothing_pending;
  control_rport = 0;
  csock = some 0;
  dsock = some 0;
  control_lport = 0;
  data_lport = 0;
  control_seqnum = 0;
  ct = 0;
}

-- `uint32_t` subtraction.
abbrev pub sub32 : ℕ → ℕ → ℕ
sub32 a b = (a + (2 ^ 32 - b % 2 ^ 32)) % 2 ^ 32

unfoldable pub rtp64_time : RaopRtp → ℕ → RaopRtp × ℕ
rtp64_time r rtp32 =
    let diff1 = sub32 rtp32 r.rtp_time in
    let diff2 = sub32 r.rtp_time rtp32 in
    let moved = if leb diff1 diff2 then u64 (r.rtp_time + diff1) else sub64 r.rtp_time diff2 in
    let start = 2 ^ 32 + rtp32 in
    if r.rtp_clock_started
    then (record r { rtp_time = moved }, moved)
    else (record r { rtp_time = start; rtp_start_time = start; rtp_clock_started = true }, start)

-- `raop_rtp_sync_clock`; `offset` is the `double` of that name at its end, cut to an `int64_t`.
unfoldable pub sync_clock : RaopRtp → ℕ → ℕ → ℤ → RaopRtp
sync_clock r ntp_time rtp_time offset =
    let latest = (r.sync_data_index + 1) % sync_data_count in
    record r {
      sync_data_index = latest;
      sync_data = set r.sync_data latest (record { ntp_time = ntp_time; rtp_time = rtp_time });
      rtp_sync_offset = offset;
    }

-- The request for `count` packets from number `seqnum` on.
unfoldable pub resend_packet : ℕ → ℕ → ℕ → List ℕ
resend_packet ourseqnum seqnum count =
    0x80
    ∷ 0xd5
    ∷ (ourseqnum / 256)
    ∷ (ourseqnum % 256)
    ∷ (seqnum / 256)
    ∷ (seqnum % 256)
    ∷ (count / 256)
    ∷ (count % 256)
    ∷ []

-- `raop_rtp_resend_callback`: the packet is what `sendto` gets.
unfoldable pub resend_callback : RaopRtp → ℕ → ℕ → RaopRtp × List ℕ
resend_callback r seqnum count = (
  record r { control_seqnum = u16 (r.control_seqnum + 1) },
  resend_packet r.control_seqnum seqnum count,
)

-- The two sockets with their ports; where one is not made, neither is kept.
unfoldable pub init_sockets : RaopRtp → Option (ℕ × ℕ) → Option (ℕ × ℕ) → Option RaopRtp
init_sockets r none data_socket = none
init_sockets r (some control_socket) none = none
init_sockets r (some (csock, cport)) (some (dsock, dport)) =
    some (record r {
      csock = some csock;
      dsock = some dsock;
      control_lport = cport;
      data_lport = dport;
    })

-- What `raop_rtp_start_audio` does with the sockets.
unfoldable pub run_service : RaopRtp → Option RaopRtp → RaopRtp
run_service r none = r
run_service r (some r') = record r' { running = true; joined = false }

-- `raop_rtp_start_audio`, with the sockets that `netutils_init_socket` makes for the ports asked
-- for. The new `*control_lport` and `*data_lport` are the fields.
unfoldable pub start_audio : RaopRtp → ℕ → ℕ → ℕ → ℕ → ℕ → Option (ℕ × ℕ) → Option (ℕ × ℕ) → RaopRtp
start_audio r control_rport control_lport data_lport ct sr control_socket data_socket =
    let r' = record r {
      ct = ct;
      rtp_clock_rate = second_in_nsecs / sr;
      control_lport = control_lport;
      data_lport = data_lport;
      control_rport = control_rport;
    } in
    if r.running || not r.joined
    then r
    else run_service r' (init_sockets r' control_socket data_socket)

-- The end of the thread.
unfoldable pub thread_end : RaopRtp → RaopRtp
thread_end r = record r { running = false }

-- `raop_rtp_stop`. The descriptors keep their numbers after they are closed.
unfoldable pub stop : RaopRtp → RaopRtp
stop r =
    let r' = thread_end (record r { running = false }) in
    if not r.running || r.joined
    then r
    else record r' { buffer = RaopBuffer.flush r'.buffer (negsuc 0); joined = true }

unfoldable pub is_running : RaopRtp → Bool
is_running r = r.running
