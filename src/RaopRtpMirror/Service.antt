-- ===== src/RaopRtpMirror/Service.antt =====
-- The start and the stop of the service of raop_rtp_mirror.c, and the end of its thread.
use j_a_r_v_i_s.Prelude.{
  ℕ, Bool, true, false, not, ◌&&◌, ◌||◌, Option, none, some, if◌then◌else◌, ◌==◌,
}

-- `raop_rtp_mirror_t`, less the parts that the thread uses; a descriptor -1 is `none`.
pub record RaopRtpMirror : Type 0 where
  pub running : Bool
  pub joined : Bool
  pub mirror_data_sock : Option ℕ
  pub mirror_data_lport : ℕ
  pub show_client_fps_data : Bool

-- `raop_rtp_mirror_init`, where `calloc` leaves 0 in the descriptor. The result of
-- `netutils_parse_address` says whether the address of the client is one; -1 is `none`.
unfoldable pub init : ℕ → Option ℕ → Option RaopRtpMirror
init remotelen parsed =
    if remotelen == 4 || remotelen == 16
    then elim parsed [
      | none ↦ none
      | some saddr_len ↦ some (record {
        running = false;
        joined = true;
        mirror_data_sock = some 0;
        mirror_data_lport = 0;
        show_client_fps_data = false;
      })
    ]
    else none

-- `raop_rtp_mirror_init_socket`, for the descriptor and the port of `netutils_init_socket`, and the
-- success of `listen`.
unfoldable pub init_socket : RaopRtpMirror → Option (ℕ × ℕ) → Bool → Option RaopRtpMirror
init_socket r none listens = none
init_socket r (some (dsock, dport)) listens =
    if listens
    then some (record r { mirror_data_sock = some dsock; mirror_data_lport = dport })
    else none

unfoldable pub run_thread : RaopRtpMirror → Option RaopRtpMirror → RaopRtpMirror
run_thread r none = r
run_thread r (some r') = record r' { running = true; joined = false }

-- `raop_rtp_mirror_start`: the new `*mirror_data_lport` is the field.
unfoldable pub start : RaopRtpMirror → ℕ → Bool → Option (ℕ × ℕ) → Bool → RaopRtpMirror
start r mirror_data_lport show_client_fps_data socket listens =
    let r' = record r { show_client_fps_data = show_client_fps_data } in
    let r'' = record r' { mirror_data_lport = mirror_data_lport } in
    if r.running || not r.joined then r' else run_thread r'' (init_socket r'' socket listens)

-- The end of the thread: whether it reports that the client has reset the connection.
unfoldable pub thread_end : RaopRtpMirror → Bool → Bool → RaopRtpMirror × Bool
thread_end r conn_reset installed = (record r { running = false }, conn_reset && installed)

-- `raop_rtp_mirror_stop`, which waits for the end of the thread.
unfoldable pub stop : RaopRtpMirror → RaopRtpMirror
stop r =
    let (r', _) = thread_end (record r { running = false; mirror_data_sock = none }) false false in
    if not r.running || r.joined then r else record r' { joined = true }
