-- ===== src/Raop/Media.antt =====
-- include/AirPlayServer/lib/raop_handlers.h: the handlers that use the services of audio and video.
-- `none` is an access through a NULL pointer. Property lists are taken as read, and `sscanf` and
-- `strtol` are parameters. The ports in an answer are the fields of the services.
use j_a_r_v_i_s.Prelude.{
  ℕ, zero, suc, ◌*◌, ◌/◌, ◌%◌, ◌^◌, Bool, true, false, not, ◌&&◌, ◌||◌, Option, none, some, List,
  [], ◌∷◌, ◌++◌, ◌==◌, if◌then◌else◌, length, drop, codes, decimal, ◌>>=◌,
}
use j_a_r_v_i_s.Prelude.Int.{ℤ, negsuc}
use j_a_r_v_i_s.HttpRequest.{same_text}
use j_a_r_v_i_s.HttpResponse.{HttpResponse, add_header}
use j_a_r_v_i_s.Utils.{has_prefix}
use j_a_r_v_i_s.RaopRtp
use j_a_r_v_i_s.RaopRtp.{RaopRtp, start_audio}
use j_a_r_v_i_s.RaopRtp.Events
use j_a_r_v_i_s.RaopRtp.Events.{
  Request, set_volume, set_progress, set_coverart, set_metadata, set_flush,
}
use j_a_r_v_i_s.RaopRtpMirror.Service
use j_a_r_v_i_s.RaopRtpMirror.Service.{RaopRtpMirror}

-- The services of a connection.
pub record Media : Type 0 where
  pub raop_rtp : Option RaopRtp
  pub raop_rtp_mirror : Option RaopRtpMirror

-- A call of raop_rtp.c that leaves a request for the audio thread, if there is one.
unfoldable pub leave_request : Option RaopRtp → Request → Option RaopRtp
leave_request none q = none
leave_request (some r) q = some (record r { pending = Events.request r.pending q })

-- The stream of a SETUP request, with what the call of `netutils_init_socket` (and `listen`) gives.
pub data Stream : Type 0 where
  mirroring : Option (ℕ × ℕ) → Bool → Stream
  -- `controlPort`, and `ct` as the callback `audio_get_format` leaves it.
  audio : ℕ → ℕ → Option (ℕ × ℕ) → Option (ℕ × ℕ) → Stream
  other_type : Stream

-- The ports that raop.c asks for, and `clientFPSdata`.
pub record Ports : Type 0 where
  pub control_lport : ℕ
  pub data_lport : ℕ
  pub mirror_data_lport : ℕ
  pub client_fps_data : Bool

-- `AUDIO_SAMPLE_RATE`
abbrev pub audio_sample_rate : ℕ
audio_sample_rate = 44100

unfoldable pub start_mirror :
    Ports → Option RaopRtpMirror → Option (ℕ × ℕ) → Bool → Option RaopRtpMirror × Bool
start_mirror ports none socket listens = (none, true)
start_mirror ports (some r) socket listens =
    (some (Service.start r ports.mirror_data_lport ports.client_fps_data socket listens), false)

unfoldable pub start_sound :
    Ports → Option RaopRtp → ℕ → ℕ → Option (ℕ × ℕ) → Option (ℕ × ℕ) → Option RaopRtp × Bool
start_sound ports none control_port ct control_socket data_socket = (none, true)
start_sound ports (some r) control_port ct control_socket data_socket = (
  some (
      start_audio r (control_port % 65536) ports.control_lport ports.data_lport (ct % 256)
        audio_sample_rate control_socket data_socket),
  false,
)

-- One stream: the result is true where the response is to disconnect.
unfoldable pub setup_stream : Ports → Media → Stream → Media × Bool
setup_stream ports m (mirroring socket listens) =
    let (r, disconnect) = start_mirror ports m.raop_rtp_mirror socket listens in
    (record m { raop_rtp_mirror = r }, disconnect)
setup_stream ports m (audio control_port ct control_socket data_socket) =
    let (r, disconnect) = start_sound ports m.raop_rtp control_port ct control_socket data_socket in
    (record m { raop_rtp = r }, disconnect)
setup_stream ports m other_type = (m, true)

-- The loop over the streams.
unfoldable pub setup_streams : Ports → Media → List Stream → Media × Bool
setup_streams ports m [] = (m, false)
setup_streams ports m (s ∷ ss) =
    let (m', disconnect) = setup_stream ports m s in
    let (m'', later) = setup_streams ports m' ss in (m'', disconnect || later)

-- Where the next line starts: `none` where no `\r` is followed by a line feed.
unfoldable pub next_line : List ℕ → Option (List ℕ)
next_line [] = none
next_line (c ∷ cs) =
    let later = next_line cs in
    if c == 13 then (if has_prefix (10 ∷ []) cs then some (drop 1 cs) else none) else later

abbrev pub volume_line : List ℕ
volume_line = codes "volume" ++ (13 ∷ 10 ∷ [])

-- The loop of `raop_handler_get_parameter`: whether there is a line that asks for the volume.
unfoldable pub asks_volume : ℕ → List ℕ → Bool
asks_volume zero bytes = false
asks_volume (suc fuel) bytes =
    let later : Bool = elim (next_line bytes) [
      | none ↦ false
      | some rest ↦ asks_volume fuel rest
    ] in
    has_prefix volume_line bytes || later

-- `raop_handler_get_parameter`, for the field Content-Type: the body of the answer.
unfoldable pub get_parameter : Option (List ℕ) → List ℕ → Option (List ℕ)
get_parameter none bytes = none
get_parameter (some content_type) bytes =
    if same_text content_type (codes "text/parameters") && asks_volume (suc (length bytes)) bytes
    then some (codes "volume: 0.0" ++ (13 ∷ 10 ∷ []))
    else some []

-- `raop_handler_record`: the text of Audio-Latency.
unfoldable pub audio_latency : ℕ → List ℕ
audio_latency audio_delay_micros =
    decimal (audio_delay_micros * audio_sample_rate % 2 ^ 64 / 1000000 % 2 ^ 32)

unfoldable pub record_stream : HttpResponse → ℕ → Option HttpResponse
record_stream response audio_delay_micros = do
  latency ← add_header response (codes "Audio-Latency") (audio_latency audio_delay_micros)
  add_header latency (codes "Audio-Jack-Status") (codes "connected; type=analog")

-- `raop_handler_options`
unfoldable pub options : HttpResponse → Option HttpResponse
options response =
    add_header response (codes "Public")
      (codes "SETUP, RECORD, PAUSE, FLUSH, TEARDOWN, OPTIONS, GET_PARAMETER, SET_PARAMETER")

-- The volume in units of 2 ^ -149, the three numbers of the progress, and a decimal number, which
-- libc reads from a text.
module _ (scan_volume : List ℕ → ℤ) (scan_progress : List ℕ → ℕ × ℕ × ℕ) (strtol : List ℕ → ℤ) where
  unfoldable pub text_request : List ℕ → Option Request
  text_request bytes =
      let (start, curr, end) = scan_progress (drop 10 bytes) in
      if has_prefix (codes "volume: ") bytes
      then some (set_volume (scan_volume (drop 8 bytes)))
      else if has_prefix (codes "progress: ") bytes
      then some (set_progress start curr end)
      else none

  unfoldable pub parameter_request : List ℕ → List ℕ → Option Request
  parameter_request content_type bytes =
      if same_text content_type (codes "text/parameters")
      then text_request bytes
      else if same_text content_type (codes "image/jpeg")
          || same_text content_type (codes "image/png")
      then some (set_coverart bytes)
      else if same_text content_type (codes "application/x-dmap-tagged")
      then some (set_metadata bytes)
      else none

  unfoldable pub leave : Media → Option Request → Media
  leave m none = m
  leave m (some q) = record m { raop_rtp = leave_request m.raop_rtp q }

  -- `raop_handler_set_parameter`
  unfoldable pub set_parameter : Media → Option (List ℕ) → List ℕ → Option Media
  set_parameter m none bytes = none
  set_parameter m (some content_type) bytes = some (leave m (parameter_request content_type bytes))

  -- `raop_handler_flush`, for the field RTP-Info.
  unfoldable pub next_seq : Option (List ℕ) → ℤ
  next_seq none = negsuc 0
  next_seq (some rtpinfo) =
      if has_prefix (codes "seq=") rtpinfo then strtol (drop 4 rtpinfo) else negsuc 0

  unfoldable pub flush : Media → Option (List ℕ) → Media
  flush m rtpinfo = leave m (some (set_flush (next_seq rtpinfo)))

-- The loop over the streams of a TEARDOWN request, which looks at the first stream every time.
unfoldable pub teardown_flags : ℕ → List ℕ → Bool × Bool → Bool × Bool
teardown_flags zero types flags = flags
teardown_flags (suc count) [] flags = flags
teardown_flags (suc count) (type ∷ types) (teardown_96, teardown_110) =
    teardown_flags count (type ∷ types)
      (teardown_96 || type == 96, teardown_110 || (not (type == 96) && type == 110))

abbrev pub map_service {ℓ} : {A : Type ℓ} → (A → A) → Option A → Option A
map_service f none = none
map_service f (some a) = some (f a)

-- `raop_handler_teardown`, for the types of the streams, and the callback `conn_teardown`.
unfoldable pub teardown : (Bool × Bool → Bool × Bool) → Media → List ℕ → Media
teardown conn_teardown m types =
    let (teardown_96, teardown_110) =
      conn_teardown (teardown_flags (length types) types (false, false)) in
    if teardown_96
    then record m { raop_rtp = map_service RaopRtp.stop m.raop_rtp }
    else if teardown_110
    then record m { raop_rtp_mirror = map_service Service.stop m.raop_rtp_mirror }
    else record { raop_rtp = none; raop_rtp_mirror = none }
