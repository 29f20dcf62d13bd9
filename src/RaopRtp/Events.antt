-- ===== src/RaopRtp/Events.antt =====
-- The requests that the handlers leave for the audio thread of raop_rtp.c, and how it takes them.
use j_a_r_v_i_s.Prelude.{
  ℕ, ◌*◌, ◌-◌, ◌^◌, Bool, true, false, not, Option, none, some, List, [], ◌∷◌, ◌++◌, if◌then◌else◌,
}
use j_a_r_v_i_s.Prelude.Int.{ℤ, pos, negsuc, ltb_ℤ, eqb_ℤ}
use j_a_r_v_i_s.RaopRtp.{RaopRtp, Pending, no_flush}

-- The calls of the handlers. An absent text is `NULL`.
pub data Request : Type 0 where
  set_volume : ℤ → Request
  set_metadata set_coverart : List ℕ → Request
  remote_control_id : Option (List ℕ) → Option (List ℕ) → Request
  set_progress : ℕ → ℕ → ℕ → Request
  set_flush : ℤ → Request

-- -144.0f in units of 2 ^ -149.
abbrev pub lowest_volume : ℤ
lowest_volume = negsuc (144 * 2 ^ 149 - 1)

unfoldable pub clamp_volume : ℤ → ℤ
clamp_volume volume =
    if ltb_ℤ (pos 0) volume
    then pos 0
    else if ltb_ℤ volume lowest_volume
    then lowest_volume
    else volume

-- `raop_rtp_set_volume` to `raop_rtp_flush`. No data, or an absent text, changes nothing.
unfoldable pub request : Pending → Request → Pending
request p (set_volume volume) = record p { volume = clamp_volume volume; volume_changed = true }
request p (set_metadata []) = p
request p (set_metadata (b ∷ bytes)) = record p { metadata = some (b ∷ bytes) }
request p (set_coverart []) = p
request p (set_coverart (b ∷ bytes)) = record p { coverart = some (b ∷ bytes) }
request p (remote_control_id none active_remote_header) = p
request p (remote_control_id (some dacp_id) none) = p
request p (remote_control_id (some dacp_id) (some active_remote_header)) = record p {
  dacp_id = some dacp_id;
  active_remote_header = some active_remote_header;
}
request p (set_progress start curr end) = record p {
  progress_start = start;
  progress_curr = curr;
  progress_end = end;
  progress_changed = true;
}
request p (set_flush next_seq) = record p { flush = next_seq }

-- The callbacks of the application.
pub data Event : Type 0 where
  audio_set_volume : ℤ → Event
  audio_flush : Event
  audio_set_metadata audio_set_coverart : List ℕ → Event
  audio_remote_control_id : List ℕ → List ℕ → Event
  audio_set_progress : ℕ → ℕ → ℕ → Event

pub data Kind : Type 0 where
  volume flush metadata coverart remote_control progress : Kind

abbrev pub remote_control_event : Option (List ℕ) → Option (List ℕ) → Option Event
remote_control_event none header = none
remote_control_event (some dacp_id) none = none
remote_control_event (some dacp_id) (some header) = some (audio_remote_control_id dacp_id header)

-- What is pending of each kind.
unfoldable pub slot : Kind → Pending → Option Event
slot volume p = if p.volume_changed then some (audio_set_volume p.volume) else none
slot flush p = if eqb_ℤ p.flush no_flush then none else some audio_flush
slot metadata p = elim p.metadata [ none ↦ none | some bytes ↦ some (audio_set_metadata bytes) ]
slot coverart p = elim p.coverart [ none ↦ none | some bytes ↦ some (audio_set_coverart bytes) ]
slot remote_control p = remote_control_event p.dacp_id p.active_remote_header
slot progress p =
    if p.progress_changed
    then some (audio_set_progress p.progress_start p.progress_curr p.progress_end)
    else none

-- The callbacks that are not `NULL` are called.
abbrev pub emit : Bool → Option Event → List Event
emit installed none = []
emit installed (some e) = if installed then e ∷ [] else []

abbrev pub emit_all : (Kind → Bool) → (Kind → Option Event) → List Event
emit_all installed s =
    emit (installed volume) (s volume)
    ++ (emit (installed flush) (s flush)
        ++ (emit (installed metadata) (s metadata)
            ++ (emit (installed coverart) (s coverart)
                ++ (emit (installed remote_control) (s remote_control)
                    ++ emit (installed progress) (s progress)))))

-- What is left of the pending variables.
unfoldable pub taken : Pending → Pending
taken p = record p {
  volume_changed = false;
  flush = no_flush;
  metadata = none;
  coverart = none;
  dacp_id = none;
  active_remote_header = none;
  progress_changed = false;
}

-- `raop_rtp_process_events`: the result is `true` for 1, which ends the thread.
unfoldable pub process_events : (Kind → Bool) → RaopRtp → Bool × RaopRtp × List Event
process_events installed r =
    if not r.running
    then (true, r, [])
    else (false, record r { pending = taken r.pending }, emit_all installed (λ k. slot k r.pending))
