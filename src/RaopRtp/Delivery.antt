-- ===== src/RaopRtp/Delivery.antt =====
-- What the audio thread of raop_rtp.c delivers of the requests: what the last one of each kind
-- leaves, once.
use mathlib.Core.Path.{fun_ext, subst}
use j_a_r_v_i_s.Prelude.{
  ◌≡◌, ◌∙◌, ap, sym, refl, Bool, true, false, not, Option, none, some, List, [], ◌∷◌, if◌then◌else◌,
  Option-cases, inl, inr,
}
use j_a_r_v_i_s.Prelude.Int.{eqb_ℤ}
use j_a_r_v_i_s.RaopRtp.{RaopRtp, Pending, no_flush}
use j_a_r_v_i_s.RaopRtp.Events.{
  Request, set_volume, set_metadata, set_coverart, remote_control_id, set_progress, set_flush,
  clamp_volume, request, Event, audio_set_volume, audio_flush, audio_set_metadata,
  audio_set_coverart, audio_remote_control_id, audio_set_progress, Kind, volume, flush, metadata,
  coverart, remote_control, progress, slot, emit_all, taken, process_events,
}

unfoldable pub request_all : Pending → List Request → Pending
request_all p [] = p
request_all p (q ∷ qs) = request_all (request p q) qs

-- What a request leaves for a kind: nothing new, or the event, or the end of what was there.
unfoldable pub effect : Kind → Request → Option (Option Event)
effect volume (set_volume v) = some (some (audio_set_volume (clamp_volume v)))
effect flush (set_flush next_seq) =
    some (if eqb_ℤ next_seq no_flush then none else some audio_flush)
effect metadata (set_metadata (b ∷ bytes)) = some (some (audio_set_metadata (b ∷ bytes)))
effect coverart (set_coverart (b ∷ bytes)) = some (some (audio_set_coverart (b ∷ bytes)))
effect remote_control (remote_control_id (some dacp_id) (some header)) =
    some (some (audio_remote_control_id dacp_id header))
effect progress (set_progress start curr end) = some (some (audio_set_progress start curr end))
effect k q = none

abbrev or_else : Option (Option Event) → Option Event → Option Event
or_else none e = e
or_else (some e') e = e'

-- The last effect of the requests on a kind.
unfoldable pub last_effect : Kind → List Request → Option (Option Event)
last_effect k [] = none
last_effect k (q ∷ qs) = elim (last_effect k qs) [ none ↦ effect k q | some e ↦ some e ]

slot-request :
    (k : Kind) (q : Request) (p : Pending) → slot k (request p q) ≡ or_else (effect k q) (slot k p)
unfolding slot request effect
slot-request volume (set_volume v) p = refl
slot-request k (set_volume v) p = refl
slot-request volume (set_metadata []) p = refl
slot-request k (set_metadata []) p = refl
slot-request volume (set_metadata (b ∷ bytes)) p = refl
slot-request k (set_metadata (b ∷ bytes)) p = refl
slot-request volume (set_coverart []) p = refl
slot-request k (set_coverart []) p = refl
slot-request volume (set_coverart (b ∷ bytes)) p = refl
slot-request k (set_coverart (b ∷ bytes)) p = refl
slot-request volume (remote_control_id none header) p = refl
slot-request k (remote_control_id none header) p = refl
slot-request volume (remote_control_id (some dacp_id) none) p = refl
slot-request k (remote_control_id (some dacp_id) none) p = refl
slot-request volume (remote_control_id (some dacp_id) (some header)) p = refl
slot-request k (remote_control_id (some dacp_id) (some header)) p = refl
slot-request volume (set_progress start curr end) p = refl
slot-request k (set_progress start curr end) p = refl
slot-request volume (set_flush next_seq) p = refl
slot-request k (set_flush next_seq) p = refl

slot-request_all :
    (k : Kind) (qs : List Request) (p : Pending)
    → slot k (request_all p qs) ≡ or_else (last_effect k qs) (slot k p)
unfolding request_all last_effect
slot-request_all k [] p = refl
slot-request_all k (q ∷ qs) p =
    slot-request_all k qs (request p q) ∙ elim (Option-cases (last_effect k qs)) [
      | inl e ↦ rw e (slot-request k q p)
      | inr (x, e) ↦ rw e
    ]

slot-taken : (k : Kind) (p : Pending) → slot k (taken p) ≡ none
unfolding slot taken
slot-taken volume p = refl
slot-taken k p = refl

-- What is to be delivered of the requests.
abbrev pub newest : List Request → Kind → Option Event
newest qs k = or_else (last_effect k qs) none

-- The requests of handlers, with no call of the thread between them.
abbrev pub requested : RaopRtp → List Request → RaopRtp
requested r qs = record r { pending = request_all r.pending qs }

if_not : (b : Bool) (x y : Bool × RaopRtp × List Event) → b ≡ true → (if not b then x else y) ≡ y
if_not true x y e = refl
if_not false x y e = cc

process_events_lem :
    (installed : Kind → Bool) (r : RaopRtp)
    → r.running ≡ true
    → process_events installed r
      ≡ (false, record r { pending = taken r.pending }, emit_all installed (λ k. slot k r.pending))
unfolding process_events
process_events_lem installed r up = if_not r.running _ _ up

-- While the thread runs: of the requests that come between two calls of raop_rtp_process_events,
-- the second call delivers for each kind whose callback is installed what the last request of the
-- kind says, in a fixed order of the kinds, and keeps none of them. Metadata and cover art without
-- bytes, and identifiers of which one is missing, do not count as requests, and a flush to -42 says
-- that there is nothing to flush, also where a flush was pending.
pub process_events-request :
    (installed : Kind → Bool) (r : RaopRtp) (qs : List Request)
    → r.running ≡ true
    → let r' = requested (process_events installed r).1 qs in
      process_events installed r'
      ≡ (false, record r' { pending = taken r'.pending }, emit_all installed (newest qs))
process_events-request installed r qs up =
    let first = process_events_lem installed r up in
    let r1 = record r { pending = taken r.pending } in
    let slots : (λ k. slot k (request_all (taken r.pending) qs)) ≡ newest qs = fun_ext (λ k.
      slot-request_all k qs (taken r.pending)
      ∙ ap (or_else (last_effect k qs)) (slot-taken k r.pending)) in
    subst
      (λ x. process_events installed (requested x qs) ≡ (
        false,
        record (requested x qs) { pending = taken (requested x qs).pending },
        emit_all installed (newest qs),
      ))
      (ap (λ x. x.1) (sym first))
      (process_events_lem installed (requested r1 qs) up
        ∙ ap
            (λ s. (
              false,
              record (requested r1 qs) { pending = taken (requested r1 qs).pending },
              emit_all installed s,
            ))
            slots)
