-- ===== src/Tests/AudioBuffer.antt =====
-- include/AirPlayServer/lib/raop_buffer.c on short sequences of packets.
use j_a_r_v_i_s.Prelude.{
  ℕ, ◌+◌, ◌≡◌, ◌≢◌, ◌<◌, ◌⊎◌, refl, true, false, Option, none, some, List, [], ◌∷◌, ◌++◌, map,
  arith, if◌then◌else◌, ◌==◌,
}
use j_a_r_v_i_s.Prelude.Int.{ℤ, u16}
use j_a_r_v_i_s.ByteUtils.{get_short_be, get_short, ntohs}
use j_a_r_v_i_s.RaopBuffer.{
  Entry, RaopBuffer, Packet, init, seqnum_cmp, copy_to, decrypt, clear_entry, flush,
  is_empty_packet, make_room, update_seqnums, store, packet_entry, packet_seqnum, is_late, enqueue,
  packet_of, take_first, dequeue, first_filled, handle_resends,
}
use j_a_r_v_i_s.RaopBuffer.Valid.{IsValid}
use j_a_r_v_i_s.RaopBuffer.View.{held}
use j_a_r_v_i_s.RaopBuffer.Enqueue.{offer, enqueue_refines}
use j_a_r_v_i_s.RaopBuffer.Dequeue.{pending, poll, dequeue_refines}
use j_a_r_v_i_s.RaopBuffer.Resends.{handle_resends_gap}
use j_a_r_v_i_s.RaopBuffer.Decrypt.{decrypt_lem}
use j_a_r_v_i_s.RaopBuffer.Runs.{
  Call, enqueued, dequeued, run, run-IsValid, drain, Ready, drain-Ready,
}

-- A cipher that changes nothing.
abbrev no_cipher : List ℕ → List ℕ
no_cipher c = c

-- A packet with number `n` and three bytes of payload.
abbrev packet : ℕ → List ℕ
packet n = 0x80 ∷ 0x60 ∷ 0 ∷ n ∷ 0 ∷ 0 ∷ 0 ∷ 0 ∷ 0 ∷ 0 ∷ 0 ∷ 0 ∷ n ∷ 2 ∷ 3 ∷ []

abbrev arrives : ℕ → Call
arrives n = enqueued (packet n) 15 0 0 true

-- Packets 5, 7 and 6 arrive in this order, and packet 5 once more.
abbrev calls : List Call
calls = arrives 5 ∷ arrives 7 ∷ arrives 6 ∷ arrives 5 ∷ []

abbrev reordered : RaopBuffer
reordered = run no_cipher init calls

-- Packet 6 is missing, and 5 has been played.
abbrev gap_calls : List Call
gap_calls = arrives 5 ∷ arrives 7 ∷ dequeued false ∷ []

abbrev with_gap : RaopBuffer
with_gap = run no_cipher init gap_calls

-- The code that the tests compute with.
code : List Call → RaopBuffer
unfolding handle_resends first_filled drain run init enqueue is_empty_packet packet_seqnum
    get_short_be get_short ntohs is_late seqnum_cmp make_room flush clear_entry store update_seqnums
    packet_entry decrypt copy_to dequeue take_first packet_of held
code cs = run no_cipher init cs

reordered_plays : map (λ (p : Packet). p.seqnum) (drain 9 reordered false).1 ≡ 5 ∷ 6 ∷ 7 ∷ []
unfolding code
reordered_plays = refl

gap_is_asked_for : handle_resends with_gap ≡ some (some (6, 1))
unfolding code
gap_is_asked_for = refl

run-IsValid_example : IsValid (run no_cipher init calls)
run-IsValid_example = run-IsValid no_cipher calls

enqueue_refines_example :
    let (code, b') = enqueue no_cipher with_gap (packet 6) 15 0 0 true in
    let e = packet_entry no_cipher (packet 6) 15 0 0 (packet_seqnum with_gap (packet 6) true) in
    ◌≡◌ {A = ℤ × (ℕ → Option Entry)}
      (code, held b')
      (offer with_gap.is_empty with_gap.first_seqnum (held with_gap) e)
enqueue_refines_example =
    enqueue_refines no_cipher (packet 6) 15 0 0 true (run-IsValid no_cipher gap_calls)
      (omega arith, omega arith, refl)

dequeue_refines_example :
    let (b', p) = dequeue reordered false in
    ◌≡◌ {A = ℕ × (ℕ → Option Entry) × Option Packet}
      (b'.first_seqnum, held b', p)
      (poll reordered.is_empty reordered.first_seqnum (pending reordered) (held reordered) false)
dequeue_refines_example = dequeue_refines false (run-IsValid no_cipher calls)

-- The entry that packet `n` makes.
abbrev made : ℕ → Entry
made n = record {
  filled = true;
  seqnum = n;
  rtp_timestamp = 0;
  ntp_timestamp = 0;
  payload_size = 3;
  payload_data = some (n ∷ 2 ∷ 3 ∷ []);
}

reordered-Ready : Ready (held reordered) reordered.first_seqnum (made 5 ∷ made 6 ∷ made 7 ∷ [])
unfolding code
reordered-Ready = (refl, (refl, (refl, refl)))

drain-Ready_example : (drain 9 reordered false).1 ≡ map packet_of (made 5 ∷ made 6 ∷ made 7 ∷ [])
drain-Ready_example =
    drain-Ready (made 5 ∷ made 6 ∷ made 7 ∷ []) 9 false (omega arith) (omega arith)
      (run-IsValid no_cipher calls) reordered-Ready

with_gap_used : with_gap.is_empty ≡ false
unfolding code
with_gap_used = refl

handle_resends_gap_example :
    (count : ℕ) × (handle_resends with_gap
      ≡ some (if count == 0 then none else some (with_gap.first_seqnum, count)))
    × ((j : ℕ) → j < count → held with_gap (u16 (with_gap.first_seqnum + j)) ≡ none)
    × ((count ≡ 0) × (pending with_gap ≡ 0)
        ⊎ (count < pending with_gap) × (held with_gap (u16 (with_gap.first_seqnum + count)) ≢ none))
handle_resends_gap_example = handle_resends_gap (run-IsValid no_cipher gap_calls) with_gap_used

decrypt_lem_example : decrypt no_cipher (packet 9) 3 ≡ no_cipher [] ++ (9 ∷ 2 ∷ 3 ∷ [])
decrypt_lem_example = decrypt_lem no_cipher (packet 9) 3 (λ c. refl) (omega arith)
