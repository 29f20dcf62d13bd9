-- ===== src/RaopBuffer/Runs.antt =====
-- Sequences of calls on one buffer, and the loop of include/AirPlayServer/lib/raop_rtp.c that plays
-- what is ready.
use j_a_r_v_i_s.Prelude.{
  ℕ, zero, suc, ◌+◌, ◌%◌, ◌<◌, ◌≡◌, ◌∙◌, ap, Bool, false, Option, none, some, List, [], ◌∷◌, map,
  ◌≢◌, ◌||◌, inl, inr, arith, ◌==◌, if◌then◌else◌, length, Bool-cases,
}
use j_a_r_v_i_s.Prelude.Int.{ℤ, u16}
use j_a_r_v_i_s.RaopBuffer.{
  Entry, RaopBuffer, Packet, init, packet_of, entry, flush, enqueue, dequeue,
}
use j_a_r_v_i_s.RaopBuffer.Window.{ahead}
use j_a_r_v_i_s.RaopBuffer.Valid.{IsValid, init-IsValid, flush-IsValid}
use j_a_r_v_i_s.RaopBuffer.View.{held, held-filled}
use j_a_r_v_i_s.RaopBuffer.Enqueue.{enqueue-IsValid}
use j_a_r_v_i_s.RaopBuffer.Dequeue.{pending, poll, dequeue_refines, dequeue-IsValid}

-- The calls that change a buffer, with their arguments.
pub data Call : Type 0 where
  enqueued : List ℕ → ℕ → ℕ → ℕ → Bool → Call
  dequeued : Bool → Call
  flushed : ℤ → Call

module _ (aes_cbc_decrypt : List ℕ → List ℕ) where
  unfoldable pub run : RaopBuffer → List Call → RaopBuffer
  run b [] = b
  run b (enqueued bytes datalen ntp rtp use_seqnum ∷ calls) =
      run (enqueue aes_cbc_decrypt b bytes datalen ntp rtp use_seqnum).1 calls
  run b (dequeued no_resend ∷ calls) = run (dequeue b no_resend).0 calls
  run b (flushed next_seq ∷ calls) = run (flush b next_seq) calls

  run-IsValid_from : (calls : List Call) (b : RaopBuffer) → IsValid b → IsValid (run b calls)
  unfolding run
  run-IsValid_from [] b v = v
  run-IsValid_from (enqueued bytes datalen ntp rtp use_seqnum ∷ calls) b v =
      run-IsValid_from calls (enqueue aes_cbc_decrypt b bytes datalen ntp rtp use_seqnum).1
        (enqueue-IsValid aes_cbc_decrypt bytes datalen ntp rtp use_seqnum v)
  run-IsValid_from (dequeued no_resend ∷ calls) b v =
      run-IsValid_from calls (dequeue b no_resend).0 (dequeue-IsValid no_resend v)
  run-IsValid_from (flushed next_seq ∷ calls) b v =
      run-IsValid_from calls (flush b next_seq) (flush-IsValid next_seq v)

  -- Every buffer that calls of `raop_buffer_enqueue`, `raop_buffer_dequeue` and
  -- `raop_buffer_flush` make of a new one satisfies the invariant, whatever the packets are.
  pub run-IsValid : (calls : List Call) → IsValid (run init calls)
  run-IsValid calls = run-IsValid_from calls init init-IsValid

-- `while ((payload = raop_buffer_dequeue(…)))`: the packets that are handed on, in order, until the
-- payload is `NULL` or the fuel is used up.
unfoldable pub drain : ℕ → RaopBuffer → Bool → RaopBuffer × List Packet
drain zero b no_resend = (b, [])
drain (suc fuel) b no_resend =
    let (b', packet) = dequeue b no_resend in
    elim packet [
      | none ↦ (b', [])
      | some p ↦ elim p.payload [
        | none ↦ (b', [])
        | some _ ↦ let (b'', ps) = drain fuel b' no_resend in (b'', p ∷ ps)
      ]
    ]

-- The map holds the packets `es` from number `first` on, in this order, and none after them.
abbrev pub Ready : (ℕ → Option Entry) → ℕ → List Entry → Type 0
Ready m first [] = m first ≡ none
Ready m first (e ∷ es) = (m first ≡ some e) × Ready m (u16 (first + 1)) es

abbrev remove : ℕ → (ℕ → Option Entry) → ℕ → Option Entry
remove first m t = if first == t then none else m t

Ready-remove :
    (es : List Entry) (m : ℕ → Option Entry) (first start : ℕ)
    → first < 65536
    → start < 65536
    → 0 < ahead first start
    → ahead first start + length es < 65536
    → Ready m start es
    → Ready (remove first m) start es
Ready-remove [] m first start hf hs lo hi r = ground arith
Ready-remove (e ∷ es) m first start hf hs lo hi (here, r) = (
  ground arith,
  Ready-remove es m first (u16 (start + 1)) hf (omega arith) (omega arith) (omega arith) r,
)

-- What the invariant says of the packet that is held for `first_seqnum`.
held_first :
    {b : RaopBuffer} {e : Entry}
    → IsValid b
    → held b b.first_seqnum ≡ some e
    → ((b.is_empty || pending b == 0) ≡ false) × (e.payload_data ≢ none)
held_first {b} {e} v h =
    let i = b.first_seqnum % 32 in
    let ev = v.entries_valid i (omega arith) in
    let at_first = held-filled b.first_seqnum v v.first_small (λ _. omega (arith, v.first_small)) in
    elim (Bool-cases (entry b i).filled) [
      | inl f ↦ elim (Bool-cases b.is_empty) [
        | inl empty ↦ absurd (cc (v.empty_unfilled empty i (omega arith)))
        | inr used ↦ let w = ev.within f in let own = ev.owned f in (ground arith, ground arith)
      ]
      | inr f ↦ absurd (ground arith)
    ]

-- A call on a buffer that holds its first number hands the packet out and moves on.
dequeue-some :
    {b : RaopBuffer} {e : Entry} (no_resend : Bool)
    → IsValid b
    → held b b.first_seqnum ≡ some e
    → let (b', packet) = dequeue b no_resend in
      (b'.first_seqnum ≡ u16 (b.first_seqnum + 1))
      × (held b' ≡ remove b.first_seqnum (held b))
      × (packet ≡ some (packet_of e))
dequeue-some {b} {e} no_resend v h = (ap (λ t. t.0) step, ap (λ t. t.1) step, ap (λ t. t.2) step)
  where
    step :
        ◌≡◌ {A = ℕ × (ℕ → Option Entry) × Option Packet}
          (
            (dequeue b no_resend).0.first_seqnum,
            held (dequeue b no_resend).0,
            (dequeue b no_resend).1,
          )
          (u16 (b.first_seqnum + 1), remove b.first_seqnum (held b), some (packet_of e))
    step = dequeue_refines no_resend v ∙ rw ((held_first v h).0, h)

-- One on a buffer that does not hold it hands nothing out.
dequeue-none :
    {b : RaopBuffer} (no_resend : Bool)
    → IsValid b
    → held b b.first_seqnum ≡ none
    → (dequeue b no_resend).1 ≡ none
dequeue-none {b} no_resend v h = ap (λ t. t.2) (dequeue_refines no_resend v) ∙ at_none
  where
    at_none : (poll b.is_empty b.first_seqnum (pending b) (held b) no_resend).2 ≡ none
    at_none = rw h (ground arith)

-- The loop hands on exactly the packets that are ready, in the order of their numbers.
pub drain-Ready :
    (es : List Entry) (fuel : ℕ) {b : RaopBuffer} (no_resend : Bool)
    → length es < fuel
    → length es < 65536
    → IsValid b
    → Ready (held b) b.first_seqnum es
    → (drain fuel b no_resend).1 ≡ map packet_of es
unfolding drain packet_of
drain-Ready es zero no_resend h hl v r = absurd (omega arith)
drain-Ready [] (suc fuel) no_resend h hl v r = rw (dequeue-none no_resend v r, drain)
drain-Ready (e ∷ es) (suc fuel) {b} no_resend h hl v (here, r) =
    let (first, holds, packet) = dequeue-some no_resend v here in
    let payload = (held_first v here).1 in
    let ready : Ready (held (dequeue b no_resend).0) (dequeue b no_resend).0.first_seqnum es =
      rw (first, holds)
        (Ready-remove es (held b) b.first_seqnum (u16 (b.first_seqnum + 1)) v.first_small
          (omega arith) (omega (arith, v.first_small)) (omega (arith, v.first_small)) r) in
    let rest =
      drain-Ready es fuel no_resend (omega arith) (omega arith) (dequeue-IsValid no_resend v)
        ready in
    ground arith
