-- ===== src/RaopBuffer/Dequeue.antt =====
-- `raop_buffer_dequeue`: the packets leave in the order of their sequence numbers.
use native.Mathlib.Decide.{ℕ_discrete}
use mathlib.Core.Path.{fun_ext}
use j_a_r_v_i_s.Prelude.{
  ℕ, ◌+◌, ◌%◌, ◌<◌, ◌≡◌, ◌≢◌, ◌∙◌, ap, sym, refl, Bool, true, false, not, ◌&&◌, ◌||◌, Option, none,
  some, arith, ltb, ◌==◌, if◌then◌else◌, Bool-cases, inl, inr, get_or, set, length-set,
  get_or-set_self, get_or-set_ne,
}
use j_a_r_v_i_s.Prelude.Int.{u16}
use j_a_r_v_i_s.RaopBuffer.{Entry, RaopBuffer, Packet, blank, entry, packet_of, take_first, dequeue}
use j_a_r_v_i_s.RaopBuffer.Window.{ahead, leb-entry_count, ltb-entry_count}
use j_a_r_v_i_s.RaopBuffer.Valid.{EntryIsValid, IsValid, unfilled-EntryIsValid}
use j_a_r_v_i_s.RaopBuffer.Store.{entry-set, filled-same}
use j_a_r_v_i_s.RaopBuffer.View.{held, held-filled}

-- How many numbers the window spans, from `first_seqnum` to `last_seqnum`.
abbrev pub pending : RaopBuffer → ℕ
pending b = ahead b.first_seqnum (u16 (b.last_seqnum + 1))

-- What `raop_buffer_dequeue` does, by positions.
pub dequeue_lem :
    {b : RaopBuffer} (no_resend : Bool)
    → IsValid b
    → dequeue b no_resend ≡ (
        if b.is_empty || pending b == 0
        then (b, none)
        else if not no_resend && not (entry b (b.first_seqnum % 32)).filled && ltb (pending b) 32
        then (b, none)
        else take_first b)
unfolding dequeue
dequeue_lem {b} no_resend v =
    rw
      (
        leb-entry_count b.last_seqnum b.first_seqnum v.last_small v.first_small,
        ltb-entry_count b.last_seqnum b.first_seqnum v.last_small v.first_small,
      )
      (elim (Bool-cases b.is_empty) [
        | inl empty ↦ rw empty
        | inr used ↦ let s = v.span used in ground arith
      ])

-- The entry that a packet leaves behind.
abbrev taken : Entry → Entry
taken e = record e { filled = false; payload_size = 0; payload_data = none }

-- An entry stays valid when `first_seqnum` moves on, unless it was the first.
EntryIsValid-advance :
    {first last i : ℕ} {e : Entry}
    → first < 65536
    → last < 65536
    → (e.filled ≡ true → e.seqnum ≢ first)
    → EntryIsValid first last i e
    → EntryIsValid (u16 (first + 1)) last i e
EntryIsValid-advance hf hl ne v = record {
  index = v.index;
  small = v.small;
  within = λ f. omega (arith, ne f, v.small f, v.within f);
  owned = v.owned;
  released = v.released;
}

take_first-IsValid :
    {b : RaopBuffer} → IsValid b → b.is_empty ≡ false → 0 < pending b → IsValid (take_first b).0
unfolding take_first
take_first-IsValid {b} v used more = elim (Bool-cases (entry b (b.first_seqnum % 32)).filled) [
  | inl f ↦ rw f (record {
    size = length-set b.entries (b.first_seqnum % 32) _ ∙ v.size;
    first_small = omega arith;
    last_small = v.last_small;
    span = λ _. omega (arith, v.span used, v.first_small, v.last_small);
    entries_valid = λ i hi. elim (ℕ_discrete (b.first_seqnum % 32) i) [
      | yes q ↦ rw (← q) (
          rw (get_or-set_self b.entries (b.first_seqnum % 32) _ blank (omega (arith, v.size))) (
            unfilled-EntryIsValid _ b.last_seqnum (b.first_seqnum % 32)
              (taken (entry b (b.first_seqnum % 32))) refl refl))
      | no q ↦ rw (get_or-set_ne b.entries (b.first_seqnum % 32) i _ blank q) (
          EntryIsValid-advance v.first_small v.last_small
            (λ g e. q (ap (λ k. k % 32) (sym e) ∙ (v.entries_valid i hi).index g))
            (v.entries_valid i hi))
    ];
    last_filled = λ _ ne. last_still ne;
    empty_unfilled = λ c. cc;
  })
  | inr f ↦ rw f (record {
    size = v.size;
    first_small = omega arith;
    last_small = v.last_small;
    span = λ _. omega (arith, v.span used, v.first_small, v.last_small);
    entries_valid = λ i hi.
        EntryIsValid-advance v.first_small v.last_small
          (λ g e. cc (f, g, (v.entries_valid i hi).index g, e)) (v.entries_valid i hi);
    last_filled = λ _ ne. v.last_filled used (omega (arith, v.first_small, v.last_small));
    empty_unfilled = λ c. cc;
  })
]
  where
    last_still :
        u16 (b.last_seqnum + 1) ≢ u16 (b.first_seqnum + 1)
        → (get_or
            (set b.entries (b.first_seqnum % 32) (taken (entry b (b.first_seqnum % 32))))
            (b.last_seqnum % 32)
            blank).filled
          ≡ true
    last_still ne =
        rw
          (get_or-set_ne b.entries (b.first_seqnum % 32) (b.last_seqnum % 32) _ blank
            (omega (arith, v.span used)))
          (v.last_filled used (omega arith))

-- Whatever `no_resend` is, the invariant is kept.
pub dequeue-IsValid :
    {b : RaopBuffer} (no_resend : Bool) → IsValid b → IsValid (dequeue b no_resend).0
dequeue-IsValid {b} no_resend v =
    rw (dequeue_lem no_resend v) (elim (Bool-cases (b.is_empty || pending b == 0)) [
      | inl nothing ↦ rw nothing v
      | inr some_left ↦
          rw some_left
            (elim (Bool-cases
              (not no_resend && not (entry b (b.first_seqnum % 32)).filled && ltb (pending b) 32)) [
                | inl wait ↦ rw wait v
                | inr go ↦ rw go (take_first-IsValid v (ground arith) (ground arith))
              ])
    ])

-- The specification of `raop_buffer_dequeue` over the map: the state is `first_seqnum` and the map.
abbrev pub poll_first :
    Option Entry → ℕ → ℕ → (ℕ → Option Entry) → Bool → ℕ × (ℕ → Option Entry) × Option Packet
poll_first (some e) first count m no_resend =
    (u16 (first + 1), λ t. if first == t then none else m t, some (packet_of e))
poll_first none first count m no_resend =
    if not no_resend && ltb count 32 then (first, m, none) else (u16 (first + 1), m, none)

abbrev pub poll : Bool → ℕ → ℕ → (ℕ → Option Entry) → Bool → ℕ × (ℕ → Option Entry) × Option Packet
poll empty first count m no_resend =
    if empty || count == 0 then (first, m, none) else poll_first (m first) first count m no_resend

-- Taking the first packet removes it from the map.
held-take_first :
    {b : RaopBuffer} (t : ℕ)
    → IsValid b
    → b.is_empty ≡ false
    → (entry b (b.first_seqnum % 32)).filled ≡ true
    → held (take_first b).0 t ≡ (if b.first_seqnum == t then none else held b t)
unfolding held take_first
held-take_first {b} t v used f =
    let same = filled-same b.first_seqnum v v.first_small (λ _. omega (arith, v.first_small)) f in
    rw
      (
        f,
        entry-set b (b.first_seqnum % 32) (t % 32) (taken (entry b (b.first_seqnum % 32)))
            (omega (arith, v.size)),
      )
      (elim (ℕ_discrete (b.first_seqnum % 32) (t % 32)) [
        | yes q ↦ rw (← q) (ground arith)
        | no q ↦ ground arith
      ])

take_first_refines :
    {b : RaopBuffer} (no_resend : Bool)
    → IsValid b
    → b.is_empty ≡ false
    → (entry b (b.first_seqnum % 32)).filled ≡ true
    → let (b', packet) = take_first b in
      (b'.first_seqnum, held b', packet)
      ≡ poll_first (held b b.first_seqnum) b.first_seqnum (pending b) (held b) no_resend
take_first_refines {b} no_resend v used f =
    rw
      (
        held-filled b.first_seqnum v v.first_small (λ _. omega (arith, v.first_small)),
        f,
        fun_ext (λ t. held-take_first t v used f),
      )
      (unfold take_first in rw f)

skip_first_refines :
    {b : RaopBuffer}
    → IsValid b
    → (entry b (b.first_seqnum % 32)).filled ≡ false
    → let (b', packet) = take_first b in
      (b'.first_seqnum ≡ u16 (b.first_seqnum + 1)) × (held b' ≡ held b) × (packet ≡ none)
unfolding take_first held
skip_first_refines {b} v f = rw f (refl, refl, refl)

poll_first_refines :
    {b : RaopBuffer} (no_resend : Bool)
    → IsValid b
    → b.is_empty ≡ false
    → let (b', packet) =
        if not no_resend && not (entry b (b.first_seqnum % 32)).filled && ltb (pending b) 32
        then (b, none)
        else take_first b in
      (b'.first_seqnum, held b', packet)
      ≡ poll_first (held b b.first_seqnum) b.first_seqnum (pending b) (held b) no_resend
poll_first_refines {b} no_resend v used =
    let here = held-filled b.first_seqnum v v.first_small (λ _. omega (arith, v.first_small)) in
    elim (Bool-cases (entry b (b.first_seqnum % 32)).filled) [
      | inl f ↦ let t = take_first_refines no_resend v used f in ground arith
      | inr f ↦ let t = skip_first_refines v f in ground arith
    ]

-- A packet comes out exactly when the specification gives one, and it is the one that is held for
-- `first_seqnum`.
pub dequeue_refines :
    {b : RaopBuffer} (no_resend : Bool)
    → IsValid b
    → let (b', packet) = dequeue b no_resend in
      (b'.first_seqnum, held b', packet)
      ≡ poll b.is_empty b.first_seqnum (pending b) (held b) no_resend
dequeue_refines {b} no_resend v =
    rw (dequeue_lem no_resend v) (elim (Bool-cases (b.is_empty || pending b == 0)) [
      | inl nothing ↦ rw nothing
      | inr more ↦ rw more (poll_first_refines no_resend v (ground arith))
    ])
