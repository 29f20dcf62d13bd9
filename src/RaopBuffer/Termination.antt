-- ===== src/RaopBuffer/Termination.antt =====
-- The playing loop over `raop_buffer_dequeue` ends: each packet that comes out shortens the window.
use j_a_r_v_i_s.Prelude.{
  ℕ, zero, suc, ◌+◌, ◌%◌, ◌≤◌, ◌<◌, ◌≡◌, Bool, false, not, ◌&&◌, ◌||◌, some, arith, ltb, ◌==◌,
  if◌then◌else◌, Bool-cases, Option-cases, inl, inr,
}
use j_a_r_v_i_s.Prelude.Int.{u16}
use j_a_r_v_i_s.RaopBuffer.{RaopBuffer, Packet, entry, take_first, dequeue}
use j_a_r_v_i_s.RaopBuffer.Valid.{IsValid}
use j_a_r_v_i_s.RaopBuffer.Dequeue.{pending, dequeue_lem, dequeue-IsValid}
use j_a_r_v_i_s.RaopBuffer.Runs.{drain}

-- How many packets can come out at most.
abbrev remaining : RaopBuffer → ℕ
remaining b = if b.is_empty then 0 else pending b

take_first_lem :
    (b : RaopBuffer)
    → ((take_first b).0.is_empty ≡ b.is_empty)
      × ((take_first b).0.first_seqnum ≡ u16 (b.first_seqnum + 1))
      × ((take_first b).0.last_seqnum ≡ b.last_seqnum)
unfolding take_first
take_first_lem b = ground arith

remaining-take_first :
    {b : RaopBuffer}
    → IsValid b
    → (b.is_empty || pending b == 0) ≡ false
    → suc (remaining (take_first b).0) ≡ remaining b
remaining-take_first {b} v more =
    let t = take_first_lem b in let f = v.first_small in let l = v.last_small in ground arith

-- A packet that comes out leaves fewer.
dequeue_shortens :
    {b : RaopBuffer} (no_resend : Bool) (p : Packet)
    → IsValid b
    → (dequeue b no_resend).1 ≡ some p
    → suc (remaining (dequeue b no_resend).0) ≡ remaining b
dequeue_shortens {b} no_resend p v =
    rw (dequeue_lem no_resend v) (elim (Bool-cases (b.is_empty || pending b == 0)) [
      | inl nothing ↦ rw nothing (λ e. cc)
      | inr more ↦
          rw more
            (elim (Bool-cases
              (not no_resend && not (entry b (b.first_seqnum % 32)).filled && ltb (pending b) 32)) [
                | inl wait ↦ rw wait (λ e. cc)
                | inr go ↦ rw go (λ e. remaining-take_first v more)
              ])
    ])

-- With more fuel than packets the result does not depend on it.
drain_fuel_lem :
    (fuel fuel' : ℕ) {b : RaopBuffer} (no_resend : Bool)
    → IsValid b
    → remaining b < fuel
    → remaining b < fuel'
    → drain fuel b no_resend ≡ drain fuel' b no_resend
unfolding drain
drain_fuel_lem zero fuel' no_resend v h k = absurd (omega arith)
drain_fuel_lem (suc fuel) zero no_resend v h k = absurd (omega arith)
drain_fuel_lem (suc fuel) (suc fuel') {b} no_resend v h k =
    elim (Option-cases (dequeue b no_resend).1) [
      | inl e ↦ ground arith
      | inr (p, e) ↦
          let s = dequeue_shortens no_resend p v e in
          let rest =
            drain_fuel_lem fuel fuel' no_resend (dequeue-IsValid no_resend v) (omega arith)
              (omega arith) in
          ground arith
    ]

-- The playing loop on a valid buffer ends after 33 rounds at most: more fuel changes nothing.
pub drain_ends :
    (fuel : ℕ) {b : RaopBuffer} (no_resend : Bool)
    → IsValid b
    → 33 ≤ fuel
    → drain fuel b no_resend ≡ drain 33 b no_resend
drain_ends fuel {b} no_resend v h =
    let s : remaining b ≤ 32 = elim (Bool-cases b.is_empty) [
      | inl e ↦ rw e (omega arith)
      | inr e ↦ rw e (v.span e)
    ] in
    drain_fuel_lem fuel 33 no_resend v (omega arith) (omega arith)
