-- ===== src/RaopBuffer/Resends.antt =====
-- `raop_buffer_handle_resends`: the packets that are asked for once more.
use mathlib.Core.Path.{subst}
use native.Mathlib.Nat.{add_assoc, add-zero}
use native.Mathlib.Decide.{ℕ_discrete, dec_lt}
use j_a_r_v_i_s.Prelude.{
  ℕ, zero, suc, ◌+◌, ◌%◌, ◌≤◌, ◌<◌, ◌≡◌, ◌≢◌, ◌⊎◌, ◌∙◌, ap, sym, refl, Bool, true, false, Option,
  none, some, arith, ltb, leb, ◌==◌, if◌then◌else◌, Bool-cases, inl, inr,
}
use j_a_r_v_i_s.Prelude.Int.{pos, u16, ltb_ℤ}
use j_a_r_v_i_s.RaopBuffer.{RaopBuffer, entry, seqnum_cmp, first_filled, handle_resends}
use j_a_r_v_i_s.RaopBuffer.Window.{ahead, ltb-seqnum_cmp, eqb-seqnum_cmp, low16-seqnum_cmp}
use j_a_r_v_i_s.RaopBuffer.Valid.{IsValid}
use j_a_r_v_i_s.RaopBuffer.Dequeue.{pending}
use j_a_r_v_i_s.RaopBuffer.View.{held, held-filled}

-- The entry for the number `k` places ahead of `first_seqnum`.
abbrev pub is_filled_at : RaopBuffer → ℕ → Bool
is_filled_at b k = (entry b ((b.first_seqnum + k) % 32)).filled

-- The loop stops at the first filled entry, if there is one before `last_seqnum`.
record Stops (b : RaopBuffer) (k stop : ℕ) : Type 0 where
  reached : k ≤ stop
  bound : stop < pending b
  missing : (j : ℕ) → k ≤ j → j < stop → is_filled_at b j ≡ false
  found : is_filled_at b stop ≡ true

loop_positions :
    (first last k : ℕ)
    → first < 65536
    → last < 65536
    → ahead first (u16 (last + 1)) ≤ 32
    → k < ahead first (u16 (last + 1))
    → leb 32768 (ahead last (u16 (first + k))) ≡ ltb (k + 1) (ahead first (u16 (last + 1)))
loop_positions first last k hf hl span more = ground arith

Stops-here : (b : RaopBuffer) (k : ℕ) → k < pending b → is_filled_at b k ≡ true → Stops b k k
Stops-here b k more f = record {
  reached = omega arith;
  bound = more;
  missing = λ j lo hi. absurd (omega arith);
  found = f;
}

Stops-later :
    (b : RaopBuffer) (k stop : ℕ) → is_filled_at b k ≡ false → Stops b (k + 1) stop → Stops b k stop
Stops-later b k stop f s = record {
  reached = omega (arith, s.reached);
  bound = s.bound;
  missing =
      λ j lo hi. elim (ℕ_discrete j k) [ yes e ↦ rw e f | no e ↦ s.missing j (omega arith) hi ];
  found = s.found;
}

-- The test of the loop: whether there is a number after this one in the window.
loop_test :
    {b : RaopBuffer} (k : ℕ)
    → IsValid b
    → b.is_empty ≡ false
    → k < pending b
    → ltb_ℤ (seqnum_cmp (u16 (b.first_seqnum + k)) b.last_seqnum) (pos 0) ≡ ltb (k + 1) (pending b)
loop_test {b} k v used more =
    rw (ltb-seqnum_cmp (u16 (b.first_seqnum + k)) b.last_seqnum (omega arith) v.last_small)
      (loop_positions b.first_seqnum b.last_seqnum k v.first_small v.last_small (v.span used) more)

last-filled :
    {b : RaopBuffer} (k : ℕ)
    → IsValid b
    → b.is_empty ≡ false
    → k + 1 ≡ pending b
    → is_filled_at b k ≡ true
last-filled {b} k v used e =
    let same : (b.first_seqnum + k) % 32 ≡ b.last_seqnum % 32 =
      omega (arith, v.first_small, v.last_small, v.span used) in
    subst (λ i. (entry b i).filled ≡ true) (sym same) (v.last_filled used (omega arith))

first_filled_lem :
    (fuel : ℕ) (b : RaopBuffer) (k : ℕ)
    → IsValid b
    → b.is_empty ≡ false
    → k < pending b
    → pending b < k + fuel
    → (stop : ℕ) × (first_filled fuel b (b.first_seqnum + k) ≡ some (b.first_seqnum + stop))
      × Stops b k stop
unfolding first_filled
first_filled_lem zero b k v used more enough = absurd (omega arith)
first_filled_lem (suc fuel) b k v used more enough =
    rw (loop_test k v used more) (elim (Bool-cases (ltb (k + 1) (pending b))) [
      | inl next ↦ rw next (elim (Bool-cases (is_filled_at b k)) [
        | inl f ↦ (k, rw f, Stops-here b k more f)
        | inr f ↦
            let (stop, e, s) =
              first_filled_lem fuel b (k + 1) v used (ground arith) (omega arith) in
            (stop, rw (f, add_assoc b.first_seqnum k 1) e, Stops-later b k stop f s)
      ])
      | inr done ↦ (k, rw done, Stops-here b k more (last-filled k v used (ground arith)))
    ])

-- When the request is made at all, and what the code computes from where the loop stops.
resend_positions :
    (first last : ℕ)
    → first < 65536
    → last < 65536
    → ahead first (u16 (last + 1)) ≤ 32
    → 1 < ahead first (u16 (last + 1))
    → leb 32768 (ahead last first) ≡ true
resend_positions first last hf hl span many = ground arith

stop_count :
    (first stop : ℕ)
    → first < 65536
    → stop < 32
    → ◌≡◌ {A = Option (Option (ℕ × ℕ))}
        (if u16 (first + stop) == first
          then some none
          else some (some (first, ahead first (u16 (first + stop)))))
        (some (if stop == 0 then none else some (first, stop)))
stop_count first stop hf hs = ground arith

handle_resends_lem :
    (b : RaopBuffer) (stop : ℕ)
    → IsValid b
    → b.is_empty ≡ false
    → 1 < pending b
    → stop < pending b
    → first_filled 32769 b b.first_seqnum ≡ some (b.first_seqnum + stop)
    → handle_resends b ≡ some (if stop == 0 then none else some (b.first_seqnum, stop))
unfolding handle_resends
handle_resends_lem b stop v used many bound e =
    let first = v.first_small in
    let small : u16 (b.first_seqnum + stop) < 65536 = omega arith in
    let go : ltb_ℤ (seqnum_cmp b.first_seqnum b.last_seqnum) (pos 0) ≡ true =
      ltb-seqnum_cmp b.first_seqnum b.last_seqnum first v.last_small
      ∙ resend_positions b.first_seqnum b.last_seqnum first v.last_small (v.span used) many in
    rw
      (
        go,
        e,
        eqb-seqnum_cmp (u16 (b.first_seqnum + stop)) b.first_seqnum small first,
        low16-seqnum_cmp (u16 (b.first_seqnum + stop)) b.first_seqnum small first,
      )
      (stop_count b.first_seqnum stop first (omega (arith, v.span used)))

no_resends :
    {b : RaopBuffer} → IsValid b → b.is_empty ≡ false → pending b ≤ 1 → handle_resends b ≡ some none
unfolding handle_resends
no_resends {b} v used few =
    let s = v.span used in
    let first = v.first_small in
    let last = v.last_small in
    let stop : ltb_ℤ (seqnum_cmp b.first_seqnum b.last_seqnum) (pos 0) ≡ false =
      ltb-seqnum_cmp b.first_seqnum b.last_seqnum v.first_small v.last_small ∙ ground arith in
    rw stop

held-is_filled_at :
    {b : RaopBuffer} (k : ℕ)
    → IsValid b
    → k < 32
    → held b (u16 (b.first_seqnum + k))
      ≡ (if is_filled_at b k then some (entry b ((b.first_seqnum + k) % 32)) else none)
held-is_filled_at {b} k v h =
    let same : u16 (b.first_seqnum + k) % 32 ≡ (b.first_seqnum + k) % 32 = omega arith in
    held-filled (u16 (b.first_seqnum + k)) v (omega arith) (λ _. omega (arith, v.first_small))
    ∙ ap (λ i. if (entry b i).filled then some (entry b i) else none) same

held-missing :
    {b : RaopBuffer} (k : ℕ)
    → IsValid b
    → k < 32
    → is_filled_at b k ≡ false
    → held b (u16 (b.first_seqnum + k)) ≡ none
held-missing k v h f = held-is_filled_at k v h ∙ rw f

held-found :
    {b : RaopBuffer} (k : ℕ)
    → IsValid b
    → k < 32
    → is_filled_at b k ≡ true
    → held b (u16 (b.first_seqnum + k)) ≢ none
held-found {b} k v h f e =
    let there : held b (u16 (b.first_seqnum + k)) ≡ some (entry b ((b.first_seqnum + k) % 32)) =
      held-is_filled_at k v h ∙ rw f in
    cc

-- What `raop_buffer_handle_resends` asks for is exactly the gap at the front: `count` numbers from
-- `first_seqnum` on of which none is held, up to one that is. There is no call for an empty gap.
pub handle_resends_gap :
    {b : RaopBuffer}
    → IsValid b
    → b.is_empty ≡ false
    → (count : ℕ) × (handle_resends b
        ≡ some (if count == 0 then none else some (b.first_seqnum, count)))
      × ((j : ℕ) → j < count → held b (u16 (b.first_seqnum + j)) ≡ none)
      × ((count ≡ 0) × (pending b ≡ 0)
          ⊎ (count < pending b) × (held b (u16 (b.first_seqnum + count)) ≢ none))
handle_resends_gap {b} v used = elim (dec_lt 1 (pending b)) [
  | yes many ↦
      let (stop, e, s) =
        first_filled_lem 32769 b 0 v used (omega arith) (omega (arith, v.span used)) in
      let e' : first_filled 32769 b b.first_seqnum ≡ some (b.first_seqnum + stop) =
        rw add-zero at e in
      (
        stop,
        handle_resends_lem b stop v used many s.bound e',
        λ j h. held-missing j v (omega (arith, v.span used, s.bound)) (s.missing j (omega arith) h),
        inr (s.bound, held-found stop v (omega (arith, v.span used, s.bound)) s.found),
      )
  | no few ↦ (
    0,
    no_resends v used (omega arith),
    λ j h. absurd (omega arith),
    elim (ℕ_discrete (pending b) 0) [
      | yes e ↦ inl (refl, e)
      | no ne ↦ inr (omega arith, held-found 0 v (omega arith) (last-filled 0 v used (omega arith)))
    ],
  )
]
