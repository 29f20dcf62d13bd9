-- ===== src/RaopRtpMirror/Bounds.antt =====
-- The loop over the units of raop_rtp_mirror.c ends, and writes inside the payload only, unless an
-- `int` overflows.
use j_a_r_v_i_s.Prelude.{
  ℕ, zero, suc, ◌+◌, ◌^◌, ◌≤◌, ◌<◌, ◌≡◌, ◌∙◌, ap, sym, refl, arith, Bool, true, ◌&&◌, ◌||◌, Option,
  some, List, [], ◌∷◌, ltb, leb, ◌==◌, length, get_or, set, drop, length-set, Bool-cases, inl, inr,
  ◌⊎◌, if_true, le→leb,
}
use j_a_r_v_i_s.ByteUtils.{byte_at, get_int, get_int_be}
use j_a_r_v_i_s.RaopRtpMirror.{
  put_start_code, Units, is_h265, RoundEnd, stops, goes_on, overflows, Framed, framed, overflow,
  one_unit, frame_units, frame,
}

module _ {ℓ} {A : Type ℓ} where
  drop-set : (xs : List A) (n i : ℕ) (v : A) → i < n → drop n (set xs i v) ≡ drop n xs
  drop-set [] n i v h = refl
  drop-set (x ∷ xs) zero i v h = absurd (omega arith)
  drop-set (x ∷ xs) (suc n) zero v h = refl
  drop-set (x ∷ xs) (suc n) (suc i) v h = drop-set xs n i v (omega arith)

  get_or-drop : (n k : ℕ) (xs : List A) (d : A) → get_or xs (n + k) d ≡ get_or (drop n xs) k d
  get_or-drop zero k xs d = let e : zero + k ≡ k = omega arith in ap (λ i. get_or xs i d) e
  get_or-drop (suc n) k [] d = refl
  get_or-drop (suc n) k (x ∷ xs) d =
      let e : suc n + k ≡ suc (n + k) = omega arith in
      ap (λ i. get_or (x ∷ xs) i d) e ∙ get_or-drop n k xs d

-- The memory from a place on is as it was.
record Kept (from : ℕ) (before after : List ℕ) : Type 0 where
  same_length : length after ≡ length before
  same_rest : drop from after ≡ drop from before

put_start_code-Kept :
    (b : List ℕ) (i payload_size : ℕ)
    → i + 4 ≤ payload_size
    → Kept payload_size b (put_start_code b i)
unfolding put_start_code
put_start_code-Kept b i payload_size h = record {
  same_length = rw (length-set, length-set, length-set, length-set);
  same_rest =
      drop-set _ payload_size (i + 3) 1 (omega arith)
      ∙ drop-set _ payload_size (i + 2) 0 (omega arith)
      ∙ drop-set _ payload_size (i + 1) 0 (omega arith)
      ∙ drop-set b payload_size i 0 (omega arith);
}

Kept-refl : (payload_size : ℕ) (b : List ℕ) → Kept payload_size b b
Kept-refl payload_size b = record { same_length = refl; same_rest = refl }

Kept-trans :
    (payload_size : ℕ) (a b c : List ℕ)
    → Kept payload_size a b
    → Kept payload_size b c
    → Kept payload_size a c
Kept-trans payload_size a b c h k = record {
  same_length = k.same_length ∙ h.same_length;
  same_rest = k.same_rest ∙ h.same_rest;
}

-- The length in four bytes at `i` is not negative as an `int`, but the end of its unit, or of the
-- length itself, is too large for one.
abbrev pub TooLong : List ℕ → ℕ → Type 0
TooLong bytes i = (get_int_be bytes i < 2 ^ 31) × (2 ^ 31 ≤ i + 4 + get_int_be bytes i)

Kept-get_int_be : (i : ℕ) (a b : List ℕ) → Kept i a b → get_int_be b i ≡ get_int_be a i
unfolding get_int_be get_int
Kept-get_int_be i a b kept =
    let at = λ (k : ℕ).
      get_or-drop i k b 0 ∙ ap (λ l. get_or l k 0) kept.same_rest ∙ sym (get_or-drop i k a 0) in
    let first : i + 0 ≡ i = omega arith in
    let same : byte_at b i ≡ byte_at a i =
      ap (byte_at b) (sym first) ∙ at 0 ∙ ap (byte_at a) first in
    rw (same, at 1, at 2, at 3) refl

abbrev Advanced : ℕ → Units → RoundEnd → Type 0
Advanced payload_size u (stops v) = Kept payload_size u.bytes v.bytes
Advanced payload_size u (goes_on v) =
    (u.nalu_size + 4 ≤ payload_size)
    × (u.nalu_size + 4 ≤ v.nalu_size)
    × ((i : ℕ) → u.nalu_size + 4 ≤ i → Kept i u.bytes v.bytes)
Advanced payload_size u overflows = TooLong u.bytes u.nalu_size

one_unit-Advanced :
    (payload_size : ℕ) (u : Units) → Advanced payload_size u (one_unit payload_size u)
unfolding one_unit
one_unit-Advanced payload_size u =
    let kept = put_start_code-Kept u.bytes u.nalu_size in
    let bytes = put_start_code u.bytes u.nalu_size in
    let first = byte_at bytes (u.nalu_size + 4) in
    let second = byte_at bytes (u.nalu_size + 4 + 1) in
    let nc_len = get_int_be u.bytes u.nalu_size in
    let h265 = second == 1 && (u.h265_video_detected || is_h265 first second) in
    elim (Bool-cases (leb (2 ^ 31) nc_len)) [
      | inl a ↦ rw a (Kept-refl payload_size u.bytes)
      | inr a ↦ elim (Bool-cases (leb (2 ^ 31) (u.nalu_size + 4))) [
        | inl b ↦ rw (a, b) (ground arith, ground arith)
        | inr b ↦ elim (Bool-cases (ltb payload_size (u.nalu_size + 4))) [
          | inl c ↦ rw (a, b, c) (Kept-refl payload_size u.bytes)
          | inr c ↦
              let inside : u.nalu_size + 4 ≤ payload_size = ground arith in
              elim (Bool-cases (leb 128 first)) [
                | inl f ↦ rw (a, b, c, f) (kept payload_size inside)
                | inr f ↦ elim (Bool-cases h265) [
                  | inl g ↦ rw (a, b, c, f, g) (kept payload_size inside)
                  | inr g ↦ elim (Bool-cases (leb (2 ^ 31) (u.nalu_size + 4 + nc_len))) [
                    | inl o ↦ rw (a, b, c, f, g, o) (ground arith, ground arith)
                    | inr o ↦ rw (a, b, c, f, g, o) (inside, omega arith, kept)
                  ]
                ]
              ]
        ]
      ]
    ]

-- The loop from a round on ends with the memory kept, or at a length in the rest of the payload
-- that is too long.
abbrev Ends : ℕ → ℕ → List ℕ → Option Framed → Type 0
Ends payload_size from bytes o =
    ((r : Units) × (o ≡ some (framed r)) × Kept payload_size bytes r.bytes)
    ⊎ ((i : ℕ) × (from ≤ i) × (i < payload_size) × TooLong bytes i × (o ≡ some overflow))

next-Ends :
    (payload_size : ℕ) (u : Units) (go : Units → Option Framed)
    → u.nalu_size < payload_size
    → ((v : Units) → u.nalu_size + 4 ≤ v.nalu_size → Ends payload_size v.nalu_size v.bytes (go v))
    → (s : RoundEnd) → Advanced payload_size u s
    → Ends payload_size u.nalu_size u.bytes
        (elim s [ stops v ↦ some (framed v) | goes_on v ↦ go v | overflows ↦ some overflow ])
next-Ends payload_size u go inside ends (stops v) kept = inl (v, refl, kept)
next-Ends payload_size u go inside ends overflows long =
    inr (u.nalu_size, omega arith, inside, long, refl)
next-Ends payload_size u go inside ends (goes_on v) (room, more, kept) = elim (ends v more) [
  | inl (r, e, k) ↦
      inl (r, e, Kept-trans payload_size u.bytes v.bytes r.bytes (kept payload_size room) k)
  | inr (i, behind, before, (short, long), e) ↦
      let same = Kept-get_int_be i u.bytes v.bytes (kept i (omega arith)) in
      inr (i, omega arith, before, (omega (arith, same), omega (arith, same)), e)
]

-- Enough fuel for the rounds that are left: each adds at least 4 to `nalu_size`.
frame_units-Ends :
    (fuel payload_size : ℕ) (u : Units)
    → payload_size ≤ u.nalu_size + fuel
    → Ends payload_size u.nalu_size u.bytes (frame_units (suc fuel) payload_size u)
unfolding frame_units
frame_units-Ends zero payload_size u h = inl (
  u,
  if_true _ _ _ (le→leb payload_size u.nalu_size (omega arith)),
  Kept-refl payload_size u.bytes,
)
frame_units-Ends (suc fuel) payload_size u h = elim (Bool-cases (leb payload_size u.nalu_size)) [
  | inl e ↦ inl (u, if_true _ _ _ e, Kept-refl payload_size u.bytes)
  | inr e ↦ rw e (
      next-Ends payload_size u (frame_units (suc fuel) payload_size) (ground arith)
        (λ v more. frame_units-Ends fuel payload_size v (omega arith)) (one_unit payload_size u)
        (one_unit-Advanced payload_size u))
]

-- For any payload and any bytes behind it: the loop over the units ends, and
-- either the memory keeps its length and every byte from the end of the payload on is as it was, or
-- an `int` overflows, at a place in the payload whose four bytes are a length that is not negative
-- but ends, counted from the start of the payload, at 2 ^ 31 or later.
pub frame-Ends :
    (bytes : List ℕ) (payload_size : ℕ) (detected : Bool)
    → ((r : Units) × (frame bytes payload_size detected ≡ some (framed r))
        × (length r.bytes ≡ length bytes)
        × (drop payload_size r.bytes ≡ drop payload_size bytes))
      ⊎ ((i : ℕ) × (i < payload_size)
          × TooLong bytes i
          × (frame bytes payload_size detected ≡ some overflow))
unfolding frame
frame-Ends bytes payload_size detected =
    let start : Units = record {
      bytes = bytes;
      nalu_size = 0;
      nalus_count = 0;
      valid_data = true;
      h265_video_detected = detected;
    } in
    elim (frame_units-Ends payload_size payload_size start (omega arith)) [
      | inl (r, e, kept) ↦ inl (r, e, kept.same_length, kept.same_rest)
      | inr (i, _, inside, long, e) ↦ inr (i, inside, long, e)
    ]
