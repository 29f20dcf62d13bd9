-- ===== src/RaopRtpMirror/Framing.antt =====
-- What the loop over the units of raop_rtp_mirror.c makes of a payload that is a sequence of units,
-- each behind its length in four bytes.
use j_a_r_v_i_s.Prelude.{
  ℕ, zero, suc, ◌+◌, ◌/◌, ◌%◌, ◌^◌, ◌≤◌, ◌<◌, ◌≡◌, ◌∙◌, ap, sym, refl, arith, true, false, some,
  List, [], ◌∷◌, ◌++◌, ◌==◌, length, get_or, append_assoc, length-append, get_or-append_right,
  set-append_right, get_or-append_at, set-append_at, if_true, if_false, le→leb, lt→leb-false,
  le→ltb-false, and_false,
}
use j_a_r_v_i_s.ByteUtils.{byte_at, get_int, get_int_be, ntohl}
use j_a_r_v_i_s.RaopRtpMirror.{
  put_start_code, Units, goes_on, framed, is_h265, one_unit, frame_units, frame,
}

-- A `uint32_t` in network order.
abbrev pub int_be : ℕ → List ℕ
int_be n = n / 2 ^ 24 % 2 ^ 8 ∷ n / 2 ^ 16 % 2 ^ 8 ∷ n / 2 ^ 8 % 2 ^ 8 ∷ n % 2 ^ 8 ∷ []

abbrev pub start_code : List ℕ
start_code = 0 ∷ 0 ∷ 0 ∷ 1 ∷ []

-- Units behind their lengths.
abbrev pub sized : List (List ℕ) → List ℕ
sized [] = []
sized (n ∷ ns) = int_be (length n) ++ n ++ sized ns

-- Units behind start codes: the byte-stream format of H264.
abbrev pub delimited : List (List ℕ) → List ℕ
delimited [] = []
delimited (n ∷ ns) = start_code ++ n ++ delimited ns

-- A unit of h264: its first bit is 0, it does not look like h265, and its length fits an `int`.
abbrev pub IsUnit : List ℕ → Type 0
IsUnit (first ∷ second ∷ rest) =
    (first < 128) × (is_h265 first second ≡ false) × (suc (suc (length rest)) < 2 ^ 31)
IsUnit n = ⊥

abbrev pub AllUnits : List (List ℕ) → Type 0
AllUnits [] = Unit {0}
AllUnits (n ∷ ns) = IsUnit n × AllUnits ns

pub length-delimited : (nals : List (List ℕ)) → length (delimited nals) ≡ length (sized nals)
length-delimited [] = refl
length-delimited (n ∷ ns) =
    omega (arith, length-delimited ns, length-append n (delimited ns), length-append n (sized ns))

byte_at-append_right : (xs ys : List ℕ) (k : ℕ) → byte_at (xs ++ ys) (length xs + k) ≡ byte_at ys k
byte_at-append_right xs ys k = get_or-append_right xs ys k 0

get_int_be-append_right : (xs ys : List ℕ) → get_int_be (xs ++ ys) (length xs) ≡ get_int_be ys 0
unfolding get_int_be get_int
get_int_be-append_right xs ys = rw (
  get_or-append_at xs ys 0,
  get_or-append_right xs ys 1 0,
  get_or-append_right xs ys 2 0,
  get_or-append_right xs ys 3 0,
)

get_int_be-int_be : (n : ℕ) (ys : List ℕ) → n < 2 ^ 31 → get_int_be (int_be n ++ ys) 0 ≡ n
unfolding get_int_be get_int ntohl
get_int_be-int_be n ys h = omega arith

put_start_code-append_right :
    (xs ys : List ℕ) (a b c d : ℕ)
    → put_start_code (xs ++ (a ∷ b ∷ c ∷ d ∷ ys)) (length xs) ≡ xs ++ (start_code ++ ys)
unfolding put_start_code
put_start_code-append_right xs ys a b c d = rw (
  set-append_at xs (a ∷ b ∷ c ∷ d ∷ ys) 0,
  set-append_right xs (0 ∷ b ∷ c ∷ d ∷ ys) 1 0,
  set-append_right xs (0 ∷ 0 ∷ c ∷ d ∷ ys) 2 0,
  set-append_right xs (0 ∷ 0 ∷ 0 ∷ d ∷ ys) 3 1,
)

-- The loop at the start of a round, with `nalus_count` units done.
abbrev at_unit : List ℕ → ℕ → ℕ → Units
at_unit bytes nalu_size nalus_count = record {
  bytes = bytes;
  nalu_size = nalu_size;
  nalus_count = nalus_count;
  valid_data = true;
  h265_video_detected = false;
}

one_unit-sized :
    (payload_size nalus_count : ℕ) (pre unit post : List ℕ)
    → IsUnit unit
    → length pre + 4 + length unit ≤ payload_size
    → payload_size < 2 ^ 31
    → one_unit payload_size
        (at_unit (pre ++ (int_be (length unit) ++ (unit ++ post))) (length pre) nalus_count)
      ≡ goes_on (
          at_unit
            (pre ++ (start_code ++ (unit ++ post)))
            (length pre + 4 + length unit)
            (nalus_count + 1))
unfolding one_unit
one_unit-sized payload_size count pre [] post h room fits = absurd h
one_unit-sized payload_size count pre (x ∷ []) post h room fits = absurd h
one_unit-sized payload_size count pre (x ∷ y ∷ rest) post (small, not_h265, short) room fits =
    let n = suc (suc (length rest)) in
    let after = x ∷ y ∷ (rest ++ post) in
    let bytes = pre ++ (start_code ++ after) in
    let len = get_int_be-append_right pre (int_be n ++ after) ∙ get_int_be-int_be n after short in
    let behind : length pre + 4 + 1 ≡ length pre + 5 = omega arith in
    let second : get_or bytes (length pre + 4 + 1) 0 ≡ y =
      ap (λ i. get_or bytes i 0) behind ∙ get_or-append_right pre (start_code ++ after) 5 0 in
    rw
      (
        len,
        put_start_code-append_right pre after (n / 2 ^ 24 % 2 ^ 8) (n / 2 ^ 16 % 2 ^ 8)
            (n / 2 ^ 8 % 2 ^ 8) (n % 2 ^ 8),
        get_or-append_right pre (start_code ++ after) 4 0,
        second,
        not_h265,
        lt→leb-false (2 ^ 31) n short,
        lt→leb-false (2 ^ 31) (length pre + 4) (omega arith),
        le→ltb-false payload_size (length pre + 4) (omega arith),
        lt→leb-false 128 x small,
        and_false (y == 1),
        lt→leb-false (2 ^ 31) (length pre + 4 + n) (omega arith),
      )
      refl

-- The units `nals` behind the bytes `pre` that are done.
frame_units-sized :
    (nals : List (List ℕ)) (fuel payload_size nalu_size nalus_count : ℕ) (bytes pre behind : List ℕ)
    → AllUnits nals
    → bytes ≡ pre ++ (sized nals ++ behind)
    → nalu_size ≡ length pre
    → payload_size ≡ length pre + length (sized nals)
    → length (sized nals) ≤ fuel
    → payload_size < 2 ^ 31
    → frame_units (suc fuel) payload_size (at_unit bytes nalu_size nalus_count)
      ≡ some (
          framed
            (at_unit (pre ++ (delimited nals ++ behind)) payload_size (nalus_count + length nals)))
unfolding frame_units
frame_units-sized [] fuel size i count bytes pre behind h b at whole enough fits =
    let same : i ≡ size = omega (arith, at, whole) in
    let counted : count ≡ count + 0 = omega arith in
    if_true _ _ _ (le→leb size i (omega arith))
    ∙ rw (b, same) (ap (λ c. some (framed (at_unit (pre ++ behind) size c))) counted)
frame_units-sized (n ∷ ns) zero size i count bytes pre behind h b at whole enough fits =
    absurd (omega arith)
frame_units-sized (n ∷ ns) (suc fuel) size i count bytes pre behind (unit, units) b at whole enough
      fits =
    let long = length-append n (sized ns) in
    let grown = length-append pre (start_code ++ n) in
    let post = sized ns ++ behind in
    let same : at_unit bytes i count
        ≡ at_unit (pre ++ (int_be (length n) ++ (n ++ post))) (length pre) count =
      rw (b, at, append_assoc n (sized ns) behind) refl in
    let step =
      ap (one_unit size) same
      ∙ one_unit-sized size count pre n post unit (omega (arith, whole, long)) fits in
    let rest =
      frame_units-sized ns fuel size (length pre + 4 + length n) (count + 1)
        (pre ++ (start_code ++ (n ++ post))) (pre ++ (start_code ++ n)) behind units
        (sym (append_assoc pre (start_code ++ n) post)) (omega (arith, grown))
        (omega (arith, whole, grown)) (omega arith) fits in
    let counted : count + 1 + length ns ≡ count + length (n ∷ ns) = omega arith in
    let written : (pre ++ (start_code ++ n)) ++ (delimited ns ++ behind)
        ≡ pre ++ (delimited (n ∷ ns) ++ behind) =
      append_assoc pre (start_code ++ n) (delimited ns ++ behind)
      ∙ ap (λ t. pre ++ (start_code ++ t)) (sym (append_assoc n (delimited ns) behind)) in
    if_false _ _ _ (lt→leb-false size i (omega arith)) ∙ rw step (rest ∙ rw (written, counted) refl)

-- For a payload below 2 ^ 31 bytes that is a sequence of h264 units behind their lengths, none of
-- them shorter than two bytes, and any bytes behind it: the loop puts a start code in place of every length, counts the
-- units, and finds the data valid.
pub frame-sized :
    (nals : List (List ℕ)) (behind : List ℕ)
    → AllUnits nals
    → length (sized nals) < 2 ^ 31
    → frame (sized nals ++ behind) (length (sized nals)) false
      ≡ some (
          framed (record {
            bytes = delimited nals ++ behind;
            nalu_size = length (sized nals);
            nalus_count = length nals;
            valid_data = true;
            h265_video_detected = false;
          }))
unfolding frame
frame-sized nals behind units fits =
    frame_units-sized nals (length (sized nals)) (length (sized nals)) 0 0 (sized nals ++ behind) []
      behind units refl refl (omega arith) (omega arith) fits
    ∙ ap (λ n. some (framed (at_unit (delimited nals ++ behind) (length (sized nals)) n)))
        (omega arith)
