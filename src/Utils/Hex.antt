-- ===== src/Utils/Hex.antt =====
-- Hexadecimal text of utils.c, written and read back.
use j_a_r_v_i_s.Prelude.{
  ℕ, suc, ◌+◌, ◌-◌, ◌*◌, ◌/◌, ◌%◌, ◌≤◌, ◌<◌, ◌≡◌, ◌∙◌, ap, refl, arith, true, false, some, List, [],
  ◌∷◌, ◌++◌, ltb, leb, ◌==◌, ◌||◌, if◌then◌else◌, length, length-append, take,
}
use j_a_r_v_i_s.Prelude.Int.{pos, negsuc}
use j_a_r_v_i_s.Utils.{
  hex_digit, hex_text, hwaddr_raop, colon_text, hwaddr_airplay, parse_digit, parse_pairs, parse_hex,
  pk_to_string,
}

-- Byte values.
abbrev pub AllBytes : List ℕ → Type 0
AllBytes [] = Unit {0}
AllBytes (x ∷ xs) = (x < 256) × AllBytes xs

parse_digit-hex_digit_lower : (d : ℕ) → d < 16 → parse_digit (hex_digit 97 d) ≡ some d
unfolding parse_digit hex_digit
parse_digit-hex_digit_lower d h = ground arith

parse_digit-hex_digit_upper : (d : ℕ) → d < 16 → parse_digit (hex_digit 65 d) ≡ some d
unfolding parse_digit hex_digit
parse_digit-hex_digit_upper d h = ground arith

length-hex_text : (letter : ℕ) (xs : List ℕ) → length (hex_text letter xs) ≡ 2 * length xs
unfolding hex_text
length-hex_text letter [] = omega arith
length-hex_text letter (x ∷ xs) = omega (arith, length-hex_text letter xs)

parse_pairs-hex_text :
    (letter : ℕ) (xs : List ℕ)
    → ((d : ℕ) → d < 16 → parse_digit (hex_digit letter d) ≡ some d)
    → AllBytes xs
    → parse_pairs (hex_text letter xs) ≡ some xs
unfolding parse_pairs hex_text
parse_pairs-hex_text letter [] digit h = refl
parse_pairs-hex_text letter (x ∷ xs) digit (h, hs) =
    let e : x / 16 % 16 * 16 + x % 16 ≡ x = omega arith in
    rw (
      digit (x / 16 % 16) (omega arith),
      digit (x % 16) (omega arith),
      parse_pairs-hex_text letter xs digit hs,
      e,
    )

parse_hex-hex_text :
    (letter : ℕ) (xs : List ℕ)
    → ((d : ℕ) → d < 16 → parse_digit (hex_digit letter d) ≡ some d)
    → AllBytes xs
    → parse_hex (hex_text letter xs) ≡ some (some xs)
unfolding parse_hex
parse_hex-hex_text letter xs digit h =
    let even : (length (hex_text letter xs) % 2 == 0) ≡ true =
      let l = length-hex_text letter xs in ground arith in
    rw (even, parse_pairs-hex_text letter xs digit h)

-- `utils_parse_hex` reads the bytes back that `utils_pk_to_string` wrote.
pub parse_hex-pk_to_string :
    (pk : List ℕ) → AllBytes pk → parse_hex (pk_to_string pk) ≡ some (some pk)
unfolding pk_to_string
parse_hex-pk_to_string pk h = parse_hex-hex_text 97 pk parse_digit-hex_digit_lower h

-- For a hardware address with room for its text: `utils_hwaddr_raop` returns the number of bytes
-- written, which are no more than the room and end in a zero, and `utils_parse_hex` reads the
-- address back from those before the zero.
pub parse_hex-hwaddr_raop :
    (strlen : ℕ) (hwaddr : List ℕ)
    → AllBytes hwaddr
    → 2 * length hwaddr + 1 ≤ strlen
    → (text : List ℕ) × (hwaddr_raop strlen hwaddr ≡ (pos (length text + 1), text ++ (0 ∷ [])))
      × (length text + 1 ≤ strlen)
      × (parse_hex text ≡ some (some hwaddr))
unfolding hwaddr_raop
parse_hex-hwaddr_raop strlen hwaddr bytes room =
    let text = hex_text 65 hwaddr in
    let l = length-hex_text 65 hwaddr in
    let guard : (strlen == 0 || ltb strlen (2 * length hwaddr + 1)) ≡ false = ground arith in
    let n : length (text ++ (0 ∷ [])) ≡ length text + 1 = length-append text (0 ∷ []) in
    (
      text,
      rw (guard, n),
      omega arith,
      parse_hex-hex_text 65 hwaddr parse_digit-hex_digit_upper bytes,
    )

-- Pairs of digits with a colon between two of them.
unfoldable pub separated : List ℕ → List ℕ
separated [] = []
separated (x ∷ []) = hex_text 97 (x ∷ [])
separated (x ∷ y ∷ xs) = hex_text 97 (x ∷ []) ++ (58 ∷ separated (y ∷ xs))

length-colon_text : (xs : List ℕ) → length (colon_text xs) ≡ 3 * length xs
unfolding colon_text
length-colon_text [] = omega arith
length-colon_text (x ∷ xs) = omega (arith, length-colon_text xs)

take-colon_text :
    (x : ℕ) (xs : List ℕ) → take (2 + 3 * length xs) (colon_text (x ∷ xs)) ≡ separated (x ∷ xs)
unfolding colon_text separated hex_text
take-colon_text x [] = refl
take-colon_text x (y ∷ xs) =
    let e : 2 + 3 * suc (length xs) ≡ suc (suc (suc (2 + 3 * length xs))) = omega arith in
    ap (λ n. take n (colon_text (x ∷ y ∷ xs))) e
    ∙ ap (λ t. hex_digit 97 (x / 16 % 16) ∷ hex_digit 97 (x % 16) ∷ 58 ∷ t) (take-colon_text y xs)

-- For a hardware address that is not empty: where there is room for three bytes for each of its
-- bytes, `utils_hwaddr_airplay` writes exactly that many, the pairs of digits with colons between
-- them and a zero; with less room it returns -1.
pub hwaddr_airplay_lem :
    (strlen x : ℕ) (xs : List ℕ)
    → hwaddr_airplay strlen (x ∷ xs) ≡ (
        if leb (3 * length (x ∷ xs)) strlen
        then (pos (3 * length (x ∷ xs)), separated (x ∷ xs) ++ (0 ∷ []))
        else (negsuc 0, []))
unfolding hwaddr_airplay
hwaddr_airplay_lem strlen x xs =
    let l = length-colon_text (x ∷ xs) in
    let j : length (colon_text (x ∷ xs)) - 1 ≡ 2 + 3 * length xs = omega arith in
    let k : 2 + 3 * length xs + 1 ≡ 3 * suc (length xs) = omega arith in
    rw (j, take-colon_text x xs, k) (ground arith)
