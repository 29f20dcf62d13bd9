-- ===== src/Utils.antt =====
-- include/AirPlayServer/lib/utils.c: hexadecimal text, hardware and network addresses, and the split
-- of a text.
-- A text is the list of its bytes, without the zero at its end where a function does not write it.
pub mod Hex
pub mod Split
use j_a_r_v_i_s.Prelude.{
  ℕ, suc, ◌+◌, ◌-◌, ◌*◌, ◌/◌, ◌%◌, Bool, true, false, Option, none, some, List, [], ◌∷◌, ◌++◌, ltb,
  leb, ◌==◌, ◌&&◌, ◌||◌, if◌then◌else◌, length, take, drop, get_or, replicate, codes, decimal,
  ◌>>=◌,
}
use j_a_r_v_i_s.Prelude.Int.{ℤ, pos, negsuc}

-- `'0' + d`, or the letter that stands `d - 10` places after `letter`.
unfoldable pub hex_digit : ℕ → ℕ → ℕ
hex_digit letter d = if ltb d 10 then 48 + d else letter + (d - 10)

-- The two digits of each byte.
unfoldable pub hex_text : ℕ → List ℕ → List ℕ
hex_text letter [] = []
hex_text letter (x ∷ xs) =
    hex_digit letter (x / 16 % 16) ∷ hex_digit letter (x % 16) ∷ hex_text letter xs

-- The result, and what is written to `str`, for `strlen` bytes of room.
unfoldable pub hwaddr_raop : ℕ → List ℕ → ℤ × List ℕ
hwaddr_raop strlen hwaddr =
    let str = hex_text 65 hwaddr ++ (0 ∷ []) in
    if strlen == 0 || ltb strlen (2 * length hwaddr + 1)
    then (negsuc 0, [])
    else (pos (length str), str)

-- The loop of `utils_hwaddr_airplay`.
unfoldable pub colon_text : List ℕ → List ℕ
colon_text [] = []
colon_text (x ∷ xs) = hex_digit 97 (x / 16 % 16) ∷ hex_digit 97 (x % 16) ∷ 58 ∷ colon_text xs

unfoldable pub hwaddr_airplay : ℕ → List ℕ → ℤ × List ℕ
hwaddr_airplay strlen hwaddr =
    let text = colon_text hwaddr in
    let j = length text - 1 in
    if strlen == 0 || ltb strlen (2 * length hwaddr + length hwaddr)
    then (negsuc 0, [])
    else (pos (j + 1), take j text ++ (0 ∷ []))

-- The value of a digit.
unfoldable pub parse_digit : ℕ → Option ℕ
parse_digit c =
    if leb 97 c && leb c 102
    then some (c - (97 - 10))
    else if leb 65 c && leb c 70
    then some (c - (65 - 10))
    else if leb 48 c && leb c 57
    then some (c - 48)
    else none

-- The loop of `utils_parse_hex`, two characters a round.
unfoldable pub parse_pairs : List ℕ → Option (List ℕ)
parse_pairs [] = some []
parse_pairs (c ∷ []) = some []
parse_pairs (c_1 ∷ c_2 ∷ str) = do
  d_1 ← parse_digit c_1
  d_2 ← parse_digit c_2
  data_bytes ← parse_pairs str
  some ((d_1 * 16 + d_2) ∷ data_bytes)

-- The outer `none` is the failure of `assert(str_len % 2 == 0)`, the inner one the result `NULL`.
unfoldable pub parse_hex : List ℕ → Option (Option (List ℕ))
parse_hex str = if length str % 2 == 0 then some (parse_pairs str) else none

unfoldable pub pk_to_string : List ℕ → List ℕ
pk_to_string pk = hex_text 97 pk

-- The loop of `utils_data_to_string` from byte `i` on, and the newline at the end.
unfoldable pub data_lines : ℕ → ℕ → List ℕ → List ℕ
data_lines i chars_per_line [] = 10 ∷ []
data_lines i chars_per_line (x ∷ xs) =
    let rest = hex_text 97 (x ∷ []) ++ (32 ∷ data_lines (i + 1) chars_per_line xs) in
    if ltb 0 i && i % chars_per_line == 0 then 10 ∷ rest else rest

-- `assert(chars_per_line > 0)`
unfoldable pub data_to_string : List ℕ → ℕ → Option (List ℕ)
data_to_string data_bytes chars_per_line =
    if ltb 0 chars_per_line then some (data_lines 0 chars_per_line data_bytes) else none

-- Whether a text starts with another.
unfoldable pub has_prefix : List ℕ → List ℕ → Bool
has_prefix [] text = true
has_prefix (d ∷ delim) [] = false
has_prefix (d ∷ delim) (c ∷ text) = d == c && has_prefix delim text

-- Groups of four hexadecimal digits with colons between them.
unfoldable pub hex_groups : List ℕ → List ℕ
hex_groups [] = []
hex_groups (x ∷ []) = hex_text 97 (x ∷ [])
hex_groups (x ∷ y ∷ []) = hex_text 97 (x ∷ y ∷ [])
hex_groups (x ∷ y ∷ z ∷ xs) = hex_text 97 (x ∷ y ∷ []) ++ (58 ∷ hex_groups (z ∷ xs))

-- The text that `utils_ipaddress_to_string` prints, `none` where it only writes the empty text.
-- `address` is the memory at the pointer.
unfoldable pub ipaddress_text : ℕ → List ℕ → ℕ → Option (List ℕ)
ipaddress_text addresslen address zone_id =
    let byte = λ (i : ℕ). decimal (get_or address i 0) in
    if addresslen == 4
    then some (byte 0 ++ (46 ∷ byte 1) ++ (46 ∷ byte 2) ++ (46 ∷ byte 3))
    else if zone_id == 0
    then some (hex_groups (take 16 address))
    else if has_prefix (0xfe ∷ 0x80 ∷ replicate 6 0) address
    then some (codes "fe80::" ++ hex_groups (take 8 (drop 8 address)) ++ (37 ∷ decimal zone_id))
    else none

-- The result, and what is written to `string`, for `sizeof_string` bytes of room: `snprintf` cuts.
unfoldable pub ipaddress_to_string : ℕ → List ℕ → ℕ → ℕ → ℕ × List ℕ
ipaddress_to_string addresslen address zone_id sizeof_string =
    written (ipaddress_text addresslen address zone_id)
  where
    written : Option (List ℕ) → ℕ × List ℕ
    written none = (0, 0 ∷ [])
    written (some text) = (length text, take (sizeof_string - 1) text ++ (0 ∷ []))

-- The first place where a text stands in another.
unfoldable pub strstr : List ℕ → List ℕ → Option ℕ
strstr [] delim = if has_prefix delim [] then some 0 else none
strstr (c ∷ text) delim =
    let later = strstr text delim >>= λ i. some (suc i) in
    if has_prefix delim (c ∷ text) then some 0 else later

-- The token before the place that was found, and what stands after the delimiter.
unfoldable pub cut_at : List ℕ → List ℕ → Option ℕ → Option (List ℕ) × Option (List ℕ)
cut_at text delim none = (some text, none)
cut_at text delim (some i) = (some (take i text), some (drop (i + length delim) text))

-- The token that is returned, and `*stringp` after the call.
unfoldable pub strsep : Option (List ℕ) → List ℕ → Option (List ℕ) × Option (List ℕ)
strsep none delim = (none, none)
strsep (some text) delim = cut_at text delim (strstr text delim)
