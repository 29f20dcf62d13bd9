-- ===== src/Tests/Texts.antt =====
-- include/AirPlayServer/lib/utils.c on small texts.
use j_a_r_v_i_s.Prelude.{ℕ, ◌+◌, ◌≤◌, ◌≡◌, some, List, [], ◌∷◌, ◌++◌, arith, length, codes}
use j_a_r_v_i_s.Prelude.Int.{pos}
use j_a_r_v_i_s.Utils.{parse_hex, hwaddr_raop}
use j_a_r_v_i_s.Utils.Hex.{AllBytes, parse_hex-hwaddr_raop}

abbrev hwaddr : List ℕ
hwaddr = 0x48 ∷ 0x5d ∷ 0x60 ∷ 0x7c ∷ 0xee ∷ 0x22 ∷ []

hwaddr-AllBytes : AllBytes hwaddr
hwaddr-AllBytes = ground arith

parse_hex-hwaddr_raop_example :
    (text : List ℕ) × (hwaddr_raop 13 hwaddr ≡ (pos (length text + 1), text ++ (0 ∷ [])))
    × (length text + 1 ≤ 13)
    × (parse_hex text ≡ some (some hwaddr))
parse_hex-hwaddr_raop_example = parse_hex-hwaddr_raop 13 hwaddr hwaddr-AllBytes (omega arith)

abbrev transport : List ℕ
transport = codes "RTP;mode"
