-- ===== src/Pairing/Faults.antt =====
-- Which requests of the pairing in raop_handlers.h make the program fail.
use j_a_r_v_i_s.Prelude.{
  ℕ, Bool, false, ◌&&◌, ◌||◌, List, ltb, ◌==◌, length, take, drop, get_or, is_none,
}
use j_a_r_v_i_s.Prelude.Int.{pos, leb_ℤ}
use j_a_r_v_i_s.Pairing.{Crypto, check_handshake_status}
use j_a_r_v_i_s.Pairing.Handlers.{Conn, second_part, third_part}
use j_a_r_v_i_s.Pairing.Verified.{Request, setup_pin, verify_request, Verified}

-- A request for pair-verify that starts a handshake.
abbrev starts_handshake : Conn → List ℕ → Bool
starts_handshake conn bytes =
    (leb_ℤ (pos 0) (check_handshake_status conn.session.status) || conn.use_pin)
    && (get_or bytes 0 0 == 1 && length bytes == 68)

-- A request that leads to an access through NULL or behind a buffer, or to the end of the process.
unfoldable pub is_faulty : Crypto → Conn → Request → Bool
is_faulty crypto conn (setup_pin (second_part pk proof) private_key) =
    ltb 64 (length proof) || is_none conn.session.srp
is_faulty crypto conn (setup_pin (third_part epk tag) private_key) =
    (ltb (length epk) 32 || ltb (length tag) 16) || is_none conn.session.srp
is_faulty crypto conn (verify_request registered bytes generated) =
    starts_handshake conn bytes
    && is_none (crypto.x25519_derive_secret generated (take 32 (drop 4 bytes)))
is_faulty crypto conn r = false
