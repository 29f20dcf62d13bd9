-- ===== src/Pairing/Setup.antt =====
-- The pairing with a pin of raop_handlers.h and pairing.c: what the third part relies on.
use j_a_r_v_i_s.Prelude.{
  ℕ, ◌%◌, ◌≤◌, ◌≡◌, refl, true, none, some, List, [], ◌∷◌, ltb, if◌then◌else◌, length, take, codes,
  replicate, le→ltb-false,
}
use j_a_r_v_i_s.Utils.{has_prefix}
use j_a_r_v_i_s.Pairing.{
  Crypto, setup, new_srp, set_setup_status, srp_new_user, srp_confirm_pair_setup, accept_client,
  setup_key, setup_iv, username_of,
}
use j_a_r_v_i_s.Pairing.Handlers.{
  Conn, first_part, third_part, pair_setup_pin, pin_text, user_reply, confirm_reply,
}
use j_a_r_v_i_s.Pairing.Verified.{setup_pin, handle, handle_all}

-- The session key before any proof was validated.
abbrev pub no_key : List ℕ
no_key = replicate 40 0

module _ (crypto : Crypto) where
  -- For a device whose name has at most 24 bytes, a salt of 16 bytes and a verifier of 256: if the
  -- first part of pair-setup-pin is followed at once by the third part, without any proof, then a
  -- key that is encrypted under 40 zero bytes as the session key is taken for the client's, and the
  -- pairing counts as set up, whatever the pin is.
  pub handle_all-no_key :
      (conn : Conn) (user a b epk tag pk : List ℕ)
      → length user ≤ 24
      → length (crypto.srp_verification_key user (pin_text (conn.pin % 10000))).0 ≡ 16
      → length (crypto.srp_verification_key user (pin_text (conn.pin % 10000))).1 ≡ 256
      → 32 ≤ length epk
      → 16 ≤ length tag
      → crypto.gcm_decrypt
          (take 32 epk)
          (setup_key crypto no_key)
          (setup_iv crypto no_key 1)
          (take 16 tag)
        ≡ some pk
      → handle_all crypto conn
          (setup_pin (first_part (codes "pin") user) a ∷ setup_pin (third_part epk tag) b ∷ [])
        ≡ some (record conn {
          session = record conn.session {
            status = setup;
            username = username_of user;
            client_pk = pk;
            pair_setup = true;
            srp = none;
          };
          pin = if ltb conn.pin 10000 then 0 else conn.pin;
        })
  unfolding handle_all handle pair_setup_pin has_prefix srp_new_user user_reply confirm_reply
      srp_confirm_pair_setup accept_client set_setup_status new_srp
  handle_all-no_key conn user a b epk tag pk short salt verifier long_key long_tag opens =
      rw
        (
          le→ltb-false 24 (length user) short,
          salt,
          verifier,
          le→ltb-false (length epk) 32 long_key,
          le→ltb-false (length tag) 16 long_tag,
          opens,
        )
        refl
