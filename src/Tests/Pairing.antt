-- ===== src/Tests/Pairing.antt =====
-- include/AirPlayServer/lib/pairing.c with a cryptography that is made up for the tests.
use j_a_r_v_i_s.Prelude.{
  ℕ, ◌≡◌, arith, refl, Bool, true, none, some, List, [], ◌∷◌, ◌++◌, if◌then◌else◌, ltb, take,
  replicate, codes,
}
use j_a_r_v_i_s.HttpRequest.{same_text}
use j_a_r_v_i_s.MirrorBuffer.{aes_ctr_encrypt, apply_stream}
use j_a_r_v_i_s.Pairing.{
  Crypto, finished, setup, Keys, init, username_of, store_keys, session_handshake,
  session_get_public_key, session_get_signature, session_finish, set_setup_status,
  check_handshake_status, check_signature, is_handshake, is_finished, verify_stream, derive_key,
}
use j_a_r_v_i_s.Pairing.Handlers.{
  Conn, first_part, third_part, pair_setup, pair_verify, verify_step, verify_first, handshake_reply,
  keys_reply, finish_reply,
}
use j_a_r_v_i_s.Pairing.Verified.{
  Request, setup_pin, setup_request, verify_request, handle, handle_all, IsVerified,
  handle_all-IsVerified,
}
use j_a_r_v_i_s.Pairing.Faults.{is_faulty}
use j_a_r_v_i_s.Pairing.Setup.{handle_all-no_key}

-- A signature is the key itself, a key of zeros gives no secret, and nothing is encrypted but with a tag of 16 ones.
abbrev toy : Crypto
toy = record {
  sha512 = λ bytes. replicate 64 3;
  aes_stream = λ key iv i. 0;
  x25519_public = λ key. key;
  x25519_derive_secret =
      λ ours theirs. if same_text theirs (replicate 32 0) then none else some (replicate 32 5);
  ed25519_public = λ key. key;
  ed25519_sign = λ key message. key ++ key;
  ed25519_verify = λ signature message key. same_text (take 32 signature) key;
  gcm_decrypt = λ text key iv tag. if same_text tag (replicate 16 1) then some text else none;
  gcm_encrypt = λ text key iv. (text, replicate 16 1);
  srp_verification_key = λ user pin. (replicate 16 2, replicate 256 4);
  srp_ephemeral_key = λ verifier key. key;
  srp_verify = λ user salt verifier a b proof. none;
  base64 = λ bytes. bytes;
}

abbrev our_key : List ℕ
our_key = replicate 32 9

abbrev client_key : List ℕ
client_key = replicate 32 6

abbrev everyone : List ℕ → Bool
everyone pk = true

-- The setup, the handshake and the signature.
abbrev requests : List Request
requests =
    setup_request client_key
    ∷ verify_request everyone ((1 ∷ 0 ∷ 0 ∷ 0 ∷ replicate 32 8) ++ client_key) (replicate 32 7)
    ∷ verify_request everyone ((0 ∷ 0 ∷ 0 ∷ 0 ∷ client_key) ++ client_key) []
    ∷ []

abbrev new_conn : Conn
new_conn = record { session = init our_key; pin = 1234; use_pin = true }

abbrev their_keys : Keys
their_keys = record {
  ed_theirs = client_key;
  ecdh_ours = replicate 32 7;
  ecdh_theirs = replicate 32 8;
  ecdh_secret = replicate 32 5;
}

abbrev paired : Conn
paired = record new_conn {
  session = record new_conn.session { status = finished; keys = some their_keys };
}

paired_lem : handle_all toy new_conn requests ≡ some paired
unfolding handle_all handle init set_setup_status pair_setup pair_verify verify_step verify_first
    handshake_reply store_keys check_handshake_status session_handshake session_get_public_key
    session_get_signature session_finish check_signature keys_reply finish_reply aes_ctr_encrypt
    apply_stream verify_stream derive_key is_handshake is_finished same_text
paired_lem = refl

handle_all-IsVerified_example : IsVerified toy paired.session
handle_all-IsVerified_example =
    handle_all-IsVerified toy our_key 1234 true requests paired paired_lem

-- A key of zeros in the first step of pair-verify.
abbrev zero_key : Request
zero_key = verify_request everyone ((1 ∷ replicate 35 0) ++ client_key) our_key

zeros_end_the_process : is_faulty toy new_conn zero_key ≡ true
unfolding is_faulty init check_handshake_status same_text
zeros_end_the_process = refl

handle_all-no_key_example :
    handle_all toy new_conn (
      setup_pin (first_part (codes "pin") (codes "AA")) []
      ∷ setup_pin (third_part client_key (replicate 16 1)) []
      ∷ [])
    ≡ some (record new_conn {
      session = record new_conn.session {
        status = setup;
        username = username_of (codes "AA");
        client_pk = client_key;
        pair_setup = true;
        srp = none;
      };
      pin = if ltb 1234 10000 then 0 else 1234;
    })
handle_all-no_key_example =
    handle_all-no_key toy new_conn (codes "AA") [] [] client_key (replicate 16 1) client_key
      (omega arith) refl refl (omega arith) (omega arith) (unfold same_text in refl)
