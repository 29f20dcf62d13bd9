-- ===== src/Pairing/Handlers.antt =====
-- include/AirPlayServer/lib/raop_handlers.h: the requests of the pairing, on the state of
-- include/AirPlayServer/lib/pairing.c. The property lists of libplist are taken as read.
-- `none` is an access through a NULL pointer or behind a buffer, an answer never written, or the end
-- of the process by `handle_error` of crypto.c.
use j_a_r_v_i_s.Prelude.{
  ℕ, ◌+◌, ◌/◌, ◌%◌, Bool, true, false, not, ◌&&◌, ◌||◌, Option, none, some, List, [], ◌∷◌, ◌++◌,
  ltb, ◌==◌, if◌then◌else◌, length, get_or, take, drop, codes, ◌⊎◌, inl, inr,
}
use j_a_r_v_i_s.Prelude.Int.{ℤ, pos, negsuc, leb_ℤ}
use j_a_r_v_i_s.Utils.{has_prefix}
use j_a_r_v_i_s.Pairing.{
  Crypto, Session, set_setup_status, check_handshake_status, session_handshake,
  session_get_public_key, session_get_signature, session_finish, srp_new_user, srp_validate_proof,
  srp_confirm_pair_setup,
}

-- What `conn` and `conn->raop` hold of the pairing.
pub record Conn : Type 0 where
  pub session : Session
  pub pin : ℕ
  pub use_pin : Bool

-- The property list of a request for pair-setup-pin: which of its items are there.
pub data PinRequest : Type 0 where
  no_plist : PinRequest
  -- The method and the user.
  first_part : List ℕ → List ℕ → PinRequest
  -- The client's public key and its proof.
  second_part : List ℕ → List ℕ → PinRequest
  -- The client's encrypted key and its tag.
  third_part : List ℕ → List ℕ → PinRequest
  other_items : PinRequest

pub data Reply : Type 0 where
  nothing : Reply
  body : List ℕ → Reply
  salt_and_key : List ℕ → List ℕ → Reply
  proof : List ℕ → Reply
  key_and_tag : List ℕ → List ℕ → Reply
  -- Status 470.
  authentication_failed : Reply
  disconnect : Reply

-- `snprintf(pin, 6, "%04u", conn->raop->pin % 10000)`
unfoldable pub pin_text : ℕ → List ℕ
pin_text pin =
    (48 + pin / 1000 % 10) ∷ (48 + pin / 100 % 10) ∷ (48 + pin / 10 % 10) ∷ (48 + pin % 10) ∷ []

-- `raop_handler_pairpinstart`, for the result of `random_pin`: the pin, an `unsigned short`.
unfoldable pub new_pin : ℕ → ℤ → ℕ
new_pin pin (pos pin_4) = if ltb 9999 pin then pin else pin_4 % 10000
new_pin pin (negsuc n) = pin

unfoldable pub pair_pin_start : Conn → ℤ → Conn × Reply
pair_pin_start conn random = (record conn { pin = new_pin conn.pin random }, nothing)

abbrev pub with_session : Conn → Session → Conn
with_session conn s = record conn { session = s }

unfoldable pub user_reply : Conn → Session × (List ℕ × List ℕ) ⊎ Session × ℤ → Conn × Reply
user_reply conn (inl (s, (salt, pk))) = (with_session conn s, salt_and_key salt pk)
user_reply conn (inr (s, code)) = (with_session conn s, authentication_failed)

-- `proof` has 64 bytes, of which 20 are sent.
unfoldable pub proof_reply : Conn → Option (Session × Option (List ℕ)) → Option (Conn × Reply)
proof_reply conn none = none
proof_reply conn (some (s, none)) = some (with_session conn s, authentication_failed)
proof_reply conn (some (s, some m2)) = some (with_session conn s, proof (take 20 m2))

unfoldable pub confirm_reply :
    Conn → Option (Session × Option (List ℕ × List ℕ)) → Option (Conn × Reply)
confirm_reply conn none = none
confirm_reply conn (some (s, none)) = some (with_session conn s, authentication_failed)
confirm_reply conn (some (s, some (epk, tag))) =
    some (with_session conn (set_setup_status s), key_and_tag epk tag)

-- The answer to the first request of pair-verify. The results of the two calls are checked for
-- logging only: where one is -1, bytes that were never written are sent.
unfoldable pub keys_reply :
    Conn → Bool → Option (Option (List ℕ)) → Option (Option (List ℕ)) → Option (Conn × Reply)
keys_reply conn refused (some (some public_key)) (some (some signature)) =
    some (conn, if refused then nothing else body (public_key ++ signature))
keys_reply conn refused _ _ = none

unfoldable pub finish_reply : Conn → Option (Session × ℤ) → Option (Conn × Reply)
finish_reply conn none = none
finish_reply conn (some (s, code)) =
    some (with_session conn s, if leb_ℤ (pos 0) code then body [] else disconnect)

module _ (crypto : Crypto) where
  -- `raop_handler_pairsetup_pin`, for the random private key. The proof is copied to 64 bytes.
  unfoldable pub pair_setup_pin : Conn → PinRequest → List ℕ → Option (Conn × Reply)
  pair_setup_pin conn no_plist private_key = some (conn, authentication_failed)
  pair_setup_pin conn (first_part method user) private_key =
      let conn' = record conn { pin = if ltb conn.pin 10000 then 0 else conn.pin } in
      if has_prefix method (codes "pin")
      then some (
          user_reply conn'
            (srp_new_user crypto conn.session user (pin_text (conn.pin % 10000)) private_key))
      else some (conn, nothing)
  pair_setup_pin conn (second_part pk client_proof) private_key =
      if ltb 64 (length client_proof)
      then none
      else proof_reply conn
          (srp_validate_proof crypto conn.session conn.session.srp pk client_proof)
  pair_setup_pin conn (third_part epk tag) private_key =
      if ltb (length epk) 32 || ltb (length tag) 16
      then none
      else confirm_reply conn
          (srp_confirm_pair_setup crypto conn.session conn.session.srp (take 32 epk) (take 16 tag))
  pair_setup_pin conn other_items private_key = some (conn, authentication_failed)

  -- `raop_handler_pairsetup`
  unfoldable pub pair_setup : Conn → List ℕ → Conn × Reply
  pair_setup conn bytes =
      if length bytes == 32
      then (
        with_session conn (set_setup_status conn.session),
        body (crypto.ed25519_public conn.session.ed_ours),
      )
      else (conn, nothing)

  -- Behind the handshake.
  unfoldable pub handshake_reply : Conn → Bool → Option (Session × Bool) → Option (Conn × Reply)
  handshake_reply conn refused none = none
  handshake_reply conn refused (some (s, _)) =
      keys_reply (with_session conn s) refused (session_get_public_key crypto s s.keys)
        (session_get_signature crypto s s.keys)

  unfoldable pub verify_first : Conn → Bool → List ℕ → List ℕ → Option (Conn × Reply)
  unfolding handshake_reply
  verify_first conn refused bytes generated = handshake_reply conn refused (
      session_handshake crypto conn.session (take 32 (drop 4 bytes)) (take 32 (drop 36 bytes))
        generated)

  -- Behind the check of the status; `registered` is the callback, or always true without it.
  unfoldable pub verify_step :
      Conn → Bool → (List ℕ → Bool) → List ℕ → List ℕ → Option (Conn × Reply)
  verify_step conn register_check registered bytes generated =
      let refused = register_check && not (registered (crypto.base64 (take 32 (drop 36 bytes)))) in
      if ltb (length bytes) 4
      then some (conn, nothing)
      else if get_or bytes 0 0 == 1
      then (if length bytes == 68
          then verify_first conn refused bytes generated
          else some (conn, nothing))
      else if get_or bytes 0 0 == 0
      then (if length bytes == 68
          then finish_reply conn
              (session_finish crypto conn.session conn.session.keys (drop 4 bytes))
          else some (conn, nothing))
      else some (conn, nothing)

  -- `raop_handler_pairverify`, for the key that is generated.
  unfoldable pub pair_verify : Conn → (List ℕ → Bool) → List ℕ → List ℕ → Option (Conn × Reply)
  pair_verify conn registered bytes generated =
      if leb_ℤ (pos 0) (check_handshake_status conn.session.status)
      then verify_step conn false registered bytes generated
      else if conn.use_pin
      then verify_step (with_session conn (set_setup_status conn.session)) true registered bytes
          generated
      else some (conn, nothing)
