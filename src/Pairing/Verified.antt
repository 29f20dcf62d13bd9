-- ===== src/Pairing/Verified.antt =====
-- What the status of a pairing stands for, over all requests of raop_handlers.h.
use j_a_r_v_i_s.Prelude.{
  ℕ, ◌≡◌, refl, Bool, true, false, not, ◌&&◌, ◌||◌, Option, none, some, List, [], ◌∷◌, ltb, ◌==◌,
  if◌then◌else◌, length, take, drop, get_or, codes, inl, inr, Bool-cases, ◌>>=◌, Option-cases,
}
use j_a_r_v_i_s.Prelude.Int.{ℤ, pos, leb_ℤ}
use mathlib.Core.Path.{subst}
use j_a_r_v_i_s.Utils.{has_prefix}
use j_a_r_v_i_s.Pairing.{
  Crypto, Session, Status, initial, setup, handshake, finished, Keys, Srp, init, set_setup_status,
  check_handshake_status, store_keys, session_handshake, session_get_public_key,
  session_get_signature, session_finish, srp_new_user, srp_validate_proof, is_finished,
  is_handshake, srp_confirm_pair_setup, accept_proof, accept_client, check_signature,
}
use j_a_r_v_i_s.Pairing.Handlers.{
  Conn, PinRequest, no_plist, first_part, second_part, third_part, other_items, Reply,
  pair_pin_start, pair_setup_pin, pair_setup, pair_verify, verify_step, verify_first,
  handshake_reply, finish_reply, keys_reply, with_session, user_reply, proof_reply, confirm_reply,
}

-- The requests of a client, with the answers of the system to the calls that they lead to.
pub data Request : Type 0 where
  pin_start : ℤ → Request
  setup_pin : PinRequest → List ℕ → Request
  setup_request : List ℕ → Request
  verify_request : (List ℕ → Bool) → List ℕ → List ℕ → Request

module _ (crypto : Crypto) where
  unfoldable pub handle : Conn → Request → Option (Conn × Reply)
  handle conn (pin_start random) = some (pair_pin_start conn random)
  handle conn (setup_pin request private_key) = pair_setup_pin crypto conn request private_key
  handle conn (setup_request bytes) = some (pair_setup crypto conn bytes)
  handle conn (verify_request registered bytes generated) =
      pair_verify crypto conn registered bytes generated

  unfoldable pub handle_all : Conn → List Request → Option Conn
  handle_all conn [] = some conn
  handle_all conn (r ∷ rs) = do (conn', reply) ← handle conn r; handle_all conn' rs

  -- A handshake has keys, and a finished pairing a signature that was verified under its keys.
  abbrev pub Verified : Status → Option Keys → Type 0
  Verified initial keys = Unit {0}
  Verified setup keys = Unit {0}
  Verified handshake keys = (k : Keys) × (keys ≡ some k)
  Verified finished keys =
      (k : Keys) × (keys ≡ some k)
      × (signature : List ℕ) × (check_signature crypto k signature ≡ true)

  abbrev pub IsVerified : Session → Type 0
  IsVerified s = Verified s.status s.keys

  -- What holds of a request's result.
  abbrev Keeps : Option (Conn × Reply) → Type 0
  Keeps none = Unit {0}
  Keeps (some (conn, reply)) = IsVerified conn.session

  Keeps-if :
      (b : Bool) (x y : Option (Conn × Reply)) → Keeps x → Keeps y → Keeps (if b then x else y)
  Keeps-if true x y hx hy = hx
  Keeps-if false x y hx hy = hy

  abbrev HasShaken : Option (Session × Bool) → Type 0
  HasShaken none = Unit {0}
  HasShaken (some (s, done)) = IsVerified s

  session_handshake-IsVerified :
      (s : Session) (ecdh_key ed_key generated : List ℕ)
      → IsVerified s
      → HasShaken (session_handshake crypto s ecdh_key ed_key generated)
  unfolding session_handshake store_keys
  session_handshake-IsVerified s ecdh_key ed_key generated h =
      elim (Bool-cases (is_finished s.status)) [
        | inl e ↦ rw e h
        | inr e ↦ elim (Option-cases (crypto.x25519_derive_secret generated ecdh_key)) [
          | inl none' ↦ rw (e, none') tt
          | inr (secret, derived) ↦ rw (e, derived) (_, refl)
        ]
      ]

  finish_reply-Keeps :
      (conn : Conn) (keys : Option Keys) (signature : List ℕ)
      → conn.session.keys ≡ keys
      → IsVerified conn.session
      → Keeps (finish_reply conn (session_finish crypto conn.session keys signature))
  unfolding finish_reply session_finish
  finish_reply-Keeps conn none signature e h =
      elim (Bool-cases (is_handshake conn.session.status)) [ inl hs ↦ rw hs tt | inr hs ↦ rw hs h ]
  finish_reply-Keeps conn (some keys) signature e h =
      elim (Bool-cases (is_handshake conn.session.status)) [
        | inr hs ↦ rw hs h
        | inl hs ↦ elim (Bool-cases (check_signature crypto keys signature)) [
          | inl c ↦ rw (hs, c) (keys, e, signature, c)
          | inr c ↦ rw (hs, c) h
        ]
      ]

  keys_reply-Keeps :
      (conn : Conn) (refused : Bool) (a b : Option (Option (List ℕ)))
      → IsVerified conn.session
      → Keeps (keys_reply conn refused a b)
  unfolding keys_reply
  keys_reply-Keeps conn refused (some (some a)) (some (some b)) h = h
  keys_reply-Keeps conn refused none b h = tt
  keys_reply-Keeps conn refused (some none) b h = tt
  keys_reply-Keeps conn refused (some (some a)) none h = tt
  keys_reply-Keeps conn refused (some (some a)) (some none) h = tt

  handshake_reply-Keeps :
      (conn : Conn) (refused : Bool) (shaken : Option (Session × Bool))
      → HasShaken shaken
      → Keeps (handshake_reply crypto conn refused shaken)
  unfolding handshake_reply
  handshake_reply-Keeps conn refused none h = tt
  handshake_reply-Keeps conn refused (some (s, done)) h =
      keys_reply-Keeps (with_session conn s) refused (session_get_public_key crypto s s.keys)
        (session_get_signature crypto s s.keys) h

  verify_step-Keeps :
      (conn : Conn) (check : Bool) (registered : List ℕ → Bool) (bytes generated : List ℕ)
      → IsVerified conn.session
      → Keeps (verify_step crypto conn check registered bytes generated)
  unfolding verify_step verify_first
  verify_step-Keeps conn check registered bytes generated h =
      let refused = check && not (registered (crypto.base64 (take 32 (drop 36 bytes)))) in
      let theirs = take 32 (drop 4 bytes) in
      let ed_key = take 32 (drop 36 bytes) in
      let first =
        handshake_reply-Keeps conn refused _
          (session_handshake-IsVerified conn.session theirs ed_key generated h) in
      let second = finish_reply-Keeps conn conn.session.keys (drop 4 bytes) refl h in
      let one = length bytes == 68 in
      Keeps-if (ltb (length bytes) 4) _ _ h (
        Keeps-if (get_or bytes 0 0 == 1) _ _ (Keeps-if one _ _ first h)
          (Keeps-if (get_or bytes 0 0 == 0) _ _ (Keeps-if one _ _ second h) h))

  pair_verify-Keeps :
      (conn : Conn) (registered : List ℕ → Bool) (bytes generated : List ℕ)
      → IsVerified conn.session
      → Keeps (pair_verify crypto conn registered bytes generated)
  unfolding pair_verify set_setup_status
  pair_verify-Keeps conn registered bytes generated h =
      let again = with_session conn (set_setup_status conn.session) in
      Keeps-if (leb_ℤ (pos 0) (check_handshake_status conn.session.status)) _ _
        (verify_step-Keeps conn false registered bytes generated h)
        (Keeps-if conn.use_pin _ _ (verify_step-Keeps again true registered bytes generated tt) h)

  user_reply-Keeps :
      (conn conn' : Conn) (user pin private_key : List ℕ)
      → IsVerified conn.session
      → IsVerified
          (user_reply conn' (srp_new_user crypto conn.session user pin private_key)).0.session
  unfolding user_reply srp_new_user
  user_reply-Keeps conn conn' user pin private_key h =
      let (salt, verifier) = crypto.srp_verification_key user pin in
      elim (Bool-cases (ltb 24 (length user))) [
        | inl a ↦ rw a h
        | inr a ↦ elim (Bool-cases (not (length salt == 16) || not (length verifier == 256))) [
          | inl b ↦ rw (a, b) h
          | inr b ↦ rw (a, b) h
        ]
      ]

  accept_proof-Keeps :
      (conn : Conn) (srp : Srp) (verdict : Option (List ℕ × List ℕ))
      → IsVerified conn.session
      → Keeps (proof_reply conn (some (accept_proof crypto conn.session srp verdict)))
  unfolding proof_reply accept_proof
  accept_proof-Keeps conn srp none h = h
  accept_proof-Keeps conn srp (some (key, m2)) h = elim (Bool-cases (length key == 40)) [
    | inl e ↦ rw e h
    | inr e ↦ rw e h
  ]

  accept_client-Keeps :
      (conn : Conn) (s : Session) (key : List ℕ) (pk : Option (List ℕ))
      → IsVerified s
      → Keeps (confirm_reply conn (some (accept_client crypto s key pk)))
  unfolding confirm_reply accept_client set_setup_status
  accept_client-Keeps conn s key none h = h
  accept_client-Keeps conn s key (some pk) h = tt

  proof_reply-Keeps :
      (conn : Conn) (srp : Option Srp) (a proof : List ℕ)
      → IsVerified conn.session
      → Keeps (proof_reply conn (srp_validate_proof crypto conn.session srp a proof))
  unfolding srp_validate_proof proof_reply
  proof_reply-Keeps conn none a proof h = tt
  proof_reply-Keeps conn (some srp) a proof h = accept_proof-Keeps conn srp _ h

  confirm_reply-Keeps :
      (conn : Conn) (srp : Option Srp) (epk tag : List ℕ)
      → IsVerified conn.session
      → Keeps (confirm_reply conn (srp_confirm_pair_setup crypto conn.session srp epk tag))
  unfolding srp_confirm_pair_setup confirm_reply
  confirm_reply-Keeps conn none epk tag h = tt
  confirm_reply-Keeps conn (some srp) epk tag h = accept_client-Keeps conn _ _ _ h

  pair_setup_pin-Keeps :
      (conn : Conn) (request : PinRequest) (private_key : List ℕ)
      → IsVerified conn.session
      → Keeps (pair_setup_pin crypto conn request private_key)
  unfolding pair_setup_pin
  pair_setup_pin-Keeps conn no_plist private_key h = h
  pair_setup_pin-Keeps conn (first_part method user) private_key h =
      Keeps-if (has_prefix method (codes "pin")) _ _ (user_reply-Keeps conn _ user _ private_key h)
        h
  pair_setup_pin-Keeps conn (second_part pk proof) private_key h =
      Keeps-if (ltb 64 (length proof)) _ _ tt (proof_reply-Keeps conn conn.session.srp pk proof h)
  pair_setup_pin-Keeps conn (third_part epk tag) private_key h =
      Keeps-if (ltb (length epk) 32 || ltb (length tag) 16) _ _ tt
        (confirm_reply-Keeps conn conn.session.srp _ _ h)
  pair_setup_pin-Keeps conn other_items private_key h = h

  handle-Keeps : (conn : Conn) (r : Request) → IsVerified conn.session → Keeps (handle conn r)
  unfolding handle pair_pin_start pair_setup set_setup_status
  handle-Keeps conn (pin_start random) h = h
  handle-Keeps conn (setup_pin request private_key) h =
      pair_setup_pin-Keeps conn request private_key h
  handle-Keeps conn (setup_request bytes) h = elim (Bool-cases (length bytes == 32)) [
    | inl e ↦ rw e tt
    | inr e ↦ rw e h
  ]
  handle-Keeps conn (verify_request registered bytes generated) h =
      pair_verify-Keeps conn registered bytes generated h

  abbrev AfterAll : Option Conn → Type 0
  AfterAll none = Unit {0}
  AfterAll (some conn) = IsVerified conn.session

  handle_all-AfterAll :
      (rs : List Request) (conn : Conn) → IsVerified conn.session → AfterAll (handle_all conn rs)
  unfolding handle_all
  handle_all-AfterAll [] conn h = h
  handle_all-AfterAll (r ∷ rs) conn h =
      let kept = handle-Keeps conn r h in
      elim (Option-cases (handle conn r)) [
        | inl e ↦ rw e tt
        | inr ((conn', reply), e) ↦
            let next = subst Keeps e kept in rw e (handle_all-AfterAll rs conn' next)
      ]

  -- Whatever requests a client of a new session sends, in any order, as long as the program handles
  -- them without a fault: where the session says that it is finished, it holds keys and there was a
  -- signature that was verified under them; where it says handshake, it holds keys.
  pub handle_all-IsVerified :
      (ed : List ℕ) (pin : ℕ) (use_pin : Bool) (rs : List Request) (conn : Conn)
      → handle_all (record { session = init ed; pin = pin; use_pin = use_pin }) rs ≡ some conn
      → IsVerified conn.session
  unfolding init
  handle_all-IsVerified ed pin use_pin rs conn e =
      subst AfterAll e
        (handle_all-AfterAll rs (record { session = init ed; pin = pin; use_pin = use_pin }) tt)
