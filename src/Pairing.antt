-- ===== src/Pairing.antt =====
-- include/AirPlayServer/lib/pairing.c: the state of the pairing with one client.
-- OpenSSL and the csrp library (include/AirPlayServer/lib/srp.c is a copy of it) are a parameter:
-- a record of the functions that the code calls. Keys are their raw bytes.
-- `none` is an access through a NULL pointer, or the end of the process by `handle_error` of crypto.c.
-- Of OpenSSL's calls the derivation of the X25519 secret fails for some keys of a client; the others
-- fail for lack of memory only, and such a failure is not modelled.
pub mod Handlers
pub mod Verified
pub mod Faults
pub mod Setup
use j_a_r_v_i_s.Prelude.{
  ℕ, zero, suc, ◌+◌, ◌*◌, ◌%◌, ◌<◌, ◌≤◌, Bool, true, false, not, ◌||◌, Option, none, some, List, [],
  ◌∷◌, ◌++◌, ltb, ◌==◌, if◌then◌else◌, length, get_or, set, take, replicate, codes, ◌⊎◌, inl, inr,
}
use j_a_r_v_i_s.Prelude.Int.{ℤ, pos, negsuc}
use j_a_r_v_i_s.MirrorBuffer.{AesCtr, aes_ctr_encrypt}

pub record Crypto : Type 0 where
  pub sha512 : List ℕ → List ℕ
  -- The key stream of AES-CTR for a key and an initialisation vector.
  pub aes_stream : List ℕ → List ℕ → ℕ → ℕ
  pub x25519_public : List ℕ → List ℕ
  -- Our key and theirs; none where OpenSSL derives nothing, as for a key of small order.
  pub x25519_derive_secret : List ℕ → List ℕ → Option (List ℕ)
  pub ed25519_public : List ℕ → List ℕ
  pub ed25519_sign : List ℕ → List ℕ → List ℕ
  -- The signature, the message and the key.
  pub ed25519_verify : List ℕ → List ℕ → List ℕ → Bool
  -- The text, the key, the initialisation vector and the tag.
  pub gcm_decrypt : List ℕ → List ℕ → List ℕ → List ℕ → Option (List ℕ)
  pub gcm_encrypt : List ℕ → List ℕ → List ℕ → List ℕ × List ℕ
  -- The user and the pin give a salt and a verifier.
  pub srp_verification_key : List ℕ → List ℕ → List ℕ × List ℕ
  pub srp_ephemeral_key : List ℕ → List ℕ → List ℕ
  -- The user, the salt, the verifier, A, b and the proof give the session key and M2.
  pub srp_verify : List ℕ → List ℕ → List ℕ → List ℕ → List ℕ → List ℕ → Option (List ℕ × List ℕ)
  pub base64 : List ℕ → List ℕ

-- `srp_t`
pub record Srp : Type 0 where
  pub salt : List ℕ
  pub verifier : List ℕ
  pub session_key : List ℕ
  pub private_key : List ℕ

pub data Status : Type 0 where
  initial : Status
  setup : Status
  handshake : Status
  finished : Status

-- The keys that a handshake stores: NULL before.
pub record Keys : Type 0 where
  pub ed_theirs : List ℕ
  pub ecdh_ours : List ℕ
  pub ecdh_theirs : List ℕ
  pub ecdh_secret : List ℕ

-- `pairing_session_t`
pub record Session : Type 0 where
  pub status : Status
  pub ed_ours : List ℕ
  pub keys : Option Keys
  pub username : List ℕ
  pub client_pk : List ℕ
  pub pair_setup : Bool
  pub srp : Option Srp

-- `pairing_session_init`, for the key of the pairing.
unfoldable pub init : List ℕ → Session
init ed = record {
  status = initial;
  ed_ours = ed;
  keys = none;
  username = replicate 25 0;
  client_pk = replicate 32 0;
  pair_setup = false;
  srp = none;
}

unfoldable pub set_setup_status : Session → Session
set_setup_status s = record s { status = setup }

unfoldable pub is_handshake : Status → Bool
is_handshake handshake = true
is_handshake _ = false

unfoldable pub is_finished : Status → Bool
is_finished finished = true
is_finished _ = false

-- `pairing_session_check_handshake_status`: 0 or -1.
unfoldable pub check_handshake_status : Status → ℤ
check_handshake_status setup = pos 0
check_handshake_status handshake = pos 0
check_handshake_status _ = negsuc 0

-- The secret stays zero until the first handshake.
unfoldable pub secret_of : Option Keys → List ℕ
secret_of none = replicate 32 0
secret_of (some keys) = keys.ecdh_secret

-- `pairing_get_ecdh_secret_key`: 0 is `none`.
unfoldable pub get_ecdh_secret_key : Status → Option Keys → Option (List ℕ)
get_ecdh_secret_key initial keys = none
get_ecdh_secret_key _ keys = some (secret_of keys)

-- `random_pin`: each draw is two random bytes, or a failure, which ends the loop with -1. `none`
-- means that the draws are used up.
unfoldable pub random_pin : List (Option (ℕ × ℕ)) → Option ℤ
random_pin [] = none
random_pin (none ∷ draws) = some (negsuc 0)
random_pin (some (low, high) ∷ draws) =
    let random_short = (low + high * 256) % 10000 in
    let next = random_pin draws in if random_short == 0 then next else some (pos random_short)

-- `strncpy(session->username, device_id, SRP_USERNAME_SIZE)`
abbrev pub username_of : List ℕ → List ℕ
username_of device_id = take 25 (device_id ++ replicate 25 0)

-- `calloc`, with the private key.
unfoldable pub new_srp : List ℕ → Srp
new_srp private_key = record {
  salt = replicate 16 0;
  verifier = replicate 256 0;
  session_key = replicate 40 0;
  private_key = private_key;
}

-- The end of `pairing_session_handshake`, behind `x25519_derive_secret`, which ends the process
-- where nothing is derived.
unfoldable pub store_keys :
    Session → List ℕ → List ℕ → List ℕ → Option (List ℕ) → Option (Session × Bool)
store_keys s ecdh_key ed_key generated none = none
store_keys s ecdh_key ed_key generated (some secret) = some (
  record s {
    status = handshake;
    keys = some (record {
      ed_theirs = ed_key;
      ecdh_ours = generated;
      ecdh_theirs = ecdh_key;
      ecdh_secret = secret;
    });
  },
  true,
)

-- `aes_ctr_init`
abbrev pub new_ctx : AesCtr
new_ctx = record { position = 0; block_offset = 0 }

module _ (crypto : Crypto) where
  -- `derive_key_internal`, for keys of 16 bytes.
  unfoldable pub derive_key : Keys → List ℕ → List ℕ
  derive_key keys salt = take 16 (crypto.sha512 (salt ++ keys.ecdh_secret))

  -- The key stream of the verification.
  unfoldable pub verify_stream : Keys → ℕ → ℕ
  verify_stream keys =
      crypto.aes_stream (derive_key keys (codes "Pair-Verify-AES-Key"))
        (derive_key keys (codes "Pair-Verify-AES-IV"))

  -- `pairing_session_handshake`, for the key that `x25519_key_generate` makes. The answer is whether
  -- it returns 0.
  unfoldable pub session_handshake : Session → List ℕ → List ℕ → List ℕ → Option (Session × Bool)
  unfolding store_keys
  session_handshake s ecdh_key ed_key generated =
      if is_finished s.status
      then some (s, false)
      else store_keys s ecdh_key ed_key generated (crypto.x25519_derive_secret generated ecdh_key)

  -- `pairing_session_get_public_key`: the inner `none` is -1.
  unfoldable pub session_get_public_key : Session → Option Keys → Option (Option (List ℕ))
  session_get_public_key s none = if is_handshake s.status then none else some none
  session_get_public_key s (some keys) =
      if is_handshake s.status then some (some (crypto.x25519_public keys.ecdh_ours)) else some none

  -- `pairing_session_get_signature`
  unfoldable pub session_get_signature : Session → Option Keys → Option (Option (List ℕ))
  session_get_signature s none = if is_handshake s.status then none else some none
  session_get_signature s (some keys) =
      let sig_msg = crypto.x25519_public keys.ecdh_ours ++ keys.ecdh_theirs in
      let (_, signature) =
        aes_ctr_encrypt (verify_stream keys) new_ctx (crypto.ed25519_sign s.ed_ours sig_msg) in
      if is_handshake s.status then some (some signature) else some none

  -- The check in `pairing_session_finish`: the key stream is used from byte 64 on, behind the fake
  -- round.
  unfoldable pub check_signature : Keys → List ℕ → Bool
  check_signature keys signature =
      let (ctx', _) = aes_ctr_encrypt (verify_stream keys) new_ctx (replicate 64 0) in
      let (_, sig_buffer) = aes_ctr_encrypt (verify_stream keys) ctx' signature in
      let sig_msg = keys.ecdh_theirs ++ crypto.x25519_public keys.ecdh_ours in
      crypto.ed25519_verify sig_buffer sig_msg keys.ed_theirs

  -- `pairing_session_finish`: 0, -1 or -2.
  unfoldable pub session_finish : Session → Option Keys → List ℕ → Option (Session × ℤ)
  session_finish s none signature = if is_handshake s.status then none else some (s, negsuc 0)
  session_finish s (some keys) signature =
      if not (is_handshake s.status)
      then some (s, negsuc 0)
      else if check_signature keys signature
      then some (record s { status = finished }, pos 0)
      else some (s, negsuc 1)

  -- `srp_new_user`, for the random private key: 0 with the salt and the public key, or its code.
  unfoldable pub srp_new_user :
      Session → List ℕ → List ℕ → List ℕ → Session × (List ℕ × List ℕ) ⊎ Session × ℤ
  srp_new_user s device_id pin private_key =
      let (salt, verifier) = crypto.srp_verification_key device_id pin in
      let fresh = new_srp private_key in
      let s' = record s { username = username_of device_id; srp = some fresh } in
      if ltb 24 (length device_id)
      then inr (s, negsuc 0)
      else if not (length salt == 16) || not (length verifier == 256)
      then inr (s', negsuc 2)
      else inl (
        record s' { srp = some (record fresh { salt = salt; verifier = verifier }) },
        (salt, crypto.srp_ephemeral_key verifier private_key),
      )

  -- What `srp_validate_proof` does with the result of `srp_verifier_verify_session`: the inner
  -- result is M2, or none for a code below 0.
  unfoldable pub accept_proof : Session → Srp → Option (List ℕ × List ℕ) → Session × Option (List ℕ)
  accept_proof s srp none = (record s { srp = none }, none)
  accept_proof s srp (some (session_key, m2)) =
      if length session_key == 40
      then (record s { srp = some (record srp { session_key = session_key }) }, some m2)
      else (s, none)

  unfoldable pub srp_validate_proof :
      Session → Option Srp → List ℕ → List ℕ → Option (Session × Option (List ℕ))
  srp_validate_proof s none a proof = none
  srp_validate_proof s (some srp) a proof = some (
      accept_proof s srp
        (crypto.srp_verify s.username srp.salt srp.verifier a srp.private_key proof))

  -- `aesKey`, and `aesIV` with its last byte raised `n` times.
  unfoldable pub setup_key : List ℕ → List ℕ
  setup_key session_key = take 16 (crypto.sha512 (codes "Pair-Setup-AES-Key" ++ session_key))

  unfoldable pub setup_iv : List ℕ → ℕ → List ℕ
  setup_iv session_key n =
      let iv = take 16 (crypto.sha512 (codes "Pair-Setup-AES-IV" ++ session_key)) in
      set iv 15 ((get_or iv 15 0 + n) % 256)

  unfoldable pub accept_client :
      Session → List ℕ → Option (List ℕ) → Session × Option (List ℕ × List ℕ)
  accept_client s session_key none = (s, none)
  accept_client s session_key (some pk) = (
    record s { client_pk = pk; pair_setup = true },
    some (
        crypto.gcm_encrypt (crypto.ed25519_public s.ed_ours) (setup_key session_key)
          (setup_iv session_key 2)),
  )

  -- `srp_confirm_pair_setup`: the server's `epk` and `auth_tag`, or none for -1.
  unfoldable pub srp_confirm_pair_setup :
      Session → Option Srp → List ℕ → List ℕ → Option (Session × Option (List ℕ × List ℕ))
  srp_confirm_pair_setup s none epk auth_tag = none
  srp_confirm_pair_setup s (some srp) epk auth_tag =
      let key = srp.session_key in
      some (
        accept_client (record s { srp = none }) key
          (crypto.gcm_decrypt epk (setup_key key) (setup_iv key 1) auth_tag))
