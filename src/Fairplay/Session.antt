-- ===== src/Fairplay/Session.antt =====
-- The keys that fairplay_playfair.c decrypts with, over all requests of a client.
use j_a_r_v_i_s.Prelude.{
  ℕ, ◌≡◌, sym, refl, arith, Bool, true, false, not, ◌&&◌, ◌||◌, Option, none, some, List, [], ◌∷◌,
  leb, ◌==◌, if◌then◌else◌, length, get_or, Bool-cases, Option-cases, inl, inr, is_none, ◌>>=◌,
  take_all, ==→eq,
}
use mathlib.Core.Path.{subst}
use j_a_r_v_i_s.Fairplay.{
  Fairplay, init, reply_message, setup_reply, fairplay_setup, fairplay_handshake, fairplay_decrypt,
  fpsetup,
}

-- A setup request that reads behind the table of the replies.
abbrev pub is_overread : List ℕ → Bool
is_overread bytes = length bytes == 16 && (get_or bytes 4 0 == 3 && leb 4 (get_or bytes 14 0))

unfoldable pub fpsetup_all : Fairplay → List (List ℕ) → Option Fairplay
fpsetup_all fp [] = some fp
fpsetup_all fp (bytes ∷ later) = do (fp', reply) ← fpsetup fp bytes; fpsetup_all fp' later

-- The key message after a request: a setup forgets it, and a handshake brings one.
unfoldable pub key_after : Option (List ℕ) → List ℕ → Option (List ℕ)
key_after key bytes =
    if not (get_or bytes 4 0 == 3)
    then key
    else if length bytes == 16
    then none
    else if length bytes == 164
    then some bytes
    else key

unfoldable pub key_after_all : Option (List ℕ) → List (List ℕ) → Option (List ℕ)
key_after_all key [] = key
key_after_all key (bytes ∷ later) = key_after_all (key_after key bytes) later

unfoldable pub any_overread : List (List ℕ) → Bool
any_overread [] = false
any_overread (bytes ∷ later) = is_overread bytes || any_overread later

-- The state that stands for a key message.
abbrev Holds : Fairplay → Option (List ℕ) → Type 0
Holds fp none = fp.keymsglen ≡ 0
Holds fp (some key) = (fp.keymsglen ≡ 164) × (fp.keymsg ≡ key)

reply_message_lem : (mode : ℕ) → is_none (reply_message mode) ≡ leb 4 mode
unfolding reply_message
reply_message_lem mode = ground arith

-- What a request leads to.
abbrev After : Bool → Option (List ℕ) → Option (Fairplay × Option (List ℕ)) → Type 0
After overread key none = overread ≡ true
After overread key (some (fp, reply)) = (overread ≡ false) × Holds fp key

setup_reply-After :
    (fp : Fairplay) (overread : Bool) (message : Option (List ℕ))
    → is_none message ≡ overread
    → After overread none (setup_reply fp message)
unfolding setup_reply
setup_reply-After fp overread none e = sym e
setup_reply-After fp overread (some m) e = (sym e, refl)

fpsetup-After :
    (fp : Fairplay) (key : Option (List ℕ)) (bytes : List ℕ)
    → Holds fp key
    → After (is_overread bytes) (key_after key bytes) (fpsetup fp bytes)
unfolding fpsetup fairplay_setup fairplay_handshake key_after
fpsetup-After fp key bytes h =
    let mode = get_or bytes 14 0 in
    let setup = setup_reply-After fp (leb 4 mode) (reply_message mode) (reply_message_lem mode) in
    elim (Bool-cases (length bytes == 16)) [
      | inl a ↦ elim (Bool-cases (get_or bytes 4 0 == 3)) [
        | inl b ↦ rw (a, b) setup
        | inr b ↦ rw (a, b) (refl, h)
      ]
      | inr a ↦ elim (Bool-cases (length bytes == 164)) [
        | inl c ↦ elim (Bool-cases (get_or bytes 4 0 == 3)) [
          | inl b ↦
              rw (a, b, c)
                (refl, (refl, take_all 164 bytes (omega (arith, ==→eq (length bytes) 164 c))))
          | inr b ↦ rw (a, b, c) (refl, h)
        ]
        | inr c ↦ elim (Bool-cases (get_or bytes 4 0 == 3)) [
          | inl b ↦ rw (a, b, c) (refl, h)
          | inr b ↦ rw (a, b, c) (refl, h)
        ]
      ]
    ]

-- What a client's requests lead to.
abbrev Afterwards : Bool → Option (List ℕ) → Option Fairplay → Type 0
Afterwards overread key none = overread ≡ true
Afterwards overread key (some fp) = (overread ≡ false) × Holds fp key

fpsetup_all-Afterwards :
    (requests : List (List ℕ)) (fp : Fairplay) (key : Option (List ℕ))
    → Holds fp key
    → Afterwards (any_overread requests) (key_after_all key requests) (fpsetup_all fp requests)
unfolding any_overread key_after_all fpsetup_all
fpsetup_all-Afterwards [] fp key h = (refl, h)
fpsetup_all-Afterwards (bytes ∷ later) fp key h =
    let after = fpsetup-After fp key bytes h in
    elim (Option-cases (fpsetup fp bytes)) [
      | inl e ↦
          let over = subst (After (is_overread bytes) (key_after key bytes)) e after in
          rw (e, over) refl
      | inr ((fp', reply), e) ↦
          let (safe, holds) = subst (After (is_overread bytes) (key_after key bytes)) e after in
          rw (e, safe) (fpsetup_all-Afterwards later fp' (key_after key bytes) holds)
    ]

decrypt-Afterwards :
    (playfair : List ℕ → List ℕ → List ℕ) (input : List ℕ) (overread : Bool) (key : Option (List ℕ))
    (o : Option Fairplay)
    → Afterwards overread key o
    → (o >>= λ fp. some (fairplay_decrypt playfair fp input))
      ≡ (if overread then none else some (key >>= λ k. some (playfair k input)))
unfolding fairplay_decrypt
decrypt-Afterwards playfair input overread key none h = rw h refl
decrypt-Afterwards playfair input overread none (some fp) (safe, len) = rw (safe, len) refl
decrypt-Afterwards playfair input overread (some k) (some fp) (safe, (len, same)) =
    rw (safe, len, same) refl

-- For any fp-setup requests of a client, in any order: they lead to a read behind the table of the
-- replies exactly when one of them is a setup of version 3 with a mode above 3. Otherwise
-- fairplay_decrypt uses the key message of the last handshake of version 3, and fails where there
-- was none or a setup of version 3 came after it.
pub fpsetup_all-fairplay_decrypt :
    (playfair : List ℕ → List ℕ → List ℕ) (requests : List (List ℕ)) (input : List ℕ)
    → (fpsetup_all init requests >>= λ fp. some (fairplay_decrypt playfair fp input)) ≡ (
        if any_overread requests
        then none
        else some (key_after_all none requests >>= λ k. some (playfair k input)))
unfolding init
fpsetup_all-fairplay_decrypt playfair requests input =
    decrypt-Afterwards playfair input (any_overread requests) (key_after_all none requests)
      (fpsetup_all init requests) (fpsetup_all-Afterwards requests init none refl)
