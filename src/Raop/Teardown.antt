-- ===== src/Raop/Teardown.antt =====
-- What a TEARDOWN request of several streams does in raop_handlers.h.
use j_a_r_v_i_s.Prelude.{
  ℕ, zero, suc, ◌≡◌, ◌∙◌, refl, Bool, true, false, not, ◌&&◌, ◌||◌, none, List, ◌∷◌, ◌==◌,
  if◌then◌else◌, length, Bool-cases, inl, inr,
}
use j_a_r_v_i_s.RaopRtp
use j_a_r_v_i_s.RaopRtpMirror.Service
use j_a_r_v_i_s.Raop.Media.{Media, teardown_flags, teardown, map_service}

or_twice : (a b : Bool) → ((a || b) || b) ≡ (a || b)
or_twice true b = refl
or_twice false true = refl
or_twice false false = refl

-- The flags after any number of rounds are those after the first.
teardown_flags_lem :
    (n type : ℕ) (types : List ℕ) (a b : Bool)
    → teardown_flags (suc n) (type ∷ types) (a, b)
      ≡ (a || type == 96, b || (not (type == 96) && type == 110))
unfolding teardown_flags
teardown_flags_lem zero type types a b = refl
teardown_flags_lem (suc n) type types a b =
    let audio = type == 96 in
    let video = not (type == 96) && type == 110 in
    teardown_flags_lem n type types (a || audio) (b || video)
    ∙ rw (or_twice a audio, or_twice b video) refl

-- Where no callback changes the flags, a request that names streams stops the service of its first
-- stream only, audio for type 96 and video for 110, whatever the types of the others are; both
-- services end where the first has another type.
pub teardown_lem :
    (m : Media) (type : ℕ) (types : List ℕ)
    → teardown (λ flags. flags) m (type ∷ types) ≡ (
        if type == 96
        then record m { raop_rtp = map_service RaopRtp.stop m.raop_rtp }
        else if type == 110
        then record m { raop_rtp_mirror = map_service Service.stop m.raop_rtp_mirror }
        else record { raop_rtp = none; raop_rtp_mirror = none })
unfolding teardown
teardown_lem m type types =
    let flags = teardown_flags_lem (length types) type types false false in
    elim (Bool-cases (type == 96)) [ inl e ↦ rw (flags, e) refl | inr e ↦ rw (flags, e) refl ]
