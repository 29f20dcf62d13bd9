-- ===== src/Tests/Control.antt =====
-- include/AirPlayServer/lib/raop.c: requests of two clients.
use j_a_r_v_i_s.Prelude.{
  ℕ, ◌≤◌, ◌≡◌, refl, true, none, some, List, [], ◌∷◌, codes, ◌++◌, ◌==◌, if◌then◌else◌, replicate,
  ◌>>=◌,
}
use j_a_r_v_i_s.Httpd
use j_a_r_v_i_s.Httpd.{
  Httpd, ConnectionType, connection_type_raop, connection_type_unknown, count_connection_type,
}
use j_a_r_v_i_s.HttpRequest.{same_text}
use j_a_r_v_i_s.Raop.{conn_init, pair_verify, select_handler, post_handler}
use j_a_r_v_i_s.RaopRtp
use j_a_r_v_i_s.RaopRtpMirror.Service
use j_a_r_v_i_s.Utils.{has_prefix}
use j_a_r_v_i_s.Fairplay
use j_a_r_v_i_s.Fairplay.{fairplay_decrypt}
use j_a_r_v_i_s.Fairplay.Session.{
  fpsetup_all, any_overread, key_after_all, fpsetup_all-fairplay_decrypt,
}
use j_a_r_v_i_s.Raop.Media.{Media, teardown, map_service, get_parameter, asks_volume, next_line}
use j_a_r_v_i_s.Raop.Teardown.{teardown_lem}
use j_a_r_v_i_s.Raop.OneClient.{Step, opens, asks, ends, step_all, one_client}

-- Two clients, of which both ask, and the first leaves.
abbrev steps : List Step
steps =
    opens 5 (some 1)
    ∷ opens 6 (some 2)
    ∷ asks (conn_init 1)
    ∷ asks (conn_init 2)
    ∷ ends 0
    ∷ asks (conn_init 2)
    ∷ []

one_client_example :
    count_connection_type (step_all (Httpd.init true) steps) connection_type_raop ≤ 1
one_client_example = one_client true steps

verify_is_dispatched :
    select_handler (codes "POST") (some (codes "/pair-verify")) ≡ some (some pair_verify)
unfolding select_handler post_handler same_text
verify_is_dispatched = refl

-- The handlers of the media on a connection whose services run.
abbrev two_streams : List ℕ
two_streams = 96 ∷ 110 ∷ []

abbrev idle : Media
idle = record { raop_rtp = some RaopRtp.init; raop_rtp_mirror = Service.init 4 (some 16) }

teardown_lem_example : teardown (λ flags. flags) idle two_streams ≡ (
    if 96 == 96
    then record idle { raop_rtp = map_service RaopRtp.stop idle.raop_rtp }
    else if 96 == 110
    then record idle { raop_rtp_mirror = map_service Service.stop idle.raop_rtp_mirror }
    else record { raop_rtp = none; raop_rtp_mirror = none })
teardown_lem_example = teardown_lem idle 96 (110 ∷ [])

-- The second line asks for the volume.
volume_is_found :
    get_parameter
      (some (codes "text/parameters"))
      (codes "x" ++ (13 ∷ 10 ∷ (codes "volume" ++ (13 ∷ 10 ∷ []))))
    ≡ some (codes "volume: 0.0" ++ (13 ∷ 10 ∷ []))
unfolding get_parameter asks_volume next_line has_prefix same_text
volume_is_found = refl

-- A setup and then a handshake.
abbrev fp_requests : List (List ℕ)
fp_requests =
    (0x46 ∷ 0x50 ∷ 0x4c ∷ 0x59 ∷ 3 ∷ replicate 9 0 ++ (1 ∷ 0 ∷ []))
    ∷ (0x46 ∷ 0x50 ∷ 0x4c ∷ 0x59 ∷ 3 ∷ replicate 159 7)
    ∷ []

abbrev no_playfair : List ℕ → List ℕ → List ℕ
no_playfair key input = key ++ input

fpsetup_all-fairplay_decrypt_example :
    (fpsetup_all Fairplay.init fp_requests >>= λ fp.
    some (fairplay_decrypt no_playfair fp (5 ∷ [])))
    ≡ (if any_overread fp_requests
        then none
        else some (key_after_all none fp_requests >>= λ k. some (no_playfair k (5 ∷ []))))
fpsetup_all-fairplay_decrypt_example = fpsetup_all-fairplay_decrypt no_playfair fp_requests (5 ∷ [])
