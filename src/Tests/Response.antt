-- ===== src/Tests/Response.antt =====
-- include/AirPlayServer/lib/http_response.c: a short response, and one that outgrows its block.
use mathlib.Core.List.{flatten}
use j_a_r_v_i_s.Prelude.{
  ℕ, ◌≡◌, refl, none, some, List, [], ◌∷◌, arith, codes, decimal, decimal_fuel, replicate,
}
use j_a_r_v_i_s.HttpResponse.{create, add_all}
use j_a_r_v_i_s.HttpResponse.Buffer.{add_all_overflow}
use j_a_r_v_i_s.HttpResponse.Message.{respond, response_texts, respond_bytes}

abbrev headers : List (List ℕ × List ℕ)
headers = (codes "CSeq", codes "3") ∷ (codes "Content-Type", codes "text/parameters") ∷ []

abbrev body : List ℕ
body = codes "volume: 0.000000"

respond_bytes_example :
    respond create (codes "RTSP/1.0") 200 (codes "OK") headers body
    ≡ some (flatten (response_texts (codes "RTSP/1.0") 200 (codes "OK") headers body))
unfolding create decimal decimal_fuel
respond_bytes_example =
    respond_bytes create (codes "RTSP/1.0") 200 (codes "OK") headers body (omega arith)
      (omega arith) (omega arith) (omega arith) (ground arith)

-- Three texts of 900 bytes.
abbrev long_texts : List (List ℕ)
long_texts = replicate 3 (replicate 900 65)

add_all_overflow_example : add_all create long_texts ≡ none
unfolding create flatten
add_all_overflow_example =
    add_all_overflow long_texts create refl (omega arith, (omega arith, (omega arith, tt)))
      (omega arith) (omega arith)
