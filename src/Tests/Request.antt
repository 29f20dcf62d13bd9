-- ===== src/Tests/Request.antt =====
-- include/AirPlayServer/lib/http_request.c: the callbacks of a request with two header fields.
use j_a_r_v_i_s.Prelude.{◌≡◌, refl, some, List, [], ◌∷◌, codes, ◌>>=◌}
use j_a_r_v_i_s.HttpRequest.{
  HttpRequest, Callback, on_url, on_header_field, on_header_value, init, add_data, until_nul,
  get_header,
}
use j_a_r_v_i_s.HttpRequest.Headers.{
  Field, before, in_value, advance, advance_all, Represents, add_data_refines, init-Represents,
}
use j_a_r_v_i_s.HttpRequest.Lookup.{lookup_field, all_fields, get_header-add_data}

-- The first name comes in two pieces, as a parser that was given two packets reports it.
abbrev callbacks : List Callback
callbacks =
    on_url (codes "/info") (codes " RTSP/1.0")
    ∷ on_header_field (codes "CS")
    ∷ on_header_field (codes "eq")
    ∷ on_header_value (codes "7")
    ∷ on_header_field (codes "Session")
    ∷ on_header_value (codes "1")
    ∷ []

abbrev done : List Field
done = (codes "CSeq", codes "7") ∷ []

read_all : advance_all before callbacks ≡ some (in_value done (codes "Session") (codes "1"))
unfolding advance_all advance until_nul
read_all = refl

add_data_refines_example :
    (r : HttpRequest) × (add_data init callbacks ≡ some r)
    × Represents r (in_value done (codes "Session") (codes "1"))
add_data_refines_example =
    add_data_refines callbacks init before (in_value done (codes "Session") (codes "1"))
      init-Represents read_all

get_header-add_data_example :
    (add_data init callbacks >>= λ r. get_header r (codes "CSeq"))
    ≡ some (lookup_field (all_fields done (codes "Session") (codes "1")) (codes "CSeq"))
get_header-add_data_example =
    get_header-add_data callbacks done (codes "Session") (codes "1") (codes "CSeq") read_all
