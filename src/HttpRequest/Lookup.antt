-- ===== src/HttpRequest/Lookup.antt =====
-- Looking a header up in http_request.c, and printing all of them.
use j_a_r_v_i_s.Prelude.{
  ℕ, ◌≡◌, refl, false, Option, none, some, List, [], ◌∷◌, ◌++◌, arith, ◌==◌, if◌then◌else◌, length,
  length-append, ◌>>=◌,
}
use j_a_r_v_i_s.HttpRequest.{
  Callback, init, add_data, same_text, search_header, get_header, header_lines, get_header_string,
}
use j_a_r_v_i_s.HttpRequest.Headers.{
  Field, before, in_value, advance_all, layout, headers_of, layout-append, add_data_refines,
  init-Represents,
}

-- The first field of that name, as a client of the array wants it.
unfoldable pub lookup_field : List Field → List ℕ → Option (List ℕ)
lookup_field [] name = none
lookup_field ((field, value) ∷ fields) name =
    let later = lookup_field fields name in if same_text field name then some value else later

search-layout :
    (fields : List Field) (name : List ℕ)
    → search_header (layout fields) name ≡ some (lookup_field fields name)
unfolding search_header lookup_field
search-layout [] name = refl
search-layout ((field, value) ∷ fields) name = ground (arith, search-layout fields name)

-- The fields of a request whose last value has been read.
abbrev pub all_fields : List Field → List ℕ → List ℕ → List Field
all_fields done name value = done ++ (name, value) ∷ []

-- `http_request_get_header` finds the value of the first field of that name, and never reads
-- through a `NULL` pointer, once the callbacks have ended with a value.
pub get_header-add_data :
    (cs : List Callback) (done : List Field) (name value key : List ℕ)
    → advance_all before cs ≡ some (in_value done name value)
    → (add_data init cs >>= λ r. get_header r key)
      ≡ some (lookup_field (all_fields done name value) key)
unfolding get_header
get_header-add_data cs done name value key e =
    let (r, run, s) =
      add_data_refines cs init before (in_value done name value) init-Represents e in
    rw (run, s.headers, ← layout-append done ((name, value) ∷ []))
      (search-layout (all_fields done name value) key)

-- The text of one header line.
unfoldable pub print_fields : List Field → List ℕ
print_fields [] = []
print_fields ((field, value) ∷ fields) = field ++ (58 ∷ 32 ∷ (value ++ (10 ∷ print_fields fields)))

lines-layout : (fields : List Field) → header_lines (layout fields) ≡ some (print_fields fields)
unfolding header_lines print_fields
lines-layout [] = refl
lines-layout ((field, value) ∷ fields) = rw (lines-layout fields)

-- `http_request_get_header_string` prints every field with its value, in the order of arrival, once
-- the callbacks have ended with a value.
pub get_header_string-add_data :
    (cs : List Callback) (done : List Field) (name value : List ℕ)
    → advance_all before cs ≡ some (in_value done name value)
    → (add_data init cs >>= λ r. get_header_string r)
      ≡ some (some (print_fields (all_fields done name value)))
unfolding get_header_string
get_header_string-add_data cs done name value e =
    let (r, run, s) =
      add_data_refines cs init before (in_value done name value) init-Represents e in
    let some_headers : (length (headers_of (in_value done name value)) == 0) ≡ false =
      let l = length-append (layout done) (some name ∷ some value ∷ []) in ground arith in
    rw (
      run,
      s.headers,
      some_headers,
      ← layout-append done ((name, value) ∷ []),
      lines-layout (all_fields done name value),
    )
