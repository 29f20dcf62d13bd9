-- ===== src/HttpRequest.antt =====
-- include/AirPlayServer/lib/http_request.c: a request collected from the parser's callbacks.
-- llhttp is a parameter: a call of it is the list of callbacks that it makes. A `NULL` pointer is
-- `none`; a write or a read through one that the code does not check is a fault, also `none`.
pub mod Headers
pub mod Lookup
use j_a_r_v_i_s.Prelude.{
  ℕ, zero, suc, ◌+◌, ◌%◌, Bool, true, false, Option, none, some, List, [], ◌∷◌, ◌++◌, ltb, ◌==◌,
  ◌&&◌, if◌then◌else◌, length, get_or, set, take, drop, ◌>>=◌,
}

pub record HttpRequest : Type 0 where
  pub method : Option ℕ
  pub url : Option (List ℕ)
  pub protocol : List ℕ
  pub headers : List (Option (List ℕ))
  pub headers_index : ℕ
  pub body : List ℕ
  pub complete : Bool

-- The callbacks of llhttp. `on_url` comes with the bytes that follow the text in memory, and
-- `on_message_complete` with the method that was parsed.
pub data Callback : Type 0 where
  on_url : List ℕ → List ℕ → Callback
  on_header_field : List ℕ → Callback
  on_header_value : List ℕ → Callback
  on_body : List ℕ → Callback
  on_message_complete : ℕ → Callback

unfoldable pub init : HttpRequest
init = record {
  method = none;
  url = none;
  protocol = [];
  headers = [];
  headers_index = 0;
  body = [];
  complete = false;
}

-- What `strncat` and `strncpy` take of a text: the bytes before a zero.
unfoldable pub until_nul : List ℕ → List ℕ
until_nul [] = []
until_nul (c ∷ cs) = let rest = c ∷ until_nul cs in if c == 0 then [] else rest

-- `calloc` or `realloc`, and then `strncat`.
unfoldable pub append_text : Option (List ℕ) → List ℕ → List ℕ
append_text none text = until_nul text
append_text (some old) text = old ++ until_nul text

-- `headers_size` is the length of the array.
abbrev pub headers_size : HttpRequest → ℕ
headers_size r = length r.headers

-- "Allocate space in the current header string": a fault where the index is behind the array.
unfoldable pub append_header : HttpRequest → ℕ → List ℕ → Option HttpRequest
append_header r index text =
    if ltb index (headers_size r)
    then some (record r {
      headers_index = index;
      headers = set r.headers index (some (append_text (get_or r.headers index none) text));
    })
    else none

unfoldable pub header_field : HttpRequest → List ℕ → Option HttpRequest
header_field r text =
    let index = if r.headers_index % 2 == 1 then r.headers_index + 1 else r.headers_index in
    let r' =
      if index == headers_size r
      then record r { headers = r.headers ++ (none ∷ none ∷ []) }
      else r in
    append_header r' index text

unfoldable pub header_value : HttpRequest → List ℕ → Option HttpRequest
header_value r text =
    let index = if r.headers_index % 2 == 0 then r.headers_index + 1 else r.headers_index in
    append_header r index text

unfoldable pub callback : HttpRequest → Callback → Option HttpRequest
callback r (on_url text after) =
    some (record r {
      url = some (append_text r.url text);
      protocol = take 8 (until_nul (drop 1 after));
    })
callback r (on_header_field text) = header_field r text
callback r (on_header_value text) = header_value r text
callback r (on_body text) = some (record r { body = r.body ++ text })
callback r (on_message_complete method) = some (record r { method = some method; complete = true })

-- `http_request_add_data`: the callbacks that `llhttp_execute` makes.
unfoldable pub add_data : HttpRequest → List Callback → Option HttpRequest
add_data r [] = some r
add_data r (c ∷ cs) = callback r c >>= λ r'. add_data r' cs

-- `strcmp` is 0.
unfoldable pub same_text : List ℕ → List ℕ → Bool
same_text [] [] = true
same_text [] (y ∷ ys) = false
same_text (x ∷ xs) [] = false
same_text (x ∷ xs) (y ∷ ys) = x == y && same_text xs ys

-- The loop of `http_request_get_header` over the array, two entries a round. The outer option is
-- the fault of a field that is `NULL`.
unfoldable pub search_header : List (Option (List ℕ)) → List ℕ → Option (Option (List ℕ))
search_header [] name = some none
search_header (field ∷ []) name = none
search_header (none ∷ value ∷ rest) name = none
search_header (some field ∷ value ∷ rest) name =
    let later = search_header rest name in if same_text field name then some value else later

unfoldable pub get_header : HttpRequest → List ℕ → Option (Option (List ℕ))
get_header r name = search_header r.headers name

-- The text that the second loop of `http_request_get_header_string` prints.
unfoldable pub header_lines : List (Option (List ℕ)) → Option (List ℕ)
header_lines [] = some []
header_lines (field ∷ []) = none
header_lines (none ∷ value ∷ rest) = none
header_lines (some field ∷ none ∷ rest) = none
header_lines (some field ∷ some value ∷ rest) =
    header_lines rest >>= λ later. some (field ++ (58 ∷ 32 ∷ (value ++ (10 ∷ later))))

-- `*header_str` is `NULL` for a request with no headers.
unfoldable pub get_header_string : HttpRequest → Option (Option (List ℕ))
get_header_string r =
    if headers_size r == 0 then some none else (header_lines r.headers >>= λ text. some (some text))

unfoldable pub is_complete : HttpRequest → Bool
is_complete r = r.complete

unfoldable pub get_method : HttpRequest → Option ℕ
get_method r = r.method

unfoldable pub get_url : HttpRequest → Option (List ℕ)
get_url r = r.url

unfoldable pub get_protocol : HttpRequest → List ℕ
get_protocol r = r.protocol

unfoldable pub get_data : HttpRequest → List ℕ
get_data r = r.body
