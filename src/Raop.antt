-- ===== src/Raop.antt =====
-- include/AirPlayServer/lib/raop.c: the requests of the control connections, up to the choice of
-- the handler, on the table of include/AirPlayServer/lib/httpd.c.
-- `none` is a failed assert, an access through a NULL pointer or a write behind the heap block.
-- llhttp's name of a method is a parameter.
pub mod OneClient
pub mod Media
pub mod Teardown
pub mod Lines
use j_a_r_v_i_s.Prelude.{
  ℕ, Bool, true, false, not, ◌&&◌, ◌||◌, Option, none, some, List, [], ◌∷◌, ◌==◌, if◌then◌else◌,
  codes, ◌>>=◌,
}
use j_a_r_v_i_s.HttpRequest.{
  HttpRequest, get_header, get_header_string, get_method, get_url, get_protocol, same_text,
}
use j_a_r_v_i_s.HttpResponse.{HttpResponse, create, add_header, finish}
use j_a_r_v_i_s.HttpResponse
use j_a_r_v_i_s.Httpd.{
  Httpd, ConnectionType, connection_type_unknown, connection_type_raop, count_connection_type,
  set_connection_type, remove_known_connections,
}

-- `raop_handler_t`
pub data Handler : Type 0 where
  info pair_pin_start pair_setup_pin pair_setup pair_verify fp_setup : Handler
  options setup get_parameter set_parameter feedback record_stream flush teardown : Handler

-- The part of `raop_conn_t` that `conn_request` changes itself.
pub record RaopConn : Type 0 where
  pub user_data : ℕ
  pub connection_type : ConnectionType
  pub have_active_remote : Bool

-- `conn_init`, for the address of the connection.
unfoldable pub conn_init : ℕ → RaopConn
conn_init user_data = record {
  user_data = user_data;
  connection_type = connection_type_unknown;
  have_active_remote = false;
}

-- The requests whose URL is looked at. `!strcmp(url, ...)` is not reached with another method.
unfoldable pub post_handler : List ℕ → Option Handler
post_handler url =
    if same_text url (codes "/pair-pin-start")
    then some pair_pin_start
    else if same_text url (codes "/pair-setup-pin")
    then some pair_setup_pin
    else if same_text url (codes "/pair-setup")
    then some pair_setup
    else if same_text url (codes "/pair-verify")
    then some pair_verify
    else if same_text url (codes "/fp-setup")
    then some fp_setup
    else if same_text url (codes "/feedback")
    then some feedback
    else none

unfoldable pub method_handler : List ℕ → Option Handler
method_handler method =
    if same_text method (codes "OPTIONS")
    then some options
    else if same_text method (codes "SETUP")
    then some setup
    else if same_text method (codes "GET_PARAMETER")
    then some get_parameter
    else if same_text method (codes "SET_PARAMETER")
    then some set_parameter
    else if same_text method (codes "RECORD")
    then some record_stream
    else if same_text method (codes "FLUSH")
    then some flush
    else if same_text method (codes "TEARDOWN")
    then some teardown
    else none

unfoldable pub get_handler : List ℕ → Option Handler
get_handler url = if same_text url (codes "/info") then some info else none

-- The chain of tests: the inner `none` is a request that is not handled.
unfoldable pub select_handler : List ℕ → Option (List ℕ) → Option (Option Handler)
select_handler method none =
    if same_text method (codes "GET") || same_text method (codes "POST")
    then none
    else some (method_handler method)
select_handler method (some url) =
    if same_text method (codes "GET")
    then some (get_handler url)
    else if same_text method (codes "POST")
    then some (post_handler url)
    else some (method_handler method)

-- The table, the connection, whether the request is rejected, and whether the video is reset.
pub record Admission : Type 0 where
  pub httpd : Httpd
  pub conn : RaopConn
  pub rejected : Bool
  pub video_reset : Bool

unfoldable pub take_over : Httpd → RaopConn → Bool → Admission
take_over h conn video_reset = record {
  httpd = (set_connection_type h conn.user_data connection_type_raop).0;
  conn = record conn { connection_type = connection_type_raop };
  rejected = false;
  video_reset = video_reset;
}

-- `if (conn->connection_type == CONNECTION_TYPE_UNKNOWN)`
unfoldable pub admit : Httpd → RaopConn → ConnectionType → Admission
admit h conn connection_type_raop = record {
  httpd = h;
  conn = conn;
  rejected = false;
  video_reset = false;
}
admit h conn connection_type_unknown =
    if count_connection_type h connection_type_raop == 0
    then take_over h conn false
    else if h.nohold
    then take_over (remove_known_connections h).0 conn true
    else record { httpd = h; conn = conn; rejected = true; video_reset = false }

-- Whether `export_dacp` is called, if it is installed, is the difference of the two flags.
unfoldable pub note_remote : RaopConn → Option (List ℕ) → RaopConn
note_remote conn none = conn
note_remote conn (some active_remote) = record conn { have_active_remote = true }

-- The label `finish`: the header fields that every response has, and the body.
unfoldable pub finish_response : HttpResponse → Option (List ℕ) → List ℕ → Option HttpResponse
finish_response response none body = none
finish_response response (some cseq) body = do
  server ← add_header response (codes "Server") (codes "AirTunes/220.68")
  numbered ← add_header server (codes "CSeq") cseq
  finish numbered body

pub data Answer : Type 0 where
  no_response : Answer
  -- The whole response.
  conflict : HttpResponse → Answer
  -- The handler that goes on with the new response.
  dispatched : Option Handler → HttpResponse → Answer

unfoldable pub reject : List ℕ → Option (List ℕ) → Option Answer
reject protocol cseq = do
  response ←
      HttpResponse.init create protocol 409
        (codes "Conflict: Server is connected to another client")
  done ← finish_response response cseq []
  some (conflict done)

-- The header fields are printed for the log before the response is made.
unfoldable pub dispatch : HttpRequest → Option (List ℕ) → Option (List ℕ) → Option Answer
dispatch request none cseq = some no_response
dispatch request (some method) none = some no_response
dispatch request (some method) (some cseq) = do
  header_str ← get_header_string request
  response ← HttpResponse.init create (get_protocol request) 200 (codes "OK")
  handler ← select_handler method (get_url request)
  some (dispatched handler response)

unfoldable pub answer_request :
    Admission → HttpRequest → Option (List ℕ) → Option (List ℕ) → Option Answer
answer_request a request method cseq =
    if a.rejected then reject (get_protocol request) cseq else dispatch request method cseq

-- The field Active-Remote, which is only looked up where it is not known yet.
unfoldable pub find_remote : Admission → HttpRequest → Option (Option (List ℕ))
find_remote a request =
    let found = get_header request (codes "Active-Remote") in
    if a.rejected || a.conn.have_active_remote then some none else found

-- `http_request_get_method`, which asks llhttp for the name.
abbrev pub map_method : (ℕ → List ℕ) → Option ℕ → Option (List ℕ)
map_method method_name none = none
map_method method_name (some m) = some (method_name m)

-- `conn_request`, up to the call of the handler.
unfoldable pub conn_request :
    (ℕ → List ℕ) → Httpd → RaopConn → HttpRequest → Option (Admission × Answer)
conn_request method_name h conn request =
    let a = admit h conn conn.connection_type in
    let method = map_method method_name (get_method request) in
    do
      cseq ← get_header request (codes "CSeq")
      active_remote ← find_remote a request
      answer ← answer_request a request method cseq
      some (record a { conn = note_remote a.conn active_remote }, answer)
