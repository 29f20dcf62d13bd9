-- ===== src/Httpd/Serve.antt =====
-- include/AirPlayServer/lib/httpd.c: what `httpd_thread` does for a connection with bytes to read.
-- llhttp's callbacks and its error state, the results of `recv` and `send`, and the callback
-- `conn_request` of the server are arguments. `none` is a fault of the request's functions.
use j_a_r_v_i_s.Prelude.{
  ℕ, Bool, Option, none, some, List, [], ◌∷◌, ◌++◌, leb, if◌then◌else◌, length, get_or, set, take,
  drop, ◌>>=◌,
}
use j_a_r_v_i_s.HttpRequest
use j_a_r_v_i_s.HttpRequest.{HttpRequest, Callback, is_complete}
use j_a_r_v_i_s.HttpResponse
use j_a_r_v_i_s.HttpResponse.{HttpResponse, get_disconnect}
use j_a_r_v_i_s.Httpd.{Httpd, no_connection, remove_connection}

-- What `recv` and the parser make of the bytes.
pub data Received : Type 0 where
  end_of_stream : Received
  parsed : List Callback → Bool → Received

-- The loop that sends a response, for the results of `send`: the bytes that go out. A result of -1
-- is `none`, and ends the loop.
unfoldable pub send_loop : List (Option ℕ) → List ℕ → List ℕ
send_loop [] bytes = []
send_loop (none ∷ results) bytes = []
send_loop (some ret ∷ results) bytes =
    let later = take ret bytes ++ send_loop results (drop ret bytes) in
    if leb (length bytes) 0 then [] else later

-- The table afterwards, the bytes sent, and the `user_data` of a connection that is removed.
pub record Served : Type 0 where
  pub httpd : Httpd
  pub sent : List ℕ
  pub removed : List (Option ℕ)

unfoldable pub set_request : Httpd → ℕ → Option HttpRequest → Httpd
set_request h i request =
    let c = get_or h.connections i no_connection in
    record h { connections = set h.connections i (record c { request = request }) }

unfoldable pub remove : Httpd → ℕ → List ℕ → Served
remove h i sent =
    let (h', user_data) = remove_connection h i in
    record { httpd = h'; sent = sent; removed = user_data ∷ [] }

-- A response that is not `NULL` is sent, and may ask for the end of the connection.
unfoldable pub send_response : Httpd → ℕ → List (Option ℕ) → Option HttpResponse → Option Served
send_response h i results none = some (record { httpd = h; sent = []; removed = [] })
send_response h i results (some response) = do
  bytes ← HttpResponse.get_data response
  let sent = send_loop results bytes in
      some (
        if get_disconnect response
        then remove h i sent
        else record { httpd = h; sent = sent; removed = [] })

-- `if (!connection->request)`
abbrev pub current_request : Option HttpRequest → HttpRequest
current_request none = HttpRequest.init
current_request (some request) = request

module _ (conn_request : Httpd → Option ℕ → HttpRequest → Httpd × Option HttpResponse) where
  -- A request behind the parser.
  unfoldable pub serve_request : Httpd → ℕ → Bool → List (Option ℕ) → HttpRequest → Option Served
  serve_request h i has_error results request =
      let user_data = (get_or h.connections i no_connection).user_data in
      let (h', response) = conn_request h user_data request in
      if has_error
      then some (remove h i [])
      else if is_complete request
      then send_response (set_request h' i none) i results response
      else some (record { httpd = set_request h i (some request); sent = []; removed = [] })

  unfoldable pub serve : Httpd → ℕ → List (Option ℕ) → Received → Option Served
  serve h i results end_of_stream = some (remove h i [])
  serve h i results (parsed callbacks has_error) = do
    request ←
        HttpRequest.add_data (current_request (get_or h.connections i no_connection).request)
          callbacks
    serve_request h i has_error results request
