-- ===== src/Httpd.antt =====
-- include/AirPlayServer/lib/httpd.c: the table of connections, and the life of the server's thread.
-- The results of the system's calls and of the callbacks `conn_init` and `http_request` are the
-- arguments of an operation; a removal returns the `user_data` that `conn_destroy` is called with.
pub mod Table
pub mod Lifecycle
pub mod Runs
pub mod Serve
use j_a_r_v_i_s.Prelude.{
  ℕ, zero, suc, ◌+◌, ◌-◌, Bool, true, false, not, Option, none, some, List, [], ◌∷◌, ◌++◌, ◌==◌,
  ◌&&◌, ◌||◌, if◌then◌else◌, length, get_or, set, replicate,
}
use j_a_r_v_i_s.Prelude.Int.{ℤ, pos, negsuc, ◌+ℤ◌, ◌-ℤ◌}
use j_a_r_v_i_s.HttpRequest.{HttpRequest}

pub data ConnectionType : Type 0 where
  connection_type_unknown connection_type_raop : ConnectionType

pub record HttpConnection : Type 0 where
  pub connected : Bool
  pub socket_fd : ℕ
  pub user_data : Option ℕ
  pub type : ConnectionType
  pub request : Option HttpRequest

pub record Httpd : Type 0 where
  pub max_connections : ℕ
  pub open_connections : ℤ
  pub connections : List HttpConnection
  pub nohold : Bool
  pub running : Bool
  pub joined : Bool
  pub server_fd4 : Option ℕ
  pub server_fd6 : Option ℕ

-- An entry after `calloc`.
abbrev pub no_connection : HttpConnection
no_connection = record {
  connected = false;
  socket_fd = 0;
  user_data = none;
  type = connection_type_unknown;
  request = none;
}

abbrev pub max_connections_of_server : ℕ
max_connections_of_server = 12

unfoldable pub init : Bool → Httpd
init nohold = record {
  max_connections = max_connections_of_server;
  open_connections = pos 0;
  connections = replicate max_connections_of_server no_connection;
  nohold = nohold;
  running = false;
  joined = true;
  server_fd4 = some 0;
  server_fd6 = some 0;
}

abbrev pub same_type : ConnectionType → ConnectionType → Bool
same_type connection_type_unknown connection_type_unknown = true
same_type connection_type_raop connection_type_raop = true
same_type connection_type_unknown connection_type_raop = false
same_type connection_type_raop connection_type_unknown = false

abbrev pub same_user : Option ℕ → ℕ → Bool
same_user none user_data = false
same_user (some u) user_data = u == user_data

-- The loop of `httpd_set_connection_type` over the entries from index `i` on.
unfoldable pub find_user : List HttpConnection → ℕ → ℕ → Option ℕ
find_user [] i user_data = none
find_user (c ∷ cs) i user_data =
    let later = find_user cs (i + 1) user_data in
    if c.connected && same_user c.user_data user_data then some i else later

-- What is done at the index that was found.
unfoldable pub set_type_at : Httpd → ConnectionType → Option ℕ → Httpd × Option ℕ
set_type_at h type none = (h, none)
set_type_at h type (some i) =
    let c = get_or h.connections i no_connection in
    (record h { connections = set h.connections i (record c { type = type }) }, some i)

-- -1 is `none`.
unfoldable pub set_connection_type : Httpd → ℕ → ConnectionType → Httpd × Option ℕ
set_connection_type h user_data type = set_type_at h type (find_user h.connections 0 user_data)

unfoldable pub count_type : List HttpConnection → ConnectionType → ℕ
count_type [] type = 0
count_type (c ∷ cs) type =
    let count = count_type cs type in
    if c.connected && same_type c.type type then suc count else count

unfoldable pub count_connection_type : Httpd → ConnectionType → ℕ
count_connection_type h type = count_type h.connections type

unfoldable pub remove_connection : Httpd → ℕ → Httpd × Option ℕ
remove_connection h i =
    let c = get_or h.connections i no_connection in
    (
      record h {
        connections = set h.connections i (record c {
          connected = false;
          user_data = none;
          type = connection_type_unknown;
          request = none;
        });
        open_connections = h.open_connections -ℤ pos 1;
      },
      c.user_data,
    )

-- The index where the first loop of `httpd_add_connection` stops.
unfoldable pub find_free : List HttpConnection → ℕ
find_free [] = 0
find_free (c ∷ cs) = let later = suc (find_free cs) in if c.connected then later else 0

-- Whether the connection was added; `user_data` is the result of `conn_init`.
unfoldable pub add_connection : Httpd → ℕ → Option ℕ → Httpd × Bool
add_connection h fd none = (h, false)
add_connection h fd (some user_data) =
    let i = find_free h.connections in
    let c = get_or h.connections i no_connection in
    let added = record h {
      open_connections = h.open_connections +ℤ pos 1;
      connections = set h.connections i (record c {
        socket_fd = fd;
        connected = true;
        user_data = some user_data;
        type = connection_type_unknown;
      });
    } in
    if i == h.max_connections then (h, false) else (added, true)

-- `httpd_accept_connection`, with the results of `accept`, of `getsockname` and of `conn_init`.
unfoldable pub accept_connection : Httpd → Option ℕ → Bool → Option ℕ → Httpd × ℤ
accept_connection h none named user_data = (h, negsuc 0)
accept_connection h (some fd) false user_data = (h, pos 0)
accept_connection h (some fd) true user_data =
    let (h', done) = add_connection h fd user_data in (h', if done then pos 1 else pos 0)

-- A loop over the `count` entries from index `i` on that removes those that pass a test.
unfoldable pub remove_where : (HttpConnection → Bool) → ℕ → ℕ → Httpd → Httpd × List (Option ℕ)
remove_where test zero i h = (h, [])
remove_where test (suc count) i h =
    let (h', user_data) = remove_connection h i in
    let (removed, users) = remove_where test count (i + 1) h' in
    let kept = remove_where test count (i + 1) h in
    if test (get_or h.connections i no_connection) then (removed, user_data ∷ users) else kept

abbrev pub is_known : HttpConnection → Bool
is_known c = c.connected && not (same_type c.type connection_type_unknown)

abbrev pub is_connected : HttpConnection → Bool
is_connected c = c.connected

unfoldable pub remove_known_connections : Httpd → Httpd × List (Option ℕ)
remove_known_connections h = remove_where is_known h.max_connections 0 h

-- The end of `httpd_thread`, after its loop.
unfoldable pub thread_end : Httpd → Httpd × List (Option ℕ)
thread_end h =
    let (h', users) = remove_where is_connected h.max_connections 0 h in
    (record h' { server_fd4 = none; server_fd6 = none; running = false }, users)

-- The rest of `httpd_start` once the sockets are made, with the results of `listen`.
unfoldable pub start_sockets : Httpd → Option ℕ → Option ℕ → Bool → Bool → Httpd × ℤ
start_sockets h none fd6 listens4 listens6 = (record h { server_fd4 = none }, negsuc 0)
start_sockets h (some fd4) none listens4 listens6 =
    let h' = record h { server_fd4 = some fd4; server_fd6 = none } in
    if listens4 then (record h' { running = true; joined = false }, pos 1) else (h', negsuc 1)
start_sockets h (some fd4) (some fd6) listens4 listens6 =
    let h' = record h { server_fd4 = some fd4; server_fd6 = some fd6 } in
    if listens4 && listens6
    then (record h' { running = true; joined = false }, pos 1)
    else (h', negsuc 1)

-- `fd4` and `fd6` are the results of `netutils_init_socket`.
unfoldable pub start : Httpd → Option ℕ → Option ℕ → Bool → Bool → Httpd × ℤ
start h fd4 fd6 listens4 listens6 =
    if h.running || not h.joined then (h, pos 0) else start_sockets h fd4 fd6 listens4 listens6

unfoldable pub is_running : Httpd → Bool
is_running h = h.running || not h.joined

-- `THREAD_JOIN` waits for the end of the thread, which `thread_end` is.
unfoldable pub stop : Httpd → Httpd × List (Option ℕ)
stop h =
    let (h', users) = thread_end (record h { running = false }) in
    if not h.running || h.joined then (h, []) else (record h' { joined = true }, users)
