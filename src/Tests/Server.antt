-- ===== src/Tests/Server.antt =====
-- include/AirPlayServer/lib/httpd.c on small tables, and a server that is started and stopped.
use j_a_r_v_i_s.Prelude.{◌≡◌, refl, true, false, none, some, List, [], ◌∷◌, arith}
use j_a_r_v_i_s.Prelude.Int.{pos}
use j_a_r_v_i_s.Httpd.{
  Httpd, connection_type_raop, init, start, start_sockets, stop, is_running, thread_end,
  accept_connection, add_connection, find_free, set_connection_type, set_type_at, find_user,
}
use j_a_r_v_i_s.Httpd.Table.{IsValid, entry, open_count}
use j_a_r_v_i_s.Httpd.Lifecycle.{
  call_start, call_stop, perform_all, perform_all-thread_end, start-stop,
}
use j_a_r_v_i_s.Httpd.Runs.{
  Event, accepted, typed, handle, handle_all, handle_all-IsValid, init-IsValid,
}

-- Two clients come, the first becomes the audio client.
abbrev events : List Event
events = accepted 7 (some 100) ∷ accepted 8 (some 101) ∷ typed 100 connection_type_raop ∷ []

abbrev server : Httpd
server = handle_all (init true) events

handle_all-IsValid_example : IsValid server
handle_all-IsValid_example = handle_all-IsValid true events

two_open : open_count server.connections ≡ 2
unfolding handle_all handle init accept_connection add_connection find_free set_connection_type
    set_type_at find_user open_count
two_open = refl

twelve_entries : server.max_connections ≡ 12
unfolding handle_all handle init accept_connection add_connection find_free set_connection_type
    set_type_at find_user
twelve_entries = refl

abbrev started : Httpd
started = (start (init true) (some 5) none true true).0

started_joined : started.joined ≡ false
unfolding start start_sockets init
started_joined = refl

perform_all-thread_end_example :
    let ended = (thread_end started).0 in
    (perform_all ended (call_stop ∷ call_start (some 5) none true true ∷ []) ≡ ended)
    × (start
          (perform_all ended (call_stop ∷ call_start (some 5) none true true ∷ []))
          (some 5)
          none
          true
          true
        ≡ (ended, pos 0))
perform_all-thread_end_example =
    perform_all-thread_end started (call_stop ∷ call_start (some 5) none true true ∷ []) (some 5)
      none true true started_joined

starts : (start (init true) (some 5) none true true).1 ≡ pos 1
unfolding start start_sockets init
starts = refl

start-stop_example :
    let h2 = (stop started).0 in
    (is_running started ≡ true)
    × (is_running h2 ≡ false)
    × (h2.server_fd4 ≡ none)
    × (h2.server_fd6 ≡ none)
    × ((entry h2 3).connected ≡ false)
unfolding init
start-stop_example =
    start-stop (init true) (some 5) none true true 3 (init-IsValid true) (omega arith) starts
