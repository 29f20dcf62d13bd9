-- ===== src/Raop/OneClient.antt =====
-- The rule of raop.c that one client at a time uses the receiver.
use j_a_r_v_i_s.Prelude.{
  true, false, ℕ, zero, suc, ◌+◌, ◌≤◌, ◌<◌, ◌≡◌, ◌∙◌, ap, refl, arith, Bool, Option, none, some,
  List, [], ◌∷◌, ◌&&◌, ltb, ◌==◌, if◌then◌else◌, length, get_or, set, Bool-cases, inl, inr, ==→eq,
}
use j_a_r_v_i_s.Prelude.Int.{pos, ltb_ℤ}
use j_a_r_v_i_s.Httpd.{
  HttpConnection, Httpd, ConnectionType, connection_type_unknown, connection_type_raop,
  no_connection, init, find_user, set_connection_type, set_type_at, remove_connection,
  add_connection, accept_connection, find_free, remove_known_connections, same_type, count_type,
  count_connection_type, is_known,
}
use j_a_r_v_i_s.Httpd.Table.{
  IsValid, entry, bit, removed, remove_known_connections-IsValid, remove_known_connections_lem,
  length-remove_known_connections,
}
use j_a_r_v_i_s.Httpd.Runs
use j_a_r_v_i_s.Httpd.Runs.{
  Event, accepted, closed, handle-IsValid, init-IsValid, find_user-lt, set_connection_type-IsValid,
}
use j_a_r_v_i_s.Raop.{RaopConn, Admission, admit, take_over}

-- A connection that is accepted, the admission of a request, and a connection that is closed.
pub data Step : Type 0 where
  opens : ℕ → Option ℕ → Step
  asks : RaopConn → Step
  ends : ℕ → Step

unfoldable pub step : Httpd → Step → Httpd
step h (opens fd user_data) = Runs.handle h (accepted fd user_data)
step h (asks conn) = (admit h conn conn.connection_type).httpd
step h (ends i) = Runs.handle h (closed i)

unfoldable pub step_all : Httpd → List Step → Httpd
step_all h [] = h
step_all h (s ∷ ss) = step_all (step h s) ss

abbrev is_client : HttpConnection → Bool
is_client c = c.connected && same_type c.type connection_type_raop

abbrev clients : Httpd → ℕ
clients h = count_connection_type h connection_type_raop

count_bit : (b : Bool) (n : ℕ) → (if b then suc n else n) ≡ n + bit b
count_bit true n = omega arith
count_bit false n = omega arith

bit-le : (b : Bool) → bit b ≤ 1
bit-le true = omega arith
bit-le false = omega arith

-- A new entry adds at most one client, and one of another type none.
count_type-set :
    (cs : List HttpConnection) (i : ℕ) (c : HttpConnection)
    → count_type (set cs i c) connection_type_raop
      ≤ count_type cs connection_type_raop + bit (is_client c)
unfolding count_type
count_type-set [] i c = omega arith
count_type-set (d ∷ cs) zero c =
    let n = count_type cs connection_type_raop in
    omega (arith, count_bit (is_client c) n, count_bit (is_client d) n)
count_type-set (d ∷ cs) (suc i) c =
    let n = count_type cs connection_type_raop in
    let m = count_type (set cs i c) connection_type_raop in
    omega (arith, count_type-set cs i c, count_bit (is_client d) n, count_bit (is_client d) m)

no_clients :
    (cs : List HttpConnection)
    → ((j : ℕ) → j < length cs → is_client (get_or cs j no_connection) ≡ false)
    → count_type cs connection_type_raop ≡ 0
unfolding count_type
no_clients [] none_at = refl
no_clients (c ∷ cs) none_at =
    let first : is_client c ≡ false = none_at 0 (omega arith) in
    rw first (no_clients cs (λ j l. none_at (suc j) (omega arith)))

clients-set_type_at :
    (h : Httpd) (o : Option ℕ) → clients (set_type_at h connection_type_raop o).0 ≤ clients h + 1
unfolding set_type_at count_connection_type
clients-set_type_at h none = omega arith
clients-set_type_at h (some i) =
    let c = record (entry h i) { type = connection_type_raop } in
    omega (arith, count_type-set h.connections i c, bit-le (is_client c))

clients-set_connection_type :
    (h : Httpd) (user_data : ℕ)
    → clients (set_connection_type h user_data connection_type_raop).0 ≤ clients h + 1
unfolding set_connection_type
clients-set_connection_type h user_data =
    clients-set_type_at h (find_user h.connections 0 user_data)

swept_lem :
    (c : HttpConnection) (connected : Bool) (t : ConnectionType)
    → c.connected ≡ connected
    → c.type ≡ t
    → is_client (if is_known c then removed c else c) ≡ false
swept_lem c false t e f = rw e refl
swept_lem c true connection_type_raop e f = rw (e, f) refl
swept_lem c true connection_type_unknown e f = rw (e, f) refl

clients-remove_known_connections :
    (h : Httpd) → IsValid h → clients (remove_known_connections h).0 ≡ 0
unfolding count_connection_type
clients-remove_known_connections h v =
    let h' = (remove_known_connections h).0 in
    no_clients h'.connections (λ j l.
      let (valid, e) =
        remove_known_connections_lem h j v
          (omega (arith, l, v.size, length-remove_known_connections h v)) in
      ap is_client e ∙ swept_lem (entry h j) (entry h j).connected (entry h j).type refl refl)

clients-add_connection :
    (h : Httpd) (fd : ℕ) (user_data : Option ℕ)
    → clients (add_connection h fd user_data).0 ≤ clients h
unfolding add_connection count_connection_type
clients-add_connection h fd none = omega arith
clients-add_connection h fd (some u) =
    let i = find_free h.connections in
    let c = record (entry h i) {
      socket_fd = fd;
      connected = true;
      user_data = some u;
      type = connection_type_unknown;
    } in
    elim (Bool-cases (i == h.max_connections)) [
      | inl e ↦ rw e (omega arith)
      | inr e ↦ rw e (omega (arith, count_type-set h.connections i c))
    ]

clients-opens :
    (h : Httpd) (fd : ℕ) (user_data : Option ℕ)
    → clients (Runs.handle h (accepted fd user_data)) ≤ clients h
unfolding Runs.handle accept_connection
clients-opens h fd user_data =
    elim (Bool-cases (ltb_ℤ h.open_connections (pos h.max_connections))) [
      | inr e ↦ rw e (omega arith)
      | inl e ↦ rw e (clients-add_connection h fd user_data)
    ]

clients-ends : (h : Httpd) (i : ℕ) → clients (Runs.handle h (closed i)) ≤ clients h
unfolding Runs.handle remove_connection count_connection_type
clients-ends h i =
    let less = count_type-set h.connections i (removed (entry h i)) in
    elim (Bool-cases
      (ltb i h.max_connections && (get_or h.connections i no_connection).connected)) [
        | inl e ↦ rw e (omega (arith, less))
        | inr e ↦ rw e (omega arith)
      ]

-- A table with at most one client.
abbrev OneClient : Httpd → Type 0
OneClient h = IsValid h × (clients h ≤ 1)

take_over-OneClient :
    (h : Httpd) (conn : RaopConn) (video_reset : Bool)
    → IsValid h
    → clients h ≡ 0
    → OneClient (take_over h conn video_reset).httpd
unfolding take_over
take_over-OneClient h conn video_reset v none_yet = (
  set_connection_type-IsValid h conn.user_data connection_type_raop v,
  omega (arith, clients-set_connection_type h conn.user_data),
)

chosen :
    (b : Bool) (x y : Admission)
    → (b ≡ true → OneClient x.httpd)
    → OneClient y.httpd
    → OneClient (if b then x else y).httpd
chosen true x y hx hy = hx refl
chosen false x y hx hy = hy

admit-OneClient :
    (h : Httpd) (conn : RaopConn) (type : ConnectionType)
    → OneClient h
    → OneClient (admit h conn type).httpd
unfolding admit
admit-OneClient h conn connection_type_raop one = one
admit-OneClient h conn connection_type_unknown (v, one) =
    let known = remove_known_connections-IsValid h v in
    let alone = clients-remove_known_connections h v in
    chosen (clients h == 0) _ _ (λ e. take_over-OneClient h conn false v (==→eq _ _ e))
      (chosen h.nohold _ _ (λ e. take_over-OneClient _ conn true known alone) (v, one))

step-OneClient : (h : Httpd) (s : Step) → OneClient h → OneClient (step h s)
unfolding step
step-OneClient h (opens fd user_data) (v, one) =
    (handle-IsValid h (accepted fd user_data) v, omega (arith, clients-opens h fd user_data))
step-OneClient h (asks conn) one = admit-OneClient h conn conn.connection_type one
step-OneClient h (ends i) (v, one) =
    (handle-IsValid h (closed i) v, omega (arith, clients-ends h i))

step_all-OneClient : (ss : List Step) (h : Httpd) → OneClient h → OneClient (step_all h ss)
unfolding step_all
step_all-OneClient [] h one = one
step_all-OneClient (s ∷ ss) h one = step_all-OneClient ss (step h s) (step-OneClient h s one)

init-OneClient : (nohold : Bool) → OneClient (init nohold)
unfolding init count_connection_type count_type
init-OneClient nohold = (init-IsValid nohold, omega arith)

-- Whatever connections are accepted and closed and whatever they ask, in any order, from a new
-- server, with the "nohold" feature or without it: at most one connection of the table is a RAOP
-- client.
pub one_client :
    (nohold : Bool) (ss : List Step)
    → count_connection_type (step_all (init nohold) ss) connection_type_raop ≤ 1
one_client nohold ss = (step_all-OneClient ss (init nohold) (init-OneClient nohold)).1
