-- ===== src/Httpd/Runs.antt =====
-- Runs of httpd.c: what the thread and the request handlers do to the table, in any order.
use j_a_r_v_i_s.Prelude.{
  true, ℕ, ◌+◌, ◌≤◌, ◌<◌, ◌≡◌, ◌∙◌, ap, sym, refl, arith, Bool, Option, none, some, List, [], ◌∷◌,
  ◌&&◌, ltb, if◌then◌else◌, length, get_or, set, length-set, Bool-cases, inl, inr,
}
use j_a_r_v_i_s.Prelude.Int.{pos, ltb_ℤ}
use j_a_r_v_i_s.Httpd.{
  HttpConnection, Httpd, ConnectionType, no_connection, init, find_user, set_connection_type,
  set_type_at, remove_connection, add_connection, accept_connection, remove_known_connections,
  same_user,
}
use j_a_r_v_i_s.Httpd.Table.{
  IsValid, entry, open_count, open_count-set, remove_connection-IsValid, add_connection_lem,
  remove_known_connections-IsValid,
}

-- A connection that is accepted, with the result of `conn_init`; the type that a handler sets; the
-- removal of the known connections by a handler; a connection that the thread removes.
pub data Event : Type 0 where
  accepted : ℕ → Option ℕ → Event
  typed : ℕ → ConnectionType → Event
  known_removed : Event
  closed : ℕ → Event

-- With the guards of `httpd_thread`.
unfoldable pub handle : Httpd → Event → Httpd
handle h (accepted fd user_data) =
    if ltb_ℤ h.open_connections (pos h.max_connections)
    then (accept_connection h (some fd) true user_data).0
    else h
handle h (typed user_data type) = (set_connection_type h user_data type).0
handle h known_removed = (remove_known_connections h).0
handle h (closed i) =
    if ltb i h.max_connections && (get_or h.connections i no_connection).connected
    then (remove_connection h i).0
    else h

unfoldable pub handle_all : Httpd → List Event → Httpd
handle_all h [] = h
handle_all h (e ∷ es) = handle_all (handle h e) es

pub find_user-lt :
    (cs : List HttpConnection) (i user_data k : ℕ)
    → find_user cs i user_data ≡ some k
    → (i ≤ k) × (k < i + length cs)
unfolding find_user
find_user-lt [] i user_data k e = cc
find_user-lt (c ∷ cs) i user_data k e =
    elim (Bool-cases (c.connected && same_user c.user_data user_data)) [
      | inl t ↦ let e' = rw t at e in ground arith
      | inr t ↦
          let r = find_user-lt cs (i + 1) user_data k (rw t at e) in (omega arith, omega arith)
    ]

set_type_at-IsValid :
    (h : Httpd) (type : ConnectionType) (o : Option ℕ)
    → ((i : ℕ) → o ≡ some i → i < length h.connections)
    → IsValid h
    → IsValid (set_type_at h type o).0
unfolding set_type_at
set_type_at-IsValid h type none bound v = v
set_type_at-IsValid h type (some i) bound v =
    let c = record (entry h i) { type = type } in
    record {
      size = length-set h.connections i c ∙ v.size;
      count =
          let k = open_count-set h.connections i c (bound i refl) in
          let same : open_count (set h.connections i c) ≡ open_count h.connections = omega arith in
          v.count ∙ ap pos (sym same);
    }

pub set_connection_type-IsValid :
    (h : Httpd) (user_data : ℕ) (type : ConnectionType)
    → IsValid h
    → IsValid (set_connection_type h user_data type).0
unfolding set_connection_type
set_connection_type-IsValid h user_data type v =
    set_type_at-IsValid h type (find_user h.connections 0 user_data)
      (λ i e. let (lo, hi) = find_user-lt h.connections 0 user_data i e in omega arith) v

pub handle-IsValid : (h : Httpd) (e : Event) → IsValid h → IsValid (handle h e)
unfolding handle accept_connection
handle-IsValid h (accepted fd none) v = unfold add_connection in ground arith
handle-IsValid h (accepted fd (some user_data)) v =
    elim (Bool-cases (ltb_ℤ h.open_connections (pos h.max_connections))) [
      | inl t ↦
          let room : open_count h.connections < h.max_connections =
            let t' = rw v.count at t in ground arith in
          rw t ((add_connection_lem h fd user_data v room).1)
      | inr t ↦ rw t v
    ]
handle-IsValid h (typed user_data type) v = set_connection_type-IsValid h user_data type v
handle-IsValid h known_removed v = remove_known_connections-IsValid h v
handle-IsValid h (closed i) v =
    elim (Bool-cases
      (ltb i h.max_connections && (get_or h.connections i no_connection).connected)) [
        | inl t ↦
            rw t (remove_connection-IsValid h i v (ground arith) (let s = v.size in ground arith))
        | inr t ↦ rw t v
      ]

handle_all-IsValid_from : (es : List Event) (h : Httpd) → IsValid h → IsValid (handle_all h es)
unfolding handle_all
handle_all-IsValid_from [] h v = v
handle_all-IsValid_from (e ∷ es) h v =
    handle_all-IsValid_from es (handle h e) (handle-IsValid h e v)

pub init-IsValid : (nohold : Bool) → IsValid (init nohold)
unfolding init
init-IsValid nohold = record { size = refl; count = unfold open_count in refl }

-- After any events from a new server, `open_connections` is the number of connected entries, in a
-- table of `max_connections` entries.
pub handle_all-IsValid : (nohold : Bool) (es : List Event) → IsValid (handle_all (init nohold) es)
handle_all-IsValid nohold es = handle_all-IsValid_from es (init nohold) (init-IsValid nohold)
