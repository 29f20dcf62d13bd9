-- ===== src/Httpd/Table.antt =====
-- The table of connections of httpd.c: the count of the open ones, and what each operation does to
-- every entry.
use mathlib.Core.Path.{subst}
use j_a_r_v_i_s.Prelude.{
  ℕ, zero, suc, ◌+◌, ◌≤◌, ◌<◌, ◌≡◌, ◌≢◌, ◌∙◌, ap, sym, refl, arith, Bool, true, false, none, some,
  List, [], ◌∷◌, ◌==◌, ==→eq, if◌then◌else◌, length, get_or, set, length-set, get_or-set_self,
  get_or-set_ne, Bool-cases, inl, inr, ◌⊎◌,
}
use j_a_r_v_i_s.Prelude.Int.{pos}
use j_a_r_v_i_s.Httpd.{
  HttpConnection, Httpd, connection_type_unknown, no_connection, remove_connection, find_free,
  add_connection, remove_where, is_known, is_connected, remove_known_connections, thread_end,
}

abbrev pub bit : Bool → ℕ
bit true = 1
bit false = 0

-- The entry at an index.
abbrev pub entry : Httpd → ℕ → HttpConnection
entry h i = get_or h.connections i no_connection

unfoldable pub open_count : List HttpConnection → ℕ
open_count [] = 0
open_count (c ∷ cs) = bit c.connected + open_count cs

pub record IsValid (h : Httpd) : Type 0 where
  pub size : length h.connections ≡ h.max_connections
  pub count : h.open_connections ≡ pos (open_count h.connections)

pub open_count-set :
    (cs : List HttpConnection) (i : ℕ) (c : HttpConnection)
    → i < length cs
    → open_count (set cs i c) + bit (get_or cs i no_connection).connected
      ≡ open_count cs + bit c.connected
unfolding open_count
open_count-set [] i c h = absurd (omega arith)
open_count-set (d ∷ cs) zero c h = omega arith
open_count-set (d ∷ cs) (suc i) c h = omega (arith, open_count-set cs i c (omega arith))

-- The entry that a removal leaves.
abbrev pub removed : HttpConnection → HttpConnection
removed c = record c {
  connected = false;
  user_data = none;
  type = connection_type_unknown;
  request = none;
}

pub remove_connection-IsValid :
    (h : Httpd) (i : ℕ)
    → IsValid h
    → (entry h i).connected ≡ true
    → i < length h.connections
    → IsValid (remove_connection h i).0
unfolding remove_connection
remove_connection-IsValid h i v c l = record {
  size = length-set h.connections i (removed (entry h i)) ∙ v.size;
  count =
      let e = open_count-set h.connections i (removed (entry h i)) l in
      let b : bit (entry h i).connected ≡ 1 = rw c in rw v.count (ground arith);
}

find_free-le : (cs : List HttpConnection) → find_free cs ≤ length cs
unfolding find_free
find_free-le [] = omega arith
find_free-le (c ∷ cs) = ground (arith, find_free-le cs)

find_free-connected :
    (cs : List HttpConnection)
    → find_free cs < length cs
    → (get_or cs (find_free cs) no_connection).connected ≡ false
unfolding find_free
find_free-connected [] h = absurd (omega arith)
find_free-connected (c ∷ cs) h = elim (Bool-cases c.connected) [
  | inl e ↦ rw e (find_free-connected cs (let k = rw e at h in omega arith))
  | inr e ↦ rw e
]

find_free-open_count :
    (cs : List HttpConnection) → find_free cs ≡ length cs → open_count cs ≡ length cs
unfolding find_free open_count
find_free-open_count [] h = refl
find_free-open_count (c ∷ cs) h = elim (Bool-cases c.connected) [
  | inl e ↦ let k = rw e at h in rw e (omega (arith, find_free-open_count cs (omega arith)))
  | inr e ↦ let k = rw e at h in absurd (omega arith)
]

-- The entry that an addition leaves.
abbrev pub added : HttpConnection → ℕ → ℕ → HttpConnection
added c fd user_data = record c {
  socket_fd = fd;
  connected = true;
  user_data = some user_data;
  type = connection_type_unknown;
}

-- In a valid table that is not full, `httpd_add_connection` finds an entry that is not connected,
-- connects it, leaves the others alone and keeps the table valid.
pub add_connection_lem :
    (h : Httpd) (fd user_data : ℕ)
    → IsValid h
    → open_count h.connections < h.max_connections
    → let (h', done) = add_connection h fd (some user_data) in
      (done ≡ true)
      × IsValid h'
      × ((i : ℕ) × (i < h.max_connections)
          × ((entry h i).connected ≡ false)
          × (h'.connections ≡ set h.connections i (added (entry h i) fd user_data)))
unfolding add_connection
add_connection_lem h fd user_data v room =
    let i = find_free h.connections in
    let s = v.size in
    let i_le : i ≤ length h.connections = find_free-le h.connections in
    let not_full : i ≢ length h.connections =
      λ e. let f = find_free-open_count h.connections e in omega arith in
    let i_lt : i < length h.connections = omega arith in
    let free = find_free-connected h.connections i_lt in
    let c = added (entry h i) fd user_data in
    let test : (i == h.max_connections) ≡ false = ground arith in
    rw test (
      refl,
      record {
        size = length-set h.connections i c ∙ v.size;
        count =
            let e = open_count-set h.connections i c i_lt in
            let b : bit (entry h i).connected ≡ 0 = rw free in rw v.count (ground arith);
      },
      (i, omega arith, free, refl),
    )

-- What the loop of a removal does.
pub record Swept (test : HttpConnection → Bool) (count i : ℕ) (h h' : Httpd) : Type 0 where
  pub valid : IsValid h'
  pub same_size : length h'.connections ≡ length h.connections
  pub hit :
      (j : ℕ) → i ≤ j → j < i + count → test (entry h j) ≡ true → entry h' j ≡ removed (entry h j)
  pub missed : (j : ℕ) → (j < i) ⊎ (test (entry h j) ≡ false) → entry h' j ≡ entry h j

remove_connection_entries :
    (h : Httpd) (i : ℕ)
    → i < length h.connections
    → let h' = (remove_connection h i).0 in
      (length h'.connections ≡ length h.connections)
      × (entry h' i ≡ removed (entry h i))
      × ((j : ℕ) → i ≢ j → entry h' j ≡ entry h j)
unfolding remove_connection
remove_connection_entries h i l = (
  length-set h.connections i (removed (entry h i)),
  get_or-set_self h.connections i (removed (entry h i)) no_connection l,
  λ j ne. get_or-set_ne h.connections i j (removed (entry h i)) no_connection ne,
)

eq_or_ne : (i j : ℕ) → (i ≡ j) ⊎ (i ≢ j)
eq_or_ne i j = elim (Bool-cases (i == j)) [
  | inl e ↦ inl (==→eq i j e)
  | inr e ↦ inr (λ p. ground arith)
]

not_both :
    (test : HttpConnection → Bool) (h : Httpd) (i j : ℕ)
    → i ≡ j
    → test (entry h i) ≡ true
    → test (entry h j) ≡ false
    → ⊥
not_both test h i j p t f =
    let q : test (entry h i) ≡ false = ap (λ k. test (entry h k)) p ∙ f in cc

-- The step of the loop that removes the entry `i`.
sweep_hit :
    (test : HttpConnection → Bool) (count i : ℕ) (h h' : Httpd)
    → i < length h.connections
    → test (entry h i) ≡ true
    → Swept test count (i + 1) (remove_connection h i).0 h'
    → Swept test (suc count) i h h'
sweep_hit test count i h h' l e s =
    let (size, here, others) = remove_connection_entries h i l in
    record {
      valid = s.valid;
      same_size = s.same_size ∙ size;
      hit = λ j lo hi t. elim (eq_or_ne i j) [
        | inl p ↦
            subst (λ k. entry h' k ≡ removed (entry h k)) p (s.missed i (inl (omega arith)) ∙ here)
        | inr ne ↦
            s.hit j (omega arith) (omega arith) (ap test (others j ne) ∙ t)
            ∙ ap removed (others j ne)
      ];
      missed = λ j miss. elim (eq_or_ne i j) [
        | inl p ↦ elim miss [
          | inl b ↦ absurd (omega arith)
          | inr t ↦ absurd (not_both test h i j p e t)
        ]
        | inr ne ↦ elim miss [
          | inl b ↦ s.missed j (inl (omega arith)) ∙ others j ne
          | inr t ↦ s.missed j (inr (ap test (others j ne) ∙ t)) ∙ others j ne
        ]
      ];
    }

-- The step that keeps it.
sweep_miss :
    (test : HttpConnection → Bool) (count i : ℕ) (h h' : Httpd)
    → test (entry h i) ≡ false
    → Swept test count (i + 1) h h'
    → Swept test (suc count) i h h'
sweep_miss test count i h h' e s = record {
  valid = s.valid;
  same_size = s.same_size;
  hit = λ j lo hi t. elim (eq_or_ne i j) [
    | inl p ↦ absurd (not_both test h j i (sym p) t e)
    | inr ne ↦ s.hit j (omega arith) (omega arith) t
  ];
  missed =
      λ j miss. elim miss [ inl b ↦ s.missed j (inl (omega arith)) | inr t ↦ s.missed j (inr t) ];
}

remove_where_lem :
    (test : HttpConnection → Bool) (count i : ℕ) (h : Httpd)
    → ((c : HttpConnection) → test c ≡ true → c.connected ≡ true)
    → IsValid h
    → i + count ≤ length h.connections
    → Swept test count i h (remove_where test count i h).0
unfolding remove_where
remove_where_lem test zero i h only v l = record {
  valid = v;
  same_size = refl;
  hit = λ j lo hi t. absurd (omega arith);
  missed = λ j miss. refl;
}
remove_where_lem test (suc count) i h only v l = elim (Bool-cases (test (entry h i))) [
  | inl e ↦
      let l' : i < length h.connections = omega arith in
      let size = (remove_connection_entries h i l').0 in
      let v1 = remove_connection-IsValid h i v (only (entry h i) e) l' in
      rw e (
        sweep_hit test count i h _ l' e
          (remove_where_lem test count (i + 1) (remove_connection h i).0 only v1 (omega arith)))
  | inr e ↦
      rw e
        (sweep_miss test count i h _ e (remove_where_lem test count (i + 1) h only v (omega arith)))
]

is_known-connected : (c : HttpConnection) → is_known c ≡ true → c.connected ≡ true
is_known-connected c e = ground arith

-- The loop at the end of the thread leaves no entry connected.
pub thread_end_entries :
    (h : Httpd) (j : ℕ)
    → IsValid h
    → j < h.max_connections
    → (entry (thread_end h).0 j).connected ≡ false
unfolding thread_end
thread_end_entries h j v l =
    let s =
      remove_where_lem is_connected h.max_connections 0 h (λ c e. e) v
        (let z = v.size in omega arith) in
    elim (Bool-cases (entry h j).connected) [
      | inl e ↦ ap (λ c. c.connected) (s.hit j (omega arith) (omega arith) e)
      | inr e ↦ ap (λ c. c.connected) (s.missed j (inr e)) ∙ e
    ]

if_lem :
    (b : Bool) (x y z : HttpConnection)
    → (b ≡ true → z ≡ x)
    → (b ≡ false → z ≡ y)
    → z ≡ (if b then x else y)
if_lem true x y z p q = p refl
if_lem false x y z p q = q refl

pub remove_known_connections-IsValid :
    (h : Httpd) → IsValid h → IsValid (remove_known_connections h).0
unfolding remove_known_connections
remove_known_connections-IsValid h v =
    (remove_where_lem is_known h.max_connections 0 h is_known-connected v
      (let z = v.size in omega arith)).valid

pub length-remove_known_connections :
    (h : Httpd)
    → IsValid h
    → length (remove_known_connections h).0.connections ≡ length h.connections
unfolding remove_known_connections
length-remove_known_connections h v =
    (remove_where_lem is_known h.max_connections 0 h is_known-connected v
      (let z = v.size in omega arith)).same_size

-- In a valid table, `httpd_remove_known_connections` removes every connected entry of a known type,
-- leaves all others as they are and keeps the table valid.
pub remove_known_connections_lem :
    (h : Httpd) (j : ℕ)
    → IsValid h
    → j < h.max_connections
    → let h' = (remove_known_connections h).0 in
      IsValid h' × (entry h' j ≡ (if is_known (entry h j) then removed (entry h j) else entry h j))
unfolding remove_known_connections
remove_known_connections_lem h j v l =
    let s =
      remove_where_lem is_known h.max_connections 0 h is_known-connected v
        (let z = v.size in omega arith) in
    (
      s.valid,
      if_lem (is_known (entry h j)) (removed (entry h j)) (entry h j) _
          (λ e. s.hit j (omega arith) (omega arith) e) (λ e. s.missed j (inr e)),
    )
