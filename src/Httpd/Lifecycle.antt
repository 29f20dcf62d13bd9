-- ===== src/Httpd/Lifecycle.antt =====
-- The life of the server of httpd.c: its start, its stop and the end of its thread.
use mathlib.Core.Path.{subst}
use j_a_r_v_i_s.Prelude.{
  ℕ, zero, suc, ◌+◌, ◌<◌, none, get_or, length, sym, arith, ◌≡◌, ◌∙◌, refl, Bool, true, false,
  Option, some, List, [], ◌∷◌, ap, not, ◌||◌, if◌then◌else◌, Bool-cases, inl, inr,
}
use j_a_r_v_i_s.Prelude.Int.{pos}
use j_a_r_v_i_s.Httpd.{
  HttpConnection, Httpd, no_connection, start, start_sockets, stop, thread_end, remove_where,
  remove_connection, is_connected, is_running,
}
use j_a_r_v_i_s.Httpd.Table.{IsValid, entry, open_count, thread_end_entries}

-- A call from outside.
pub data Call : Type 0 where
  call_start : Option ℕ → Option ℕ → Bool → Bool → Call
  call_stop : Call

unfoldable pub perform : Httpd → Call → Httpd
perform h (call_start fd4 fd6 listens4 listens6) = (start h fd4 fd6 listens4 listens6).0
perform h call_stop = (stop h).0

unfoldable pub perform_all : Httpd → List Call → Httpd
perform_all h [] = h
perform_all h (c ∷ cs) = perform_all (perform h c) cs

remove_where-joined :
    (test : HttpConnection → Bool) (count i : ℕ) (h : Httpd)
    → (remove_where test count i h).0.joined ≡ h.joined
unfolding remove_where
remove_where-joined test zero i h = refl
remove_where-joined test (suc count) i h =
    elim (Bool-cases (test (get_or h.connections i no_connection))) [
      | inl e ↦ rw e (
          remove_where-joined test count (i + 1) (remove_connection h i).0
          ∙ unfold remove_connection in refl)
      | inr e ↦ rw e (remove_where-joined test count (i + 1) h)
    ]

start_refused :
    (h : Httpd) (fd4 fd6 : Option ℕ) (listens4 listens6 : Bool)
    → h.joined ≡ false
    → start h fd4 fd6 listens4 listens6 ≡ (h, pos 0)
unfolding start
start_refused h fd4 fd6 listens4 listens6 e = simp (e, or_true h.running)
  where
    or_true : (b : Bool) → b || true ≡ true
    or_true true = refl
    or_true false = refl

stop_refused : (h : Httpd) → h.running ≡ false → (stop h).0 ≡ h
unfolding stop
stop_refused h e = simp e

perform_all_stuck :
    (h : Httpd) (cs : List Call) → h.running ≡ false → h.joined ≡ false → perform_all h cs ≡ h
unfolding perform_all perform
perform_all_stuck h [] r j = refl
perform_all_stuck h (call_start fd4 fd6 listens4 listens6 ∷ cs) r j =
    ap (λ x. perform_all x.0 cs) (start_refused h fd4 fd6 listens4 listens6 j)
    ∙ perform_all_stuck h cs r j
perform_all_stuck h (call_stop ∷ cs) r j =
    ap (λ x. perform_all x cs) (stop_refused h r) ∙ perform_all_stuck h cs r j

-- Once the thread of a server that is not joined has ended by itself, no calls of httpd_start and httpd_stop
-- change it any more, and httpd_start returns 0 without starting.
pub perform_all-thread_end :
    (h : Httpd) (cs : List Call) (fd4 fd6 : Option ℕ) (listens4 listens6 : Bool)
    → h.joined ≡ false
    → let ended = (thread_end h).0 in
      (perform_all ended cs ≡ ended)
      × (start (perform_all ended cs) fd4 fd6 listens4 listens6 ≡ (ended, pos 0))
perform_all-thread_end h cs fd4 fd6 listens4 listens6 joined =
    let ended = (thread_end h).0 in
    let r : ended.running ≡ false = unfold thread_end in refl in
    let j : ended.joined ≡ false =
      unfold thread_end in remove_where-joined is_connected h.max_connections 0 h ∙ joined in
    let stuck = perform_all_stuck ended cs r j in
    (
      stuck,
      ap (λ x. start x fd4 fd6 listens4 listens6) stuck
          ∙ start_refused ended fd4 fd6 listens4 listens6 j,
    )

record Started (h h1 : Httpd) : Type 0 where
  running : h1.running ≡ true
  joined : h1.joined ≡ false
  connections : h1.connections ≡ h.connections
  max_connections : h1.max_connections ≡ h.max_connections
  open_connections : h1.open_connections ≡ h.open_connections

start_sockets_lem :
    (h : Httpd) (fd4 fd6 : Option ℕ) (listens4 listens6 : Bool)
    → (start_sockets h fd4 fd6 listens4 listens6).1 ≡ pos 1
    → Started h (start_sockets h fd4 fd6 listens4 listens6).0
unfolding start_sockets
start_sockets_lem h none fd6 listens4 listens6 e = absurd (ground arith)
start_sockets_lem h (some a) none true listens6 e = record {
  running = refl;
  joined = refl;
  connections = refl;
  max_connections = refl;
  open_connections = refl;
}
start_sockets_lem h (some a) none false listens6 e = absurd (ground arith)
start_sockets_lem h (some a) (some b) true true e = record {
  running = refl;
  joined = refl;
  connections = refl;
  max_connections = refl;
  open_connections = refl;
}
start_sockets_lem h (some a) (some b) true false e = absurd (ground arith)
start_sockets_lem h (some a) (some b) false listens6 e = absurd (ground arith)

start_lem :
    (h : Httpd) (fd4 fd6 : Option ℕ) (listens4 listens6 : Bool)
    → (start h fd4 fd6 listens4 listens6).1 ≡ pos 1
    → Started h (start h fd4 fd6 listens4 listens6).0
unfolding start
start_lem h fd4 fd6 listens4 listens6 e = elim (Bool-cases (h.running || not h.joined)) [
  | inl g ↦ let k = rw g at e in absurd (ground arith)
  | inr g ↦ rw g (start_sockets_lem h fd4 fd6 listens4 listens6 (rw g at e))
]

-- What the thread leaves when it is stopped.
abbrev stopped : Httpd → Httpd
stopped h = record (thread_end (record h { running = false })).0 { joined = true }

if_first :
    (a b : Bool) (x y : Httpd × List (Option ℕ))
    → a ≡ true
    → b ≡ false
    → (if not a || b then x else y) ≡ y
if_first true true x y p q = absurd (ground arith)
if_first true false x y p q = refl
if_first false b x y p q = absurd (ground arith)

stop_lem : (h : Httpd) → h.running ≡ true → h.joined ≡ false → (stop h).0 ≡ stopped h
unfolding stop
stop_lem h r j = ap (λ x. x.0) (if_first h.running h.joined _ _ r j)

stopped_lem :
    (h : Httpd)
    → (is_running (stopped h) ≡ false)
      × ((stopped h).server_fd4 ≡ none)
      × ((stopped h).server_fd6 ≡ none)
unfolding is_running thread_end
stopped_lem h = (refl, refl, refl)

-- For a server with a valid table that httpd_start has started: it is running, and after
-- httpd_stop it is not, its sockets are closed and no connection is left.
pub start-stop :
    (h : Httpd) (fd4 fd6 : Option ℕ) (listens4 listens6 : Bool) (j : ℕ)
    → IsValid h
    → j < h.max_connections
    → (start h fd4 fd6 listens4 listens6).1 ≡ pos 1
    → let h1 = (start h fd4 fd6 listens4 listens6).0 in
      let h2 = (stop h1).0 in
      (is_running h1 ≡ true)
      × (is_running h2 ≡ false)
      × (h2.server_fd4 ≡ none)
      × (h2.server_fd6 ≡ none)
      × ((entry h2 j).connected ≡ false)
start-stop h fd4 fd6 listens4 listens6 j v l e =
    let h1 = (start h fd4 fd6 listens4 listens6).0 in
    let s = start_lem h fd4 fd6 listens4 listens6 e in
    let stopping = record h1 { running = false } in
    let v1 : IsValid stopping = record {
      size = ap length s.connections ∙ v.size ∙ sym s.max_connections;
      count = s.open_connections ∙ v.count ∙ ap (λ cs. pos (open_count cs)) (sym s.connections);
    } in
    let gone = thread_end_entries stopping j v1 (rw s.max_connections l) in
    let back = sym (stop_lem h1 s.running s.joined) in
    let (r, f4, f6) = stopped_lem h1 in
    let up : is_running h1 ≡ true = unfold is_running in ap (λ b. b || not h1.joined) s.running in
    subst
      (λ x.
        (is_running h1 ≡ true)
        × (is_running x ≡ false)
        × (x.server_fd4 ≡ none)
        × (x.server_fd6 ≡ none)
        × ((entry x j).connected ≡ false))
      back (up, r, f4, f6, gone)
