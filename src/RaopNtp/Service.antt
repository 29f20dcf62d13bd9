-- ===== src/RaopNtp/Service.antt =====
-- The thread of raop_ntp.c: its time-outs, and its start and stop.
use j_a_r_v_i_s.Prelude.{
  ℕ, zero, suc, ◌+◌, ◌<◌, ◌≡◌, ◌∙◌, ap, refl, arith, Bool, true, false, not, Option, none, some,
  List, [], ◌∷◌, ◌++◌, ltb, ◌==◌, ◌||◌, if◌then◌else◌, replicate, ◌>>=◌, Option-cases, inl, inr,
  Bool-cases,
}

-- A round of the thread: the request is not sent, no response comes in time, or one comes.
pub data Round : Type 0 where
  send_failed timed_out answered : Round

-- `timeout_counter` after a round, or `none` when the thread ends with `conn_reset`.
unfoldable pub count_timeout : ℕ → ℕ → Round → Option ℕ
count_timeout max_ntp_timeouts timeout_counter send_failed = some timeout_counter
count_timeout max_ntp_timeouts timeout_counter answered = some 0
count_timeout max_ntp_timeouts timeout_counter timed_out =
    if timeout_counter + 1 == max_ntp_timeouts then none else some (timeout_counter + 1)

unfoldable pub count_timeouts : ℕ → ℕ → List Round → Option ℕ
count_timeouts max_ntp_timeouts timeout_counter [] = some timeout_counter
count_timeouts max_ntp_timeouts timeout_counter (r ∷ rs) =
    count_timeout max_ntp_timeouts timeout_counter r >>= λ c. count_timeouts max_ntp_timeouts c rs

count_timeouts-append :
    (max c : ℕ) (rs ss : List Round)
    → count_timeouts max c (rs ++ ss) ≡ (count_timeouts max c rs >>= λ d. count_timeouts max d ss)
unfolding count_timeouts
count_timeouts-append max c [] ss = refl
count_timeouts-append max c (r ∷ rs) ss = elim (Option-cases (count_timeout max c r)) [
  | inl e ↦ rw e
  | inr (d, e) ↦ rw e (count_timeouts-append max d rs ss)
]

count_timeouts-replicate :
    (max c k : ℕ)
    → c < max
    → count_timeouts max c (replicate k timed_out)
      ≡ (if ltb (c + k) max then some (c + k) else none)
unfolding count_timeouts count_timeout
count_timeouts-replicate max c zero h = ground arith
count_timeouts-replicate max c (suc k) h = elim (Bool-cases (c + 1 == max)) [
  | inl e ↦ ground arith
  | inr e ↦
      let more : c + 1 < max = ground arith in
      let n : c + 1 + k ≡ c + suc k = omega arith in
      rw e (
        count_timeouts-replicate max (c + 1) k more
        ∙ ap (λ m. if ltb m max then some m else none) n)
]

-- Where the limit is not 0 and the thread has not ended before: after a response, the thread goes
-- on through fewer time-outs in a row than the limit, and ends with `conn_reset` at the limit.
pub count_timeouts_lem :
    (max c d k : ℕ) (rs : List Round)
    → 0 < max
    → count_timeouts max c rs ≡ some d
    → count_timeouts max c (rs ++ answered ∷ replicate k timed_out)
      ≡ (if ltb k max then some k else none)
unfolding count_timeouts count_timeout
count_timeouts_lem max c d k rs h e =
    let n : 0 + k ≡ k = omega arith in
    count_timeouts-append max c rs (answered ∷ replicate k timed_out)
    ∙ rw e (count_timeouts-replicate max 0 k h ∙ ap (λ m. if ltb m max then some m else none) n)

pub record Service : Type 0 where
  pub running : Bool
  pub joined : Bool
  pub tsock : Option ℕ
  pub timing_lport : ℕ
  pub max_ntp_timeouts : ℕ

-- `raop_ntp_start`, with the socket and the port that `raop_ntp_init_socket` makes of the one asked
-- for; the second result is `*timing_lport` after the call.
unfoldable pub start : Service → Option (ℕ × ℕ) → ℕ → ℕ → Service × ℕ
start s socket timing_lport max_ntp_timeouts =
    let s' = record s { max_ntp_timeouts = max_ntp_timeouts; timing_lport = timing_lport } in
    if s.running || not s.joined then (s', timing_lport) else open_socket s' socket
  where
    open_socket : Service → Option (ℕ × ℕ) → Service × ℕ
    open_socket s none = (s, s.timing_lport)
    open_socket s (some (tsock, port)) =
        (record s { tsock = some tsock; timing_lport = port; running = true; joined = false }, port)

-- The end of the thread.
unfoldable pub thread_exit : Service → Service
thread_exit s = record s { running = false }

-- `raop_ntp_stop`; `THREAD_JOIN` waits for the end of the thread.
unfoldable pub stop : Service → Service
stop s =
    if not s.running || s.joined
    then s
    else record (thread_exit (record s { running = false; tsock = none })) { joined = true }
