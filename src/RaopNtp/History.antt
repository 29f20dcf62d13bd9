-- ===== src/RaopNtp/History.antt =====
-- The eight samples of raop_ntp.c: which ones are kept, and which of them the clock follows.
use j_a_r_v_i_s.Prelude.{
  ℕ, suc, ◌+◌, ◌%◌, ◌<◌, ◌≡◌, ◌∙◌, ap, refl, List, [], ◌∷◌, ◌++◌, arith, length, get_or, set,
  length-set, get_or-set_self, get_or-set_ne,
}
use j_a_r_v_i_s.Prelude.Int.{ℤ}
use j_a_r_v_i_s.RaopNtp.{
  Sample, RaopNtp, TimingProtocol, init, make_sample, no_sample, take_response,
}

-- The four times of an exchange.
pub record Times : Type 0 where
  pub t0 : ℤ
  pub t1 : ℤ
  pub t2 : ℤ
  pub t3 : ℤ

abbrev pub sample_of : Times → Sample
sample_of t = make_sample t.t0 t.t1 t.t2 t.t3

-- The responses of a run of the thread.
unfoldable pub take_responses : RaopNtp → List Times → RaopNtp
take_responses n [] = n
take_responses n (t ∷ ts) = take_responses (take_response n t.t0 t.t1 t.t2 t.t3) ts

pub record IsValid (n : RaopNtp) : Type 0 where
  pub count : length n.samples ≡ 8
  pub index : n.data_index < 8

pub init-IsValid : (now : ℕ) (protocol : TimingProtocol) → IsValid (init now protocol)
unfolding init
init-IsValid now protocol = record { count = refl; index = omega arith }

pub take_response-IsValid :
    (n : RaopNtp) (t : Times) → IsValid n → IsValid (take_response n t.t0 t.t1 t.t2 t.t3)
unfolding take_response
take_response-IsValid n t v = record {
  count = length-set n.samples ((n.data_index + 1) % 8) (sample_of t) ∙ v.count;
  index = omega arith;
}

next_index :
    (n : RaopNtp) (t : Times) (k : ℕ)
    → ((take_response n t.t0 t.t1 t.t2 t.t3).data_index + k) % 8 ≡ (n.data_index + suc k) % 8
unfolding take_response
next_index n t k = omega arith

take_responses-IsValid :
    (ts : List Times) (n : RaopNtp)
    → IsValid n
    → IsValid (take_responses n ts)
      × ((take_responses n ts).data_index ≡ (n.data_index + length ts) % 8)
unfolding take_responses
take_responses-IsValid [] n v = let i = v.index in (v, omega arith)
take_responses-IsValid (t ∷ ts) n v =
    let (v', i) =
      take_responses-IsValid ts (take_response n t.t0 t.t1 t.t2 t.t3)
        (take_response-IsValid n t v) in
    (v', i ∙ next_index n t (length ts))

-- A sample stays for seven more responses.
sample_stays :
    (ts : List Times) (n : RaopNtp) (at age : ℕ)
    → n.data_index ≡ (at + age) % 8
    → at < 8
    → age + length ts < 8
    → get_or (take_responses n ts).samples at no_sample ≡ get_or n.samples at no_sample
unfolding take_responses take_response
sample_stays [] n at age e h k = refl
sample_stays (t ∷ ts) n at age e h k =
    sample_stays ts (take_response n t.t0 t.t1 t.t2 t.t3) at (age + 1) (omega arith) h (omega arith)
    ∙ get_or-set_ne n.samples ((n.data_index + 1) % 8) at (sample_of t) no_sample (omega arith)

take_responses-append :
    (ts us : List Times) (n : RaopNtp)
    → take_responses n (ts ++ us) ≡ take_responses (take_responses n ts) us
unfolding take_responses
take_responses-append [] us n = refl
take_responses-append (t ∷ ts) us n =
    take_responses-append ts us (take_response n t.t0 t.t1 t.t2 t.t3)

-- The sample of a response is kept, in the slot that follows the one before it, until eight more
-- responses have come, from any state with eight samples and an index among them.
pub take_responses_history :
    (n : RaopNtp) (ts : List Times) (t : Times) (later : List Times)
    → IsValid n
    → length later < 8
    → get_or
        (take_responses n (ts ++ t ∷ later)).samples
        ((n.data_index + length ts + 1) % 8)
        no_sample
      ≡ sample_of t
unfolding take_responses take_response
take_responses_history n ts t later v h =
    let m = take_responses n ts in
    let (vm, i) = take_responses-IsValid ts n v in
    let at = (n.data_index + length ts + 1) % 8 in
    let here : (m.data_index + 1) % 8 ≡ at = omega arith in
    let stored : get_or (set m.samples ((m.data_index + 1) % 8) (sample_of t)) at no_sample
        ≡ sample_of t =
      rw here (get_or-set_self m.samples at (sample_of t) no_sample (omega (arith, vm.count))) in
    ap (λ r. get_or (r.samples) at no_sample) (take_responses-append ts (t ∷ later) n)
    ∙ sample_stays later (take_response m t.t0 t.t1 t.t2 t.t3) at 0 (omega arith) (omega arith)
        (omega arith)
    ∙ stored
