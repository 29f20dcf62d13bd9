-- ===== src/RaopNtp/Choice.antt =====
-- The sorting of the samples in raop_ntp.c, and the sample that the clock follows.
use mathlib.Core.List.{Memᴰ}
use mathlib.Core.Path.{subst}
use j_a_r_v_i_s.Prelude.{
  ℕ, suc, ◌+◌, ◌≤◌, ◌<◌, ◌≡◌, ◌∙◌, ap, refl, true, false, List, [], ◌∷◌, arith, Bool-cases, inl,
  inr, length, get_or,
}
use j_a_r_v_i_s.Prelude.Int.{ℤ, pos_part, neg_part, ltb_ℤ}
use j_a_r_v_i_s.RaopNtp.{Sample, RaopNtp, insert_sample, sort_samples, no_sample, take_response}
use j_a_r_v_i_s.RaopNtp.History.{Times, IsValid, take_response-IsValid}

-- The order of the integers.
abbrev pub LeInt : ℤ → ℤ → Type 0
LeInt a b = pos_part a + neg_part b ≤ pos_part b + neg_part a

-- No sample of the list has a smaller delay, or none has a larger one.
abbrev pub Fastest : Sample → List Sample → Type 0
Fastest s ss = (u : Sample) → Memᴰ u ss → LeInt s.delay u.delay

abbrev pub Slowest : Sample → List Sample → Type 0
Slowest s ss = (u : Sample) → Memᴰ u ss → LeInt u.delay s.delay

abbrev Sorted : List Sample → Type 0
Sorted [] = Unit {0}
Sorted (s ∷ ss) = Fastest s ss × Sorted ss

insert_later :
    (s t : Sample) (ts : List Sample)
    → ltb_ℤ t.delay s.delay ≡ true
    → insert_sample s (t ∷ ts) ≡ t ∷ insert_sample s ts
unfolding insert_sample
insert_later s t ts e = rw e

insert_here :
    (s t : Sample) (ts : List Sample)
    → ltb_ℤ t.delay s.delay ≡ false
    → insert_sample s (t ∷ ts) ≡ s ∷ t ∷ ts
unfolding insert_sample
insert_here s t ts e = rw e

-- The first two elements of a list change places.
Memᴰ-swap : {s t u : Sample} {ts : List Sample} → Memᴰ u (s ∷ t ∷ ts) → Memᴰ u (t ∷ s ∷ ts)
Memᴰ-swap (Memᴰ.head e) = Memᴰ.tail (Memᴰ.head e)
Memᴰ-swap (Memᴰ.tail (Memᴰ.head e)) = Memᴰ.head e
Memᴰ-swap (Memᴰ.tail (Memᴰ.tail m)) = Memᴰ.tail (Memᴰ.tail m)

Memᴰ-cons :
    {t u : Sample} {xs ys : List Sample}
    → (Memᴰ u xs → Memᴰ u ys)
    → Memᴰ u (t ∷ xs)
    → Memᴰ u (t ∷ ys)
Memᴰ-cons f (Memᴰ.head e) = Memᴰ.head e
Memᴰ-cons f (Memᴰ.tail m) = Memᴰ.tail (f m)

mem-insert_sample :
    (s u : Sample) (ss : List Sample)
    → (Memᴰ u (insert_sample s ss) → Memᴰ u (s ∷ ss))
      × (Memᴰ u (s ∷ ss) → Memᴰ u (insert_sample s ss))
mem-insert_sample s u [] = unfold insert_sample in (λ m. m, λ m. m)
mem-insert_sample s u (t ∷ ts) =
    let (out, into) = mem-insert_sample s u ts in
    elim (Bool-cases (ltb_ℤ t.delay s.delay)) [
      | inl e ↦
          rw (insert_later s t ts e)
            (λ m. Memᴰ-swap (Memᴰ-cons out m), λ m. Memᴰ-cons into (Memᴰ-swap m))
      | inr e ↦ rw (insert_here s t ts e) (λ m. m, λ m. m)
    ]

mem-sort_samples :
    (u : Sample) (ss : List Sample)
    → (Memᴰ u (sort_samples ss) → Memᴰ u ss) × (Memᴰ u ss → Memᴰ u (sort_samples ss))
unfolding sort_samples
mem-sort_samples u [] = (λ m. m, λ m. m)
mem-sort_samples u (s ∷ ss) =
    let (out, into) = mem-sort_samples u ss in
    let (out', into') = mem-insert_sample s u (sort_samples ss) in
    (λ m. Memᴰ-cons out (out' m), λ m. into' (Memᴰ-cons into m))

cons-Fastest :
    (s t : Sample) (ts : List Sample) → LeInt s.delay t.delay → Fastest s ts → Fastest s (t ∷ ts)
cons-Fastest s t ts h k u (Memᴰ.head e) = rw e h
cons-Fastest s t ts h k u (Memᴰ.tail m) = k u m

Fastest-trans :
    (s t : Sample) (ts : List Sample) → LeInt s.delay t.delay → Fastest t ts → Fastest s ts
Fastest-trans s t ts h k u m = let r = k u m in omega arith

insert_sample-Sorted : (s : Sample) (ss : List Sample) → Sorted ss → Sorted (insert_sample s ss)
insert_sample-Sorted s [] h = unfold insert_sample in (λ u m. elim m [ ], tt)
insert_sample-Sorted s (t ∷ ts) (first, rest) = elim (Bool-cases (ltb_ℤ t.delay s.delay)) [
  | inl e ↦ rw (insert_later s t ts e) (
    λ u m. cons-Fastest t s ts (ground arith) first u ((mem-insert_sample s u ts).0 m),
    insert_sample-Sorted s ts rest,
  )
  | inr e ↦ rw (insert_here s t ts e) (
    cons-Fastest s t ts (ground arith) (Fastest-trans s t ts (ground arith) first),
    (first, rest),
  )
]

sort_samples-Sorted : (ss : List Sample) → Sorted (sort_samples ss)
unfolding sort_samples
sort_samples-Sorted [] = tt
sort_samples-Sorted (s ∷ ss) = insert_sample-Sorted s (sort_samples ss) (sort_samples-Sorted ss)

length-insert_sample :
    (s : Sample) (ss : List Sample) → length (insert_sample s ss) ≡ suc (length ss)
length-insert_sample s [] = unfold insert_sample in refl
length-insert_sample s (t ∷ ts) = elim (Bool-cases (ltb_ℤ t.delay s.delay)) [
  | inl e ↦ rw (insert_later s t ts e) (ap suc (length-insert_sample s ts))
  | inr e ↦ rw (insert_here s t ts e)
]

length-sort_samples : (ss : List Sample) → length (sort_samples ss) ≡ length ss
unfolding sort_samples
length-sort_samples [] = refl
length-sort_samples (s ∷ ss) =
    length-insert_sample s (sort_samples ss) ∙ ap suc (length-sort_samples ss)

-- The ends of a sorted list.
first_lem :
    (ss : List Sample)
    → Sorted ss
    → 0 < length ss
    → let s = get_or ss 0 no_sample in Memᴰ s ss × Fastest s ss
first_lem [] h k = absurd (omega arith)
first_lem (s ∷ ss) (first, rest) k = (Memᴰ.head refl, cons-Fastest s s ss (omega arith) first)

cons-Slowest :
    (s t : Sample) (ts : List Sample) → LeInt t.delay s.delay → Slowest s ts → Slowest s (t ∷ ts)
cons-Slowest s t ts h k u (Memᴰ.head e) = rw e h
cons-Slowest s t ts h k u (Memᴰ.tail m) = k u m

last_lem :
    (s : Sample) (ss : List Sample)
    → Sorted (s ∷ ss)
    → let l = get_or (s ∷ ss) (length ss) no_sample in Memᴰ l (s ∷ ss) × Slowest l (s ∷ ss)
last_lem s [] h = (Memᴰ.head refl, cons-Slowest s s [] (omega arith) (λ u m. elim m [ ]))
last_lem s (t ∷ ts) (first, rest) =
    let (m, slow) = last_lem t ts rest in
    let l = get_or (t ∷ ts) (length ts) no_sample in
    (Memᴰ.tail m, cons-Slowest l s (t ∷ ts) (first l m) slow)

last_of :
    (ss : List Sample) (k : ℕ)
    → Sorted ss
    → length ss ≡ suc k
    → let l = get_or ss k no_sample in Memᴰ l ss × Slowest l ss
last_of [] k h e = absurd (omega arith)
last_of (s ∷ ss) k h e =
    let i : length ss ≡ k = omega arith in
    subst
      (λ j.
        Memᴰ (get_or (s ∷ ss) j no_sample) (s ∷ ss)
        × Slowest (get_or (s ∷ ss) j no_sample) (s ∷ ss))
      i (last_lem s ss h)

-- After a response the clock offset is that of a kept sample with the smallest delay, and
-- `sync_delay` is the largest delay of a kept sample, where eight samples are kept before.
pub take_response_lem :
    (n : RaopNtp) (t : Times)
    → IsValid n
    → let n' = take_response n t.t0 t.t1 t.t2 t.t3 in
      ((s : Sample) × Memᴰ s n'.samples × (n'.sync_offset ≡ s.offset) × Fastest s n'.samples)
      × ((s : Sample) × Memᴰ s n'.samples × (n'.sync_delay ≡ s.delay) × Slowest s n'.samples)
take_response_lem n t v =
    let n' = take_response n t.t0 t.t1 t.t2 t.t3 in
    let sorted = sort_samples n'.samples in
    let ordered = sort_samples-Sorted n'.samples in
    let count : length sorted ≡ 8 =
      length-sort_samples n'.samples ∙ (take_response-IsValid n t v).count in
    let (m, fast) = first_lem sorted ordered (omega arith) in
    let (m', slow) = last_of sorted 7 ordered count in
    (
      (
        get_or sorted 0 no_sample,
        (mem-sort_samples _ n'.samples).0 m,
        unfold take_response in refl,
        λ u k. fast u ((mem-sort_samples u n'.samples).1 k),
      ),
      (
        get_or sorted 7 no_sample,
        (mem-sort_samples _ n'.samples).0 m',
        unfold take_response in refl,
        λ u k. slow u ((mem-sort_samples u n'.samples).1 k),
      ),
    )
