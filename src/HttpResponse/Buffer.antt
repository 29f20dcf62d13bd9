-- ===== src/HttpResponse/Buffer.antt =====
-- The growth of the buffer in http_response.c: where it suffices, and where it does not.
use mathlib.Core.List.{flatten}
use j_a_r_v_i_s.Prelude.{
  ℕ, zero, suc, ◌+◌, ◌*◌, ◌≤◌, ◌<◌, ◌≡◌, ◌∙◌, ap, sym, refl, none, some, List, [], ◌∷◌, ◌++◌, arith,
  ltb, leb, ltb→lt, ◌&&◌, if◌then◌else◌, length, length-append, append-nil, append_assoc,
  Bool-cases, inl, inr,
}
use j_a_r_v_i_s.HttpResponse.{HttpResponse, grow, new_size, add_data, add_all}

-- The loop ends with room for what is wanted.
grow_bounds :
    (fuel wanted size : ℕ)
    → 0 < size
    → wanted < size + fuel
    → (wanted ≤ grow fuel wanted size) × (size ≤ grow fuel wanted size)
unfolding grow
grow_bounds zero wanted size h e = omega arith
grow_bounds (suc fuel) wanted size h e =
    ground (arith, grow_bounds fuel wanted (size * 2) (omega arith))

pub new_size_bounds :
    (size n : ℕ) → 0 < size → (size + n ≤ new_size size n) × (size ≤ new_size size n)
unfolding new_size
new_size_bounds size n h = grow_bounds (n + 1) (size + n) size h (omega arith)

-- A call of `http_response_add_data` on a buffer that has not outgrown `data_size` adds the text.
pub add_data_lem :
    (r : HttpResponse) (text : List ℕ)
    → 0 < r.data_size
    → 0 < length text
    → length r.bytes ≤ r.data_size
    → add_data r text
      ≡ some (record r { bytes = r.bytes ++ text; allocated = new_size r.data_size (length text) })
unfolding add_data
add_data_lem r text size some_text room = ground (arith, new_size_bounds r.data_size (length text))

-- Every text but the last ends within `size`, and none is empty.
abbrev pub Fits : ℕ → ℕ → List (List ℕ) → Type 0
Fits size used [] = Unit {0}
Fits size used (text ∷ texts) =
    (used ≤ size) × (0 < length text) × Fits size (used + length text) texts

-- What a series of calls leaves.
pub record Added (r : HttpResponse) (texts : List (List ℕ)) (r' : HttpResponse) : Type 0 where
  pub bytes : r'.bytes ≡ r.bytes ++ flatten texts
  pub size : r'.data_size ≡ r.data_size
  pub disconnect : r'.disconnect ≡ r.disconnect

pub add_all_lem :
    (texts : List (List ℕ)) (r : HttpResponse)
    → 0 < r.data_size
    → Fits r.data_size (length r.bytes) texts
    → (r' : HttpResponse) × (add_all r texts ≡ some r') × Added r texts r'
unfolding add_all flatten
add_all_lem [] r size fits =
    (r, refl, record { bytes = sym (append-nil r.bytes); size = refl; disconnect = refl })
add_all_lem (text ∷ texts) r size (room, some_text, fits) =
    let r1 = record r { bytes = r.bytes ++ text; allocated = new_size r.data_size (length text) } in
    let fits' : Fits r.data_size (length (r.bytes ++ text)) texts =
      rw (length-append r.bytes text) fits in
    let (r', e, added) = add_all_lem texts r1 size fits' in
    (
      r',
      rw (add_data_lem r text size some_text room) e,
      record {
        bytes = added.bytes ∙ append_assoc r.bytes text (flatten texts);
        size = added.size;
        disconnect = added.disconnect;
      },
    )

-- With `data_size` still 1024, the block never has more than 2048 bytes after a short text.
grow_twice :
    (fuel wanted : ℕ) → 1024 < wanted → wanted ≤ 2048 → grow (suc (suc fuel)) wanted 1024 ≡ 2048
unfolding grow
grow_twice zero wanted h k = ground arith
grow_twice (suc fuel) wanted h k = ground arith

grow_short : (n : ℕ) → 0 < n → n ≤ 1024 → new_size 1024 n ≡ 2048
unfolding new_size
grow_short zero h k = absurd (omega arith)
grow_short (suc n) h k =
    let e : suc n + 1 ≡ suc (suc n) = omega arith in
    ap (λ f. grow f (1024 + suc n) 1024) e ∙ grow_twice n (1024 + suc n) (omega arith) (omega arith)

add_data_short :
    (r : HttpResponse) (text : List ℕ)
    → r.data_size ≡ 1024
    → length text ≤ 1024
    → add_data r text ≡ (
        if ltb 0 (length text) && leb (length r.bytes + length text) 2048
        then some (record r { bytes = r.bytes ++ text; allocated = 2048 })
        else none)
unfolding add_data
add_data_short r text size h = elim (Bool-cases (ltb 0 (length text))) [
  | inl more ↦
      let e : new_size r.data_size (length text) ≡ 2048 =
        ap (λ s. new_size s (length text)) size
        ∙ grow_short (length text) (ltb→lt 0 (length text) more) h in
      ground arith
  | inr empty ↦ ground arith
]

abbrev pub AllShort : List (List ℕ) → Type 0
AllShort [] = Unit {0}
AllShort (text ∷ texts) = (length text ≤ 1024) × AllShort texts

-- Where `data_size` is 1024 and at most 2048 bytes are written: texts of at most 1024 bytes each that
-- make more than 2048 in all are a fault.
pub add_all_overflow :
    (texts : List (List ℕ)) (r : HttpResponse)
    → r.data_size ≡ 1024
    → AllShort texts
    → length r.bytes ≤ 2048
    → 2048 < length r.bytes + length (flatten texts)
    → add_all r texts ≡ none
unfolding add_all flatten
add_all_overflow [] r size short small big = absurd (omega arith)
add_all_overflow (text ∷ texts) r size (h, short) small big =
    elim (Bool-cases (ltb 0 (length text) && leb (length r.bytes + length text) 2048)) [
      | inl fits ↦
          let r1 = record r { bytes = r.bytes ++ text; allocated = 2048 } in
          rw (add_data_short r text size h, fits)
            (add_all_overflow texts r1 size short (rw (length-append r.bytes text) (ground arith))
              (omega (arith, length-append r.bytes text, length-append text (flatten texts))))
      | inr full ↦ rw (add_data_short r text size h, full)
    ]
