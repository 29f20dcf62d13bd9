-- ===== src/HttpResponse/Message.antt =====
-- Whole responses: the bytes that the calls of http_response.c produce in order.
use mathlib.Core.List.{flatten}
use mathlib.Core.Path.{fun_ext}
use j_a_r_v_i_s.Prelude.{
  ℕ, zero, suc, ◌+◌, ◌-◌, ◌*◌, ◌/◌, ◌%◌, ◌≤◌, ◌<◌, ◌≡◌, ◌∙◌, ap, sym, refl, Option, none, some,
  List, [], ◌∷◌, ◌++◌, arith, ltb, length, Bool-cases, inl, inr, ◌>>=◌, Option-cases, lt→ltb,
  le→leb, codes, decimal_fuel, decimal, take,
}
use j_a_r_v_i_s.HttpResponse.{
  HttpResponse, add_data, add_all, init, add_header, finish, get_data, crlf, space, colon,
}
use j_a_r_v_i_s.HttpResponse.Buffer.{Fits, add_all_lem}

-- The reader of a decimal number, digit by digit.
unfoldable pub read_decimal : ℕ → List ℕ → ℕ
read_decimal acc [] = acc
read_decimal acc (d ∷ ds) = read_decimal (acc * 10 + (d - 48)) ds

read-decimal_fuel :
    (fuel n : ℕ) (rest : List ℕ)
    → n < fuel
    → read_decimal 0 (decimal_fuel fuel n rest) ≡ read_decimal n rest
unfolding decimal_fuel read_decimal
read-decimal_fuel zero n rest h = absurd (omega arith)
read-decimal_fuel (suc fuel) n rest h = elim (Bool-cases (ltb n 10)) [
  | inl last ↦
      let e : 0 * 10 + (48 + n - 48) ≡ n = omega arith in rw last (ap (λ k. read_decimal k rest) e)
  | inr more ↦
      let e : n / 10 * 10 + (48 + n % 10 - 48) ≡ n = omega arith in
      rw more (
        read-decimal_fuel fuel (n / 10) ((48 + n % 10) ∷ rest) (ground arith)
        ∙ ap (λ k. read_decimal k rest) e)
]

-- The text of a number, as `Content-Length` states it, reads back as the number.
pub read-decimal : (n : ℕ) → read_decimal 0 (decimal n) ≡ n
unfolding decimal read_decimal
read-decimal n = read-decimal_fuel (suc n) n [] (omega arith)

add_all-append :
    (r : HttpResponse) (xs ys : List (List ℕ))
    → add_all r (xs ++ ys) ≡ (add_all r xs >>= λ r'. add_all r' ys)
unfolding add_all
add_all-append r [] ys = refl
add_all-append r (x ∷ xs) ys = elim (Option-cases (add_data r x)) [
  | inl e ↦ rw e
  | inr (r', e) ↦ rw e (add_all-append r' xs ys)
]

-- Header fields, added one by one.
unfoldable pub add_headers : HttpResponse → List (List ℕ × List ℕ) → Option HttpResponse
add_headers r [] = some r
add_headers r ((name, value) ∷ headers) = add_header r name value >>= λ r'. add_headers r' headers

-- A whole response with a body, as the handlers of raop.c make it.
unfoldable pub respond :
    HttpResponse → List ℕ → ℕ → List ℕ → List (List ℕ × List ℕ) → List ℕ → Option (List ℕ)
respond r protocol status message headers body = do
  r1 ← init r protocol status message
  r2 ← add_headers r1 headers
  r3 ← finish r2 body
  get_data r3

abbrev pub header_texts : List (List ℕ × List ℕ) → List (List ℕ)
header_texts [] = []
header_texts ((name, value) ∷ headers) = name ∷ colon ∷ value ∷ crlf ∷ header_texts headers

-- The texts of a response in the order of the wire format.
abbrev pub response_texts : List ℕ → ℕ → List ℕ → List (List ℕ × List ℕ) → List ℕ → List (List ℕ)
response_texts protocol status message headers body =
    (protocol ∷ space ∷ take 3 (decimal status) ∷ space ∷ message ∷ crlf ∷ [])
    ++ (header_texts headers
        ++ (codes "Content-Length" ∷ colon ∷ decimal (length body) ∷ (crlf ++ crlf) ∷ body ∷ []))

add_headers_lem :
    (r : HttpResponse) (headers : List (List ℕ × List ℕ))
    → add_headers r headers ≡ add_all r (header_texts headers)
unfolding add_headers add_header
add_headers_lem r [] = unfold add_all in refl
add_headers_lem r ((name, value) ∷ headers) =
    let texts : List (List ℕ) = name ∷ colon ∷ value ∷ crlf ∷ [] in
    ap (λ k. add_all r texts >>= k) (fun_ext (λ r'. add_headers_lem r' headers))
    ∙ sym (add_all-append r texts (header_texts headers))

abbrev body_texts : List ℕ → List (List ℕ)
body_texts body =
    codes "Content-Length" ∷ colon ∷ decimal (length body) ∷ (crlf ++ crlf) ∷ body ∷ []

abbrev bytes_of : HttpResponse → Option (List ℕ)
bytes_of r = some r.bytes

finish_lem :
    (r : HttpResponse) (body : List ℕ)
    → 0 < length body
    → (finish r body >>= λ r'. get_data r') ≡ (add_all r (body_texts body) >>= bytes_of)
unfolding finish get_data
finish_lem r body h = elim (Option-cases (add_all r (body_texts body))) [
  | inl e ↦ rw (lt→ltb 0 (length body) h, e)
  | inr (r', e) ↦ rw (lt→ltb 0 (length body) h, e)
]

tail_lem :
    (r : HttpResponse) (headers : List (List ℕ × List ℕ)) (body : List ℕ)
    → 0 < length body
    → (add_headers r headers >>= λ r2. finish r2 body >>= λ r3. get_data r3)
      ≡ (add_all r (header_texts headers ++ body_texts body) >>= bytes_of)
tail_lem r headers body h =
    rw (add_headers_lem r headers, add_all-append r (header_texts headers) (body_texts body))
      (elim (Option-cases (add_all r (header_texts headers))) [
        | inl e ↦ rw e
        | inr (r', e) ↦ rw e (finish_lem r' body h)
      ])

-- With a status of three digits and a body that is not empty: a response of texts that are not
-- empty, of which all but the last end within `data_size`, goes out as the status line, the
-- header fields, `Content-Length` and the body; nothing of an earlier response stays in it.
pub respond_bytes :
    (r : HttpResponse) (protocol : List ℕ) (status : ℕ) (message : List ℕ)
    (headers : List (List ℕ × List ℕ)) (body : List ℕ)
    → 0 < r.data_size
    → 100 ≤ status
    → status < 1000
    → 0 < length body
    → Fits r.data_size 0 (response_texts protocol status message headers body)
    → respond r protocol status message headers body
      ≡ some (flatten (response_texts protocol status message headers body))
unfolding respond init
respond_bytes r protocol status message headers body size lo hi some_body fits =
    let r0 = record r { bytes = [] } in
    let status_texts : List (List ℕ) =
      protocol ∷ space ∷ take 3 (decimal status) ∷ space ∷ message ∷ crlf ∷ [] in
    let rest = header_texts headers ++ body_texts body in
    let (r', e, added) = add_all_lem (status_texts ++ rest) r0 size fits in
    let e' : (add_all r0 status_texts >>= λ r1. add_all r1 rest) ≡ some r' =
      sym (add_all-append r0 status_texts rest) ∙ e in
    rw (le→leb 100 status lo, lt→ltb status 1000 hi)
      (elim (Option-cases (add_all r0 status_texts)) [
        | inl f ↦ let g : ◌≡◌ {A = Option HttpResponse} none (some r') = rw f at e' in cc
        | inr (r1, f) ↦ rw (f, tail_lem r1 headers body some_body, rw f at e') (ap some added.bytes)
      ])
