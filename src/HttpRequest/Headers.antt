-- ===== src/HttpRequest/Headers.antt =====
-- The header array of http_request.c against the list of fields and values that the client sent.
use j_a_r_v_i_s.Prelude.{
  ℕ, ◌+◌, ◌*◌, ◌%◌, ◌≡◌, ◌∙◌, ap, sym, refl, true, false, Option, none, some, List, [], ◌∷◌, ◌++◌,
  arith, ◌==◌, if◌then◌else◌, length, get_or, set, take, drop, length-append, append_assoc, ◌>>=◌,
  lt→ltb, Option-cases, inl, inr,
}
use mathlib.Core.Path.{subst}
use mathlib.Core.Option.{some-injective}
use j_a_r_v_i_s.HttpRequest.{
  HttpRequest, Callback, on_url, on_header_field, on_header_value, on_body, on_message_complete,
  init, until_nul, append_text, append_header, header_field, header_value, callback, add_data,
}

-- A header field with its value.
abbrev pub Field : Type 0
Field = List ℕ × List ℕ

-- How far the headers have been read: nothing, in the name of a field, or in its value.
pub data Progress : Type 0 where
  before : Progress
  in_field : List Field → List ℕ → Progress
  in_value : List Field → List ℕ → List ℕ → Progress

-- What a callback adds; a value with no field before it is a fault.
unfoldable pub advance : Progress → Callback → Option Progress
advance p (on_url text after) = some p
advance p (on_body text) = some p
advance p (on_message_complete method) = some p
advance before (on_header_field text) = some (in_field [] (until_nul text))
advance (in_field done name) (on_header_field text) = some (in_field done (name ++ until_nul text))
advance (in_value done name value) (on_header_field text) =
    some (in_field (done ++ (name, value) ∷ []) (until_nul text))
advance before (on_header_value text) = none
advance (in_field done name) (on_header_value text) = some (in_value done name (until_nul text))
advance (in_value done name value) (on_header_value text) =
    some (in_value done name (value ++ until_nul text))

unfoldable pub advance_all : Progress → List Callback → Option Progress
advance_all p [] = some p
advance_all p (c ∷ cs) = advance p c >>= λ p'. advance_all p' cs

-- The array for the fields that are done.
abbrev pub layout : List Field → List (Option (List ℕ))
layout [] = []
layout ((name, value) ∷ fields) = some name ∷ some value ∷ layout fields

-- The array and the index that stand for a state of reading.
abbrev pub headers_of : Progress → List (Option (List ℕ))
headers_of before = []
headers_of (in_field done name) = layout done ++ (some name ∷ none ∷ [])
headers_of (in_value done name value) = layout done ++ (some name ∷ some value ∷ [])

abbrev pub index_of : Progress → ℕ
index_of before = 0
index_of (in_field done name) = 2 * length done
index_of (in_value done name value) = 2 * length done + 1

pub record Represents (r : HttpRequest) (p : Progress) : Type 0 where
  pub headers : r.headers ≡ headers_of p
  pub index : r.headers_index ≡ index_of p

length-layout : (fields : List Field) → length (layout fields) ≡ 2 * length fields
length-layout [] = omega arith
length-layout ((name, value) ∷ fields) = omega (arith, length-layout fields)

pub layout-append : (xs ys : List Field) → layout (xs ++ ys) ≡ layout xs ++ layout ys
layout-append [] ys = refl
layout-append ((name, value) ∷ xs) ys = ap (λ t. some name ∷ some value ∷ t) (layout-append xs ys)

module _ {ℓ} {A : Type ℓ} where
  set-append :
      (pre : List A) (x y : A) (post : List A) (i : ℕ)
      → i ≡ length pre
      → set (pre ++ (x ∷ post)) i y ≡ pre ++ (y ∷ post)
  set-append [] x y post i e = rw e
  set-append (p ∷ pre) x y post i e = rw e (ap (◌∷◌ p) (set-append pre x y post (length pre) refl))

  get_or-append :
      (pre : List A) (x : A) (post : List A) (d : A) (i : ℕ)
      → i ≡ length pre
      → get_or (pre ++ (x ∷ post)) i d ≡ x
  get_or-append [] x post d i e = rw e
  get_or-append (p ∷ pre) x post d i e = rw e (get_or-append pre x post d (length pre) refl)

-- Appending to an entry of the array, at the place where the array splits.
append_header_lem :
    (r : HttpRequest) (index : ℕ) (text : List ℕ) (pre : List (Option (List ℕ)))
    (h : Option (List ℕ)) (post : List (Option (List ℕ)))
    → r.headers ≡ pre ++ (h ∷ post)
    → index ≡ length pre
    → append_header r index text
      ≡ some
          (record r { headers_index = index; headers = pre ++ (some (append_text h text) ∷ post) })
unfolding append_header
append_header_lem r index text pre h post e i = rw (
  e,
  lt→ltb index (length (pre ++ (h ∷ post))) (omega (arith, i, length-append pre (h ∷ post))),
  get_or-append pre h post none index i,
  set-append pre h (some (append_text h text)) post index i,
)

-- One callback keeps the array and the fields in agreement.
abbrev Steps : HttpRequest → Callback → Progress → Type 0
Steps r c p' = (r' : HttpRequest) × (callback r c ≡ some r') × Represents r' p'

module _ (r : HttpRequest) (text : List ℕ) where
  new_field :
      (done : List Field)
      → r.headers ≡ layout done
      → (if r.headers_index % 2 == 1 then r.headers_index + 1 else r.headers_index)
        ≡ 2 * length done
      → Steps r (on_header_field text) (in_field done (until_nul text))
  unfolding callback header_field append_text
  new_field done e i =
      let grown = r.headers ++ (none ∷ none ∷ []) in
      let full : (2 * length done == length r.headers) ≡ true =
        let l = length-layout done in rw e (ground arith) in
      let added =
        append_header_lem (record r { headers = grown }) (2 * length done) text (layout done) none
          (none ∷ []) (ap (λ h. h ++ (none ∷ none ∷ [])) e) (sym (length-layout done)) in
      (
        record r {
          headers_index = 2 * length done;
          headers = layout done ++ (some (until_nul text) ∷ none ∷ []);
        },
        rw (i, full) added,
        record { headers = refl; index = refl },
      )

  more_field :
      (done : List Field) (name : List ℕ)
      → Represents r (in_field done name)
      → Steps r (on_header_field text) (in_field done (name ++ until_nul text))
  unfolding callback header_field append_text
  more_field done name s =
      let l = length-layout done in
      let even : (if r.headers_index % 2 == 1 then r.headers_index + 1 else r.headers_index)
          ≡ 2 * length done =
        rw s.index (ground arith) in
      let room : (2 * length done == length r.headers) ≡ false =
        rw s.headers
          (let a = length-append (layout done) (some name ∷ none ∷ []) in ground arith) in
      let added =
        append_header_lem r (2 * length done) text (layout done) (some name) (none ∷ []) s.headers
          (sym (length-layout done)) in
      (
        record r {
          headers_index = 2 * length done;
          headers = layout done ++ (some (name ++ until_nul text) ∷ none ∷ []);
        },
        rw (even, room) added,
        record { headers = refl; index = refl },
      )

  first_value :
      (done : List Field) (name : List ℕ)
      → Represents r (in_field done name)
      → Steps r (on_header_value text) (in_value done name (until_nul text))
  unfolding callback header_value append_text
  first_value done name s =
      let odd : (if r.headers_index % 2 == 0 then r.headers_index + 1 else r.headers_index)
          ≡ 2 * length done + 1 =
        rw s.index (ground arith) in
      let pre = layout done ++ (some name ∷ []) in
      let split : r.headers ≡ pre ++ (none ∷ []) =
        s.headers ∙ sym (append_assoc (layout done) (some name ∷ []) (none ∷ [])) in
      let at : 2 * length done + 1 ≡ length pre =
        omega (arith, length-layout done, length-append (layout done) (some name ∷ [])) in
      let added = append_header_lem r (2 * length done + 1) text pre none [] split at in
      (
        record r {
          headers_index = 2 * length done + 1;
          headers = pre ++ (some (until_nul text) ∷ []);
        },
        rw odd added,
        record {
          headers = append_assoc (layout done) (some name ∷ []) (some (until_nul text) ∷ []);
          index = refl;
        },
      )

  more_value :
      (done : List Field) (name value : List ℕ)
      → Represents r (in_value done name value)
      → Steps r (on_header_value text) (in_value done name (value ++ until_nul text))
  unfolding callback header_value append_text
  more_value done name value s =
      let odd : (if r.headers_index % 2 == 0 then r.headers_index + 1 else r.headers_index)
          ≡ 2 * length done + 1 =
        rw s.index (ground arith) in
      let pre = layout done ++ (some name ∷ []) in
      let split : r.headers ≡ pre ++ (some value ∷ []) =
        s.headers ∙ sym (append_assoc (layout done) (some name ∷ []) (some value ∷ [])) in
      let at : 2 * length done + 1 ≡ length pre =
        omega (arith, length-layout done, length-append (layout done) (some name ∷ [])) in
      let added = append_header_lem r (2 * length done + 1) text pre (some value) [] split at in
      (
        record r {
          headers_index = 2 * length done + 1;
          headers = pre ++ (some (value ++ until_nul text) ∷ []);
        },
        rw odd added,
        record {
          headers =
              append_assoc (layout done) (some name ∷ []) (some (value ++ until_nul text) ∷ []);
          index = refl;
        },
      )

  value_fault : Represents r before → callback r (on_header_value text) ≡ none
  unfolding callback header_value append_header
  value_fault s = rw (s.index, s.headers)

callback_refines :
    (c : Callback) (r : HttpRequest) (p p' : Progress)
    → Represents r p
    → advance p c ≡ some p'
    → Steps r c p'
unfolding advance callback
callback_refines (on_header_field text) r before p' s e =
    subst (Steps r (on_header_field text)) (some-injective _ _ e)
      (new_field r text [] s.headers (rw s.index))
callback_refines (on_header_field text) r (in_field done name) p' s e =
    subst (Steps r (on_header_field text)) (some-injective _ _ e) (more_field r text done name s)
callback_refines (on_header_field text) r (in_value done name value) p' s e =
    let fields = done ++ (name, value) ∷ [] in
    subst (Steps r (on_header_field text)) (some-injective _ _ e) (
      new_field r text fields (s.headers ∙ sym (layout-append done ((name, value) ∷ [])))
        (rw s.index (let l = length-append done ((name, value) ∷ []) in ground arith)))
callback_refines (on_header_value text) r before p' s e = cc
callback_refines (on_header_value text) r (in_field done name) p' s e =
    subst (Steps r (on_header_value text)) (some-injective _ _ e) (first_value r text done name s)
callback_refines (on_header_value text) r (in_value done name value) p' s e =
    subst (Steps r (on_header_value text)) (some-injective _ _ e)
      (more_value r text done name value s)
callback_refines (on_url text after) r p p' s e =
    subst (Steps r (on_url text after)) (some-injective _ _ e) (
      record r {
        url = some (append_text r.url text);
        protocol = take 8 (until_nul (drop 1 after));
      },
      refl,
      record { headers = s.headers; index = s.index },
    )
callback_refines (on_body text) r p p' s e =
    subst (Steps r (on_body text)) (some-injective _ _ e)
      (record r { body = r.body ++ text }, refl, record { headers = s.headers; index = s.index })
callback_refines (on_message_complete method) r p p' s e =
    subst (Steps r (on_message_complete method)) (some-injective _ _ e) (
      record r { method = some method; complete = true },
      refl,
      record { headers = s.headers; index = s.index },
    )

-- From a request that stands for a state of reading, a run of callbacks that has no value before
-- the first field name succeeds and leaves the array for the fields and values received.
pub add_data_refines :
    (cs : List Callback) (r : HttpRequest) (p p' : Progress)
    → Represents r p
    → advance_all p cs ≡ some p'
    → (r' : HttpRequest) × (add_data r cs ≡ some r') × Represents r' p'
unfolding advance_all add_data
add_data_refines [] r p p' s e =
    subst (λ q. (r' : HttpRequest) × (some r ≡ some r') × Represents r' q) (some-injective _ _ e)
      (r, refl, s)
add_data_refines (c ∷ cs) r p p' s e = elim (Option-cases (advance p c)) [
  | inl f ↦ let g : ◌≡◌ {A = Option Progress} none (some p') = rw f at e in cc
  | inr (q, f) ↦
      let (r1, step, s1) = callback_refines c r p q s f in
      let (r2, rest, s2) = add_data_refines cs r1 q p' s1 (rw f at e) in (r2, rw step rest, s2)
]

pub init-Represents : Represents init before
unfolding init
init-Represents = record { headers = refl; index = refl }
