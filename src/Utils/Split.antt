-- ===== src/Utils/Split.antt =====
-- The split of a text at a delimiter, utils_strsep of utils.c.
use mathlib.Core.Path.{subst}
use mathlib.Core.Option.{some-injective}
use j_a_r_v_i_s.Prelude.{
  ℕ, suc, ◌+◌, ◌≤◌, ◌<◌, zero, ◌≡◌, ◌∙◌, ap, refl, arith, true, false, Option, none, some, List, [],
  ◌∷◌, ◌++◌, ◌==◌, ==→eq, length, take, drop, Bool-cases, Option-cases, length-take, inl, inr,
}
use j_a_r_v_i_s.Utils.{has_prefix, strstr, cut_at, strsep}

-- The text that `strsep` leaves is put together again.
unfoldable pub rejoin : List ℕ → Option (List ℕ) × Option (List ℕ) → List ℕ
rejoin delim (none, rest) = []
rejoin delim (some token, none) = token
rejoin delim (some token, some rest) = token ++ (delim ++ rest)

has_prefix_lem :
    (delim text : List ℕ) → has_prefix delim text ≡ true → delim ++ drop (length delim) text ≡ text
unfolding has_prefix
has_prefix_lem [] text h = refl
has_prefix_lem (d ∷ delim) [] h = absurd (ground arith)
has_prefix_lem (d ∷ delim) (c ∷ text) h = elim (Bool-cases (d == c)) [
  | inl e ↦ rw (==→eq d c e) (ap (◌∷◌ c) (has_prefix_lem delim text (rw e at h)))
  | inr e ↦ let k : false ≡ true = rw e at h in absurd (ground arith)
]

-- The first place where the delimiter stands.
record Found (text delim : List ℕ) (i : ℕ) : Type 0 where
  joined : take i text ++ (delim ++ drop (i + length delim) text) ≡ text
  bound : i ≤ length text
  first : (j : ℕ) → j < i → has_prefix delim (drop j text) ≡ false

start-Found : (text delim : List ℕ) → has_prefix delim text ≡ true → Found text delim 0
start-Found text delim h = record {
  joined =
      let e : 0 + length delim ≡ length delim = omega arith in
      ap (λ n. delim ++ drop n text) e ∙ has_prefix_lem delim text h;
  bound = omega arith;
  first = λ j l. absurd (omega arith);
}

first_later :
    (c : ℕ) (text delim : List ℕ) (i j : ℕ)
    → has_prefix delim (c ∷ text) ≡ false
    → ((k : ℕ) → k < i → has_prefix delim (drop k text) ≡ false)
    → j < suc i
    → has_prefix delim (drop j (c ∷ text)) ≡ false
first_later c text delim i zero e first l = e
first_later c text delim i (suc j) e first l = first j (omega arith)

later-Found :
    (c : ℕ) (text delim : List ℕ) (i : ℕ)
    → has_prefix delim (c ∷ text) ≡ false
    → Found text delim i
    → Found (c ∷ text) delim (suc i)
later-Found c text delim i e f = record {
  joined =
      let n : suc i + length delim ≡ suc (i + length delim) = omega arith in
      ap (λ n. (c ∷ take i text) ++ (delim ++ drop n (c ∷ text))) n ∙ ap (◌∷◌ c) f.joined;
  bound = let b = f.bound in omega arith;
  first = λ j l. first_later c text delim i j e f.first l;
}

strstr-Found : (text delim : List ℕ) (i : ℕ) → strstr text delim ≡ some i → Found text delim i
unfolding strstr
strstr-Found [] delim i h = elim (Bool-cases (has_prefix delim [])) [
  | inl e ↦ subst (Found [] delim) (some-injective _ _ (rw e at h)) (start-Found [] delim e)
  | inr e ↦ let k : ◌≡◌ {A = Option ℕ} none (some i) = rw e at h in cc
]
strstr-Found (c ∷ text) delim i h = elim (Bool-cases (has_prefix delim (c ∷ text))) [
  | inl e ↦
      subst (Found (c ∷ text) delim) (some-injective _ _ (rw e at h))
        (start-Found (c ∷ text) delim e)
  | inr e ↦ elim (Option-cases (strstr text delim)) [
    | inl n ↦ let k : ◌≡◌ {A = Option ℕ} none (some i) = rw (e, n) at h in cc
    | inr (m, n) ↦
        subst (Found (c ∷ text) delim) (some-injective _ _ (rw (e, n) at h))
          (later-Found c text delim m e (strstr-Found text delim m n))
  ]
]

strstr_nil : (delim : List ℕ) → strstr [] delim ≡ none → has_prefix delim [] ≡ false
unfolding strstr
strstr_nil delim h = elim (Bool-cases (has_prefix delim [])) [
  | inl e ↦ let k : ◌≡◌ {A = Option ℕ} (some 0) none = rw e at h in cc
  | inr e ↦ e
]

strstr-none :
    (text delim : List ℕ) (j : ℕ)
    → strstr text delim ≡ none
    → has_prefix delim (drop j text) ≡ false
unfolding strstr
strstr-none [] delim zero h = strstr_nil delim h
strstr-none [] delim (suc j) h = strstr_nil delim h
strstr-none (c ∷ text) delim j h = elim (Bool-cases (has_prefix delim (c ∷ text))) [
  | inl e ↦ let k : ◌≡◌ {A = Option ℕ} (some 0) none = rw e at h in cc
  | inr e ↦ elim (Option-cases (strstr text delim)) [
    | inl n ↦ first_later c text delim j j e (λ k l. strstr-none text delim k n) (omega arith)
    | inr (m, n) ↦ let k : ◌≡◌ {A = Option ℕ} (some (suc m)) none = rw (e, n) at h in cc
  ]
]

-- The length of the token.
unfoldable pub token_length : Option (List ℕ) × Option (List ℕ) → ℕ
token_length (none, rest) = 0
token_length (some token, rest) = length token

rejoin-cut_at :
    (text delim : List ℕ) (o : Option ℕ)
    → strstr text delim ≡ o
    → rejoin delim (cut_at text delim o) ≡ text
unfolding cut_at rejoin
rejoin-cut_at text delim none h = refl
rejoin-cut_at text delim (some i) h = (strstr-Found text delim i h).joined

cut_at_first :
    (text delim : List ℕ) (j : ℕ) (o : Option ℕ)
    → strstr text delim ≡ o
    → j < token_length (cut_at text delim o)
    → has_prefix delim (drop j text) ≡ false
unfolding cut_at token_length
cut_at_first text delim j none h l = strstr-none text delim j h
cut_at_first text delim j (some i) h l =
    (strstr-Found text delim i h).first j (omega (arith, length-take i text))

-- `utils_strsep` takes a text apart without loss: the token, the delimiter and the rest are the
-- text, or the token alone where nothing is left.
pub rejoin-strsep : (text delim : List ℕ) → rejoin delim (strsep (some text) delim) ≡ text
unfolding strsep
rejoin-strsep text delim = rejoin-cut_at text delim (strstr text delim) refl

-- The token that `utils_strsep` returns ends at the first delimiter: none begins in the text at a
-- place `j` before the end of the token.
pub strsep_first :
    (text delim : List ℕ) (j : ℕ)
    → j < token_length (strsep (some text) delim)
    → has_prefix delim (drop j text) ≡ false
unfolding strsep
strsep_first text delim j l = cut_at_first text delim j (strstr text delim) refl l
