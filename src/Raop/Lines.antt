-- ===== src/Raop/Lines.antt =====
-- The loop over the lines of a GET_PARAMETER request in raop_handlers.h: its fuel.
use j_a_r_v_i_s.Prelude.{
  ℕ, zero, suc, ◌<◌, ◌≡◌, ap, refl, arith, Bool, false, ◌||◌, Option, none, some, List, [], ◌∷◌,
  ◌==◌, length, Bool-cases, inl, inr, length-drop,
}
use j_a_r_v_i_s.Utils.{has_prefix}
use j_a_r_v_i_s.Raop.Media.{next_line, asks_volume, volume_line}

abbrev Shorter : ℕ → Option (List ℕ) → Type 0
Shorter n none = Unit {0}
Shorter n (some rest) = length rest < n

-- A line takes at least its end.
next_line-Shorter : (bytes : List ℕ) → Shorter (length bytes) (next_line bytes)
unfolding next_line
next_line-Shorter [] = tt
next_line-Shorter (c ∷ cs) = elim (Bool-cases (c == 13)) [
  | inl e ↦ elim (Bool-cases (has_prefix (10 ∷ []) cs)) [
    | inl f ↦ rw (e, f) (omega (arith, length-drop 1 cs))
    | inr f ↦ rw (e, f) tt
  ]
  | inr e ↦ rw e (longer (next_line cs) (next_line-Shorter cs))
]
  where
    longer : (o : Option (List ℕ)) → Shorter (length cs) o → Shorter (suc (length cs)) o
    longer none h = tt
    longer (some rest) h = omega arith

same_rest :
    (o : Option (List ℕ)) (f g n : ℕ)
    → Shorter n o
    → ((rest : List ℕ) → length rest < n → asks_volume f rest ≡ asks_volume g rest)
    → elim o as (λ x. Bool) [ none ↦ false | some rest ↦ asks_volume f rest ]
      ≡ elim o as (λ x. Bool) [ none ↦ false | some rest ↦ asks_volume g rest ]
same_rest none f g n h same = refl
same_rest (some rest) f g n h same = same rest h

-- With more fuel than bytes, the loop ends by itself: more fuel changes nothing.
asks_volume_lem :
    (f g : ℕ) (bytes : List ℕ)
    → length bytes < f
    → length bytes < g
    → asks_volume f bytes ≡ asks_volume g bytes
unfolding asks_volume
asks_volume_lem zero g bytes hf hg = absurd (omega arith)
asks_volume_lem (suc f) zero bytes hf hg = absurd (omega arith)
asks_volume_lem (suc f) (suc g) bytes hf hg = ap (◌||◌ (has_prefix volume_line bytes)) (
    same_rest (next_line bytes) f g (length bytes) (next_line-Shorter bytes)
      (λ rest h. asks_volume_lem f g rest (omega arith) (omega arith)))
