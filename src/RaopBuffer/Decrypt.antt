-- ===== src/RaopBuffer/Decrypt.antt =====
-- `raop_buffer_decrypt`: whole blocks go through AES-CBC, the rest of the payload is copied.
use native.Mathlib.Nat.{zero-add, suc-add}
use j_a_r_v_i_s.Prelude.{
  ℕ, zero, suc, ◌+◌, ◌-◌, ◌*◌, ◌/◌, ◌≤◌, ◌≡◌, ◌∙◌, ap, sym, refl, List, [], ◌∷◌, ◌++◌, arith,
  append-nil, append_assoc, length, length-append, set, take, drop, replicate, length-take,
  length-drop, length-replicate,
}
use j_a_r_v_i_s.RaopBuffer.{copy_to, decrypt}

set-append :
    (pre : List ℕ) (y x : ℕ) (post : List ℕ)
    → set (pre ++ y ∷ post) (length pre) x ≡ pre ++ x ∷ post
set-append [] y x post = refl
set-append (p ∷ pre) y x post = ap (◌∷◌ p) (set-append pre y x post)

-- Copying over the bytes behind `pre` replaces as many of them.
copy_to-append :
    (xs pre ys post : List ℕ) (offset : ℕ)
    → length pre ≡ offset
    → length ys ≡ length xs
    → copy_to (pre ++ (ys ++ post)) offset xs ≡ pre ++ (xs ++ post)
unfolding copy_to
copy_to-append [] pre [] post offset e h = refl
copy_to-append [] pre (y ∷ ys) post offset e h = absurd (omega arith)
copy_to-append (x ∷ xs) pre [] post offset e h = absurd (omega arith)
copy_to-append (x ∷ xs) pre (y ∷ ys) post offset e h =
    let moved =
      copy_to-append xs (pre ++ (x ∷ [])) ys post (length pre + 1) (length-append pre (x ∷ []))
        (omega arith) in
    rw (← e, set-append pre y x (ys ++ post))
      (rw (append_assoc pre (x ∷ []) (ys ++ post), append_assoc pre (x ∷ []) (xs ++ post)) at moved)

abbrev zeros : ℕ → List ℕ
zeros n = replicate n 0

replicate-add : (n m : ℕ) → zeros (n + m) ≡ zeros n ++ zeros m
replicate-add zero m = rw zero-add refl
replicate-add (suc n) m = rw suc-add (ap (◌∷◌ 0) (replicate-add n m))

copy_twice :
    (size n : ℕ) (xs ys : List ℕ)
    → n ≤ size
    → length xs ≡ n
    → length ys ≡ size - n
    → copy_to (copy_to (replicate size 0) 0 xs) n ys ≡ xs ++ ys
copy_twice size n xs ys le hx hy =
    let split : zeros size ≡ zeros n ++ zeros (size - n) =
      ap zeros (omega arith) ∙ replicate-add n (size - n) in
    let first : copy_to (zeros size) 0 xs ≡ xs ++ zeros (size - n) =
      ap (λ o. copy_to o 0 xs) split
      ∙ copy_to-append xs [] (zeros n) (zeros (size - n)) 0 refl (length-replicate n 0 ∙ sym hx) in
    let second =
      copy_to-append ys xs (zeros (size - n)) [] n hx (length-replicate (size - n) 0 ∙ sym hy) in
    ap (λ o. copy_to o n ys) first
    ∙ ap (λ o. copy_to (xs ++ o) n ys) (sym (append-nil (zeros (size - n))))
    ∙ second
    ∙ ap (λ o. xs ++ o) (append-nil ys)

-- The output is as long as the payload, and no byte of the zeroed buffer is left in it.
pub decrypt_lem :
    (aes_cbc_decrypt : List ℕ → List ℕ) (bytes : List ℕ) (size : ℕ)
    → ((c : List ℕ) → length (aes_cbc_decrypt c) ≡ length c)
    → 12 + size ≤ length bytes
    → decrypt aes_cbc_decrypt bytes size
      ≡ aes_cbc_decrypt (take (size / 16 * 16) (drop 12 bytes))
        ++ take (size - size / 16 * 16) (drop (12 + size / 16 * 16) bytes)
unfolding decrypt
decrypt_lem aes_cbc_decrypt bytes size hlen hsize =
    let n = size / 16 * 16 in
    copy_twice size n (aes_cbc_decrypt (take n (drop 12 bytes)))
      (take (size - n) (drop (12 + n) bytes)) (omega arith)
      (omega
        (arith, hlen (take n (drop 12 bytes)), length-take n (drop 12 bytes), length-drop 12 bytes))
      (omega (arith, length-take (size - n) (drop (12 + n) bytes), length-drop (12 + n) bytes))
