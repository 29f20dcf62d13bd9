-- ===== src/MirrorBuffer/Stream.antt =====
-- The packets of mirror_buffer.c as one stream.
use Prim.Native.Nat.{bit_xor, bit_xor-bitwise}
use mathlib.Core.Path.{ap₂}
use mathlib.Core.List.{flatten}
use native.Mathlib.Decide.{ℕ_discrete}
use j_a_r_v_i_s.Prelude.{
  ℕ, zero, suc, ◌+◌, ◌-◌, ◌*◌, ◌/◌, ◌%◌, ◌≤◌, ◌<◌, ◌≡◌, ◌∙◌, ap, sym, refl, List, [], ◌∷◌, ◌++◌,
  arith, length, take, drop, replicate, length-append, take-append_left, take_all, length-drop,
  length-take, drop-drop, drop_all, lt→ltb, le→leb, lt→leb-false, ◌≢◌, take-append-drop,
  length-replicate, drop-append_left,
}
use j_a_r_v_i_s.MirrorBuffer.{
  MirrorBuffer, xor_bytes, init, apply_stream, aes_ctr_decrypt, aes_ctr_start_fresh_block,
  decrypt_blocks, decrypt, decrypt_all,
}

zero-bit_xor : (x : ℕ) → bit_xor 0 x ≡ x
zero-bit_xor x = bit_xor-bitwise 0 x

module _ (keystream : ℕ → ℕ) where
  -- The bytes of the key stream themselves.
  abbrev pub keys : ℕ → ℕ → List ℕ
  keys position zero = []
  keys position (suc n) = keystream position ∷ keys (position + 1) n

  pub length-apply_stream : (p : ℕ) (xs : List ℕ) → length (apply_stream keystream p xs) ≡ length xs
  unfolding apply_stream
  length-apply_stream p [] = refl
  length-apply_stream p (x ∷ xs) = ap suc (length-apply_stream (p + 1) xs)

  pub apply_stream-append :
      (p : ℕ) (xs ys : List ℕ)
      → apply_stream keystream p (xs ++ ys)
        ≡ apply_stream keystream p xs ++ apply_stream keystream (p + length xs) ys
  unfolding apply_stream
  apply_stream-append p [] ys = ap (λ q. apply_stream keystream q ys) (omega arith)
  apply_stream-append p (x ∷ xs) ys = ap (◌∷◌ (bit_xor x (keystream p))) (
      apply_stream-append (p + 1) xs ys
      ∙ ap (λ q. apply_stream keystream (p + 1) xs ++ apply_stream keystream q ys) (omega arith))

  apply_stream_zeros : (n p : ℕ) → apply_stream keystream p (replicate n 0) ≡ keys p n
  unfolding apply_stream
  apply_stream_zeros zero p = refl
  apply_stream_zeros (suc n) p = ap₂ ◌∷◌ (zero-bit_xor (keystream p)) (apply_stream_zeros n (p + 1))

  xor_bytes-keys :
      (xs : List ℕ) (p n : ℕ)
      → length xs ≤ n
      → xor_bytes xs (keys p n) ≡ apply_stream keystream p xs
  unfolding xor_bytes apply_stream
  xor_bytes-keys [] p n h = refl
  xor_bytes-keys (x ∷ xs) p zero h = absurd (omega arith)
  xor_bytes-keys (x ∷ xs) p (suc n) h =
      ap (◌∷◌ (bit_xor x (keystream p))) (xor_bytes-keys xs (p + 1) n (omega arith))

  -- What a block that is only partly used gives, and what it leaves for the next packet.
  partial_block :
      (p m : ℕ) (rest : List ℕ)
      → let og = apply_stream keystream p (rest ++ replicate m 0) in
        (take (length rest) og ≡ apply_stream keystream p rest)
        × (drop (length rest) og ≡ keys (p + length rest) m)
  partial_block p m rest =
      let used = apply_stream keystream p rest in
      let left = keys (p + length rest) m in
      let split : apply_stream keystream p (rest ++ replicate m 0) ≡ used ++ left =
        apply_stream-append p rest (replicate m 0)
        ∙ ap (λ t. used ++ t) (apply_stream_zeros m (p + length rest)) in
      let len = length-apply_stream p rest in
      (
        ap₂ take (sym len) split ∙ take-append_left used left,
        ap₂ drop (sym len) split ∙ drop-append_left used left,
      )

  -- The buffer has decrypted `p` bytes: the key stream is at the end of a block, and `og` ends in
  -- what the last block left over.
  pub record InStep (b : MirrorBuffer) (p : ℕ) : Type 0 where
    pub left_over : b.next_decrypt_count < 16
    pub fresh : b.aes_ctx.block_offset ≡ 0
    pub position : b.aes_ctx.position ≡ p + b.next_decrypt_count
    pub og_size : length b.og ≡ 16
    pub tail : drop (16 - b.next_decrypt_count) b.og ≡ keys p b.next_decrypt_count

  pub init-InStep : InStep init 0
  unfolding init
  init-InStep = record {
    left_over = omega arith;
    fresh = refl;
    position = omega arith;
    og_size = refl;
    tail = refl;
  }

  -- A packet that ends with a block leaves nothing over.
  whole_blocks :
      {b : MirrorBuffer} {p : ℕ} (input : List ℕ)
      → InStep b p
      → b.next_decrypt_count ≤ length input
      → (length input - b.next_decrypt_count) % 16 ≡ 0
      → let (b', output) = decrypt_blocks keystream b input (length input) in
        (output
          ≡ apply_stream keystream (p + b.next_decrypt_count) (drop b.next_decrypt_count input))
        × InStep b' (p + length input)
  unfolding decrypt_blocks aes_ctr_decrypt aes_ctr_start_fresh_block
  whole_blocks {b} {p} input s h e =
      let n = b.next_decrypt_count in
      let body = drop n input in
      let len = length-drop n input in
      let all : take ((length input - n) / 16 * 16) body ≡ body =
        take_all ((length input - n) / 16 * 16) body (omega arith) in
      rw (e, s.fresh, s.position, all)
        (
          refl,
          record {
            left_over = omega arith;
            og_size = s.og_size;
            fresh = refl;
            position = omega arith;
            tail = drop_all 16 b.og (omega (arith, s.og_size));
          },
        )

  -- One that ends inside a block decrypts a whole block, and keeps what it does not need.
  part_block :
      {b : MirrorBuffer} {p : ℕ} (input : List ℕ)
      → InStep b p
      → b.next_decrypt_count ≤ length input
      → 0 < (length input - b.next_decrypt_count) % 16
      → let (b', output) = decrypt_blocks keystream b input (length input) in
        (output
          ≡ apply_stream keystream (p + b.next_decrypt_count) (drop b.next_decrypt_count input))
        × InStep b' (p + length input)
  unfolding decrypt_blocks aes_ctr_decrypt aes_ctr_start_fresh_block
  part_block {b} {p} input s h more =
      let n = b.next_decrypt_count in
      let body = drop n input in
      let len = length-drop n input in
      let enc = (length input - n) / 16 * 16 in
      let restlen = (length input - n) % 16 in
      let blocks = take enc body in
      let rest = drop enc body in
      let len_blocks : length blocks ≡ enc = omega (arith, length-take enc body) in
      let len_rest : length rest ≡ restlen = omega (arith, length-drop enc body) in
      let q = p + n + enc in
      let start : length input - restlen ≡ n + enc = omega arith in
      let same : take restlen (drop (length input - restlen) input) ≡ rest =
        ap (λ k. take restlen (drop k input)) start
        ∙ ap (take restlen) (sym (drop-drop n enc input))
        ∙ take_all restlen rest (omega arith) in
      let z : List ℕ = replicate (16 - restlen) 0 in
      let lz : length z ≡ 16 - restlen = length-replicate (16 - restlen) 0 in
      let (used, left) = partial_block q (16 - restlen) rest in
      let used' : take restlen (apply_stream keystream q (rest ++ z))
          ≡ apply_stream keystream q rest =
        rw len_rest at used in
      let left' : drop restlen (apply_stream keystream q (rest ++ z))
          ≡ keys (q + restlen) (16 - restlen) =
        rw len_rest at left in
      let whole : apply_stream keystream (p + n) blocks ++ apply_stream keystream q rest
          ≡ apply_stream keystream (p + n) body =
        ap (λ k. apply_stream keystream (p + n) blocks ++ apply_stream keystream (p + n + k) rest)
          (sym len_blocks)
        ∙ sym (apply_stream-append (p + n) blocks rest)
        ∙ ap (apply_stream keystream (p + n)) (take-append-drop enc body) in
      let og = apply_stream keystream q (rest ++ z) in
      let og_length : length (rest ++ z) ≡ 16 = omega (arith, length-append rest z, lz) in
      let back : 16 - (16 - restlen) ≡ restlen = omega arith in
      let ahead : q + restlen ≡ p + length input = omega arith in
      rw (lt→ltb 0 restlen more, s.fresh, s.position, same, len_blocks, used', og_length)
        (
          whole,
          record {
            left_over = omega arith;
            fresh = refl;
            position = omega arith;
            og_size = length-apply_stream q (rest ++ z) ∙ og_length;
            tail = ap (λ k. drop k og) back ∙ left' ∙ ap (λ k. keys k (16 - restlen)) ahead;
          },
        )

  decrypt_blocks_lem :
      {b : MirrorBuffer} {p : ℕ} (input : List ℕ)
      → InStep b p
      → b.next_decrypt_count ≤ length input
      → let (b', output) = decrypt_blocks keystream b input (length input) in
        (output
          ≡ apply_stream keystream (p + b.next_decrypt_count) (drop b.next_decrypt_count input))
        × InStep b' (p + length input)
  decrypt_blocks_lem {b} input s h =
      elim (ℕ_discrete ((length input - b.next_decrypt_count) % 16) 0) [
        | yes e ↦ whole_blocks input s h e
        | no e ↦ part_block input s h (omega arith)
      ]

  -- One packet: the output is the input under the next bytes of the key stream, and the buffer
  -- stays in step with the stream.
  pub decrypt_packet :
      {b : MirrorBuffer} {p : ℕ} (input : List ℕ)
      → InStep b p
      → b.next_decrypt_count ≤ length input
      → let (b', output) = decrypt keystream b input (length input) in
        (output ≡ apply_stream keystream p input) × InStep b' (p + length input)
  unfolding decrypt
  decrypt_packet {b} {p} input s h =
      let n = b.next_decrypt_count in
      let (written, step) = decrypt_blocks_lem input s h in
      let len_head : length (take n input) ≡ n = omega (arith, length-take n input) in
      let head : xor_bytes (take n input) (drop (16 - n) b.og)
          ≡ apply_stream keystream p (take n input) =
        ap (xor_bytes (take n input)) s.tail ∙ xor_bytes-keys (take n input) p n (omega arith) in
      rw (le→leb n (length input) h) (
        ap₂ ◌++◌ head written
            ∙ ap
                (λ k.
                  apply_stream keystream p (take n input)
                  ++ apply_stream keystream (p + k) (drop n input))
                (sym len_head)
            ∙ sym (apply_stream-append p (take n input) (drop n input))
            ∙ ap (apply_stream keystream p) (take-append-drop n input),
        step,
      )

  abbrev pub AllLong : List (List ℕ) → Type 0
  AllLong [] = Unit {0}
  AllLong (input ∷ inputs) = (16 ≤ length input) × AllLong inputs

  decrypt_all_from :
      (inputs : List (List ℕ)) (b : MirrorBuffer) (p : ℕ)
      → InStep b p
      → AllLong inputs
      → decrypt_all keystream b inputs ≡ apply_stream keystream p (flatten inputs)
  unfolding decrypt_all flatten
  decrypt_all_from [] b p s long = unfold apply_stream in refl
  decrypt_all_from (input ∷ inputs) b p s (h, long) =
      let (output, step) = decrypt_packet input s (omega (arith, s.left_over)) in
      ap₂ ◌++◌ output (decrypt_all_from inputs _ (p + length input) step long)
      ∙ sym (apply_stream-append p input (flatten inputs))

  -- Packets of at least a block each, however the stream is cut into them, decrypt to the whole
  -- stream combined with the key stream from its start.
  pub decrypt_all_stream :
      (inputs : List (List ℕ))
      → AllLong inputs
      → decrypt_all keystream init inputs ≡ apply_stream keystream 0 (flatten inputs)
  decrypt_all_stream inputs long = decrypt_all_from inputs init 0 init-InStep long

  -- A packet shorter than the bytes left over from the last block: the call writes past the end of
  -- an output of the packet's length, and forgets the rest of the block.
  pub decrypt_short :
      {b : MirrorBuffer} {p : ℕ} (input : List ℕ) (input_len : ℕ)
      → InStep b p
      → input_len < b.next_decrypt_count
      → b.next_decrypt_count ≤ length input
      → let (b', output) = decrypt keystream b input input_len in
        (input_len < length output)
        × (b'.next_decrypt_count ≡ 0)
        × (b'.aes_ctx.position ≢ p + input_len + b'.next_decrypt_count)
  unfolding decrypt aes_ctr_start_fresh_block
  decrypt_short {b} {p} input input_len s short h =
      let n = b.next_decrypt_count in
      let len : length (xor_bytes (take n input) (drop (16 - n) b.og)) ≡ n =
        ap (λ t. length (xor_bytes (take n input) t)) s.tail
        ∙ ap length (xor_bytes-keys (take n input) p n (omega (arith, length-take n input)))
        ∙ length-apply_stream p (take n input)
        ∙ omega (arith, length-take n input) in
      rw (lt→leb-false n input_len short, s.fresh, s.position)
        (omega (arith, len), refl, omega arith)
