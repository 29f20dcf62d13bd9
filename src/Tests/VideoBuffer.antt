-- ===== src/Tests/VideoBuffer.antt =====
-- include/AirPlayServer/lib/mirror_buffer.c on short packets.
use j_a_r_v_i_s.Prelude.{ℕ, ◌+◌, ◌%◌, ◌≡◌, ◌≢◌, ◌<◌, refl, List, [], ◌∷◌, arith, length, replicate}
use mathlib.Core.List.{flatten}
use j_a_r_v_i_s.MirrorBuffer.{
  MirrorBuffer, init, apply_stream, decrypt, decrypt_all, decrypt_blocks, aes_ctr_decrypt,
  aes_ctr_start_fresh_block, xor_bytes,
}
use j_a_r_v_i_s.MirrorBuffer.Stream.{decrypt_packet, decrypt_all_stream, decrypt_short, init-InStep}

-- Some key stream.
abbrev stream : ℕ → ℕ
stream i = (i + 7) % 256

abbrev packets : List (List ℕ)
packets = replicate 20 1 ∷ replicate 17 2 ∷ replicate 16 3 ∷ []

decrypt_all_stream_example :
    decrypt_all stream init packets ≡ apply_stream stream 0 (flatten packets)
decrypt_all_stream_example =
    decrypt_all_stream stream packets (omega arith, (omega arith, (omega arith, tt)))

-- After 20 bytes, 12 bytes of the key stream are left over.
abbrev after_first : MirrorBuffer
after_first = (decrypt stream init (replicate 20 1) 20).0

after_first_left : after_first.next_decrypt_count ≡ 12
unfolding decrypt decrypt_blocks init aes_ctr_decrypt aes_ctr_start_fresh_block xor_bytes
    apply_stream
after_first_left = refl

decrypt_short_example :
    let (b', output) = decrypt stream after_first (replicate 12 5) 4 in
    (4 < length output)
    × (b'.next_decrypt_count ≡ 0)
    × (b'.aes_ctx.position ≢ 20 + 4 + b'.next_decrypt_count)
unfolding init
decrypt_short_example =
    decrypt_short stream (replicate 12 5) 4
      (decrypt_packet stream (replicate 20 1) (init-InStep stream) (omega arith)).1
      (omega (arith, after_first_left)) (omega (arith, after_first_left))
