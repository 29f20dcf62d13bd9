-- ===== src/MirrorBuffer.antt =====
-- include/AirPlayServer/lib/mirror_buffer.c: the video stream, decrypted packet by packet, and the
-- AES-CTR functions of include/AirPlayServer/lib/crypto.c that it calls. OpenSSL's key stream is a
-- parameter: byte `i` of the stream that the key and the initialisation vector determine.
pub mod Stream
use Prim.Native.Nat.{bit_xor}
use j_a_r_v_i_s.Prelude.{
  ℕ, ◌+◌, ◌-◌, ◌*◌, ◌/◌, ◌%◌, List, [], ◌∷◌, ◌++◌, ltb, leb, ◌==◌, if◌then◌else◌, length, take,
  drop, replicate,
}

-- `aes_ctx_t` in CTR mode: how many bytes of the key stream OpenSSL has used, and `block_offset`.
pub record AesCtr : Type 0 where
  pub position : ℕ
  pub block_offset : ℕ

pub record MirrorBuffer : Type 0 where
  pub aes_ctx : AesCtr
  pub next_decrypt_count : ℕ
  pub og : List ℕ

abbrev pub block_size : ℕ
block_size = 16

unfoldable pub xor_bytes : List ℕ → List ℕ → List ℕ
xor_bytes [] ys = []
xor_bytes (x ∷ xs) [] = []
xor_bytes (x ∷ xs) (y ∷ ys) = bit_xor x y ∷ xor_bytes xs ys

-- `aes_ctr_init` and `mirror_buffer_init`, whose `calloc` leaves zeros in `og`.
unfoldable pub init : MirrorBuffer
init = record {
  aes_ctx = record { position = 0; block_offset = 0 };
  next_decrypt_count = 0;
  og = replicate 16 0;
}

module _ (keystream : ℕ → ℕ) where
  -- Bytes combined with the key stream from `position` on, which is what `EVP_EncryptUpdate` does
  -- in CTR mode.
  unfoldable pub apply_stream : ℕ → List ℕ → List ℕ
  apply_stream position [] = []
  apply_stream position (x ∷ xs) = bit_xor x (keystream position) ∷ apply_stream (position + 1) xs

  unfoldable pub aes_ctr_decrypt : AesCtr → List ℕ → AesCtr × List ℕ
  aes_ctr_decrypt ctx bytes =
      (record ctx { position = ctx.position + length bytes }, apply_stream ctx.position bytes)

  unfoldable pub aes_ctr_encrypt : AesCtr → List ℕ → AesCtr × List ℕ
  aes_ctr_encrypt ctx bytes = (
    record {
      position = ctx.position + length bytes;
      block_offset = (ctx.block_offset + length bytes) % block_size;
    },
    apply_stream ctx.position bytes,
  )

  unfoldable pub aes_ctr_start_fresh_block : AesCtr → AesCtr
  aes_ctr_start_fresh_block ctx =
      if ctx.block_offset == 0
      then ctx
      else (aes_ctr_encrypt ctx (replicate (block_size - ctx.block_offset) 0)).0

  -- The part of `mirror_buffer_decrypt` behind the loop, for `inputLen >= nextDecryptCount`.
  -- `input` is the memory at the pointer, and the result is what is written to `output`.
  unfoldable pub decrypt_blocks : MirrorBuffer → List ℕ → ℕ → MirrorBuffer × List ℕ
  decrypt_blocks b input input_len =
      let n = b.next_decrypt_count in
      let encryptlen = (input_len - n) / 16 * 16 in
      let (ctx, blocks) =
        aes_ctr_decrypt (aes_ctr_start_fresh_block b.aes_ctx) (take encryptlen (drop n input)) in
      let restlen = (input_len - n) % 16 in
      let reststart = input_len - restlen in
      if ltb 0 restlen
      then (let (ctx', og) =
            aes_ctr_decrypt ctx
              (take restlen (drop reststart input) ++ replicate (16 - restlen) 0) in
          (
            record { aes_ctx = ctx'; next_decrypt_count = 16 - restlen; og = og },
            blocks ++ take restlen og,
          ))
      else (record { aes_ctx = ctx; next_decrypt_count = 0; og = b.og }, blocks)

  -- `mirror_buffer_decrypt`. In `int` arithmetic, `inputLen < nextDecryptCount` makes both
  -- `encryptlen` and `restlen` at most 0 (`nextDecryptCount` is at most 15), so that only the loop
  -- writes, and it writes `nextDecryptCount` bytes.
  unfoldable pub decrypt : MirrorBuffer → List ℕ → ℕ → MirrorBuffer × List ℕ
  decrypt b input input_len =
      let n = b.next_decrypt_count in
      let left_over = xor_bytes (take n input) (drop (16 - n) b.og) in
      if leb n input_len
      then (let (b', written) = decrypt_blocks b input input_len in (b', left_over ++ written))
      else (
        record b { aes_ctx = aes_ctr_start_fresh_block b.aes_ctx; next_decrypt_count = 0 },
        left_over,
      )

  -- Packets in the order of their arrival, each as long as its buffer.
  unfoldable pub decrypt_all : MirrorBuffer → List (List ℕ) → List ℕ
  decrypt_all b [] = []
  decrypt_all b (input ∷ inputs) =
      let (b', output) = decrypt b input (length input) in output ++ decrypt_all b' inputs
