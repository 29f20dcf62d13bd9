-- ===== src/RaopBuffer.antt =====
-- include/AirPlayServer/lib/raop_buffer.c: the window of audio packets that puts them back in order.
-- `struct raop_buffer_s` without the logger; a `NULL` payload pointer is `none`. AES is a parameter.
pub mod Window
pub mod Valid
pub mod Store
pub mod View
pub mod Enqueue
pub mod Dequeue
pub mod Resends
pub mod Decrypt
pub mod Runs
pub mod Termination
use j_a_r_v_i_s.Prelude.{
  ℕ, zero, suc, ◌+◌, ◌-◌, ◌*◌, ◌/◌, ◌%◌, Bool, true, false, not, ◌&&◌, ◌||◌, Option, none, some,
  List, [], ◌∷◌, map, ltb, ◌==◌, if◌then◌else◌, get_or, set, take, drop, replicate,
}
use j_a_r_v_i_s.Prelude.Int.{
  ℤ, pos, negsuc, sub_ℕ, ◌+ℤ◌, ◌-ℤ◌, ltb_ℤ, leb_ℤ, eqb_ℤ, u16, low16, int16,
}
use j_a_r_v_i_s.ByteUtils.{byte_at, get_short_be}

abbrev pub buffer_length : ℕ
buffer_length = 32

abbrev pub packet_len : ℕ
packet_len = 32768

pub record Entry : Type 0 where
  pub filled : Bool
  pub seqnum : ℕ
  pub rtp_timestamp : ℕ
  pub ntp_timestamp : ℕ
  pub payload_size : ℕ
  pub payload_data : Option (List ℕ)

pub record RaopBuffer : Type 0 where
  pub is_empty : Bool
  pub first_seqnum : ℕ
  pub last_seqnum : ℕ
  pub entries : List Entry

-- What `calloc` leaves in an entry.
abbrev pub blank : Entry
blank = record {
  filled = false;
  seqnum = 0;
  rtp_timestamp = 0;
  ntp_timestamp = 0;
  payload_size = 0;
  payload_data = none;
}

unfoldable pub init : RaopBuffer
init = record {
  is_empty = true;
  first_seqnum = 0;
  last_seqnum = 0;
  entries = replicate buffer_length blank;
}

abbrev pub entry : RaopBuffer → ℕ → Entry
entry b i = get_or b.entries i blank

-- `(short) (s1 - s2)`: the difference is taken in `int`.
unfoldable pub seqnum_cmp : ℕ → ℕ → ℤ
seqnum_cmp s1 s2 = int16 (sub_ℕ s1 s2)

-- `memcpy` into the bytes of `output` from `offset` on.
unfoldable pub copy_to : List ℕ → ℕ → List ℕ → List ℕ
copy_to output offset [] = output
copy_to output offset (x ∷ xs) = copy_to (set output offset x) (offset + 1) xs

-- `raop_buffer_decrypt` with `DECRYPTION_TEST` 0: `output` after the call. The AES context is
-- reset after each packet, so decryption is a function of the cipher text.
unfoldable pub decrypt : (List ℕ → List ℕ) → List ℕ → ℕ → List ℕ
decrypt aes_cbc_decrypt bytes payload_size =
    let encryptedlen = payload_size / 16 * 16 in
    let output = replicate payload_size 0 in
    let output' = copy_to output 0 (aes_cbc_decrypt (take encryptedlen (drop 12 bytes))) in
    copy_to output' encryptedlen
      (take (payload_size - encryptedlen) (drop (12 + encryptedlen) bytes))

-- The body of the loop of `raop_buffer_flush`.
unfoldable pub clear_entry : Entry → Entry
clear_entry e = elim e.payload_data [
  | none ↦ record e { filled = false }
  | some _ ↦ record e { filled = false; payload_size = 0; payload_data = none }
]

unfoldable pub flush : RaopBuffer → ℤ → RaopBuffer
flush b next_seq =
    let b' = record b { entries = map clear_entry b.entries } in
    if ltb_ℤ next_seq (pos 0) || ltb_ℤ (pos 65535) next_seq
    then record b' { is_empty = true }
    else record b' { first_seqnum = low16 next_seq; last_seqnum = low16 (next_seq -ℤ pos 1) }

-- `memcmp(&data[12], empty_packet_marker, 4) == 0`
unfoldable pub is_empty_packet : List ℕ → Bool
is_empty_packet bytes =
    byte_at bytes 12 == 0
    && byte_at bytes 13 == 0x68
    && byte_at bytes 14 == 0x34
    && byte_at bytes 15 == 0

-- "Check that there is always space in the buffer, otherwise flush"
unfoldable pub make_room : RaopBuffer → ℕ → RaopBuffer
make_room b seqnum =
    if leb_ℤ (pos 0) (seqnum_cmp seqnum (u16 (b.first_seqnum + buffer_length)))
    then flush b (pos seqnum)
    else b

-- "Update the raop_buffer seqnums"
unfoldable pub update_seqnums : RaopBuffer → ℕ → RaopBuffer
update_seqnums b seqnum =
    let b' =
      if b.is_empty
      then record b { first_seqnum = seqnum; last_seqnum = seqnum; is_empty = false }
      else b in
    if ltb_ℤ (pos 0) (seqnum_cmp seqnum b'.last_seqnum)
    then record b' { last_seqnum = seqnum }
    else b'

-- From "Get entry corresponding our seqnum" to the end of `raop_buffer_enqueue`, for the entry
-- that the packet makes.
unfoldable pub store : RaopBuffer → Entry → ℤ × RaopBuffer
store b e =
    let i = e.seqnum % buffer_length in
    if (entry b i).filled && eqb_ℤ (seqnum_cmp (entry b i).seqnum e.seqnum) (pos 0)
    then (pos 0, b)
    else (pos 1, update_seqnums (record b { entries = set b.entries i e }) e.seqnum)

-- The entry that a packet makes: header and decrypted payload.
unfoldable pub packet_entry : (List ℕ → List ℕ) → List ℕ → ℕ → ℕ → ℕ → ℕ → Entry
packet_entry aes_cbc_decrypt bytes datalen ntp_timestamp rtp_timestamp seqnum = record {
  filled = true;
  seqnum = seqnum;
  rtp_timestamp = rtp_timestamp;
  ntp_timestamp = ntp_timestamp;
  payload_size = datalen - 12;
  payload_data = some (decrypt aes_cbc_decrypt bytes (datalen - 12));
}

-- "Get correct seqnum for the packet"
unfoldable pub packet_seqnum : RaopBuffer → List ℕ → Bool → ℕ
packet_seqnum b bytes use_seqnum = if use_seqnum then get_short_be bytes 2 else b.first_seqnum

-- "If this packet is too late, just skip it"
unfoldable pub is_late : RaopBuffer → ℕ → Bool
is_late b seqnum = not b.is_empty && ltb_ℤ (seqnum_cmp seqnum b.first_seqnum) (pos 0)

unfoldable pub enqueue : (List ℕ → List ℕ) → RaopBuffer → List ℕ → ℕ → ℕ → ℕ → Bool → ℤ × RaopBuffer
enqueue aes_cbc_decrypt b bytes datalen ntp_timestamp rtp_timestamp use_seqnum =
    if ltb datalen 12 || ltb packet_len datalen
    then (negsuc 0, b)
    else if datalen == 16 && is_empty_packet bytes
    then (pos 0, b)
    else let seqnum = packet_seqnum b bytes use_seqnum in
      if is_late b seqnum
      then (pos 0, b)
      else store (make_room b seqnum)
          (packet_entry aes_cbc_decrypt bytes datalen ntp_timestamp rtp_timestamp seqnum)

-- What `raop_buffer_dequeue` hands out through its pointers and its result.
pub record Packet : Type 0 where
  pub length : ℕ
  pub ntp_timestamp : ℕ
  pub rtp_timestamp : ℕ
  pub seqnum : ℕ
  pub payload : Option (List ℕ)

unfoldable pub packet_of : Entry → Packet
packet_of e = record {
  length = e.payload_size;
  ntp_timestamp = e.ntp_timestamp;
  rtp_timestamp = e.rtp_timestamp;
  seqnum = e.seqnum;
  payload = e.payload_data;
}

abbrev pub entry_count : RaopBuffer → ℤ
entry_count b = int16 (seqnum_cmp b.last_seqnum b.first_seqnum +ℤ pos 1)

-- From "Update buffer and validate entry" on.
unfoldable pub take_first : RaopBuffer → RaopBuffer × Option Packet
take_first b =
    let i = b.first_seqnum % buffer_length in
    let e = entry b i in
    let b' = record b { first_seqnum = u16 (b.first_seqnum + 1) } in
    if not e.filled then (b', none) else (
      record b' {
        entries =
            set b.entries i (record e { filled = false; payload_size = 0; payload_data = none });
      },
      some (packet_of e),
    )

unfoldable pub dequeue : RaopBuffer → Bool → RaopBuffer × Option Packet
dequeue b no_resend =
    if b.is_empty || leb_ℤ (entry_count b) (pos 0)
    then (b, none)
    else if not no_resend
        && not (entry b (b.first_seqnum % buffer_length)).filled
        && ltb_ℤ (entry_count b) (pos buffer_length)
    then (b, none)
    else take_first b

-- The `for` loop of `raop_buffer_handle_resends`: where it stops; `none` when the fuel runs out.
unfoldable pub first_filled : ℕ → RaopBuffer → ℕ → Option ℕ
first_filled zero b seqnum = none
first_filled (suc fuel) b seqnum =
    let rest = first_filled fuel b (seqnum + 1) in
    if ltb_ℤ (seqnum_cmp (u16 seqnum) b.last_seqnum) (pos 0)
    then (if (entry b (seqnum % buffer_length)).filled then some seqnum else rest)
    else some seqnum

-- The arguments of the one call of `resend_cb`, if it is made. A `short` difference that is
-- negative ends after 32768 rounds at most, so the fuel suffices; the outer `none` is its end.
unfoldable pub handle_resends : RaopBuffer → Option (Option (ℕ × ℕ))
handle_resends b =
    if ltb_ℤ (seqnum_cmp b.first_seqnum b.last_seqnum) (pos 0)
    then elim (first_filled 32769 b b.first_seqnum) [
      | none ↦ none
      | some seqnum ↦
          if eqb_ℤ (seqnum_cmp (u16 seqnum) b.first_seqnum) (pos 0)
          then some none
          else some (some (b.first_seqnum, low16 (seqnum_cmp (u16 seqnum) b.first_seqnum)))
    ]
    else some none
