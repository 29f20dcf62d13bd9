-- ===== src/RaopBuffer/Enqueue.antt =====
-- `raop_buffer_enqueue` as a whole: which packets it takes, and what the buffer holds afterwards.
use mathlib.Core.Path.{fun_ext}
use j_a_r_v_i_s.Prelude.{
  ℕ, ◌%◌, ◌≤◌, ◌<◌, ◌≡◌, refl, Bool, false, not, ◌&&◌, ◌||◌, Option, none, some, List, arith, ltb,
  leb, ◌==◌, if◌then◌else◌, Bool-cases, inl, inr,
}
use j_a_r_v_i_s.Prelude.Int.{ℤ, pos}
use j_a_r_v_i_s.ByteUtils.{get_short, ntohs, get_short_be}
use j_a_r_v_i_s.RaopBuffer.{
  Entry, RaopBuffer, entry, is_empty_packet, make_room, packet_entry, packet_seqnum, packet_len,
  is_late, store, enqueue,
}
use j_a_r_v_i_s.RaopBuffer.Window.{ahead}
use j_a_r_v_i_s.RaopBuffer.Valid.{IsValid, Fits, make_room-IsValid, make_room-Fits, is_late_lem}
use j_a_r_v_i_s.RaopBuffer.Store.{IsPacketEntry, store-stored, store-IsValid}
use j_a_r_v_i_s.RaopBuffer.View.{held, held-stored, held-make_room, held-make_room_far, held-filled}

-- The specification of an insertion: a number that is there already is left alone.
abbrev pub insert_over : Option Entry → (ℕ → Option Entry) → Entry → ℤ × (ℕ → Option Entry)
insert_over none m e = (pos 1, λ t. if e.seqnum == t then some e else m t)
insert_over (some _) m e = (pos 0, m)

abbrev pub insert_new : (ℕ → Option Entry) → Entry → ℤ × (ℕ → Option Entry)
insert_new m e = insert_over (m e.seqnum) m e

-- The specification of `raop_buffer_enqueue` over the map: a number behind `first` is dropped, one
-- beyond the window drops everything else, and any other is inserted.
abbrev pub offer : Bool → ℕ → (ℕ → Option Entry) → Entry → ℤ × (ℕ → Option Entry)
offer empty first m e =
    if not empty && leb 32768 (ahead first e.seqnum)
    then (pos 0, m)
    else if not empty && leb 32 (ahead first e.seqnum)
    then (pos 1, λ t. if e.seqnum == t then some e else none)
    else insert_new m e

pub packet_seqnum-lt :
    (b : RaopBuffer) (bytes : List ℕ) (use_seqnum : Bool)
    → IsValid b
    → packet_seqnum b bytes use_seqnum < 65536
unfolding packet_seqnum get_short_be get_short ntohs
packet_seqnum-lt b bytes use_seqnum v = ground (arith, v.first_small)

module _ (aes_cbc_decrypt : List ℕ → List ℕ) (bytes : List ℕ) (datalen ntp rtp : ℕ) where
  pub packet_entry-IsPacketEntry :
      (seqnum : ℕ)
      → seqnum < 65536
      → IsPacketEntry (packet_entry aes_cbc_decrypt bytes datalen ntp rtp seqnum)
  unfolding packet_entry
  packet_entry-IsPacketEntry seqnum h = record {
    is_filled = refl;
    seqnum_small = h;
    has_payload = λ e. cc;
  }

  -- A packet of a valid length that is not the marker of an empty one.
  abbrev pub HasAudio : Type 0
  HasAudio =
      (12 ≤ datalen) × (datalen ≤ packet_len) × ((datalen == 16 && is_empty_packet bytes) ≡ false)

  enqueue_lem :
      (b : RaopBuffer) (use_seqnum : Bool)
      → HasAudio
      → enqueue aes_cbc_decrypt b bytes datalen ntp rtp use_seqnum ≡ (
          let seqnum = packet_seqnum b bytes use_seqnum in
          if is_late b seqnum
          then (pos 0, b)
          else store
              (make_room b seqnum)
              (packet_entry aes_cbc_decrypt bytes datalen ntp rtp seqnum))
  unfolding enqueue
  enqueue_lem b use_seqnum (lo, hi, audio) = ground arith

  -- After the guards, the call is the insertion of the packet into the map.
  store_refines :
      {b : RaopBuffer} (e : Entry)
      → IsValid b
      → IsPacketEntry e
      → Fits b e.seqnum
      → ((store b e).0, held (store b e).1) ≡ insert_new (held b) e
  store_refines {b} e v p fits =
      rw (store-stored e v p.seqnum_small fits, held-filled e.seqnum v p.seqnum_small fits)
        (elim (Bool-cases (entry b (e.seqnum % 32)).filled) [
          | inl f ↦ rw f
          | inr f ↦ rw (f, fun_ext (λ t. held-stored e t v p f))
        ])

  -- Whatever the packet, the invariant is kept.
  pub enqueue-IsValid :
      {b : RaopBuffer} (use_seqnum : Bool)
      → IsValid b
      → IsValid (enqueue aes_cbc_decrypt b bytes datalen ntp rtp use_seqnum).1
  unfolding enqueue packet_entry
  enqueue-IsValid {b} use_seqnum v = elim (Bool-cases (ltb datalen 12 || ltb packet_len datalen)) [
    | inl bad ↦ rw bad v
    | inr fine ↦ rw fine (elim (Bool-cases (datalen == 16 && is_empty_packet bytes)) [
      | inl marker ↦ rw marker v
      | inr audio ↦ rw audio (elim (Bool-cases (is_late b (packet_seqnum b bytes use_seqnum))) [
        | inl late ↦ rw late v
        | inr timely ↦
            let h = packet_seqnum-lt b bytes use_seqnum v in
            rw timely (
              store-IsValid (make_room-IsValid _ v) (packet_entry-IsPacketEntry _ h)
                (make_room-Fits _ v h timely))
      ])
    ])
  ]

  -- What the buffer holds after a packet is offered, on every branch behind the length guards.
  pub enqueue_refines :
      {b : RaopBuffer} (use_seqnum : Bool)
      → IsValid b
      → HasAudio
      → let (code, b') = enqueue aes_cbc_decrypt b bytes datalen ntp rtp use_seqnum in
        let e =
          packet_entry aes_cbc_decrypt bytes datalen ntp rtp (packet_seqnum b bytes use_seqnum) in
        (code, held b') ≡ offer b.is_empty b.first_seqnum (held b) e
  unfolding packet_entry
  enqueue_refines {b} use_seqnum v audio =
      let seqnum = packet_seqnum b bytes use_seqnum in
      let small = packet_seqnum-lt b bytes use_seqnum v in
      let late_lem = is_late_lem b seqnum v.first_small small in
      let e = packet_entry aes_cbc_decrypt bytes datalen ntp rtp seqnum in
      let p = packet_entry-IsPacketEntry seqnum small in
      rw (enqueue_lem b use_seqnum audio) (elim (Bool-cases (is_late b seqnum)) [
        | inl late ↦ rw (late, ← late_lem, late)
        | inr timely ↦
            rw
              (
                timely,
                ← late_lem,
                timely,
                store_refines e (make_room-IsValid seqnum v) p
                    (make_room-Fits seqnum v small timely),
              )
              (elim (Bool-cases (not b.is_empty && leb 32 (ahead b.first_seqnum seqnum))) [
                | inl far ↦ rw (
                  far,
                  fun_ext (λ t. held-make_room_far seqnum t v small (ground arith) (ground arith)),
                )
                | inr near ↦
                    rw (near, fun_ext (λ t. held-make_room seqnum t v small (λ used. ground arith)))
              ])
      ])
