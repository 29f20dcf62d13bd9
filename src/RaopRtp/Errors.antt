-- ===== src/RaopRtp/Errors.antt =====
-- When the `assert` behind `raop_buffer_enqueue` in raop_rtp.c ends the program.
use j_a_r_v_i_s.Prelude.{
  ℕ, ◌-◌, ◌%◌, ◌^◌, ◌≤◌, ◌≡◌, ◌∙◌, refl, arith, true, false, not, ◌&&◌, Option, none, some, List,
  ltb, leb, ◌==◌, if◌then◌else◌, drop, Bool-cases, is_none, inl, inr,
}
use j_a_r_v_i_s.Prelude.Int.{ℤ, pos, leb_ℤ}
use j_a_r_v_i_s.RaopBuffer.{
  RaopBuffer, Entry, enqueue, store, make_room, packet_entry, packet_seqnum, is_empty_packet,
}
use j_a_r_v_i_s.RaopNtp.{RaopNtp}
use j_a_r_v_i_s.ByteUtils.{get_int_be}
use j_a_r_v_i_s.RaopRtp.{RaopRtp, rtp64_time}
use j_a_r_v_i_s.RaopRtp.Packets.{
  Thread, packetlen_of, ntp_of, enqueue_packet, packet_type, on_control, on_data, in_thread,
  after_enqueue,
}

-- The packet buffer has 32768 bytes.
abbrev pub Received : Option ℕ → Type 0
Received none = Unit {0}
Received (some n) = n ≤ 32768

ct-rtp64_time : (r : RaopRtp) (rtp32 : ℕ) → (rtp64_time r rtp32).0.ct ≡ r.ct
unfolding rtp64_time
ct-rtp64_time r rtp32 = elim (Bool-cases r.rtp_clock_started) [ inl e ↦ rw e | inr e ↦ rw e ]

store_code : (b : RaopBuffer) (e : Entry) → leb_ℤ (pos 0) (store b e).0 ≡ true
unfolding store
store_code b e = ground arith

module _ (aes : List ℕ → List ℕ) (b : RaopBuffer) (packet : List ℕ) (ntp_time rtp_time : ℕ) where
  enqueue_code :
      (datalen : ℕ)
      → leb_ℤ (pos 0) (enqueue aes b packet datalen ntp_time rtp_time true).0
        ≡ (leb 12 datalen && leb datalen 32768)
  unfolding enqueue
  enqueue_code datalen =
      let seqnum = packet_seqnum b packet true in
      let e = packet_entry aes packet datalen ntp_time rtp_time seqnum in
      let stored = store_code (make_room b seqnum) e in ground arith

-- The call succeeds for packet lengths that raop_buffer_enqueue takes, of the lowest 16 bits.
module _ (aes : List ℕ → List ℕ) (mean_offset : RaopRtp → ℕ → ℕ → ℤ)
    (unsynced_time : RaopRtp → ℕ → ℕ) (ntp : RaopNtp) where
  enqueue_packet_lem :
      (t : Thread) (r : RaopRtp) (packet : List ℕ) (n time : ℕ)
      → is_none (enqueue_packet aes mean_offset unsynced_time ntp t r packet n time)
        ≡ not (leb 12 (n % 65536) && leb (n % 65536) 32768)
  unfolding enqueue_packet
  enqueue_packet_lem t r packet n time =
      let c =
        enqueue_code aes r.buffer packet (if t.have_synced then ntp_of r time else 0) time
          (n % 65536) in
      ground arith

  is_none-after_enqueue :
      (t : Thread) (o : Option RaopRtp)
      → is_none (after_enqueue aes mean_offset unsynced_time ntp t o) ≡ is_none o
  unfolding after_enqueue
  is_none-after_enqueue t none = refl
  is_none-after_enqueue t (some r) = elim (Bool-cases (r.ct == 2 && not t.have_synced)) [
    | inl e ↦ rw e
    | inr e ↦ rw e
  ]

  is_none-in_thread : (t : Thread) (o : Option RaopRtp) → is_none (in_thread t o) ≡ is_none o
  is_none-in_thread t none = refl
  is_none-in_thread t (some r) = refl

  data_lem :
      (t : Thread) (packet : List ℕ) (n : ℕ)
      → is_none (on_data aes mean_offset unsynced_time ntp t packet n) ≡ (
          if ltb n 12
          then false
          else if t.rtp.ct == 2 && n == 44
          then false
          else if not t.have_synced && n == 16 && is_empty_packet packet
          then false
          else not (leb 12 (n % 65536) && leb (n % 65536) 32768))
  unfolding on_data
  data_lem t packet n =
      let (r, time) = rtp64_time t.rtp (get_int_be packet 4) in
      let a =
        is_none-after_enqueue t
          (enqueue_packet aes mean_offset unsynced_time ntp t r packet n time) in
      let e = enqueue_packet_lem t r packet n time in
      let c = ct-rtp64_time t.rtp (get_int_be packet 4) in ground arith

  control_lem :
      (t : Thread) (packet : List ℕ) (n : ℕ)
      → is_none (on_control aes mean_offset unsynced_time ntp t packet n) ≡ (
          if (packet_type packet == 0x56 && leb 8 n) && leb 12 (n - 4)
          then not (leb 12 ((n - 4) % 65536) && leb ((n - 4) % 65536) 32768)
          else false)
  unfolding on_control
  control_lem t packet n =
      let (r, time) = rtp64_time t.rtp (get_int_be (drop 4 packet) 4) in
      let o = enqueue_packet aes mean_offset unsynced_time ntp t r (drop 4 packet) (n - 4) time in
      let a = is_none-in_thread t o in
      let e = enqueue_packet_lem t r (drop 4 packet) (n - 4) time in ground arith

  -- For results of recvfrom that are failures or lengths within the packet buffer: a packet on the
  -- data socket ends the program by a failed assert exactly when recvfrom has failed, and one on the
  -- control socket exactly when it has failed and the packet buffer holds the type of a resent packet.
  pub on_data_abort :
      (t : Thread) (packet : List ℕ) (received : Option ℕ)
      → Received received
      → (is_none (on_data aes mean_offset unsynced_time ntp t packet (packetlen_of received))
          ≡ is_none received)
        × (is_none (on_control aes mean_offset unsynced_time ntp t packet (packetlen_of received))
            ≡ (is_none received && packet_type packet == 0x56))
  unfolding packetlen_of
  on_data_abort t packet none h = (
    data_lem t packet (2 ^ 32 - 1) ∙ ground arith,
    control_lem t packet (2 ^ 32 - 1) ∙ ground arith,
  )
  on_data_abort t packet (some n) h =
      (data_lem t packet n ∙ ground arith, control_lem t packet n ∙ ground arith)
