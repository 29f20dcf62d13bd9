-- ===== src/RaopBuffer/View.antt =====
-- The buffer of raop_buffer.c as a finite map: which packet it holds for a sequence number.
use native.Mathlib.Decide.{ℕ_discrete}
use j_a_r_v_i_s.Prelude.{
  ℕ, ◌+◌, ◌%◌, ◌≤◌, ◌<◌, ◌≡◌, true, false, ◌&&◌, Option, none, some, List, arith, ltb, ◌==◌,
  if◌then◌else◌, Bool-cases, inl, inr, map,
}
use j_a_r_v_i_s.Prelude.Int.{u16}
use j_a_r_v_i_s.RaopBuffer.{Entry, RaopBuffer, entry, make_room, clear_entry}
use j_a_r_v_i_s.RaopBuffer.Window.{ahead}
use j_a_r_v_i_s.RaopBuffer.Valid.{IsValid, Fits, make_room_lem, entry-map_clear}
use j_a_r_v_i_s.RaopBuffer.Store.{IsPacketEntry, stored, entry-set, filled-same}

-- The packet that the buffer holds under a sequence number.
unfoldable pub held : RaopBuffer → ℕ → Option Entry
held b seqnum =
    let e = entry b (seqnum % 32) in if e.filled && e.seqnum == seqnum then some e else none

-- Storing a packet in a free entry adds it to the map, and changes nothing else of it.
pub held-stored :
    {b : RaopBuffer} (e : Entry) (seqnum : ℕ)
    → IsValid b
    → IsPacketEntry e
    → (entry b (e.seqnum % 32)).filled ≡ false
    → held (stored b e) seqnum ≡ (if e.seqnum == seqnum then some e else held b seqnum)
unfolding held
held-stored {b} e seqnum v p free =
    rw (entry-set b (e.seqnum % 32) (seqnum % 32) e (omega (arith, v.size)))
      (elim (ℕ_discrete (e.seqnum % 32) (seqnum % 32)) [
        | yes q ↦
            let free' : (entry b (seqnum % 32)).filled ≡ false = rw q at free in
            ground (arith, p.is_filled)
        | no q ↦ ground arith
      ])

-- An empty buffer holds nothing.
pub held_empty :
    {b : RaopBuffer} (seqnum : ℕ) → IsValid b → b.is_empty ≡ true → held b seqnum ≡ none
unfolding held
held_empty seqnum v empty = rw (v.empty_unfilled empty (seqnum % 32) (omega arith))

-- A flushed buffer holds nothing.
pub held-cleared :
    (b : RaopBuffer) (es : List Entry) (first last seqnum : ℕ)
    → held
        (record b { first_seqnum = first; last_seqnum = last; entries = map clear_entry es })
        seqnum
      ≡ none
unfolding held
held-cleared b es first last seqnum = rw (entry-map_clear es (seqnum % 32)).0

-- Making room for a number that fits loses nothing.
pub held-make_room :
    {b : RaopBuffer} (seqnum t : ℕ)
    → IsValid b
    → seqnum < 65536
    → Fits b seqnum
    → held (make_room b seqnum) t ≡ held b t
held-make_room {b} seqnum t v h fits =
    rw (make_room_lem b seqnum v.first_small h) (elim (Bool-cases b.is_empty) [
      | inl empty ↦ elim (Bool-cases (ltb (ahead (u16 (b.first_seqnum + 32)) seqnum) 32768)) [
        | inl far ↦ rw (
          far,
          held-cleared b b.entries seqnum ((seqnum + 65535) % 65536) t,
          held_empty t v empty,
        )
        | inr near ↦ rw near
      ]
      | inr used ↦ let d = fits used in ground arith
    ])

-- Making room for a number beyond the window drops everything.
pub held-make_room_far :
    {b : RaopBuffer} (seqnum t : ℕ)
    → IsValid b
    → seqnum < 65536
    → 32 ≤ ahead b.first_seqnum seqnum
    → ahead b.first_seqnum seqnum < 32768
    → held (make_room b seqnum) t ≡ none
held-make_room_far {b} seqnum t v h far near = ground (
  arith,
  make_room_lem b seqnum v.first_small h,
  held-cleared b b.entries seqnum ((seqnum + 65535) % 65536) t,
)

-- An entry is filled when the map has the number that fits there.
pub held-filled :
    {b : RaopBuffer} (seqnum : ℕ)
    → IsValid b
    → seqnum < 65536
    → Fits b seqnum
    → held b seqnum
      ≡ (if (entry b (seqnum % 32)).filled then some (entry b (seqnum % 32)) else none)
unfolding held
held-filled {b} seqnum v h fits = elim (Bool-cases (entry b (seqnum % 32)).filled) [
  | inl f ↦ rw f (ground (arith, filled-same seqnum v h fits f))
  | inr f ↦ rw f
]
