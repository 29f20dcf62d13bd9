-- ===== src/RaopBuffer/Store.antt =====
-- The second half of `raop_buffer_enqueue`: a packet inside the window goes to a free entry.
use j_a_r_v_i_s.Prelude.{
  ℕ, ◌+◌, ◌%◌, ◌≤◌, ◌<◌, ◌≡◌, ◌≢◌, ◌∙◌, refl, true, false, not, ◌&&◌, none, arith, ltb, ◌==◌,
  if◌then◌else◌, Bool-cases, ◌⊎◌, inl, inr, length, get_or, set, length-set, get_or-set_self,
  get_or-set_ne,
}
use native.Mathlib.Decide.{ℕ_discrete}
use j_a_r_v_i_s.Prelude.Int.{pos, u16}
use j_a_r_v_i_s.RaopBuffer.{Entry, RaopBuffer, blank, entry, update_seqnums, store}
use j_a_r_v_i_s.RaopBuffer.Window.{ahead, eqb-seqnum_cmp}
use j_a_r_v_i_s.RaopBuffer.Valid.{
  EntryIsValid, IsValid, Fits, unfilled-EntryIsValid, update_seqnums_lem,
}

-- An entry that is in the way of a packet inside the window holds that packet's number.
pub filled-same :
    {b : RaopBuffer} (seqnum : ℕ)
    → IsValid b
    → seqnum < 65536
    → Fits b seqnum
    → (entry b (seqnum % 32)).filled ≡ true
    → (entry b (seqnum % 32)).seqnum ≡ seqnum
filled-same {b} seqnum v h fits f = elim (Bool-cases b.is_empty) [
  | inl e ↦ absurd (cc (v.empty_unfilled e (seqnum % 32) (omega arith)))
  | inr e ↦
      let ev = v.entries_valid (seqnum % 32) (omega arith) in
      omega (arith, ev.index f, ev.small f, ev.within f, v.span e, fits e, v.first_small)
]

-- So the test for a resent packet is whether the entry is filled.
pub store_lem :
    {b : RaopBuffer} (e : Entry)
    → IsValid b
    → e.seqnum < 65536
    → Fits b e.seqnum
    → store b e ≡ (
        if (entry b (e.seqnum % 32)).filled then (pos 0, b) else (
          pos 1,
          update_seqnums (record b { entries = set b.entries (e.seqnum % 32) e }) e.seqnum,
        ))
unfolding store
store_lem {b} e v h fits = elim (Bool-cases (entry b (e.seqnum % 32)).filled) [
  | inl f ↦
      rw (f, filled-same e.seqnum v h fits f, eqb-seqnum_cmp e.seqnum e.seqnum h h) (ground arith)
  | inr f ↦ rw f
]

-- Reading an entry after a write.
pub entry-set :
    (b : RaopBuffer) (i j : ℕ) (e : Entry)
    → i < length b.entries
    → get_or (set b.entries i e) j blank ≡ (if i == j then e else entry b j)
entry-set b i j e h = elim (ℕ_discrete i j) [
  | yes p ↦ rw (← p) (rw (get_or-set_self b.entries i e blank h) (ground arith))
  | no p ↦ rw (get_or-set_ne b.entries i j e blank p) (ground arith)
]

-- `last_seqnum` after a packet is stored in a buffer that holds others.
abbrev pub new_last : ℕ → ℕ → ℕ
new_last last seqnum =
    if not (ahead last seqnum == 0) && ltb (ahead last seqnum) 32768 then seqnum else last

new_last_lem :
    (first last seqnum : ℕ)
    → first < 65536
    → last < 65536
    → seqnum < 65536
    → ahead first (u16 (last + 1)) ≤ 32
    → ahead first seqnum < 32
    → (new_last last seqnum < 65536)
      × (ahead first (u16 (last + 1)) ≤ ahead first (u16 (new_last last seqnum + 1)))
      × (ahead first seqnum < ahead first (u16 (new_last last seqnum + 1)))
      × (ahead first (u16 (new_last last seqnum + 1)) ≤ 32)
      × ((new_last last seqnum ≡ seqnum)
          ⊎ ((new_last last seqnum ≡ last) × (u16 (last + 1) ≢ first)))
new_last_lem first last seqnum hf hl hs span d = ground arith

EntryIsValid-mono :
    {first last last' i : ℕ} {e : Entry}
    → ahead first (u16 (last + 1)) ≤ ahead first (u16 (last' + 1))
    → EntryIsValid first last i e
    → EntryIsValid first last' i e
EntryIsValid-mono h v = record {
  index = v.index;
  small = v.small;
  within = λ f. omega (arith, v.within f);
  owned = v.owned;
  released = v.released;
}

-- The buffer after a packet is stored, by positions.
abbrev pub stored : RaopBuffer → Entry → RaopBuffer
stored b e = record {
  is_empty = false;
  first_seqnum = if b.is_empty then e.seqnum else b.first_seqnum;
  last_seqnum = if b.is_empty then e.seqnum else new_last b.last_seqnum e.seqnum;
  entries = set b.entries (e.seqnum % 32) e;
}

pub store-stored :
    {b : RaopBuffer} (e : Entry)
    → IsValid b
    → e.seqnum < 65536
    → Fits b e.seqnum
    → store b e ≡ (if (entry b (e.seqnum % 32)).filled then (pos 0, b) else (pos 1, stored b e))
store-stored {b} e v h fits =
    let es = set b.entries (e.seqnum % 32) e in
    rw
      (store_lem e v h fits, update_seqnums_lem (record b { entries = es }) e.seqnum v.last_small h)
      (ground arith)

-- What makes an entry fit to be stored.
pub record IsPacketEntry (e : Entry) : Type 0 where
  pub is_filled : e.filled ≡ true
  pub seqnum_small : e.seqnum < 65536
  pub has_payload : e.payload_data ≢ none

own-EntryIsValid :
    (first last : ℕ) {e : Entry}
    → IsPacketEntry e
    → ahead first e.seqnum < ahead first (u16 (last + 1))
    → EntryIsValid first last (e.seqnum % 32) e
own-EntryIsValid first last p h = record {
  index = λ _. refl;
  small = λ _. p.seqnum_small;
  within = λ _. h;
  owned = λ _. p.has_payload;
  released = λ f. cc;
}

stored_empty-IsValid :
    {b : RaopBuffer} {e : Entry}
    → IsValid b
    → IsPacketEntry e
    → b.is_empty ≡ true
    → IsValid (record {
      is_empty = false;
      first_seqnum = e.seqnum;
      last_seqnum = e.seqnum;
      entries = set b.entries (e.seqnum % 32) e;
    })
stored_empty-IsValid {b} {e} v p empty =
    let h = p.seqnum_small in
    let len : e.seqnum % 32 < length b.entries = omega (arith, v.size) in
    record {
      size = length-set b.entries (e.seqnum % 32) e ∙ v.size;
      first_small = h;
      last_small = h;
      span = λ _. omega arith;
      entries_valid = λ i hi. elim (ℕ_discrete (e.seqnum % 32) i) [
        | yes q ↦ rw (← q) (
            rw (get_or-set_self b.entries (e.seqnum % 32) e blank len)
              (own-EntryIsValid e.seqnum e.seqnum p (omega arith)))
        | no q ↦ rw (get_or-set_ne b.entries (e.seqnum % 32) i e blank q) (
            unfilled-EntryIsValid e.seqnum e.seqnum i (entry b i) (v.empty_unfilled empty i hi)
              ((v.entries_valid i hi).released (v.empty_unfilled empty i hi)))
      ];
      last_filled = λ _ _. rw (get_or-set_self b.entries (e.seqnum % 32) e blank len) p.is_filled;
      empty_unfilled = λ c. cc;
    }

stored_used-IsValid :
    {b : RaopBuffer} {e : Entry}
    → IsValid b
    → IsPacketEntry e
    → b.is_empty ≡ false
    → ahead b.first_seqnum e.seqnum < 32
    → IsValid (record {
      is_empty = false;
      first_seqnum = b.first_seqnum;
      last_seqnum = new_last b.last_seqnum e.seqnum;
      entries = set b.entries (e.seqnum % 32) e;
    })
stored_used-IsValid {b} {e} v p used d =
    let h = p.seqnum_small in
    let len : e.seqnum % 32 < length b.entries = omega (arith, v.size) in
    let (small, grows, covers, fits, which) =
      new_last_lem b.first_seqnum b.last_seqnum e.seqnum v.first_small v.last_small h (v.span used)
        d in
    record {
      size = length-set b.entries (e.seqnum % 32) e ∙ v.size;
      first_small = v.first_small;
      last_small = small;
      span = λ _. fits;
      entries_valid = λ i hi. elim (ℕ_discrete (e.seqnum % 32) i) [
        | yes q ↦ rw (← q) (
            rw (get_or-set_self b.entries (e.seqnum % 32) e blank len)
              (own-EntryIsValid b.first_seqnum (new_last b.last_seqnum e.seqnum) p covers))
        | no q ↦
            rw (get_or-set_ne b.entries (e.seqnum % 32) i e blank q)
              (EntryIsValid-mono grows (v.entries_valid i hi))
      ];
      last_filled = λ _ ne. elim which [
        | inl same ↦ rw (same, get_or-set_self b.entries (e.seqnum % 32) e blank len) p.is_filled
        | inr (same, ne') ↦
            rw (same, entry-set b (e.seqnum % 32) (b.last_seqnum % 32) e len)
              (ground (arith, v.last_filled used ne', p.is_filled))
      ];
      empty_unfilled = λ c. cc;
    }

pub stored-IsValid :
    {b : RaopBuffer} {e : Entry}
    → IsValid b
    → IsPacketEntry e
    → Fits b e.seqnum
    → IsValid (stored b e)
stored-IsValid {b} {e} v p fits = elim (Bool-cases b.is_empty) [
  | inl empty ↦ rw empty (stored_empty-IsValid v p empty)
  | inr used ↦ rw used (stored_used-IsValid v p used (fits used))
]

pub store-IsValid :
    {b : RaopBuffer} {e : Entry}
    → IsValid b
    → IsPacketEntry e
    → Fits b e.seqnum
    → IsValid (store b e).1
store-IsValid {b} {e} v p fits =
    rw (store-stored e v p.seqnum_small fits) (elim (Bool-cases (entry b (e.seqnum % 32)).filled) [
      | inl f ↦ rw f v
      | inr f ↦ rw f (stored-IsValid v p fits)
    ])
