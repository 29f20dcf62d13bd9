-- ===== src/RaopBuffer/Valid.antt =====
-- The representation invariant of `struct raop_buffer_s`, and the operations that keep it.
use native.Mathlib.Decide.{dec_lt}
use j_a_r_v_i_s.Prelude.{
  ℕ, ◌+◌, ◌%◌, ◌≤◌, ◌<◌, ◌≡◌, ◌≢◌, ◌∙◌, refl, Bool, true, false, not, ◌&&◌, none, List, map, arith,
  ltb, leb, ◌==◌, if◌then◌else◌, Bool-cases, inl, inr, length, get_or, length-map, get_or-map,
  length-replicate, get_or-replicate,
}
use j_a_r_v_i_s.Prelude.Int.{ℤ, pos, leb_ℤ, negsuc, u16}
use j_a_r_v_i_s.RaopBuffer.{
  Entry, RaopBuffer, blank, entry, init, seqnum_cmp, clear_entry, flush, make_room, update_seqnums,
  is_late, buffer_length,
}
use j_a_r_v_i_s.RaopBuffer.Window.{ahead, ltb-seqnum_cmp, leb-seqnum_cmp, pos-seqnum_cmp}

-- A filled entry stands at its own index, between `first_seqnum` and `last_seqnum`, and owns a
-- payload; an entry that is not filled owns none.
pub record EntryIsValid (first last i : ℕ) (e : Entry) : Type 0 where
  pub index : e.filled ≡ true → e.seqnum % 32 ≡ i
  pub small : e.filled ≡ true → e.seqnum < 65536
  pub within : e.filled ≡ true → ahead first e.seqnum < ahead first (u16 (last + 1))
  pub owned : e.filled ≡ true → e.payload_data ≢ none
  pub released : e.filled ≡ false → e.payload_data ≡ none

pub record IsValid (b : RaopBuffer) : Type 0 where
  pub size : length b.entries ≡ 32
  pub first_small : b.first_seqnum < 65536
  pub last_small : b.last_seqnum < 65536
  pub span : b.is_empty ≡ false → ahead b.first_seqnum (u16 (b.last_seqnum + 1)) ≤ 32
  pub entries_valid : (i : ℕ) → i < 32 → EntryIsValid b.first_seqnum b.last_seqnum i (entry b i)
  pub last_filled :
      b.is_empty ≡ false
      → u16 (b.last_seqnum + 1) ≢ b.first_seqnum
      → (entry b (b.last_seqnum % 32)).filled ≡ true
  pub empty_unfilled : b.is_empty ≡ true → (i : ℕ) → i < 32 → (entry b i).filled ≡ false

-- An entry that is not filled and owns nothing is valid wherever the window is.
pub unfilled-EntryIsValid :
    (first last i : ℕ) (e : Entry)
    → e.filled ≡ false
    → e.payload_data ≡ none
    → EntryIsValid first last i e
unfilled-EntryIsValid first last i e f p = record {
  index = λ h. cc;
  small = λ h. cc;
  within = λ h. cc;
  owned = λ h. cc;
  released = λ _. p;
}

pub init-IsValid : IsValid init
unfolding init
init-IsValid = record {
  size = length-replicate 32 blank;
  first_small = omega arith;
  last_small = omega arith;
  span = λ h. cc;
  entries_valid =
      λ i h. rw (get_or-replicate 32 i blank blank h) (unfilled-EntryIsValid 0 0 i blank refl refl);
  last_filled = λ h. cc;
  empty_unfilled = λ _ i h. rw (get_or-replicate 32 i blank blank h);
}

clear_entry_lem :
    (e : Entry) → ((clear_entry e).filled ≡ false) × ((clear_entry e).payload_data ≡ none)
unfolding clear_entry
clear_entry_lem e = ground arith

-- every entry after `flush`
pub entry-map_clear :
    (es : List Entry) (i : ℕ)
    → ((get_or (map clear_entry es) i blank).filled ≡ false)
      × ((get_or (map clear_entry es) i blank).payload_data ≡ none)
unfolding clear_entry
entry-map_clear es i = rw (get_or-map clear_entry es i blank) (clear_entry_lem (get_or es i blank))

-- A buffer whose entries are all cleared is valid, given a window with nothing in it.
cleared-IsValid :
    (es : List Entry) (first last : ℕ) (empty : Bool)
    → length es ≡ 32
    → first < 65536
    → last < 65536
    → (empty ≡ false → u16 (last + 1) ≡ first)
    → IsValid (record {
      is_empty = empty;
      first_seqnum = first;
      last_seqnum = last;
      entries = map clear_entry es;
    })
cleared-IsValid es first last empty hl hf hs hw = record {
  size = length-map clear_entry es ∙ hl;
  first_small = hf;
  last_small = hs;
  span = λ h. omega (arith, hw h);
  entries_valid =
      λ i h. let (f, p) = entry-map_clear es i in unfilled-EntryIsValid first last i _ f p;
  last_filled = λ h ne. absurd (ne (hw h));
  empty_unfilled = λ _ i h. (entry-map_clear es i).0;
}

pub flush_seqnum :
    (b : RaopBuffer) (n : ℕ)
    → n < 65536
    → flush b (pos n) ≡ record b {
      first_seqnum = n;
      last_seqnum = (n + 65535) % 65536;
      entries = map clear_entry b.entries;
    }
unfolding flush
flush_seqnum b n h = ground arith

flush_negative :
    (b : RaopBuffer) (n : ℕ)
    → flush b (negsuc n) ≡ record b { is_empty = true; entries = map clear_entry b.entries }
unfolding flush
flush_negative b n = ground arith

flush_other :
    (b : RaopBuffer) (n : ℕ)
    → 65536 ≤ n
    → flush b (pos n) ≡ record b { is_empty = true; entries = map clear_entry b.entries }
unfolding flush
flush_other b n h = ground arith

-- `raop_buffer_flush` keeps the invariant, for every number that it is given.
pub flush-IsValid : {b : RaopBuffer} (next_seq : ℤ) → IsValid b → IsValid (flush b next_seq)
flush-IsValid {b} (negsuc n) v = rw (flush_negative b n) (
    cleared-IsValid b.entries b.first_seqnum b.last_seqnum true v.size v.first_small v.last_small
      (λ h. cc))
flush-IsValid {b} (pos n) v = elim (dec_lt n 65536) [
  | yes p ↦ rw (flush_seqnum b n p) (
      cleared-IsValid b.entries n ((n + 65535) % 65536) b.is_empty v.size p (omega arith)
        (λ _. omega arith))
  | no p ↦ rw (flush_other b n (omega arith)) (
      cleared-IsValid b.entries b.first_seqnum b.last_seqnum true v.size v.first_small v.last_small
        (λ h. cc))
]

-- What the guards of `raop_buffer_enqueue` leave of a sequence number before it is stored.
abbrev pub Fits : RaopBuffer → ℕ → Type 0
Fits b seqnum = b.is_empty ≡ false → ahead b.first_seqnum seqnum < 32

-- What `make_room` does, by positions.
pub make_room_lem :
    (b : RaopBuffer) (seqnum : ℕ)
    → b.first_seqnum < 65536
    → seqnum < 65536
    → make_room b seqnum ≡ (
        if ltb (ahead (u16 (b.first_seqnum + 32)) seqnum) 32768
        then record b {
          first_seqnum = seqnum;
          last_seqnum = (seqnum + 65535) % 65536;
          entries = map clear_entry b.entries;
        }
        else b)
unfolding make_room
make_room_lem b seqnum hf hs =
    rw
      (leb-seqnum_cmp seqnum (u16 (b.first_seqnum + 32)) hs (omega arith), flush_seqnum b seqnum hs)

pub make_room-IsValid : {b : RaopBuffer} (seqnum : ℕ) → IsValid b → IsValid (make_room b seqnum)
unfolding make_room
make_room-IsValid {b} seqnum v =
    elim (Bool-cases (leb_ℤ (pos 0) (seqnum_cmp seqnum (u16 (b.first_seqnum + buffer_length))))) [
      | inl far ↦ rw far (flush-IsValid (pos seqnum) v)
      | inr near ↦ rw near v
    ]

pub is_late_lem :
    (b : RaopBuffer) (seqnum : ℕ)
    → b.first_seqnum < 65536
    → seqnum < 65536
    → is_late b seqnum ≡ (not b.is_empty && leb 32768 (ahead b.first_seqnum seqnum))
unfolding is_late
is_late_lem b seqnum hf hs = rw (ltb-seqnum_cmp seqnum b.first_seqnum hs hf)

-- Behind the guard against late packets, `make_room` leaves the number inside the window.
pub make_room-Fits :
    {b : RaopBuffer} (seqnum : ℕ)
    → IsValid b
    → seqnum < 65536
    → is_late b seqnum ≡ false
    → Fits (make_room b seqnum) seqnum
make_room-Fits {b} seqnum v h late e =
    let room = make_room_lem b seqnum v.first_small h in
    let late' = is_late_lem b seqnum v.first_small h in ground arith

-- What `update_seqnums` does, by positions.
pub update_seqnums_lem :
    (b : RaopBuffer) (seqnum : ℕ)
    → b.last_seqnum < 65536
    → seqnum < 65536
    → update_seqnums b seqnum ≡ (
        if b.is_empty
        then record b { is_empty = false; first_seqnum = seqnum; last_seqnum = seqnum }
        else if not (ahead b.last_seqnum seqnum == 0) && ltb (ahead b.last_seqnum seqnum) 32768
        then record b { last_seqnum = seqnum }
        else b)
unfolding update_seqnums
update_seqnums_lem b seqnum hl hs =
    ground (arith, pos-seqnum_cmp seqnum b.last_seqnum hs hl, pos-seqnum_cmp seqnum seqnum hs hs)
