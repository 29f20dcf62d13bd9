-- ===== src/RaopRtpMirror/Reassembly.antt =====
-- The packets that raop_rtp_mirror.c reads do not depend on how the network cuts the stream.
use j_a_r_v_i_s.Prelude.{
  ℕ, ◌^◌, ◌≤◌, ◌<◌, ◌≡◌, ◌∙◌, ap, sym, refl, arith, false, Option, none, some, List, [], ◌∷◌, ◌++◌,
  leb, length, append_assoc, append-nil, length-append, take-append_left, drop-append_left, take,
  drop, Bool-cases, inl, inr, lt→leb-false, if_true, if_false, leb→le, leb-false→lt,
}
use mathlib.Core.Path.{subst}
use j_a_r_v_i_s.ByteUtils.{get_int}
use j_a_r_v_i_s.RaopRtpMirror.Receive.{Receive, fresh, Packet, wanted, finish, receive, receive_all}

-- The bytes of packets on the network.
abbrev pub stream_of : List Packet → List ℕ
stream_of [] = []
stream_of ((packet, payload) ∷ ps) = packet ++ (payload ++ stream_of ps)

-- Every header has 128 bytes and states the size of its payload.
abbrev pub AllPackets : List Packet → Type 0
AllPackets [] = Unit {0}
AllPackets ((packet, payload) ∷ ps) =
    (length packet ≡ 128)
    × (get_int packet 0 ≡ length payload)
    × (length payload < 2 ^ 31)
    × AllPackets ps

-- No call of `recv` returns more bytes than it is asked for.
abbrev pub AllFit : Receive → List (List ℕ) → Type 0
AllFit s [] = Unit {0}
AllFit s (chunk ∷ chunks) =
    (length chunk ≤ wanted s.packet s.payload)
    × elim (receive s.packet s.payload chunk) [ none ↦ Unit {0} | some (s', ps) ↦ AllFit s' chunks ]

abbrev pub flatten : List (List ℕ) → List ℕ
flatten [] = []
flatten (xs ∷ xss) = xs ++ flatten xss

append_left_cancel :
    (xs xs' ys ys' : List ℕ) → length xs ≡ length xs' → xs ++ ys ≡ xs' ++ ys' → xs ≡ xs'
append_left_cancel xs xs' ys ys' len e =
    sym (take-append_left xs ys)
    ∙ ap (take (length xs)) e
    ∙ ap (λ n. take n (xs' ++ ys')) len
    ∙ take-append_left xs' ys'

append_right_cancel :
    (xs xs' ys ys' : List ℕ) → length xs ≡ length xs' → xs ++ ys ≡ xs' ++ ys' → ys ≡ ys'
append_right_cancel xs xs' ys ys' len e =
    sym (drop-append_left xs ys)
    ∙ ap (drop (length xs)) e
    ∙ ap (λ n. drop n (xs' ++ ys')) len
    ∙ drop-append_left xs' ys'

nil_lem : (xs : List ℕ) → length xs ≡ 0 → xs ≡ []
nil_lem [] h = refl
nil_lem (x ∷ xs) h = absurd (omega arith)

-- What the bytes read so far and those to come give.
abbrev Awaits : List ℕ → Option (List ℕ) → List ℕ → List Packet → Type 0
Awaits packet none rest ps = (length packet < 128) × (packet ++ rest ≡ stream_of ps)
Awaits packet (some got) rest ps =
    (length packet ≡ 128)
    × (length got < get_int packet 0)
    × (packet ++ (got ++ rest) ≡ stream_of ps)

-- One step on the way to `ps`: what it gives now, and what is still to come.
abbrev Step : Option (Receive × List Packet) → List ℕ → List Packet → Type 0
Step o rest ps =
    (s : Receive) × (now : List Packet) × (later : List Packet) × (o ≡ some (s, now))
    × (now ++ later ≡ ps)
    × AllPackets later
    × Awaits s.packet s.payload rest later

finish-Step :
    (packet got rest : List ℕ) (ps : List Packet)
    → AllPackets ps
    → length packet ≡ 128
    → length got ≤ get_int packet 0
    → packet ++ (got ++ rest) ≡ stream_of ps
    → Step (finish packet got) rest ps
unfolding finish fresh
finish-Step packet got rest [] ok full fits e =
    absurd (omega (arith, full, ap length e, length-append packet (got ++ rest)))
finish-Step packet got rest ((h, p) ∷ qs) (len, size, small, ok) full fits e =
    let same : packet ≡ h =
      append_left_cancel packet h (got ++ rest) (p ++ stream_of qs) (full ∙ sym len) e in
    let after = append_right_cancel packet h (got ++ rest) (p ++ stream_of qs) (full ∙ sym len) e in
    let stated : get_int packet 0 ≡ length p = ap (λ q. get_int q 0) same ∙ size in
    elim (Bool-cases (leb (get_int packet 0) (length got))) [
      | inl t ↦
          let all : length got ≡ length p = omega (arith, stated, fits, leb→le _ _ t) in
          let whole = append_left_cancel got p rest (stream_of qs) all after in
          let next = append_right_cancel got p rest (stream_of qs) all after in
          (
            fresh,
            (packet, got) ∷ [],
            qs,
            if_true _ _ _ t,
            rw (same, whole) refl,
            ok,
            (omega arith, next),
          )
      | inr f ↦ (
        record { packet = packet; payload = some got },
        [],
        (h, p) ∷ qs,
        if_false _ _ _ f,
        refl,
        (len, size, small, ok),
        (full, leb-false→lt _ _ f, e),
      )
    ]

small_size :
    (packet rest : List ℕ) (ps : List Packet)
    → AllPackets ps
    → length packet ≡ 128
    → packet ++ rest ≡ stream_of ps
    → leb (2 ^ 31) (get_int packet 0) ≡ false
small_size packet rest [] ok full e =
    absurd (omega (arith, full, ap length e, length-append packet rest))
small_size packet rest ((h, p) ∷ qs) (len, size, small, ok) full e =
    let same : packet ≡ h =
      append_left_cancel packet h rest (p ++ stream_of qs) (full ∙ sym len) e in
    lt→leb-false _ _ (omega (arith, ap (λ q. get_int q 0) same, size, small))

-- At the end of the stream, no packet is left half read.
nothing_left :
    (packet : List ℕ) (payload : Option (List ℕ)) (ps : List Packet)
    → AllPackets ps
    → Awaits packet payload [] ps
    → ◌≡◌ {A = Option (Receive × List Packet)}
        (some (record { packet = packet; payload = payload }, []))
        (some (fresh, ps))
unfolding fresh
nothing_left packet none [] ok (short, e) =
    let empty : packet ≡ [] = sym (append-nil packet) ∙ e in rw empty refl
nothing_left packet none ((h, p) ∷ qs) (len, size, small, ok) (short, e) =
    absurd (
      omega (arith, len, ap length e, length-append packet [], length-append h (p ++ stream_of qs)))
nothing_left packet (some got) [] ok (full, part, e) =
    absurd (omega (arith, full, ap length e, length-append packet (got ++ [])))
nothing_left packet (some got) ((h, p) ∷ qs) (len, size, small, ok) (full, part, e) =
    let same : packet ≡ h =
      append_left_cancel packet h (got ++ []) (p ++ stream_of qs) (full ∙ sym len) e in
    absurd (
      omega (
        arith,
        full,
        len,
        size,
        part,
        ap (λ q. get_int q 0) same,
        ap length e,
        length-append packet (got ++ []),
        length-append got [],
        length-append h (p ++ stream_of qs),
        length-append p (stream_of qs),
      ))

receive-Step :
    (packet : List ℕ) (payload : Option (List ℕ)) (chunk rest : List ℕ) (ps : List Packet)
    → AllPackets ps
    → Awaits packet payload (chunk ++ rest) ps
    → length chunk ≤ wanted packet payload
    → Step (receive packet payload chunk) rest ps
unfolding receive wanted
receive-Step packet (some got) chunk rest ps ok (full, part, e) size =
    finish-Step packet (got ++ chunk) rest ps ok full (omega (arith, length-append got chunk, size))
      (ap (◌++◌ packet) (append_assoc got chunk rest) ∙ e)
receive-Step packet none chunk rest ps ok (short, e) size =
    let joined = append_assoc packet chunk rest ∙ e in
    elim (Bool-cases (leb 128 (length (packet ++ chunk)))) [
      | inl t ↦
          let full : length (packet ++ chunk) ≡ 128 =
            omega (arith, length-append packet chunk, leb→le _ _ t, size) in
          rw (t, small_size (packet ++ chunk) rest ps ok full joined)
            (finish-Step (packet ++ chunk) [] rest ps ok full (omega arith) joined)
      | inr f ↦ (
        record { packet = packet ++ chunk; payload = none },
        [],
        ps,
        if_false _ _ _ f,
        refl,
        ok,
        (leb-false→lt _ _ f, joined),
      )
    ]

received :
    (chunks : List (List ℕ)) (s : Receive) (ps : List Packet)
    → AllPackets ps
    → Awaits s.packet s.payload (flatten chunks) ps
    → AllFit s chunks
    → receive_all s chunks ≡ some (fresh, ps)
unfolding receive_all
received [] s ps ok awaits fit = nothing_left s.packet s.payload ps ok awaits
received (c ∷ cs) s ps ok awaits (size, fit) =
    let (s', now, later, e, all, ok', next) =
      receive-Step s.packet s.payload c (flatten cs) ps ok awaits size in
    let fit' : AllFit s' cs =
      subst (λ o. elim o [ none ↦ Unit {0} | some (s'', qs) ↦ AllFit s'' cs ]) e fit in
    rw (e, received cs s' later ok' next fit', all) refl

-- For packets with headers of 128 bytes that state the sizes of their payloads, below 2 ^ 31, and any
-- cut of their bytes into calls of recv that return no more than they are asked for: the thread
-- handles exactly those packets in their order, and then waits for the next header.
pub receive_all-stream_of :
    (chunks : List (List ℕ)) (ps : List Packet)
    → AllPackets ps
    → flatten chunks ≡ stream_of ps
    → AllFit fresh chunks
    → receive_all fresh chunks ≡ some (fresh, ps)
unfolding fresh
receive_all-stream_of chunks ps ok e fit = received chunks fresh ps ok (omega arith, e) fit
