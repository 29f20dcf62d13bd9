-- ===== src/RaopRtpMirror/Receive.antt =====
-- How the video thread of raop_rtp_mirror.c reads packets from the TCP stream: a header of 128 bytes,
-- then a payload of the size that the header states, in as many calls of `recv` as it takes.
use j_a_r_v_i_s.Prelude.{
  ℕ, ◌-◌, ◌^◌, Bool, true, false, Option, none, some, List, [], ◌∷◌, ◌++◌, leb, if◌then◌else◌,
  length, ◌>>=◌,
}
use j_a_r_v_i_s.ByteUtils.{get_int}

-- `packet` up to `readstart`, and `payload` up to `readstart` once it is there.
pub record Receive : Type 0 where
  pub packet : List ℕ
  pub payload : Option (List ℕ)

unfoldable pub fresh : Receive
fresh = record { packet = []; payload = none }

-- A header and a payload.
abbrev pub Packet : Type 0
Packet = List ℕ × List ℕ

-- The third argument of `recv`.
unfoldable pub wanted : List ℕ → Option (List ℕ) → ℕ
wanted packet none = 128 - length packet
wanted packet (some got) = get_int packet 0 - length got

-- The header is there: the packet is handled when its payload is.
unfoldable pub finish : List ℕ → List ℕ → Option (Receive × List Packet)
finish packet got =
    if leb (get_int packet 0) (length got)
    then some (fresh, (packet, got) ∷ [])
    else some (record { packet = packet; payload = some got }, [])

-- The bytes of one call of `recv`, and the packet that they complete. A negative `payload_size`
-- has no defined behaviour: `none`.
unfoldable pub receive : List ℕ → Option (List ℕ) → List ℕ → Option (Receive × List Packet)
receive packet none chunk =
    let packet' = packet ++ chunk in
    if leb 128 (length packet')
    then if leb (2 ^ 31) (get_int packet' 0) then none else finish packet' []
    else some (record { packet = packet'; payload = none }, [])
receive packet (some got) chunk = finish packet (got ++ chunk)

-- One call after the other.
unfoldable pub receive_all : Receive → List (List ℕ) → Option (Receive × List Packet)
receive_all s [] = some (s, [])
receive_all s (chunk ∷ chunks) = do
  (s', now) ← receive s.packet s.payload chunk
  (s'', later) ← receive_all s' chunks
  some (s'', now ++ later)

-- What a call on the sockets finds.
pub data Arrival : Type 0 where
  accepted : Arrival
  accept_failed : Arrival
  bytes : List ℕ → Arrival
  again : Arrival
  closed : Arrival
  connection_reset : Arrival
  failed : Arrival

-- The thread goes on, or ends and may report that the client has reset the connection.
pub data Outcome : Type 0 where
  goes_on : Bool → Receive → List Packet → Outcome
  ends : Bool → Outcome
  fault : Outcome

unfoldable pub outcome_of : Bool → Option (Receive × List Packet) → Outcome
outcome_of connected none = fault
outcome_of connected (some (s, packets)) = goes_on connected s packets

-- The end of the stream between packets or inside a header lets the thread wait for a client again.
unfoldable pub on_closed : Receive → Option (List ℕ) → Outcome
on_closed s none = goes_on false s []
on_closed s (some got) = ends false

-- `readstart = 0`
unfoldable pub on_accepted : List ℕ → Option (List ℕ) → Receive
on_accepted packet none = record { packet = []; payload = none }
on_accepted packet (some got) = record { packet = packet; payload = some [] }

-- The body of the loop, where `connected` says that `stream_fd` is not -1.
unfoldable pub on_arrival : Bool → Receive → Arrival → Outcome
on_arrival connected s accepted = goes_on true (on_accepted s.packet s.payload) []
on_arrival connected s accept_failed = ends false
on_arrival connected s (bytes chunk) = outcome_of connected (receive s.packet s.payload chunk)
on_arrival connected s again = goes_on connected s []
on_arrival connected s closed = on_closed s s.payload
on_arrival connected s connection_reset = ends true
on_arrival connected s failed = ends false
