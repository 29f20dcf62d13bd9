-- ===== src/HttpResponse.antt =====
-- include/AirPlayServer/lib/http_response.c: a response built in a growing buffer.
-- `data` holds the `data_length` bytes written so far, `allocated` is the size of the heap block;
-- a write past the block is a fault, `none`.
pub mod Buffer
pub mod Message
use j_a_r_v_i_s.Prelude.{
  ℕ, zero, suc, ◌+◌, ◌-◌, ◌*◌, ◌≤◌, Bool, true, false, Option, none, some, List, [], ◌∷◌, ◌++◌, ltb,
  leb, ◌==◌, ◌&&◌, if◌then◌else◌, length, take, drop, codes, decimal, ◌>>=◌,
}

pub record HttpResponse : Type 0 where
  pub complete : Bool
  pub disconnect : Bool
  pub bytes : List ℕ
  pub data_size : ℕ
  pub allocated : ℕ

-- `while (response->data_size+datalen > newdatasize) newdatasize *= 2;`
unfoldable pub grow : ℕ → ℕ → ℕ → ℕ
grow zero wanted newdatasize = newdatasize
grow (suc fuel) wanted newdatasize =
    let more = grow fuel wanted (newdatasize * 2) in
    if ltb newdatasize wanted then more else newdatasize

-- The fuel is more than the rounds: each adds at least one byte.
unfoldable pub new_size : ℕ → ℕ → ℕ
unfolding grow
new_size data_size datalen = grow (datalen + 1) (data_size + datalen) data_size

-- `assert(datalen > 0)` ends the program at an empty text.
unfoldable pub add_data : HttpResponse → List ℕ → Option HttpResponse
unfolding new_size
add_data r text =
    let newdatasize = new_size r.data_size (length text) in
    let allocated = if newdatasize == r.data_size then r.allocated else newdatasize in
    if length text == 0
    then none
    else if leb (length r.bytes + length text) allocated
    then some (record r { bytes = r.bytes ++ text; allocated = allocated })
    else none

unfoldable pub create : HttpResponse
create = record {
  complete = false;
  disconnect = false;
  bytes = [];
  data_size = 1024;
  allocated = 1024;
}

-- The texts of one function, added in order.
unfoldable pub add_all : HttpResponse → List (List ℕ) → Option HttpResponse
add_all r [] = some r
add_all r (text ∷ texts) = add_data r text >>= λ r'. add_all r' texts

abbrev pub crlf : List ℕ
crlf = 13 ∷ 10 ∷ []

abbrev pub space : List ℕ
space = 32 ∷ []

abbrev pub colon : List ℕ
colon = 58 ∷ 32 ∷ []

-- `char codestr[4]` holds three digits.
unfoldable pub init : HttpResponse → List ℕ → ℕ → List ℕ → Option HttpResponse
init r protocol status message =
    if leb 100 status && ltb status 1000
    then add_all (record r { bytes = [] })
        (protocol ∷ space ∷ take 3 (decimal status) ∷ space ∷ message ∷ crlf ∷ [])
    else none

unfoldable pub add_header : HttpResponse → List ℕ → List ℕ → Option HttpResponse
add_header r name value = add_all r (name ∷ colon ∷ value ∷ crlf ∷ [])

-- `memcmp(part, item, item_len) == 0`
unfoldable pub starts_with : List ℕ → List ℕ → Bool
starts_with [] bytes = true
starts_with (x ∷ item) [] = false
starts_with (x ∷ item) (y ∷ bytes) = x == y && starts_with item bytes

-- The loop over `end` positions: whether the item stands at one of them.
unfoldable pub has_item : ℕ → List ℕ → List ℕ → Bool
has_item zero item part = false
has_item (suc n) item part =
    let later = has_item n item (drop 1 part) in if starts_with item part then true else later

unfoldable pub finish : HttpResponse → List ℕ → Option HttpResponse
finish r body =
    let done = λ (r' : HttpResponse). some (record r' { complete = true }) in
    if ltb 0 (length body)
    then add_all r
        (codes "Content-Length" ∷ colon ∷ decimal (length body) ∷ (crlf ++ crlf) ∷ body ∷ [])
      >>= done
    else (if has_item (length r.bytes - 12) (codes "Content-Type") r.bytes
        then add_all r (codes "Content-Length: 0" ∷ crlf ∷ crlf ∷ [])
        else add_all r (crlf ∷ []))
      >>= done

unfoldable pub set_disconnect : HttpResponse → ℕ → HttpResponse
set_disconnect r disconnect = record r { disconnect = ltb 0 disconnect }

unfoldable pub get_disconnect : HttpResponse → Bool
get_disconnect r = r.disconnect

-- `assert(response->complete)`
unfoldable pub get_data : HttpResponse → Option (List ℕ)
get_data r = if r.complete then some r.bytes else none
