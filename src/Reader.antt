-- ===== src/Reader.antt =====
-- lib/go/qdp.go: `MessageReader`, with `tryParseMessage` and `readMore`.
mod Rounds
pub mod Parsing
pub mod Bounds
pub mod Soundness
pub mod Delivery
pub mod Sequence
pub mod Chunks
pub mod Assembly
pub mod Faults
pub mod Stale
mod Runs
use qdp.Base.{
  ℕ, zero, suc, ◌+◌, ◌-◌, ◌/◌, ◌%◌, ltb, leb, ◌==◌, if◌then◌else◌, List, [], ◌∷◌, Bool, true, false,
  ◌&&◌, Option, none, some, length, drop, replicate,
}
use qdp.Base.Bytes.{get_u32, slice}
use qdp.Result.{
  Error, Result, ok, err, panic, ◌>>=◌, ◌>>◌, guard, check, invalid_message, crc_mismatch,
}
use qdp.Crc.{calculate_crc32}
use qdp.Message.{Message, u32, overwrite, slice_at, get_u32_of}

abbrev pub max_topic_size : ℕ
max_topic_size = 64

abbrev pub max_message_size : ℕ
max_message_size = 1024

-- The length of the buffer that NewMessageReader makes.
abbrev pub buffer_size : ℕ
buffer_size = 2048

-- An io.Reader with the state `S`: asked to fill at most `n` bytes, it gives the bytes that it has
-- read, an error or nil, and its next state.
abbrev pub ReadFn : Type 0 → Type 0
ReadFn S = S → ℕ → List ℕ × Option Error × S

-- The positions are ints that are never negative.
pub record Reader (S : Type 0) : Type 0 where
  pub reader : S
  pub buffer : List ℕ
  pub pos : ℕ
  pub count : ℕ

unfoldable pub new_message_reader : {S : Type 0} → S → Reader S
new_message_reader s = record { reader = s; buffer = replicate buffer_size 0; pos = 0; count = 0 }

-- The comparison of the checksums, on the slice of one message. `totalLen-4` is an int.
pub check_crc : List ℕ → ℕ → Result (Unit {0})
check_crc message total_len = do
  check (leb 4 total_len)
  trailer ← slice_at message (total_len - 4) (length message)
  received_crc ← get_u32_of trailer
  covered ← slice_at message 0 (total_len - 4)
  guard (received_crc == calculate_crc32 covered) crc_mismatch

-- The fields of a message whose checksum is right.
pub message_fields : List ℕ → ℕ → Result Message
message_fields message total_len = do
  first ← slice_at message 0 4
  topic_len ← get_u32_of first
  second ← slice_at message 4 8
  payload_len ← get_u32_of second
  guard (leb topic_len max_topic_size && leb payload_len max_message_size) invalid_message
  topic ← slice_at message 8 (u32 (8 + topic_len))
  payload ← slice_at message (u32 (8 + topic_len)) (total_len - 4)
  ok (record { topic = topic; payload = payload })

pub try_parse_message : {S : Type 0} → Reader S → ℕ → ℕ → Result Message
try_parse_message r start total_len = do
  guard (leb (start + total_len) r.count) invalid_message
  message ← slice_at r.buffer start (start + total_len)
  check_crc message total_len
  message_fields message total_len

-- The first half of `readMore`: a buffer that is more than half full is shifted to its beginning.
unfoldable pub shift : {S : Type 0} → Reader S → Reader S
shift r =
    if ltb (length r.buffer / 2) r.count
    then record r {
      buffer = overwrite r.buffer 0 (slice r.buffer r.pos r.count);
      pos = 0;
      count = r.count - r.pos;
    }
    else r

-- What `readMore` does with the answer of the io.Reader. Bytes count more than an error.
unfoldable pub accept :
    {S : Type 0} → Reader S → List ℕ × Option Error × S → Option Error × Reader S
accept r (got, error, s) =
    if ltb 0 (length got)
    then (
      none,
      record r {
        reader = s;
        buffer = overwrite r.buffer r.count got;
        count = r.count + length got;
      },
    )
    else (error, record r { reader = s })

-- Where `ReadMessage` stands: at the head of the outer loop, or at the head of the inner one with
-- `startPos`.
pub data Control : Type 0 where
  outer : Control
  scan : ℕ → Control

-- One round ends the method with a result, or leads to the head of a loop.
pub data Round (S : Type 0) : Type 0 where
  done : Result Message → Reader S → Round S
  next : Control → Reader S → Round S

module _ {S : Type 0} where
  -- `if err != nil { if r.count-r.pos < 8 { return nil, err } }`
  unfoldable pub after_header : Option Error × Reader S → Round S
  after_header (none, r) = next (scan r.pos) r
  after_header (some e, r) = if ltb r.count (r.pos + 8) then done (err e) r else next (scan r.pos) r

  -- A message in the buffer is the result; anything else is scanned on from the next byte.
  pub after_parse : ℕ → ℕ → Reader S → Result Message → Round S
  after_parse start total_len r (ok m) = done (ok m) (record r { pos = start + total_len })
  after_parse start total_len r (err e) = next (scan (start + 1)) r
  after_parse start total_len r panic = done panic r

  -- `continue` goes on with the inner loop at the same `startPos`.
  pub after_partial : ℕ → ℕ → Option Error × Reader S → Round S
  after_partial start total_len (none, r) = next (scan start) r
  after_partial start total_len (some e, r) =
      if ltb r.count (start + total_len) then done (err e) r else next (scan start) r

  pub after_refill : Option Error × Reader S → Round S
  after_refill (none, r) = next outer r
  after_refill (some e, r) = done (err e) r

module _ {S : Type 0} (read : ReadFn S) where
  unfoldable pub read_more : Reader S → Option Error × Reader S
  read_more r =
      let shifted = shift r in
      accept shifted (read shifted.reader (length shifted.buffer - shifted.count))

  pub candidate : ℕ → ℕ → Reader S → Round S
  candidate start total_len r =
      if leb (start + total_len) r.count
      then after_parse start total_len r (try_parse_message r start total_len)
      else after_partial start total_len (read_more r)

  -- The body of the inner loop.
  pub scan_at : ℕ → Reader S → Round S
  scan_at start r =
      let topic_len = get_u32 (drop start r.buffer) in
      let payload_len = get_u32 (drop (start + 4) r.buffer) in
      if leb topic_len max_topic_size && leb payload_len max_message_size
      then candidate start (u32 (8 + topic_len + payload_len + 4)) r
      else next (scan (start + 1)) r

  -- After the inner loop; `-` stops at 0 as maxInt(r.count-8, 0) does.
  pub after_scan : ℕ → Reader S → Round S
  after_scan start r =
      if leb r.count (start + 8)
      then after_refill (read_more (record r { pos = r.count - 8 }))
      else next outer r

  unfoldable pub read_round : Control → Reader S → Round S
  read_round outer r =
      if ltb r.count (r.pos + 8) then after_header (read_more r) else next (scan r.pos) r
  read_round (scan start) r =
      if leb (start + 8) r.count then scan_at start r else after_scan start r

  -- The loops, with a bound on the rounds; `none` means that the method has not returned by then.
  unfoldable pub read_rounds : ℕ → Control → Reader S → Option (Result Message × Reader S)
  read_rounds zero c r = none
  read_rounds (suc fuel) c r = elim (read_round c r) [
    | done result r' ↦ some (result, r')
    | next c' r' ↦ read_rounds fuel c' r'
  ]

  unfoldable pub read_message : ℕ → Reader S → Option (Result Message × Reader S)
  read_message fuel r = read_rounds fuel outer r
