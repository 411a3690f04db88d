-- ===== src/Message.antt =====
-- lib/go/qdp.go: `Message`, `Encode`, `Decode` and `writeMessage`.
pub mod Frame
pub mod Encoding
pub mod Decoding
pub mod Inversion
pub mod Faults
mod Runs
use qdp.Base.{
  ℕ, zero, suc, ◌+◌, ◌-◌, ◌%◌, ◌^◌, ltb, leb, ◌==◌, if◌then◌else◌, not, List, [], ◌∷◌, Bool, true,
  false, ◌&&◌, length, take, drop, replicate,
}
use qdp.Base.Bytes.{put_u32, get_u32, slice}
use qdp.Result.{Result, ok, err, panic, ◌>>=◌, ◌>>◌, guard, check, invalid_message, crc_mismatch}
use qdp.Crc.{calculate_crc32}

-- A string is its bytes, as Go has it.
pub record Message : Type 0 where
  pub topic : List ℕ
  pub payload : List ℕ

-- uint32(v)
abbrev pub u32 : ℕ → ℕ
u32 v = v % 2 ^ 32

-- a - b of two uint32 values
abbrev pub sub32 : ℕ → ℕ → ℕ
sub32 a b = (a + 2 ^ 32 - b) % 2 ^ 32

-- copy(buf[offset:], src), for an offset within the buffer: what does not fit is left out.
unfoldable pub overwrite : List ℕ → ℕ → List ℕ → List ℕ
overwrite [] offset src = []
overwrite (x ∷ buf) zero [] = x ∷ buf
overwrite (x ∷ buf) zero (s ∷ src) = s ∷ overwrite buf zero src
overwrite (x ∷ buf) (suc offset) src = x ∷ overwrite buf offset src

-- copy(buf[offset:], src): an offset past the end of the buffer panics.
pub copy_at : List ℕ → ℕ → List ℕ → Result (List ℕ)
copy_at buf offset src = do check (leb offset (length buf)); ok (overwrite buf offset src)

-- binary.LittleEndian.PutUint32(buf[offset:], v): four bytes must be left.
pub put_u32_at : List ℕ → ℕ → ℕ → Result (List ℕ)
put_u32_at buf offset v = do
  check (leb (offset + 4) (length buf))
  ok (overwrite buf offset (put_u32 v))

-- bs[from:to]
unfoldable pub slice_at : List ℕ → ℕ → ℕ → Result (List ℕ)
slice_at bs from to = do check (leb from to && leb to (length bs)); ok (slice bs from to)

-- binary.LittleEndian.Uint32(bs): four bytes must be there.
unfoldable pub get_u32_of : List ℕ → Result ℕ
get_u32_of bs = do check (leb 4 (length bs)); ok (get_u32 bs)

-- `Encode` after its check of the topic, step by step. `offset` is an int, which does not wrap.
write_fields : Message → Result (List ℕ)
write_fields m = do
  let topic_len = u32 (length m.topic)
  let payload_len = u32 (length m.payload)
  let total_size = u32 (8 + topic_len + payload_len + 4)
  header ← put_u32_at (replicate total_size 0) 0 topic_len
  lengths ← put_u32_at header 4 payload_len
  topic ← copy_at lengths 8 m.topic
  payload ← copy_at topic (8 + topic_len) m.payload
  covered ← slice_at payload 0 (8 + topic_len + payload_len)
  put_u32_at payload (8 + topic_len + payload_len) (calculate_crc32 covered)

pub encode : Message → Result (List ℕ)
encode m = do guard (not (length m.topic == 0)) invalid_message; write_fields m

-- The bytes that `writeMessage` hands to `w.Write`. Its offsets are uint32 values, and it has no
-- check of the topic.
pub written_bytes : Message → Result (List ℕ)
written_bytes m = do
  let topic_len = u32 (length m.topic)
  let payload_len = u32 (length m.payload)
  let total_size = u32 (8 + topic_len + payload_len + 4)
  _ ← slice_at (replicate total_size 0) 0 4
  header ← put_u32_at (replicate total_size 0) 0 topic_len
  _ ← slice_at header 4 8
  lengths ← put_u32_at header 4 payload_len
  topic ← copy_at lengths 8 m.topic
  payload ← copy_at topic (u32 (8 + topic_len)) m.payload
  covered ← slice_at payload 0 (sub32 total_size 4)
  put_u32_at payload (sub32 total_size 4) (calculate_crc32 covered)

-- The slices of a verified message: `data[8 : 8+topicLen]` and `data[8+topicLen : totalLen-4]`.
pub extract : List ℕ → ℕ → ℕ → Result Message
extract bytes topic_len total_len = do
  topic ← slice_at bytes 8 (u32 (8 + topic_len))
  payload ← slice_at bytes (u32 (8 + topic_len)) (sub32 total_len 4)
  ok (record { topic = topic; payload = payload })

-- The comparison of the received with the calculated checksum.
pub verify_crc : List ℕ → ℕ → Result (Unit {0})
verify_crc bytes total_len = do
  trailer ← slice_at bytes (sub32 total_len 4) (length bytes)
  received_crc ← get_u32_of trailer
  covered ← slice_at bytes 0 (sub32 total_len 4)
  guard (received_crc == calculate_crc32 covered) crc_mismatch

pub decode : List ℕ → Result Message
decode bytes = do
  guard (leb 12 (length bytes)) invalid_message
  let topic_len = get_u32 (slice bytes 0 4)
  let payload_len = get_u32 (slice bytes 4 8)
  let total_len = u32 (8 + topic_len + payload_len + 4)
  guard (u32 (length bytes) == total_len) invalid_message
  verify_crc bytes total_len
  extract bytes topic_len total_len
