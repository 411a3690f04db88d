-- ===== src/Reader/Runs.antt =====
-- A concrete io.Reader and concrete buffers, and the theorems on `MessageReader` at them.
use qdp.Base.{
  ℕ, zero, suc, ◌+◌, ◌≤◌, ◌<◌, ◌≡◌, refl, ap, subst, ◌-◌, ◌∙◌, List, [], ◌∷◌, ◌++◌, arith, none,
  some, false, true, gt→leb, length, take, drop, replicate, length-take, take-all, length-append,
  length-replicate, take-All, All-append, take-append, drop-append,
}
use qdp.Base.Bytes.{IsByte, IsBytes, get_u32}
use qdp.Result.{ok, err, eof}
use qdp.Crc.{calculate_crc32}
use qdp.Message.{Message, slice_at, get_u32_of}
use qdp.Message.Frame.{frame, frame_size}
use qdp.Reader.{
  Reader, ReadFn, new_message_reader, after_parse, candidate, scan_at, read_round, read_rounds,
  read_message, check_crc, message_fields, try_parse_message,
}
use qdp.Reader.Bounds.{IsValid, IsReader}
use qdp.Reader.Soundness.{ResultIsSound, read_message-IsSound}
use qdp.Reader.Delivery.{pending, skip}
use qdp.Reader.Sequence.{read_messages, read_messages-frames}
use qdp.Reader.Chunks.{Feeds, fed, feed}
use qdp.Reader.Assembly.{read_message-chunks}
use qdp.Reader.Faults.{is_candidate, read_message_stuck}
use qdp.Reader.Stale.{read_message_loses, completed}

abbrev reading : Message
reading = record { topic = b't' ∷ b'e' ∷ b'm' ∷ b'p' ∷ []; payload = b'2' ∷ b'5' ∷ [] }

abbrev first_part : List ℕ
first_part = 4 ∷ 0 ∷ 0 ∷ 0 ∷ 2 ∷ 0 ∷ 0 ∷ 0 ∷ b't' ∷ b'e' ∷ []

abbrev second_part : List ℕ
second_part = b'm' ∷ b'p' ∷ b'2' ∷ b'5' ∷ 215 ∷ 70 ∷ 253 ∷ 43 ∷ []

frame-parts : first_part ++ second_part ≡ frame reading
unfolding calculate_crc32
frame-parts = refl

-- Two pieces, then the end of the stream.
abbrev script : ReadFn ℕ
script zero n = (take n first_part, none, 1)
script (suc zero) n = (take n second_part, none, 2)
script (suc (suc s)) n = ([], some eof, 2)

script-IsReader : IsReader script
script-IsReader zero n =
    (omega (arith, length-take n first_part), take-All IsByte n first_part (omega arith))
script-IsReader (suc zero) n =
    (omega (arith, length-take n second_part), take-All IsByte n second_part (omega arith))
script-IsReader (suc (suc s)) n = (omega arith, tt)

script-Feeds : Feeds script 0 (first_part ∷ second_part ∷ [])
script-Feeds =
    feed {s' = 1} (omega arith) (λ n h. ap (λ c. (c, none, 1)) (take-all n first_part h))
      (feed {s' = 2} (omega arith) (λ n h. ap (λ c. (c, none, 2)) (take-all n second_part h)) fed)

-- A buffer of 2048 bytes whose middle holds the given bytes.
abbrev buffer_with : ℕ → ℕ → List ℕ → ℕ → List ℕ
buffer_with n byte bs k = replicate n byte ++ (bs ++ replicate k 0)

replicate-IsBytes : (n b : ℕ) → IsByte b → IsBytes (replicate n b)
replicate-IsBytes zero b h = tt
replicate-IsBytes (suc n) b h = (h, replicate-IsBytes n b h)

buffer_with-IsBytes :
    (n byte : ℕ) (bs : List ℕ) (k : ℕ)
    → IsByte byte
    → IsBytes bs
    → IsBytes (buffer_with n byte bs k)
buffer_with-IsBytes n byte bs k h hb =
    All-append IsByte (replicate n byte) (bs ++ replicate k 0) (replicate-IsBytes n byte h)
      (All-append IsByte bs (replicate k 0) hb (replicate-IsBytes k 0 (omega arith)))

buffered : List ℕ → ℕ → ℕ → Reader ℕ
buffered bs n s = record {
  reader = s;
  buffer = buffer_with n 0 bs (2048 - n - length bs);
  pos = n;
  count = n + length bs;
}

length-buffer_with :
    (n byte : ℕ) (bs : List ℕ) (k : ℕ) → length (buffer_with n byte bs k) ≡ n + (length bs + k)
length-buffer_with n byte bs k = omega (
  arith,
  length-append (replicate n byte) (bs ++ replicate k 0),
  length-append bs (replicate k 0),
  length-replicate n byte,
  length-replicate {A = ℕ} k 0,
)

buffered-IsValid :
    (bs : List ℕ) (n s : ℕ) → IsBytes bs → n + length bs ≤ 2048 → IsValid (buffered bs n s)
unfolding buffered
buffered-IsValid bs n s h room = record {
  size = omega (arith, length-buffer_with n 0 bs (2048 - n - length bs), room);
  bytes = buffer_with-IsBytes n 0 bs (2048 - n - length bs) (omega arith) h;
  pos_le = omega arith;
  count_le = room;
}

pending-buffered : (bs : List ℕ) (n s : ℕ) → pending (buffered bs n s) ≡ bs
unfolding buffered
pending-buffered bs n s =
    let e : n + length bs - n ≡ length bs = omega arith in
    ap (take (n + length bs - n)) (drop-append n (replicate n 0) _ (length-replicate n 0))
    ∙ take-append (n + length bs - n) bs _ (omega arith)

read_message-chunks_example :
    (r : Reader ℕ) × (read_message script 6 (new_message_reader 0) ≡ some (ok reading, r))
    × (r.pos ≡ frame_size reading)
    × (r.count ≡ frame_size reading)
read_message-chunks_example =
    read_message-chunks script reading (omega arith) (omega arith) 0 (first_part ∷ second_part ∷ [])
      6 script-Feeds frame-parts (omega arith)

reading-IsBytes : IsBytes (frame reading)
reading-IsBytes = subst IsBytes frame-parts (omega arith)

read_messages-frames_example :
    read_messages script 2 (buffered (frame reading ++ frame reading) 7 0)
    ≡ some (
      reading ∷ reading ∷ [],
      skip
          (frame_size reading + frame_size reading)
          (buffered (frame reading ++ frame reading) 7 0),
    )
read_messages-frames_example =
    read_messages-frames script (reading ∷ reading ∷ []) []
      (buffered (frame reading ++ frame reading) 7 0) (omega arith)
      (buffered-IsValid (frame reading ++ frame reading) 7 0
        (All-append IsByte (frame reading) (frame reading) reading-IsBytes reading-IsBytes)
        (omega arith))
      (pending-buffered (frame reading ++ frame reading) 7 0)

-- A run over the two pieces, by evaluation.
read_message_run :
    read_message script 2 (buffered (first_part ++ second_part) 0 0)
    ≡ some (ok reading, record (buffered (first_part ++ second_part) 0 0) { pos = 18 })
unfolding read_message read_rounds read_round scan_at candidate after_parse try_parse_message
    check_crc message_fields slice_at get_u32_of calculate_crc32 buffered
read_message_run = refl

read_message-IsSound_example :
    IsValid (record (buffered (first_part ++ second_part) 0 0) { pos = 18 })
    × ResultIsSound (ok reading) (record (buffered (first_part ++ second_part) 0 0) { pos = 18 })
read_message-IsSound_example =
    read_message-IsSound script script-IsReader 2 (buffered (first_part ++ second_part) 0 0)
      (ok reading) (record (buffered (first_part ++ second_part) 0 0) { pos = 18 })
      (buffered-IsValid (first_part ++ second_part) 0 0 (omega arith) (omega arith))
      read_message_run

-- A full buffer: 960 bytes that are no header, a header of the largest message, and zeros.
abbrev large_header : List ℕ
large_header = 64 ∷ 0 ∷ 0 ∷ 0 ∷ 0 ∷ 4 ∷ 0 ∷ 0 ∷ []

full : Reader ℕ
full = record { reader = 0; buffer = buffer_with 960 255 large_header 1080; pos = 0; count = 2048 }

full-IsValid : IsValid full
unfolding full
full-IsValid = record {
  size = omega (arith, length-buffer_with 960 255 large_header 1080);
  bytes = buffer_with-IsBytes 960 255 large_header 1080 (omega arith) (omega arith);
  pos_le = omega arith;
  count_le = omega arith;
}

-- At a position whose first byte is 255 the topic is too long.
large_topic : (n i : ℕ) (rest : List ℕ) → i < n → 64 < get_u32 (drop i (replicate n 255 ++ rest))
large_topic zero i rest h = absurd (omega arith)
large_topic (suc n) zero rest h = omega arith
large_topic (suc n) (suc i) rest h = large_topic n i rest (omega arith)

no_candidate : (n i : ℕ) (rest : List ℕ) → i < n → is_candidate (replicate n 255 ++ rest) i ≡ false
no_candidate n i rest h =
    rw (gt→leb (get_u32 (drop i (replicate n 255 ++ rest))) 64 (large_topic n i rest h))

-- A stream that never ends.
abbrev sevens : ReadFn ℕ
sevens s n = (replicate n 7, none, s)

full-candidate : is_candidate (buffer_with 960 255 large_header 1080) 960 ≡ true
full-candidate = refl

read_message_stuck_example : read_message sevens 1_000_000 full ≡ none
unfolding full
read_message_stuck_example =
    read_message_stuck sevens (λ s. refl) full full-IsValid refl refl 960 (omega arith)
      (λ i h. no_candidate 960 i (large_header ++ replicate 1080 0) h) full-candidate (omega arith)
      1_000_000

split_reading : pending (buffered first_part 1020 1) ++ second_part ≡ frame reading
split_reading = ap (λ x. x ++ second_part) (pending-buffered first_part 1020 1) ∙ frame-parts

length-first : length (pending (buffered first_part 1020 1)) ≡ 10
length-first = ap length (pending-buffered first_part 1020 1)

-- The second part of the message arrives after the shift.
read_message_loses_example :
    (pending (completed (buffered first_part 1020 1) second_part 2) ≡ frame reading)
    × (r' : Reader ℕ) × (read_message script 30 (buffered first_part 1020 1) ≡ some (err eof, r'))
unfolding buffered
read_message_loses_example =
    read_message_loses script reading (omega arith) (omega arith) (buffered first_part 1020 1)
      (buffered-IsValid first_part 1020 1 (omega arith) (omega arith)) (omega arith) second_part
      split_reading (omega (arith, length-first)) (omega arith) 2
      (λ n h. ap (λ c. (c, none, 2)) (take-all n second_part h))
      (λ i low high. absurd (omega arith)) eof 2 (λ n. refl) 30 (omega arith)
