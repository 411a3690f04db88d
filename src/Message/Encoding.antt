-- ===== src/Message/Encoding.antt =====
-- `Encode` and `writeMessage` of lib/go/qdp.go write the frame of the message.
use qdp.Base.{
  ℕ, zero, suc, ◌+◌, ◌≡◌, refl, sym, ap, ◌∙◌, List, [], ◌∷◌, ◌++◌, append_assoc, arith, length,
  replicate, length-append, length-replicate, ◌==◌, if◌then◌else◌, Bool-cases, inl, inr,
}
use qdp.Base.Bytes.{put_u32}
use qdp.Result.{ok, err, invalid_message}
use qdp.Crc.{calculate_crc32}
use qdp.Message.{
  Message, u32, sub32, copy_at, put_u32_at, slice_at, write_fields, encode, written_bytes,
}
use qdp.Message.Frame.{
  covered, frame, Fits, copy_at-fit, put_u32_at-fit, slice_at-fit, length-covered,
}

zeros : ℕ → List ℕ
zeros n = replicate n 0

four : List ℕ
four = 0 ∷ 0 ∷ 0 ∷ 0 ∷ []

-- The buffer before the first write, field by field.
blank : ℕ → ℕ → List ℕ
unfolding zeros four
blank t p = four ++ (four ++ (zeros t ++ (zeros p ++ four)))

replicate-add : (m n k : ℕ) → m + n ≡ k → zeros m ++ zeros n ≡ zeros k
unfolding zeros
replicate-add zero n k h = let e : n ≡ k = omega arith in rw e
replicate-add (suc m) n zero h = absurd (omega arith)
replicate-add (suc m) n (suc k) h = ap (◌∷◌ 0) (replicate-add m n k (omega arith))

replicate-blank : (t p : ℕ) → replicate (8 + t + p + 4) 0 ≡ blank t p
unfolding blank zeros four
replicate-blank t p = sym (
    ap (λ r. four ++ (four ++ (zeros t ++ r))) (replicate-add p 4 (p + 4) refl)
    ∙ ap (λ r. four ++ (four ++ r)) (replicate-add t (p + 4) (t + p + 4) (omega arith))
    ∙ replicate-add 8 (t + p + 4) (8 + t + p + 4) (omega arith))

module _ (m : Message) where
  -- The buffer after each write.
  with_lengths : List ℕ
  unfolding zeros four
  with_lengths =
      put_u32 (length m.topic)
      ++ (put_u32 (length m.payload)
          ++ (zeros (length m.topic) ++ (zeros (length m.payload) ++ four)))

  with_topic : List ℕ
  unfolding zeros four
  with_topic =
      put_u32 (length m.topic)
      ++ (put_u32 (length m.payload) ++ (m.topic ++ (zeros (length m.payload) ++ four)))

  with_payload : List ℕ
  unfolding four
  with_payload = covered m ++ four

  first_length :
      put_u32_at (blank (length m.topic) (length m.payload)) 0 (length m.topic)
      ≡ ok (
          put_u32 (length m.topic)
          ++ (four ++ (zeros (length m.topic) ++ (zeros (length m.payload) ++ four))))
  unfolding blank
  first_length = put_u32_at-fit [] four _ 0 (length m.topic) refl refl

  second_length :
      put_u32_at
        (put_u32 (length m.topic)
          ++ (four ++ (zeros (length m.topic) ++ (zeros (length m.payload) ++ four))))
        4
        (length m.payload)
      ≡ ok with_lengths
  unfolding with_lengths
  second_length = put_u32_at-fit (put_u32 (length m.topic)) four _ 4 (length m.payload) refl refl

  copied_topic : copy_at with_lengths 8 m.topic ≡ ok with_topic
  unfolding with_lengths with_topic
  copied_topic =
      copy_at-fit (put_u32 (length m.topic) ++ put_u32 (length m.payload)) (zeros (length m.topic))
        (zeros (length m.payload) ++ four) m.topic 8 refl (length-replicate (length m.topic) 0)

  copied_payload : copy_at with_topic (8 + length m.topic) m.payload ≡ ok with_payload
  unfolding with_topic with_payload
  copied_payload =
      copy_at-fit (put_u32 (length m.topic) ++ (put_u32 (length m.payload) ++ m.topic))
        (zeros (length m.payload)) four m.payload (8 + length m.topic) (omega arith)
        (length-replicate (length m.payload) 0)
      ∙ ap (λ r. ok (put_u32 (length m.topic) ++ (put_u32 (length m.payload) ++ r)))
          (sym (append_assoc m.topic m.payload four))

  sliced : slice_at with_payload 0 (8 + length m.topic + length m.payload) ≡ ok (covered m)
  unfolding with_payload
  sliced =
      slice_at-fit [] (covered m) four 0 (8 + length m.topic + length m.payload) refl
        (omega (arith, length-append m.topic m.payload))

  checksum :
      (v : ℕ)
      → put_u32_at with_payload (8 + length m.topic + length m.payload) v
        ≡ ok (covered m ++ put_u32 v)
  unfolding with_payload
  checksum v =
      put_u32_at-fit (covered m) four [] (8 + length m.topic + length m.payload) v
        (length-covered m) refl

  header_slice : slice_at (blank (length m.topic) (length m.payload)) 0 4 ≡ ok four
  unfolding blank four
  header_slice = slice_at-fit [] four _ 0 4 refl refl

  second_slice :
      slice_at
        (put_u32 (length m.topic)
          ++ (four ++ (zeros (length m.topic) ++ (zeros (length m.payload) ++ four))))
        4
        8
      ≡ ok four
  unfolding four
  second_slice = slice_at-fit (put_u32 (length m.topic)) four _ 4 8 refl refl

module _ (m : Message) (fits : Fits m) where
  topic_len : u32 (length m.topic) ≡ length m.topic
  topic_len = omega arith

  payload_len : u32 (length m.payload) ≡ length m.payload
  payload_len = omega arith

  total_size :
      u32 (8 + length m.topic + length m.payload + 4) ≡ 8 + length m.topic + length m.payload + 4
  total_size = omega arith

  write_fields-frame : write_fields m ≡ ok (frame m)
  unfolding write_fields
  write_fields-frame = rw (
    topic_len,
    payload_len,
    total_size,
    replicate-blank (length m.topic) (length m.payload),
    first_length m,
    second_length m,
    copied_topic m,
    copied_payload m,
    sliced m,
    checksum m (calculate_crc32 (covered m)),
  )

  topic_end : u32 (8 + length m.topic) ≡ 8 + length m.topic
  topic_end = omega arith

  payload_end :
      sub32 (8 + length m.topic + length m.payload + 4) 4 ≡ 8 + length m.topic + length m.payload
  payload_end = omega arith

  -- `writeMessage` hands the frame of every message whose size is a uint32 to the writer, also where
  -- the topic is empty.
  pub written_bytes-frame : written_bytes m ≡ ok (frame m)
  unfolding written_bytes
  written_bytes-frame = rw (
    topic_len,
    payload_len,
    total_size,
    replicate-blank (length m.topic) (length m.payload),
    header_slice m,
    first_length m,
    second_slice m,
    second_length m,
    copied_topic m,
    topic_end,
    copied_payload m,
    payload_end,
    sliced m,
    checksum m (calculate_crc32 (covered m)),
  )

  -- `Encode` refuses a message with an empty topic as invalid, and gives the frame of any other
  -- message whose size is a uint32.
  pub encode-frame : encode m ≡ (if length m.topic == 0 then err invalid_message else ok (frame m))
  unfolding encode
  encode-frame = elim (Bool-cases (length m.topic == 0)) [
    | inl empty ↦ rw empty
    | inr filled ↦ rw (filled, write_fields-frame)
  ]
