-- ===== src/Message/Decoding.antt =====
-- `Decode` of lib/go/qdp.go against the frame format, and where it panics.
use qdp.Base.{
  ℕ, ◌+◌, ◌≡◌, ◌≢◌, refl, ap, ◌∙◌, List, [], ◌∷◌, ◌++◌, append_assoc, arith, eq→==, ==-refl, length,
  ◌==◌, le→leb, false,
}
use qdp.Base.Bytes.{put_u32, get_u32, slice, get_u32-put_u32}
use qdp.Result.{ok, ◌>>=◌}
use qdp.Crc.{calculate_crc32}
use qdp.Message.{Message, u32, sub32, slice_at, get_u32_of, extract, verify_crc, encode, decode}
use qdp.Message.Encoding.{encode-frame}
use qdp.Message.Frame.{
  covered, frame, frame_size, Fits, IsBytesMessage, slice_at-fit, length-covered, length-frame,
  crc-covered-IsU32,
}

module _ (m : Message) (fits : Fits m) where
  verify_crc-frame :
      IsBytesMessage m → verify_crc (frame m) (12 + length m.topic + length m.payload) ≡ ok tt
  unfolding verify_crc get_u32_of
  verify_crc-frame bytes = rw (
    body_end,
    trailer,
    body,
    eq→== (get_u32 (put_u32 (calculate_crc32 (covered m)))) (calculate_crc32 (covered m))
        (get_u32-put_u32 (calculate_crc32 (covered m)) [] (crc-covered-IsU32 m bytes)),
  )
    where
      body_end :
          sub32 (12 + length m.topic + length m.payload) 4 ≡ 8 + length m.topic + length m.payload
      body_end = omega arith

      trailer :
          slice_at (frame m) (8 + length m.topic + length m.payload) (length (frame m))
          ≡ ok (put_u32 (calculate_crc32 (covered m)))
      trailer =
          slice_at-fit (covered m) (put_u32 (calculate_crc32 (covered m))) []
            (8 + length m.topic + length m.payload) (length (frame m)) (length-covered m)
            (omega (arith, length-frame m))

      body : slice_at (frame m) 0 (8 + length m.topic + length m.payload) ≡ ok (covered m)
      body =
          slice_at-fit [] (covered m) (put_u32 (calculate_crc32 (covered m))) 0
            (8 + length m.topic + length m.payload) refl (omega (arith, length-covered m))

  extract-frame : extract (frame m) (length m.topic) (12 + length m.topic + length m.payload) ≡ ok m
  unfolding extract
  extract-frame = rw (topic_end, body_end, topic, payload)
    where
      topic_end : u32 (8 + length m.topic) ≡ 8 + length m.topic
      topic_end = omega arith

      body_end :
          sub32 (12 + length m.topic + length m.payload) 4 ≡ 8 + length m.topic + length m.payload
      body_end = omega arith

      crc : List ℕ
      crc = put_u32 (calculate_crc32 (covered m))

      header : List ℕ
      header = put_u32 (length m.topic) ++ put_u32 (length m.payload)

      apart : frame m ≡ header ++ (m.topic ++ (m.payload ++ crc))
      apart = ap (λ r. header ++ r) (append_assoc m.topic m.payload crc)

      topic : slice_at (frame m) 8 (8 + length m.topic) ≡ ok m.topic
      topic =
          ap (λ r. slice_at r 8 (8 + length m.topic)) apart
          ∙ slice_at-fit header m.topic (m.payload ++ crc) 8 (8 + length m.topic) refl refl

      payload :
          slice_at (frame m) (8 + length m.topic) (8 + length m.topic + length m.payload)
          ≡ ok m.payload
      payload =
          ap (λ r. slice_at r (8 + length m.topic) (8 + length m.topic + length m.payload)) apart
          ∙ slice_at-fit (header ++ m.topic) m.payload crc (8 + length m.topic)
              (8 + length m.topic + length m.payload) (omega arith) refl

  -- `Decode` gives back the message whose frame it is handed, for a message of bytes whose size is a
  -- uint32.
  pub decode-frame : IsBytesMessage m → decode (frame m) ≡ ok m
  unfolding decode
  decode-frame bytes = rw (
    le→leb 12 (length (frame m)) (omega (arith, length-frame m)),
    topic_len,
    payload_len,
    total,
    length-frame m,
    size,
    ==-refl (frame_size m),
    verify_crc-frame bytes,
    extract-frame,
  )
    where
      topic_len : get_u32 (slice (frame m) 0 4) ≡ length m.topic
      topic_len = omega arith

      payload_len : get_u32 (slice (frame m) 4 8) ≡ length m.payload
      payload_len = omega arith

      total : u32 (8 + length m.topic + length m.payload + 4) ≡ frame_size m
      total = omega arith

      size : u32 (frame_size m) ≡ frame_size m
      size = omega arith

-- `Decode` gives back what `Encode` was given: for every message of bytes with a topic, whose frame
-- has a size that is a uint32.
pub decode-encode :
    (m : Message) → Fits m → IsBytesMessage m → m.topic ≢ [] → (encode m >>= decode) ≡ ok m
decode-encode m fits bytes filled =
    rw (encode-frame m fits, topic_test m.topic filled) (decode-frame m fits bytes)
  where
    topic_test : (t : List ℕ) → t ≢ [] → (length t == 0) ≡ false
    topic_test [] h = absurd (h refl)
    topic_test (x ∷ t) h = ground arith
