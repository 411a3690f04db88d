-- ===== src/Message/Runs.antt =====
-- Concrete frames, and the theorems on `Message` at concrete inputs.
use qdp.Base.{ℕ, ◌≡◌, ◌≢◌, refl, List, [], ◌∷◌, ◌++◌, arith}
use qdp.Base.Bytes.{put_u32}
use qdp.Result.{ok, err, panic, ◌>>=◌, invalid_message}
use qdp.Crc.{calculate_crc32}
use qdp.Message.{
  Message, encode, write_fields, written_bytes, decode, verify_crc, extract, copy_at, put_u32_at,
  slice_at, get_u32_of, overwrite,
}
use qdp.Message.Frame.{covered, frame, IsBytesMessage}
use qdp.Message.Encoding.{encode-frame, written_bytes-frame}
use qdp.Message.Decoding.{decode-encode}
use qdp.Message.Inversion.{decode-eq-ok}
use qdp.Message.Faults.{decode-panics, decode-ne-panic, decode-corrupt}

abbrev reading : Message
reading = record { topic = b't' ∷ b'e' ∷ b'm' ∷ b'p' ∷ []; payload = b'2' ∷ b'5' ∷ [] }

abbrev reading_frame : List ℕ
reading_frame =
    4 ∷ 0 ∷ 0 ∷ 0 ∷ 2 ∷ 0 ∷ 0 ∷ 0 ∷ b't' ∷ b'e' ∷ b'm' ∷ b'p' ∷ b'2' ∷ b'5' ∷ 215 ∷ 70 ∷ 253 ∷ 43
    ∷ []

encode-reading : encode reading ≡ ok reading_frame
unfolding encode write_fields put_u32_at copy_at slice_at overwrite calculate_crc32
encode-reading = refl

written_reading : written_bytes reading ≡ ok reading_frame
unfolding written_bytes put_u32_at copy_at slice_at overwrite calculate_crc32
written_reading = refl

decode-reading : decode reading_frame ≡ ok reading
unfolding decode verify_crc extract slice_at get_u32_of calculate_crc32
decode-reading = refl

decode_short : decode (1 ∷ 2 ∷ []) ≡ err invalid_message
unfolding decode
decode_short = refl

-- Two lengths that wrap to a frame of twelve bytes, with the right checksum.
abbrev wrapped_frame : List ℕ
wrapped_frame = 252 ∷ 255 ∷ 255 ∷ 255 ∷ 4 ∷ 0 ∷ 0 ∷ 0 ∷ 75 ∷ 111 ∷ 18 ∷ 254 ∷ []

decode_wrapped : decode wrapped_frame ≡ panic
unfolding decode verify_crc extract slice_at get_u32_of calculate_crc32
decode_wrapped = refl

reading_encoded : encode reading ≡ ok (frame reading)
reading_encoded = encode-frame reading (omega arith)

reading_written : written_bytes reading ≡ ok (frame reading)
reading_written = written_bytes-frame reading (omega arith)

decode-encode_example : (encode reading >>= decode) ≡ ok reading
decode-encode_example = decode-encode reading (omega arith) (omega arith) (λ e. cc)

decode-eq-ok_example : (reading_frame ≡ frame reading) × IsBytesMessage reading
decode-eq-ok_example = decode-eq-ok reading_frame reading (omega arith) (omega arith) decode-reading

decode-panics_example : decode wrapped_frame ≡ panic
unfolding calculate_crc32
decode-panics_example =
    decode-panics wrapped_frame (omega arith) (omega arith) (omega arith) (omega arith) refl

decode-ne-panic_example : decode reading_frame ≢ panic
decode-ne-panic_example = decode-ne-panic reading_frame (omega arith) (omega arith) (omega arith)

decode-corrupt_example :
    decode (
      (4 ∷ 0 ∷ 0 ∷ 0 ∷ 2 ∷ 0 ∷ 0 ∷ 0 ∷ b't' ∷ b'e' ∷ b'm' ∷ b'p' ∷ b'3' ∷ b'5' ∷ [])
      ++ put_u32 (calculate_crc32 (covered reading)))
    ≢ ok reading
decode-corrupt_example =
    decode-corrupt reading (4 ∷ 0 ∷ 0 ∷ 0 ∷ 2 ∷ 0 ∷ 0 ∷ 0 ∷ b't' ∷ b'e' ∷ b'm' ∷ b'p' ∷ [])
      (b'2' ∷ []) (b'3' ∷ []) (b'5' ∷ []) (omega arith) (omega arith) refl (omega arith)
      (omega arith) (omega arith) (omega arith) (omega arith) refl (λ e. grind arith) reading
