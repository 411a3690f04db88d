-- ===== src/Reader/Delivery.antt =====
-- `ReadMessage` of lib/go/qdp.go returns the messages whose frames stand in its buffer.
use qdp.Base.{
  ℕ, zero, suc, ◌+◌, ◌-◌, ◌≤◌, ◌≡◌, refl, sym, ap, ◌∙◌, List, [], ◌∷◌, ◌++◌, arith, some, length,
  take, drop, le→leb, ge→ltb, length-append, take-append, length-take, length-drop, drop-drop,
  take-all,
}
use qdp.Base.Bytes.{get_u32, slice}
use qdp.Result.{ok}
use qdp.Message.{Message, u32}
use qdp.Message.Frame.{frame, frame_size, length-frame, IsBytesMessage}
use qdp.Reader.{
  Reader, ReadFn, outer, scan, done, next, after_parse, candidate, scan_at, read_round,
  read_message,
}
use qdp.Reader.Rounds.{read_rounds-done, read_rounds-next}
use qdp.Reader.Parsing.{IsSmall, try_parse_message-frame, get_u32-take, drop-take}
use qdp.Reader.Bounds.{IsValid}

pub take-take : (m n : ℕ) (xs : List ℕ) → m ≤ n → take m (take n xs) ≡ take m xs
take-take zero n xs h = refl
take-take (suc m) zero xs h = absurd (omega arith)
take-take (suc m) (suc n) [] h = refl
take-take (suc m) (suc n) (x ∷ xs) h = ap (◌∷◌ x) (take-take m n xs (omega arith))

frame-topic_len : (m : Message) → IsSmall m → get_u32 (frame m) ≡ length m.topic
frame-topic_len m h = omega arith

frame-payload_len : (m : Message) → IsSmall m → get_u32 (drop 4 (frame m)) ≡ length m.payload
frame-payload_len m h = omega arith

-- The bytes from `start` on begin with the first eight bytes of a frame.
module _ (m : Message) (small : IsSmall m) (bs : List ℕ) (n : ℕ) (long : 8 ≤ n)
    (rest : take n bs ≡ take n (frame m)) where
  pub header-topic_len : get_u32 bs ≡ length m.topic
  header-topic_len =
      sym (get_u32-take n bs (omega arith))
      ∙ ap get_u32 rest
      ∙ get_u32-take n (frame m) (omega arith)
      ∙ frame-topic_len m small

  pub header-payload_len : get_u32 (drop 4 bs) ≡ length m.payload
  header-payload_len =
      sym (get_u32-take (n - 4) (drop 4 bs) (omega arith))
      ∙ ap get_u32 (sym (drop-take 4 (n - 4) n bs (omega arith)))
      ∙ ap (λ x. get_u32 (drop 4 x)) rest
      ∙ ap get_u32 (drop-take 4 (n - 4) n (frame m) (omega arith))
      ∙ get_u32-take (n - 4) (drop 4 (frame m)) (omega arith)
      ∙ frame-payload_len m small

module _ {S : Type 0} (read : ReadFn S) (m : Message) (bytes : IsBytesMessage m)
    (small : IsSmall m) where
  -- A round of the inner loop at a header of the message goes on to the candidate.
  pub scan_at-header :
      (start : ℕ) (r : Reader S)
      → get_u32 (drop start r.buffer) ≡ length m.topic
      → get_u32 (drop (start + 4) r.buffer) ≡ length m.payload
      → start + 8 ≤ r.count
      → read_round read (scan start) r ≡ candidate read start (frame_size m) r
  unfolding read_round scan_at
  scan_at-header start r et ep h =
      rw
        (
          le→leb (start + 8) r.count h,
          et,
          ep,
          le→leb (length m.topic) 64 small.0,
          le→leb (length m.payload) 1024 small.1,
        )
        (ap (λ k. candidate read start k r) total)
    where
      total : u32 (8 + length m.topic + length m.payload + 4) ≡ frame_size m
      total = omega (arith, small.0, small.1)

  -- A whole frame at `startPos` is returned.
  pub scan-frame :
      (start : ℕ) (r : Reader S)
      → r.count ≤ length r.buffer
      → start + frame_size m ≤ r.count
      → take (frame_size m) (drop start r.buffer) ≡ frame m
      → read_round read (scan start) r ≡ done (ok m) (record r { pos = start + frame_size m })
  unfolding candidate after_parse
  scan-frame start r room fits e =
      scan_at-header start r et ep (omega arith)
      ∙ rw (
        le→leb (start + frame_size m) r.count fits,
        try_parse_message-frame r start (length m.topic) (length m.payload) fits room small.0
            small.1 et ep m bytes refl refl found,
      )
    where
      whole : take (frame_size m) (drop start r.buffer) ≡ take (frame_size m) (frame m)
      whole = e ∙ sym (take-all (frame_size m) (frame m) (omega (arith, length-frame m)))

      et : get_u32 (drop start r.buffer) ≡ length m.topic
      et = header-topic_len m small (drop start r.buffer) (frame_size m) (omega arith) whole

      ep : get_u32 (drop (start + 4) r.buffer) ≡ length m.payload
      ep =
          ap get_u32 (sym (drop-drop 4 start (start + 4) r.buffer (omega arith)))
          ∙ header-payload_len m small (drop start r.buffer) (frame_size m) (omega arith) whole

      extent : start + frame_size m - start ≡ frame_size m
      extent = omega arith

      found : slice r.buffer start (start + frame_size m) ≡ frame m
      found = ap (λ k. take k (drop start r.buffer)) extent ∙ e

-- What the reader holds and has not returned yet.
abbrev pub pending : {S : Type 0} → Reader S → List ℕ
pending r = slice r.buffer r.pos r.count

abbrev pub skip : {S : Type 0} → ℕ → Reader S → Reader S
skip n r = record r { pos = r.pos + n }

module _ {S : Type 0} (read : ReadFn S) where
  -- With a frame at the front of what it holds, `ReadMessage` returns the message after two rounds,
  -- without a call of the io.Reader, and goes on behind the frame.
  pub read_message-frame :
      (m : Message) (rest : List ℕ) (r : Reader S) (fuel : ℕ)
      → IsBytesMessage m
      → IsSmall m
      → IsValid r
      → pending r ≡ frame m ++ rest
      → read_message read (suc (suc fuel)) r ≡ some (ok m, skip (frame_size m) r)
  unfolding read_message read_round
  read_message-frame m rest r fuel bytes small v e =
      read_rounds-next read (suc fuel) outer (scan r.pos) r r start
      ∙ read_rounds-done read fuel (scan r.pos) r (skip (frame_size m) r) (ok m)
          (scan-frame read m bytes small r.pos r (omega (arith, v.count_le, v.size)) fits front)
    where
      size : frame_size m + length rest ≡ r.count - r.pos
      size = omega (
        arith,
        ap length e,
        length-append (frame m) rest,
        length-frame m,
        length-take (r.count - r.pos) (drop r.pos r.buffer),
        length-drop r.pos r.buffer,
        v.count_le,
        v.size,
      )

      fits : r.pos + frame_size m ≤ r.count
      fits = omega (arith, size)

      start : read_round read outer r ≡ next (scan r.pos) r
      start = rw (ge→ltb r.count (r.pos + 8) (omega (arith, fits)))

      front : take (frame_size m) (drop r.pos r.buffer) ≡ frame m
      front =
          sym
            (take-take (frame_size m) (r.count - r.pos) (drop r.pos r.buffer) (omega (arith, size)))
          ∙ ap (take (frame_size m)) e
          ∙ take-append (frame_size m) (frame m) rest (length-frame m)
