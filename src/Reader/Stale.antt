-- ===== src/Reader/Stale.antt =====
-- `ReadMessage` of lib/go/qdp.go after a shift of its buffer in the middle of a message: `startPos`
-- is not moved with the bytes.
use qdp.Base.{
  ℕ, zero, suc, ◌+◌, ◌-◌, ◌/◌, ◌≤◌, ◌<◌, ◌≡◌, refl, sym, ap, ◌∙◌, ltb, List, [], ◌++◌, false, arith,
  none, some, length, take, drop, take-append, length-append, length-take, length-drop, drop-drop,
  Bool-cases, inl, inr, le→leb, gt→leb, lt→ltb, ge→ltb,
}
use native.Mathlib.Decide.{dec_le}
use qdp.Base.Bytes.{get_u32}
use qdp.Result.{Error, err}
use qdp.Message.{Message, overwrite}
use qdp.Message.Frame.{frame, frame_size, length-frame, IsBytesMessage}
use qdp.Reader.{
  Reader, ReadFn, buffer_size, outer, scan, done, next, shift, accept, read_more, after_partial,
  after_refill, after_scan, candidate, scan_at, read_round, read_rounds, read_message,
}
use qdp.Reader.Rounds.{read_rounds-done, read_rounds-next}
use qdp.Reader.Parsing.{IsSmall}
use qdp.Reader.Bounds.{IsValid, length-overwrite}
use qdp.Reader.Delivery.{pending, scan_at-header, header-topic_len, header-payload_len}
use qdp.Reader.Chunks.{IsFresh, take-overwrite, with_chunk, with_chunk-IsFresh}
use qdp.Reader.Faults.{is_candidate}

-- The reader after its buffer was shifted.
abbrev pub shifted : {S : Type 0} → Reader S → Reader S
shifted r = record r { buffer = overwrite r.buffer 0 (pending r); pos = 0; count = r.count - r.pos }

-- The reader that holds the whole message, at the beginning of its buffer.
abbrev pub completed : {S : Type 0} → Reader S → List ℕ → S → Reader S
completed r c s = with_chunk c s (shifted r)

module _ {S : Type 0} (read : ReadFn S) where
  shift-reader : (r : Reader S) → (shift r).reader ≡ r.reader
  unfolding shift
  shift-reader r = elim (Bool-cases (ltb (length r.buffer / 2) r.count)) [
    | inl full ↦ rw full
    | inr half ↦ rw half
  ]

  -- An error with no bytes is passed on.
  read_more-error :
      (r : Reader S) (e : Error) (s'' : S)
      → ((n : ℕ) → read r.reader n ≡ ([], some e, s''))
      → read_more read r ≡ (some e, record (shift r) { reader = s'' })
  unfolding read_more accept
  read_more-error r e s'' ends =
      rw (ap (λ x. read x (length (shift r).buffer - (shift r).count)) (shift-reader r) ∙ ends _)

module _ {S : Type 0} (read : ReadFn S) (m : Message) (bytes : IsBytesMessage m) (small : IsSmall m)
    (r : Reader S) (v : IsValid r) (half : buffer_size / 2 < r.count) (c : List ℕ)
    (split : pending r ++ c ≡ frame m) (header : 8 ≤ length (pending r)) (filled : 0 < length c)
    (s' : S) (gives : (n : ℕ) → length c ≤ n → read r.reader n ≡ (c, none, s')) where
  length-pending : length (pending r) ≡ r.count - r.pos
  length-pending = omega (
    arith,
    length-take (r.count - r.pos) (drop r.pos r.buffer),
    length-drop r.pos r.buffer,
    v.size,
    v.count_le,
  )

  sizes : length (pending r) + length c ≡ frame_size m
  sizes = omega (arith, length-append (pending r) c, ap length split, length-frame m)

  shift-shifted : shift r ≡ shifted r
  unfolding shift
  shift-shifted = rw (lt→ltb (length r.buffer / 2) r.count (omega (arith, half, v.size)))

  shifted-IsFresh : IsFresh (pending r) (shifted r)
  shifted-IsFresh = record {
    size = length-overwrite r.buffer 0 (pending r) ∙ v.size;
    at_start = refl;
    held = sym length-pending;
    front =
        take-overwrite r.buffer (pending r) 0 (length (pending r)) (omega arith)
          (omega (arith, length-pending, v.count_le, v.size));
  }

  completed-IsFresh : IsFresh (pending r ++ c) (completed r c s')
  completed-IsFresh =
      with_chunk-IsFresh read (pending r) c s' (shifted r) shifted-IsFresh
        (omega (arith, sizes, small.0, small.1))

  read_more-completed : read_more read r ≡ (none, (completed r c s'))
  unfolding read_more accept
  read_more-completed = rw (
    shift-shifted,
    gives (length (shifted r).buffer - (r.count - r.pos))
        (omega (arith, sizes, small.0, small.1, shifted-IsFresh.size, length-pending)),
    lt→ltb 0 (length c) filled,
  )

  -- The round that shifts the buffer goes on at the old `startPos`.
  scan-completed : read_round read (scan r.pos) r ≡ next (scan r.pos) (completed r c s')
  unfolding candidate after_partial
  scan-completed =
      scan_at-header read m bytes small r.pos r
        (header-topic_len m small (drop r.pos r.buffer) n header front)
        (ap get_u32 (sym (drop-drop 4 r.pos (r.pos + 4) r.buffer (omega arith)))
          ∙ header-payload_len m small (drop r.pos r.buffer) n header front)
        (omega (arith, header, length-pending))
      ∙ rw (
        gt→leb (r.pos + frame_size m) r.count
            (omega (arith, sizes, filled, length-pending, v.pos_le)),
        read_more-completed,
      )
    where
      n : ℕ
      n = length (pending r)

      front : take n (drop r.pos r.buffer) ≡ take n (frame m)
      front =
          ap (λ k. take k (drop r.pos r.buffer)) length-pending
          ∙ sym (ap (take n) (sym split) ∙ take-append n (pending r) c refl)

  -- The whole message is there.
  completed-frame : pending (completed r c s') ≡ frame m
  completed-frame =
      ap (λ k. take k (completed r c s').buffer) whole ∙ completed-IsFresh.front ∙ split
    where
      whole : r.count - r.pos + length c - 0 ≡ length (pending r ++ c)
      whole = omega (arith, length-append (pending r) c, length-pending)

  module _
      (none_behind : (i : ℕ)
        → r.pos ≤ i
        → i + 8 ≤ frame_size m
        → is_candidate (completed r c s').buffer i ≡ false)
      (e : Error) (s'' : S) (ends : (n : ℕ) → read s' n ≡ ([], some e, s'')) where
    abbrev back : Reader S
    back = record (completed r c s') { pos = (completed r c s').count - 8 }

    completed-count : (completed r c s').count ≡ frame_size m
    completed-count = omega (arith, sizes, length-pending)

    refill : read_more read back ≡ (some e, record (shift back) { reader = s'' })
    refill = read_more-error read back e s'' ends

    after_last :
        (i : ℕ)
        → frame_size m < i + 8
        → read_round read (scan i) (completed r c s')
          ≡ done (err e) (record (shift back) { reader = s'' })
    unfolding read_round after_scan after_refill
    after_last i h = rw (
      gt→leb (i + 8) (completed r c s').count (omega (arith, completed-count, h)),
      le→leb (completed r c s').count (i + 8) (omega (arith, completed-count, h)),
      refill,
    )

    pass :
        (i : ℕ)
        → r.pos ≤ i
        → i + 8 ≤ frame_size m
        → read_round read (scan i) (completed r c s') ≡ next (scan (i + 1)) (completed r c s')
    unfolding read_round scan_at
    pass i from h = rw (
      le→leb (i + 8) (completed r c s').count (omega (arith, completed-count, h)),
      none_behind i from h,
    )

    scan-lost :
        (fuel i : ℕ)
        → r.pos ≤ i
        → frame_size m < i + fuel
        → 1 ≤ fuel
        → read_rounds read fuel (scan i) (completed r c s')
          ≡ some (err e, record (shift back) { reader = s'' })
    scan-lost zero i from h k = absurd (omega arith)
    scan-lost (suc fuel) i from h k = elim (dec_le (i + 8) (frame_size m)) [
      | yes inside ↦
          read_rounds-next read fuel (scan i) (scan (i + 1)) (completed r c s') (completed r c s')
            (pass i from inside)
          ∙ scan-lost fuel (i + 1) (omega arith) (omega arith) (omega arith)
      | no past ↦
          read_rounds-done read fuel (scan i) (completed r c s') _ (err e)
            (after_last i (omega arith))
    ]

    enter : read_round read outer r ≡ next (scan r.pos) r
    unfolding read_round
    enter = rw (ge→ltb r.count (r.pos + 8) (omega (arith, header, length-pending)))

    -- `ReadMessage` can lose a message: if the buffer is more than half full and ends inside a frame
    -- that begins at the reader's position, and the io.Reader gives the rest of that frame, then the
    -- buffer is shifted, the whole frame stands at its beginning, and the scan goes on at the old
    -- position. If no lengths within the limits stand behind that position in the frame, and the
    -- io.Reader then ends with an error, the method returns that error and not the message.
    pub read_message_loses :
        (fuel : ℕ)
        → frame_size m + 3 ≤ fuel
        → (pending (completed r c s') ≡ frame m)
          × (r' : Reader S) × (read_message read fuel r ≡ some (err e, r'))
    unfolding read_message
    read_message_loses zero h = absurd (omega arith)
    read_message_loses (suc zero) h = absurd (omega arith)
    read_message_loses (suc (suc fuel)) h = (
      completed-frame,
      record (shift back) { reader = s'' },
      read_rounds-next read (suc fuel) outer (scan r.pos) r r enter
          ∙ read_rounds-next read fuel (scan r.pos) (scan r.pos) r (completed r c s') scan-completed
          ∙ scan-lost fuel r.pos (omega arith) (omega arith) (omega arith),
    )
