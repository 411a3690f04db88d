-- ===== src/Reader/Faults.antt =====
-- Where `ReadMessage` of lib/go/qdp.go does not return, and where it passes over a message.
use qdp.Base.{
  ℕ, zero, suc, ◌+◌, ◌-◌, ◌≤◌, ◌<◌, ◌≡◌, refl, sym, ap, ◌∙◌, leb, List, [], Bool, true, false, ◌&&◌,
  arith, none, length, drop, take-all, le→leb, gt→leb, ge→ltb, leb→le,
}
use native.Mathlib.Decide.{dec_lt}
use qdp.Base.Bytes.{get_u32}
use qdp.Message.{u32}
use qdp.Reader.{
  Reader, ReadFn, buffer_size, outer, scan, next, accept, read_more, after_partial, candidate,
  scan_at, read_round, read_rounds, read_message, max_topic_size, max_message_size,
}
use qdp.Reader.Rounds.{read_rounds-next}
use qdp.Reader.Bounds.{IsValid}
use qdp.Reader.Chunks.{IsFresh, shift-fresh}

-- The lengths at position `i` are within the limits.
abbrev pub is_candidate : List ℕ → ℕ → Bool
is_candidate buffer i =
    leb (get_u32 (drop i buffer)) max_topic_size
    && leb (get_u32 (drop (i + 4) buffer)) max_message_size

-- The size that the header at position `i` announces.
abbrev pub announced : List ℕ → ℕ → ℕ
announced buffer i = 12 + get_u32 (drop i buffer) + get_u32 (drop (i + 4) buffer)

module _ {S : Type 0} (read : ReadFn S) (empty_read : (s : S) → read s 0 ≡ ([], none, s)) where
  -- A full buffer that starts at position 0 cannot take more.
  read_more-full :
      (r : Reader S) → IsValid r → r.pos ≡ 0 → r.count ≡ buffer_size → read_more read r ≡ (none, r)
  unfolding read_more accept
  read_more-full r v start full =
      rw (shift-fresh r.buffer r fresh, ap (read r.reader) room ∙ empty_read r.reader)
    where
      fresh : IsFresh r.buffer r
      fresh = record {
        size = v.size;
        at_start = start;
        held = full ∙ sym v.size;
        front = take-all (length r.buffer) r.buffer (omega arith);
      }

      room : length r.buffer - r.count ≡ 0
      room = omega (arith, v.size, full)

  module _ (r : Reader S) (v : IsValid r) (at_start : r.pos ≡ 0) (full : r.count ≡ buffer_size)
      (start : ℕ) (inside : start + 8 ≤ buffer_size)
      (before : (i : ℕ) → i < start → is_candidate r.buffer i ≡ false)
      (header : is_candidate r.buffer start ≡ true)
      (past : buffer_size < start + announced r.buffer start) where
    scan-before : (i : ℕ) → i < start → read_round read (scan i) r ≡ next (scan (i + 1)) r
    unfolding read_round scan_at
    scan-before i h = rw (le→leb (i + 8) r.count (omega (arith, full, inside)), before i h)

    limits : (get_u32 (drop start r.buffer) ≤ 64) × (get_u32 (drop (start + 4) r.buffer) ≤ 1024)
    limits = (leb→le _ _ both.0, leb→le _ _ both.1)
      where
        and-true : (a b : Bool) → (a && b) ≡ true → (a ≡ true) × (b ≡ true)
        and-true true b h = (refl, h)
        and-true false b h = absurd (cc h)

        both :
            (leb (get_u32 (drop start r.buffer)) 64 ≡ true)
            × (leb (get_u32 (drop (start + 4) r.buffer)) 1024 ≡ true)
        both = and-true _ _ header

    scan-stuck : read_round read (scan start) r ≡ next (scan start) r
    unfolding read_round scan_at candidate after_partial
    scan-stuck = rw (
      le→leb (start + 8) r.count (omega (arith, full, inside)),
      header,
      total,
      gt→leb (start + announced r.buffer start) r.count (omega (arith, full, past)),
      read_more-full r v at_start full,
    )
      where
        total :
            u32 (8 + get_u32 (drop start r.buffer) + get_u32 (drop (start + 4) r.buffer) + 4)
            ≡ announced r.buffer start
        total = omega (arith, limits)

    scan-none : (fuel i : ℕ) → i ≤ start → read_rounds read fuel (scan i) r ≡ none
    scan-none zero i h = unfold read_rounds in refl
    scan-none (suc fuel) i h = elim (dec_lt i start) [
      | yes early ↦
          read_rounds-next read fuel (scan i) (scan (i + 1)) r r (scan-before i early)
          ∙ scan-none fuel (i + 1) (omega arith)
      | no there ↦
          let e : i ≡ start = omega arith in
          rw e (
            read_rounds-next read fuel (scan start) (scan start) r r scan-stuck
            ∙ scan-none fuel start (omega arith))
    ]

    -- `ReadMessage` never returns from a full buffer that nothing has been taken from, if the first
    -- position whose lengths are within the limits announces a message that ends past the buffer:
    -- however many rounds it has, and whatever the io.Reader could still give, if it answers a read
    -- of no bytes by no bytes and no error.
    pub read_message_stuck : (fuel : ℕ) → read_message read fuel r ≡ none
    unfolding read_message read_round
    read_message_stuck zero = unfold read_rounds in refl
    read_message_stuck (suc fuel) =
        read_rounds-next read fuel outer (scan r.pos) r r head
        ∙ ap (λ k. read_rounds read fuel (scan k) r) at_start
        ∙ scan-none fuel 0 (omega arith)
      where
        head : read_round read outer r ≡ next (scan r.pos) r
        head = rw (ge→ltb r.count (r.pos + 8) (omega (arith, full, at_start)))
