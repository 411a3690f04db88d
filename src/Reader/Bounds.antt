-- ===== src/Reader/Bounds.antt =====
-- The positions of `MessageReader` stay within its buffer, and its slices are in range.
use qdp.Base.{
  ℕ, zero, suc, ◌+◌, ◌-◌, ◌/◌, ◌≤◌, ◌≡◌, ◌≢◌, refl, ap, ◌∙◌, ltb, leb, List, [], ◌∷◌, arith, Option,
  none, some, length, drop, leb→le, Bool-cases, inl, inr,
}
use qdp.Base.Bytes.{IsBytes, get_u32, slice}
use qdp.Result.{Error, Result, ok, err, panic}
use qdp.Message.{Message, u32, overwrite}
use qdp.Message.Inversion.{slice-IsBytes}
use qdp.Reader.{
  Reader, ReadFn, buffer_size, shift, accept, Control, outer, scan, Round, done, next, read_more,
  after_header, after_parse, after_partial, candidate, scan_at, after_refill, after_scan,
  read_round, try_parse_message, max_topic_size, max_message_size,
}
use qdp.Reader.Parsing.{try_parse_message-ne-panic}

pub record IsValid {S : Type 0} (r : Reader S) : Type 0 where
  pub size : length r.buffer ≡ buffer_size
  pub bytes : IsBytes r.buffer
  pub pos_le : r.pos ≤ r.count
  pub count_le : r.count ≤ buffer_size

-- The contract of io.Reader: no more bytes than there is room for.
abbrev pub IsReader : {S : Type 0} → ReadFn S → Type 0
IsReader {S} read = (s : S) (n : ℕ) → (length (read s n).0 ≤ n) × IsBytes (read s n).0

pub length-overwrite :
    (buf : List ℕ) (offset : ℕ) (src : List ℕ) → length (overwrite buf offset src) ≡ length buf
unfolding overwrite
length-overwrite [] offset src = refl
length-overwrite (x ∷ buf) zero [] = refl
length-overwrite (x ∷ buf) zero (s ∷ src) = ap suc (length-overwrite buf zero src)
length-overwrite (x ∷ buf) (suc offset) src = ap suc (length-overwrite buf offset src)

overwrite-IsBytes :
    (buf : List ℕ) (offset : ℕ) (src : List ℕ)
    → IsBytes buf
    → IsBytes src
    → IsBytes (overwrite buf offset src)
unfolding overwrite
overwrite-IsBytes [] offset src h k = tt
overwrite-IsBytes (x ∷ buf) zero [] h k = h
overwrite-IsBytes (x ∷ buf) zero (s ∷ src) h k = (k.0, overwrite-IsBytes buf zero src h.1 k.1)
overwrite-IsBytes (x ∷ buf) (suc offset) src h k = (h.0, overwrite-IsBytes buf offset src h.1 k)

module _ {S : Type 0} where
  pub shift-IsValid : (r : Reader S) → IsValid r → IsValid (shift r)
  unfolding shift
  shift-IsValid r v = elim (Bool-cases (ltb (length r.buffer / 2) r.count)) [
    | inr half ↦ rw half v
    | inl full ↦ rw full (record {
      size = length-overwrite r.buffer 0 (slice r.buffer r.pos r.count) ∙ v.size;
      bytes =
          overwrite-IsBytes r.buffer 0 (slice r.buffer r.pos r.count) v.bytes
            (slice-IsBytes r.buffer r.pos r.count v.bytes);
      pos_le = omega arith;
      count_le = omega (arith, v.count_le);
    })
  ]

  pub accept-IsValid :
      (r : Reader S) (got : List ℕ) (error : Option Error) (s : S)
      → IsValid r
      → length got ≤ length r.buffer - r.count
      → IsBytes got
      → IsValid (accept r (got, error, s)).1
  unfolding accept
  accept-IsValid r got error s v room bytes = elim (Bool-cases (ltb 0 (length got))) [
    | inr nothing ↦
        rw nothing
          (record { size = v.size; bytes = v.bytes; pos_le = v.pos_le; count_le = v.count_le })
    | inl some_bytes ↦ rw some_bytes (record {
      size = length-overwrite r.buffer r.count got ∙ v.size;
      bytes = overwrite-IsBytes r.buffer r.count got v.bytes bytes;
      pos_le = omega (arith, v.pos_le);
      count_le = omega (arith, v.count_le, v.size);
    })
  ]

  -- What holds of a round that leads on, or that ends the method.
  abbrev pub RoundIsValid : Round S → Type 0
  RoundIsValid (done result r) = IsValid r × (result ≢ panic)
  RoundIsValid (next c r) = IsValid r

  after_header-IsValid :
      (e : Option Error) (r : Reader S) → IsValid r → RoundIsValid (after_header (e, r))
  unfolding after_header
  after_header-IsValid none r v = v
  after_header-IsValid (some e) r v = elim (Bool-cases (ltb r.count (r.pos + 8))) [
    | inl short ↦ rw short (v, λ h. cc)
    | inr enough ↦ rw enough v
  ]

  after_partial-IsValid :
      (start total : ℕ) (e : Option Error) (r : Reader S)
      → IsValid r
      → RoundIsValid (after_partial start total (e, r))
  unfolding after_partial
  after_partial-IsValid start total none r v = v
  after_partial-IsValid start total (some e) r v = elim (Bool-cases (ltb r.count (start + total))) [
    | inl short ↦ rw short (v, λ h. cc)
    | inr enough ↦ rw enough v
  ]

  after_refill-IsValid :
      (e : Option Error) (r : Reader S) → IsValid r → RoundIsValid (after_refill (e, r))
  unfolding after_refill
  after_refill-IsValid none r v = v
  after_refill-IsValid (some e) r v = (v, λ h. cc)

  after_parse-IsValid :
      (start total : ℕ) (r : Reader S) (result : Result Message)
      → IsValid r
      → start + total ≤ r.count
      → result ≢ panic
      → RoundIsValid (after_parse start total r result)
  unfolding after_parse
  after_parse-IsValid start total r (ok m) v h ne =
      (record { size = v.size; bytes = v.bytes; pos_le = h; count_le = v.count_le }, λ e. cc)
  after_parse-IsValid start total r (err e) v h ne = v
  after_parse-IsValid start total r panic v h ne = absurd (ne refl)

  after_parse-total :
      (start total t p : ℕ) (r : Reader S)
      → IsValid r
      → total ≡ 12 + t + p
      → t ≤ max_topic_size
      → p ≤ max_message_size
      → get_u32 (drop start r.buffer) ≡ t
      → get_u32 (drop (start + 4) r.buffer) ≡ p
      → start + total ≤ r.count
      → RoundIsValid (after_parse start total r (try_parse_message r start total))
  after_parse-total start total t p r v e ht hp et ep fits =
      after_parse-IsValid start total r (try_parse_message r start total) v fits (
        rw e (
          try_parse_message-ne-panic r start t p (rw e at fits) (omega (arith, v.count_le, v.size))
            ht hp et ep))

module _ {S : Type 0} (read : ReadFn S) (lawful : IsReader read) where
  -- `readMore` keeps the positions within the buffer.
  pub read_more-IsValid : (r : Reader S) → IsValid r → IsValid (read_more read r).1
  unfolding read_more
  read_more-IsValid r v =
      accept-IsValid (shift r) got.0 got.1 got.2 (shift-IsValid r v) (lawful s n).0 (lawful s n).1
    where
      s : S
      s = (shift r).reader

      n : ℕ
      n = length (shift r).buffer - (shift r).count

      got : List ℕ × Option Error × S
      got = read s n

  candidate-IsValid :
      (start t p : ℕ) (r : Reader S)
      → IsValid r
      → t ≤ max_topic_size
      → p ≤ max_message_size
      → get_u32 (drop start r.buffer) ≡ t
      → get_u32 (drop (start + 4) r.buffer) ≡ p
      → RoundIsValid (candidate read start (u32 (8 + t + p + 4)) r)
  unfolding candidate
  candidate-IsValid start t p r v ht hp et ep =
      elim (Bool-cases (leb (start + u32 (8 + t + p + 4)) r.count)) [
        | inl whole ↦ rw whole (
            after_parse-total start (u32 (8 + t + p + 4)) t p r v (omega arith) ht hp et ep
              (leb→le _ _ whole))
        | inr partial ↦ rw partial (
            after_partial-IsValid start (u32 (8 + t + p + 4)) (read_more read r).0
              (read_more read r).1 (read_more-IsValid r v))
      ]

  scan_at-IsValid : (start : ℕ) (r : Reader S) → IsValid r → RoundIsValid (scan_at read start r)
  unfolding scan_at
  scan_at-IsValid start r v = elim (Bool-cases (leb t max_topic_size)) [
    | inr long ↦ rw long v
    | inl ht ↦ elim (Bool-cases (leb p max_message_size)) [
      | inr long ↦ rw (ht, long) v
      | inl hp ↦
          rw (ht, hp)
            (candidate-IsValid start t p r v (leb→le t max_topic_size ht)
              (leb→le p max_message_size hp) refl refl)
    ]
  ]
    where
      t : ℕ
      t = get_u32 (drop start r.buffer)

      p : ℕ
      p = get_u32 (drop (start + 4) r.buffer)

  after_scan-IsValid :
      (start : ℕ) (r : Reader S) → IsValid r → RoundIsValid (after_scan read start r)
  unfolding after_scan
  after_scan-IsValid start r v = elim (Bool-cases (leb r.count (start + 8))) [
    | inr more ↦ rw more v
    | inl all ↦ rw all (
        after_refill-IsValid (read_more read back).0 (read_more read back).1 (
          read_more-IsValid back (record {
            size = v.size;
            bytes = v.bytes;
            pos_le = omega arith;
            count_le = v.count_le;
          })))
  ]
    where
      back : Reader S
      back = record r { pos = r.count - 8 }

  -- Every round keeps the positions within the buffer, and none panics.
  pub read_round-IsValid :
      (c : Control) (r : Reader S) → IsValid r → RoundIsValid (read_round read c r)
  unfolding read_round
  read_round-IsValid outer r v = elim (Bool-cases (ltb r.count (r.pos + 8))) [
    | inl short ↦
        rw short
          (after_header-IsValid (read_more read r).0 (read_more read r).1 (read_more-IsValid r v))
    | inr enough ↦ rw enough v
  ]
  read_round-IsValid (scan start) r v = elim (Bool-cases (leb (start + 8) r.count)) [
    | inl inside ↦ rw inside (scan_at-IsValid start r v)
    | inr past ↦ rw past (after_scan-IsValid start r v)
  ]
