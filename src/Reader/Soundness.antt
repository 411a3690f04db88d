-- ===== src/Reader/Soundness.antt =====
-- What `ReadMessage` of lib/go/qdp.go returns.
use qdp.Base.{
  some-eq-some, ℕ, zero, suc, ◌+◌, ◌-◌, ◌≤◌, subst, ◌≡◌, refl, sym, ap, ◌∙◌, ltb, leb, arith,
  Option, none, some, length, drop, leb→le, Bool-cases, inl, inr,
}
use qdp.Base.Bytes.{get_u32, slice}
use qdp.Result.{Error, Result, ok, err, panic}
use qdp.Message.{Message, u32}
use qdp.Message.Frame.{frame, frame_size, length-frame}
use qdp.Message.Inversion.{length-slice}
use qdp.Reader.{
  Reader, ReadFn, Control, outer, scan, Round, done, next, read_more, after_header, after_parse,
  after_partial, candidate, scan_at, after_refill, after_scan, read_round, read_rounds,
  read_message, try_parse_message, max_topic_size, max_message_size,
}
use qdp.Reader.Rounds.{Round-cases, read_rounds-done, read_rounds-next}
use qdp.Reader.Parsing.{IsSmall, try_parse_message-frame_eq}
use qdp.Reader.Bounds.{IsValid, IsReader, RoundIsValid, read_round-IsValid}

-- The frame of the message stands in the buffer, and the reader goes on right behind it.
pub record IsFound {S : Type 0} (m : Message) (r : Reader S) : Type 0 where
  pub start : ℕ
  pub ends : start + frame_size m ≡ r.pos
  pub bytes : slice r.buffer start r.pos ≡ frame m
  pub small : IsSmall m

module _ {S : Type 0} where
  -- A round that ends with a message has found its frame.
  abbrev RoundIsSound : Round S → Type 0
  RoundIsSound (done (ok m) r) = IsFound m r
  RoundIsSound (done (err e) r) = Unit
  RoundIsSound (done panic r) = Unit
  RoundIsSound (next c r) = Unit

  after_header-IsSound : (e : Option Error) (r : Reader S) → RoundIsSound (after_header (e, r))
  unfolding after_header
  after_header-IsSound none r = tt
  after_header-IsSound (some e) r = elim (Bool-cases (ltb r.count (r.pos + 8))) [
    | inl short ↦ rw short tt
    | inr enough ↦ rw enough tt
  ]

  after_partial-IsSound :
      (start total : ℕ) (e : Option Error) (r : Reader S)
      → RoundIsSound (after_partial start total (e, r))
  unfolding after_partial
  after_partial-IsSound start total none r = tt
  after_partial-IsSound start total (some e) r = elim (Bool-cases (ltb r.count (start + total))) [
    | inl short ↦ rw short tt
    | inr enough ↦ rw enough tt
  ]

  after_refill-IsSound : (e : Option Error) (r : Reader S) → RoundIsSound (after_refill (e, r))
  unfolding after_refill
  after_refill-IsSound none r = tt
  after_refill-IsSound (some e) r = tt

  after_parse-IsSound :
      (start total : ℕ) (r : Reader S) (result : Result Message)
      → ((m : Message)
          → result ≡ ok m
          → (slice r.buffer start (start + total) ≡ frame m) × (total ≡ frame_size m) × IsSmall m)
      → RoundIsSound (after_parse start total r result)
  unfolding after_parse
  after_parse-IsSound start total r (ok m) h = record {
    start = start;
    ends = omega (arith, (h m refl).1);
    bytes = (h m refl).0;
    small = (h m refl).2;
  }
  after_parse-IsSound start total r (err e) h = tt
  after_parse-IsSound start total r panic h = tt

  -- The frame of a parsed message is as long as the header says.
  parsed-frame :
      (start t p total : ℕ) (r : Reader S)
      → IsValid r
      → total ≡ 12 + t + p
      → t ≤ max_topic_size
      → p ≤ max_message_size
      → get_u32 (drop start r.buffer) ≡ t
      → get_u32 (drop (start + 4) r.buffer) ≡ p
      → start + total ≤ r.count
      → (m : Message) → try_parse_message r start total ≡ ok m
      → (slice r.buffer start (start + total) ≡ frame m) × (total ≡ frame_size m) × IsSmall m
  parsed-frame start t p total r v e ht hp et ep fits m parsed = (rw e found.0, size, found.1)
    where
      room : r.count ≤ length r.buffer
      room = omega (arith, v.count_le, v.size)

      found : (slice r.buffer start (start + (12 + t + p)) ≡ frame m) × IsSmall m
      found =
          try_parse_message-frame_eq r start t p (rw e at fits) room ht hp et ep m v.bytes
            (rw e at parsed)

      size : total ≡ frame_size m
      size = omega (
        arith,
        e,
        ap length found.0,
        length-frame m,
        length-slice r.buffer start (start + (12 + t + p)) (omega arith)
            (omega (arith, e, fits, room)),
      )

module _ {S : Type 0} where
  done-IsValid : (result : Result Message) (r : Reader S) → RoundIsValid (done result r) → IsValid r
  done-IsValid result r w = w.0

  -- What a result of the method says of the reader that it leaves.
  abbrev pub ResultIsSound : Result Message → Reader S → Type 0
  ResultIsSound (ok m) r = IsFound m r
  ResultIsSound (err e) r = Unit
  ResultIsSound panic r = ⊥

  done-IsSound :
      (result : Result Message) (r : Reader S)
      → RoundIsSound (done result r)
      → RoundIsValid (done result r)
      → ResultIsSound result r
  done-IsSound (ok m) r s v = s
  done-IsSound (err e) r s v = tt
  done-IsSound panic r s v = v.1 refl

module _ {S : Type 0} (read : ReadFn S) where
  candidate-IsSound :
      (start t p : ℕ) (r : Reader S)
      → IsValid r
      → t ≤ max_topic_size
      → p ≤ max_message_size
      → get_u32 (drop start r.buffer) ≡ t
      → get_u32 (drop (start + 4) r.buffer) ≡ p
      → RoundIsSound (candidate read start (u32 (8 + t + p + 4)) r)
  unfolding candidate
  candidate-IsSound start t p r v ht hp et ep = elim (Bool-cases (leb (start + total) r.count)) [
    | inl whole ↦ rw whole (
        after_parse-IsSound start total r (try_parse_message r start total)
          (parsed-frame start t p total r v (omega arith) ht hp et ep (leb→le _ _ whole)))
    | inr partial ↦
        rw partial (after_partial-IsSound start total (read_more read r).0 (read_more read r).1)
  ]
    where
      total : ℕ
      total = u32 (8 + t + p + 4)

  scan_at-IsSound : (start : ℕ) (r : Reader S) → IsValid r → RoundIsSound (scan_at read start r)
  unfolding scan_at
  scan_at-IsSound start r v = elim (Bool-cases (leb t max_topic_size)) [
    | inr long ↦ rw long tt
    | inl ht ↦ elim (Bool-cases (leb p max_message_size)) [
      | inr long ↦ rw (ht, long) tt
      | inl hp ↦
          rw (ht, hp)
            (candidate-IsSound start t p r v (leb→le t max_topic_size ht)
              (leb→le p max_message_size hp) refl refl)
    ]
  ]
    where
      t : ℕ
      t = get_u32 (drop start r.buffer)

      p : ℕ
      p = get_u32 (drop (start + 4) r.buffer)

  after_scan-IsSound : (start : ℕ) (r : Reader S) → RoundIsSound (after_scan read start r)
  unfolding after_scan
  after_scan-IsSound start r = elim (Bool-cases (leb r.count (start + 8))) [
    | inr more ↦ rw more tt
    | inl all ↦ rw all (after_refill-IsSound (read_more read back).0 (read_more read back).1)
  ]
    where
      back : Reader S
      back = record r { pos = r.count - 8 }

  read_round-IsSound : (c : Control) (r : Reader S) → IsValid r → RoundIsSound (read_round read c r)
  unfolding read_round
  read_round-IsSound outer r v = elim (Bool-cases (ltb r.count (r.pos + 8))) [
    | inl short ↦ rw short (after_header-IsSound (read_more read r).0 (read_more read r).1)
    | inr enough ↦ rw enough tt
  ]
  read_round-IsSound (scan start) r v = elim (Bool-cases (leb (start + 8) r.count)) [
    | inl inside ↦ rw inside (scan_at-IsSound start r v)
    | inr past ↦ rw past (after_scan-IsSound start r)
  ]

  pub read_rounds-IsSound :
      IsReader read
      → (fuel : ℕ) (c : Control) (r : Reader S) {result : Result Message} {r' : Reader S}
      → IsValid r
      → read_rounds read fuel c r ≡ some (result, r')
      → IsValid r' × ResultIsSound result r'
  unfolding read_rounds
  read_rounds-IsSound lawful zero c r v e = cc
  read_rounds-IsSound lawful (suc fuel) c r {result} {r'} v e =
      elim (Round-cases (read_round read c r)) [
        | inl (result2, r2, h) ↦
            ended result2 r2 (rw h at (read_round-IsSound c r v))
              (rw h at (read_round-IsValid read lawful c r v))
              (sym (read_rounds-done read fuel c r r2 result2 h) ∙ e)
        | inr (c2, r2, h) ↦
            read_rounds-IsSound lawful fuel c2 r2 (rw h at (read_round-IsValid read lawful c r v))
              (sym (read_rounds-next read fuel c c2 r r2 h) ∙ e)
      ]
    where
      ended :
          (result2 : Result Message) (r2 : Reader S)
          → RoundIsSound (done result2 r2)
          → RoundIsValid (done result2 r2)
          → ◌≡◌ {A = Option (Result Message × Reader S)} (some (result2, r2)) (some (result, r'))
          → IsValid r' × ResultIsSound result r'
      ended result2 r2 s w same =
          subst (λ (x : Result Message × Reader S). IsValid x.1 × ResultIsSound x.0 x.1)
            (some-eq-some same) ((done-IsValid result2 r2 w), done-IsSound result2 r2 s w)

  -- Whatever `ReadMessage` returns, within any number of rounds, is no panic and leaves the positions
  -- within the buffer; and a message that it returns is within the limits of sizes, its frame stands
  -- in the buffer, and the reader goes on right behind that frame.
  pub read_message-IsSound :
      IsReader read
      → (fuel : ℕ) (r : Reader S) (result : Result Message) (r' : Reader S) → IsValid r
      → read_message read fuel r ≡ some (result, r')
      → IsValid r' × ResultIsSound result r'
  unfolding read_message
  read_message-IsSound lawful fuel r result r' v e = read_rounds-IsSound lawful fuel outer r v e
