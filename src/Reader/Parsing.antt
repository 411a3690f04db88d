-- ===== src/Reader/Parsing.antt =====
-- `tryParseMessage` of lib/go/qdp.go, on a slice whose header gives its length.
use qdp.Base.{
  ℕ, zero, suc, ◌+◌, ◌-◌, ◌≤◌, ◌≡◌, ◌≢◌, refl, sym, ap, ap₂, ◌∙◌, ◌==◌, List, [], ◌∷◌, ◌++◌, Bool,
  true, append_assoc, arith, length, take, drop, le→leb, ==→eq, eq→==, Bool-cases, inl, inr,
  drop-drop,
}
use qdp.Base.Bytes.{IsBytes, get_u32, slice, put_u32, get_u32-put_u32}
use qdp.Result.{ok, panic, ◌>>◌, guard, crc_mismatch}
use qdp.Crc.{calculate_crc32}
use qdp.Message.{Message, u32, get_u32_of}
use qdp.Message.Frame.{covered, frame, IsBytesMessage, length-covered, crc-covered-IsU32, slice-fit}
use qdp.Message.Inversion.{length-slice, slice-IsBytes, IsFrameOf, IsFrameOf-intro, IsFrameOf-frame}
use qdp.Message.Faults.{slice_at-in}
use qdp.Reader.{
  Reader, check_crc, message_fields, try_parse_message, max_topic_size, max_message_size,
}

Result-ok-injective : {a b : Message} → ok a ≡ ok b → a ≡ b
Result-ok-injective e = cc

-- The sizes that the reader lets through.
abbrev pub IsSmall : Message → Type 0
IsSmall m = (length m.topic ≤ max_topic_size) × (length m.payload ≤ max_message_size)

-- The comparison that `check_crc` makes.
abbrev pub crc_test : List ℕ → ℕ → Bool
crc_test d total = get_u32 (slice d (total - 4) total) == calculate_crc32 (slice d 0 (total - 4))

check_crc-test :
    (d : List ℕ) (total : ℕ)
    → length d ≡ total
    → 12 ≤ total
    → check_crc d total ≡ guard (crc_test d total) crc_mismatch
unfolding check_crc get_u32_of
check_crc-test d total size long = rw (
  le→leb 4 total (omega arith),
  size,
  slice_at-in d (total - 4) total (omega arith) (omega arith),
  le→leb 4 (length (slice d (total - 4) total))
      (omega (arith, length-slice d (total - 4) total (omega arith) (omega arith))),
  slice_at-in d 0 (total - 4) (omega arith) (omega arith),
)

abbrev pub fields : List ℕ → ℕ → ℕ → Message
fields d t p = record { topic = slice d 8 (8 + t); payload = slice d (8 + t) (8 + t + p) }

module _ (d : List ℕ) (t p : ℕ) (size : length d ≡ 12 + t + p) (small_t : t ≤ 64)
    (small_p : p ≤ 1024) where
  message_fields-fields :
      get_u32 (slice d 0 4) ≡ t
      → get_u32 (slice d 4 8) ≡ p
      → message_fields d (12 + t + p) ≡ ok (fields d t p)
  unfolding message_fields get_u32_of
  message_fields-fields et ep = rw (
    slice_at-in d 0 4 (omega arith) (omega (arith, size)),
    le→leb 4 (length (slice d 0 4)) (omega (arith, first)),
    slice_at-in d 4 8 (omega arith) (omega (arith, size)),
    le→leb 4 (length (slice d 4 8)) (omega (arith, second)),
    et,
    ep,
    le→leb t 64 small_t,
    le→leb p 1024 small_p,
    topic_end,
    slice_at-in d 8 (8 + t) (omega arith) (omega (arith, size)),
    body_end,
    slice_at-in d (8 + t) (8 + t + p) (omega arith) (omega (arith, size)),
  )
    where
      first : length (slice d 0 4) ≡ 4 - 0
      first = length-slice d 0 4 (omega arith) (omega (arith, size))

      second : length (slice d 4 8) ≡ 8 - 4
      second = length-slice d 4 8 (omega arith) (omega (arith, size))

      topic_end : u32 (8 + t) ≡ 8 + t
      topic_end = omega (arith, small_t)

      body_end : 12 + t + p - 4 ≡ 8 + t + p
      body_end = omega arith

pub get_u32-take : (n : ℕ) (xs : List ℕ) → 4 ≤ n → get_u32 (take n xs) ≡ get_u32 xs
get_u32-take n [] h = take-nil n
  where
    take-nil : (k : ℕ) → get_u32 (take k []) ≡ 0
    take-nil zero = refl
    take-nil (suc k) = refl
get_u32-take (suc (suc (suc (suc n)))) (a ∷ []) h = refl
get_u32-take (suc (suc (suc (suc n)))) (a ∷ b ∷ []) h = refl
get_u32-take (suc (suc (suc (suc n)))) (a ∷ b ∷ c ∷ []) h = refl
get_u32-take (suc (suc (suc (suc n)))) (a ∷ b ∷ c ∷ e ∷ xs) h = refl
get_u32-take (suc (suc (suc zero))) (a ∷ xs) h = absurd (omega arith)
get_u32-take (suc (suc zero)) (a ∷ xs) h = absurd (omega arith)
get_u32-take (suc zero) (a ∷ xs) h = absurd (omega arith)
get_u32-take zero (a ∷ xs) h = absurd (omega arith)

pub drop-take : (m n k : ℕ) (xs : List ℕ) → m + n ≡ k → drop m (take k xs) ≡ take n (drop m xs)
drop-take zero n k xs h = let e : n ≡ k = omega arith in rw e
drop-take (suc m) n zero xs h = absurd (omega arith)
drop-take (suc m) zero (suc k) [] h = refl
drop-take (suc m) (suc n) (suc k) [] h = refl
drop-take (suc m) n (suc k) (x ∷ xs) h = drop-take m n k xs (omega arith)

module _ {S : Type 0} (r : Reader S) (start t p : ℕ) (fits : start + (12 + t + p) ≤ r.count)
    (room : r.count ≤ length r.buffer) (small_t : t ≤ 64) (small_p : p ≤ 1024)
    (topic_len : get_u32 (drop start r.buffer) ≡ t)
    (payload_len : get_u32 (drop (start + 4) r.buffer) ≡ p) where
  -- The bytes that the header speaks of.
  abbrev pub found : List ℕ
  found = slice r.buffer start (start + (12 + t + p))

  length-found : length found ≡ 12 + t + p
  length-found =
      length-slice r.buffer start (start + (12 + t + p)) (omega arith) (omega (arith, fits, room))
      ∙ omega arith

  found-take : found ≡ take (12 + t + p) (drop start r.buffer)
  found-take =
      let e : start + (12 + t + p) - start ≡ 12 + t + p = omega arith in
      ap (λ k. take k (drop start r.buffer)) e

  found-topic_len : get_u32 (slice found 0 4) ≡ t
  found-topic_len =
      get_u32-take 4 found (omega arith)
      ∙ ap get_u32 found-take
      ∙ get_u32-take (12 + t + p) (drop start r.buffer) (omega arith)
      ∙ topic_len

  found-payload_len : get_u32 (slice found 4 8) ≡ p
  found-payload_len =
      get_u32-take 4 (drop 4 found) (omega arith)
      ∙ ap (λ d. get_u32 (drop 4 d)) found-take
      ∙ ap get_u32 (drop-take 4 (8 + t + p) (12 + t + p) (drop start r.buffer) (omega arith))
      ∙ get_u32-take (8 + t + p) (drop 4 (drop start r.buffer)) (omega arith)
      ∙ ap get_u32 (drop-drop 4 start (start + 4) r.buffer (omega arith))
      ∙ payload_len

  -- With the lengths of the header within their limits and the message in the buffer, what is left
  -- to decide is the checksum.
  pub try_parse_message-test :
      try_parse_message r start (12 + t + p)
      ≡ (guard (crc_test found (12 + t + p)) crc_mismatch >> ok (fields found t p))
  unfolding try_parse_message
  try_parse_message-test =
      rw
        (
          le→leb (start + (12 + t + p)) r.count fits,
          slice_at-in r.buffer start (start + (12 + t + p)) (omega arith)
              (omega (arith, fits, room)),
        )
        (rw (
          check_crc-test found (12 + t + p) length-found (omega arith),
          message_fields-fields found t p length-found small_t small_p found-topic_len
              found-payload_len,
        ))

  pub try_parse_message-ne-panic : try_parse_message r start (12 + t + p) ≢ panic
  try_parse_message-ne-panic e = elim (Bool-cases (crc_test found (12 + t + p))) [
    | inl good ↦ cc (rw good at (sym try_parse_message-test ∙ e))
    | inr bad ↦ cc (rw bad at (sym try_parse_message-test ∙ e))
  ]

  -- A message that is parsed is one whose frame stands in the buffer, and is within the limits.
  pub try_parse_message-frame_eq :
      (m : Message)
      → IsBytes r.buffer
      → try_parse_message r start (12 + t + p) ≡ ok m
      → (slice r.buffer start (start + (12 + t + p)) ≡ frame m) × IsSmall m
  try_parse_message-frame_eq m bytes e = elim (Bool-cases (crc_test found (12 + t + p))) [
    | inr bad ↦ absurd (cc (rw bad at (sym try_parse_message-test ∙ e)))
    | inl good ↦ is_frame good (Result-ok-injective (rw good at (sym try_parse_message-test ∙ e)))
  ]
    where
      is_frame :
          crc_test found (12 + t + p) ≡ true
          → fields found t p ≡ m
          → (slice r.buffer start (start + (12 + t + p)) ≡ frame m) × IsSmall m
      is_frame good e' = (
        IsFrameOf-frame found m (slice-IsBytes r.buffer start (start + (12 + t + p)) bytes) v,
        (
          omega (arith, v.topic_len, found-topic_len),
          omega (arith, v.payload_len, found-payload_len),
        ),
      )
        where
          end : 12 + t + p - 4 ≡ 8 + t + p
          end = omega arith

          crc :
              get_u32 (slice found (8 + t + p) (length found))
              ≡ calculate_crc32 (slice found 0 (8 + t + p))
          crc =
              ap₂ (λ a b. get_u32 (slice found a b)) (sym end) length-found
              ∙ ==→eq _ _ good
              ∙ ap (λ k. calculate_crc32 (slice found 0 k)) end

          v : IsFrameOf found m
          v =
              IsFrameOf-intro found m t p found-topic_len found-payload_len (sym length-found)
                (ap (λ x. x.topic) (sym e')) (ap (λ x. x.payload) (sym e')) crc

  -- A message within the limits whose frame stands in the buffer is parsed.
  pub try_parse_message-frame :
      (m : Message)
      → IsBytesMessage m
      → length m.topic ≡ t
      → length m.payload ≡ p
      → slice r.buffer start (start + (12 + t + p)) ≡ frame m
      → try_parse_message r start (12 + t + p) ≡ ok m
  try_parse_message-frame m bytes et ep e =
      try_parse_message-test ∙ rw crc_ok (ap ok (ap₂ message topic payload))
    where
      message : List ℕ → List ℕ → Message
      message a b = record { topic = a; payload = b }

      crc : List ℕ
      crc = put_u32 (calculate_crc32 (covered m))

      header : List ℕ
      header = put_u32 (length m.topic) ++ put_u32 (length m.payload)

      apart : frame m ≡ header ++ (m.topic ++ (m.payload ++ crc))
      apart = ap (λ k. header ++ k) (append_assoc m.topic m.payload crc)

      end : 12 + t + p - 4 ≡ 8 + t + p
      end = omega arith

      size : 8 + t + p ≡ length (covered m)
      size = omega (arith, length-covered m, et, ep)

      crc_ok : crc_test found (12 + t + p) ≡ true
      crc_ok = eq→== _ _ (
          ap₂ (λ d k. get_u32 (slice d k (12 + t + p))) e end
          ∙ ap get_u32
              (slice-fit (covered m) crc [] (8 + t + p) (12 + t + p) (sym size) (omega arith))
          ∙ get_u32-put_u32 (calculate_crc32 (covered m)) [] (crc-covered-IsU32 m bytes)
          ∙ sym (
              ap₂ (λ d k. calculate_crc32 (slice d 0 k)) e end
              ∙ ap calculate_crc32
                  (slice-fit [] (covered m) crc 0 (8 + t + p) refl (omega (arith, size)))))

      topic : slice found 8 (8 + t) ≡ m.topic
      topic =
          ap (λ d. slice d 8 (8 + t)) (e ∙ apart)
          ∙ slice-fit header m.topic (m.payload ++ crc) 8 (8 + t) refl (omega (arith, et))

      payload : slice found (8 + t) (8 + t + p) ≡ m.payload
      payload =
          ap (λ d. slice d (8 + t) (8 + t + p)) (e ∙ apart)
          ∙ slice-fit (header ++ m.topic) m.payload crc (8 + t) (8 + t + p) (omega (arith, et))
              (omega (arith, ep))
