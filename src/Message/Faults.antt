-- ===== src/Message/Faults.antt =====
-- When `Decode` of lib/go/qdp.go panics, and which corruptions it refuses.
use qdp.Base.{
  ℕ, ◌+◌, ◌-◌, ◌^◌, ◌≤◌, ◌<◌, ◌≡◌, ◌≢◌, inl, inr, refl, sym, ap, ◌∙◌, List, [], ◌++◌, arith, ==→eq,
  eq→==, length, take, drop, length-append, take-append, drop-append, ◌==◌, leb, le→leb, leb→le,
  gt→leb, ◌&&◌, Bool-cases, ==-refl, Bool, All-append,
}
use native.Mathlib.Decide.{dec_le}
use qdp.Base.Bytes.{
  IsByte, IsBytes, IsU32, put_u32, get_u32, slice, get_u32-IsU32, get_u32-put_u32, put_u32-IsBytes,
}
use qdp.Result.{Result, ok, panic, ◌>>=◌, guard, crc_mismatch}
use qdp.Crc.{calculate_crc32}
use qdp.Crc.Detection.{calculate_crc32_detects}
use qdp.Message.{Message, u32, sub32, slice_at, get_u32_of, extract, verify_crc, decode}
use qdp.Message.Frame.{
  covered, frame, frame_size, Fits, IsBytesMessage, length-covered, length-frame, crc-covered-IsU32,
}
use qdp.Message.Inversion.{slice-IsBytes, length-slice, decode-eq-ok}

pub slice_at-in :
    (bs : List ℕ) (from to : ℕ)
    → from ≤ to
    → to ≤ length bs
    → slice_at bs from to ≡ ok (slice bs from to)
unfolding slice_at
slice_at-in bs from to h k = rw (le→leb from to h, le→leb to (length bs) k)

-- A slice whose bounds are the wrong way round panics.
slice_at-out : (bs : List ℕ) (from to : ℕ) → to < from → slice_at bs from to ≡ panic
unfolding slice_at
slice_at-out bs from to h = rw (gt→leb from to h)

-- What follows a slice panics, whether or not the slice does.
slice_at-then-panic :
    (bs : List ℕ) (from to : ℕ) (f : List ℕ → Result Message)
    → ((x : List ℕ) → f x ≡ panic)
    → (slice_at bs from to >>= f) ≡ panic
unfolding slice_at
slice_at-then-panic bs from to f h = elim (Bool-cases (leb from to && leb to (length bs))) [
  | inl inside ↦ rw inside (h _)
  | inr outside ↦ rw outside
]

-- The checks on the checksum meet no bad slice.
verify_crc-in :
    (bs : List ℕ)
    → 12 ≤ length bs
    → IsU32 (length bs)
    → verify_crc bs (length bs)
      ≡ guard
          (get_u32 (slice bs (length bs - 4) (length bs))
            == calculate_crc32 (slice bs 0 (length bs - 4)))
          crc_mismatch
unfolding verify_crc get_u32_of
verify_crc-in bs long small = rw (
  at_end,
  slice_at-in bs (length bs - 4) (length bs) (omega arith) (omega arith),
  le→leb 4 (length (slice bs (length bs - 4) (length bs)))
      (omega (arith, length-slice bs (length bs - 4) (length bs) (omega arith) (omega arith))),
  slice_at-in bs 0 (length bs - 4) (omega arith) (omega arith),
)
  where
    at_end : sub32 (length bs) 4 ≡ length bs - 4
    at_end = omega arith

-- The lengths in the header add up to a wrapped total.
abbrev pub Wraps : List ℕ → Type 0
Wraps bs = get_u32 (slice bs 0 4) + get_u32 (slice bs 4 8) + 12 ≡ length bs + 2 ^ 32

-- The last four bytes hold the checksum of those before.
abbrev pub HasCrc : List ℕ → Type 0
HasCrc bs =
    get_u32 (slice bs (length bs - 4) (length bs)) ≡ calculate_crc32 (slice bs 0 (length bs - 4))

extract-wraps :
    (bs : List ℕ) (t p : ℕ)
    → IsU32 t
    → IsU32 p
    → IsU32 (length bs)
    → 12 ≤ length bs
    → t + p + 12 ≡ length bs + 2 ^ 32
    → extract bs t (length bs) ≡ panic
unfolding extract
extract-wraps bs t p ht hp small long wraps = elim (dec_le 8 (u32 (8 + t))) [
  | no low ↦ rw (slice_at-out bs 8 (u32 (8 + t)) (omega arith))
  | yes high ↦
      slice_at-then-panic bs 8 (u32 (8 + t)) _
        (λ x. rw (slice_at-out bs (u32 (8 + t)) (sub32 (length bs) 4) (omega arith)))
]

module _ (bs : List ℕ) (bytes : IsBytes bs) (small : IsU32 (length bs)) where
  topic_len-IsU32 : IsU32 (get_u32 (slice bs 0 4))
  topic_len-IsU32 = get_u32-IsU32 (slice bs 0 4) (slice-IsBytes bs 0 4 bytes)

  payload_len-IsU32 : IsU32 (get_u32 (slice bs 4 8))
  payload_len-IsU32 = get_u32-IsU32 (slice bs 4 8) (slice-IsBytes bs 4 8 bytes)

  -- `Decode` panics on input of at least twelve bytes with a correct checksum whose header has
  -- lengths that add up to the size of the input only because the 32-bit sum wraps.
  pub decode-panics : 12 ≤ length bs → Wraps bs → HasCrc bs → decode bs ≡ panic
  unfolding decode
  decode-panics long wraps crc = rw (
    le→leb 12 (length bs) long,
    total,
    size,
    ==-refl (length bs),
    verify_crc-in bs long small,
    eq→== _ _ crc,
    extract-wraps bs (get_u32 (slice bs 0 4)) (get_u32 (slice bs 4 8)) topic_len-IsU32
        payload_len-IsU32 small long wraps,
  )
    where
      total : u32 (8 + get_u32 (slice bs 0 4) + get_u32 (slice bs 4 8) + 4) ≡ length bs
      total = omega (arith, wraps, small)

      size : u32 (length bs) ≡ length bs
      size = omega (arith, small)

  extract-in :
      (t p : ℕ)
      → 12 + t + p ≡ length bs
      → extract bs t (length bs)
        ≡ ok (record { topic = slice bs 8 (8 + t); payload = slice bs (8 + t) (8 + t + p) })
  unfolding extract
  extract-in t p e = rw (
    topic_end,
    slice_at-in bs 8 (8 + t) (omega arith) (omega arith),
    body_end,
    slice_at-in bs (8 + t) (8 + t + p) (omega arith) (omega arith),
  )
    where
      topic_end : u32 (8 + t) ≡ 8 + t
      topic_end = omega (arith, small)

      body_end : sub32 (length bs) 4 ≡ 8 + t + p
      body_end = omega (arith, small)

  -- `Decode` does not panic where the lengths of the header add up to a uint32.
  pub decode-ne-panic :
      12 + get_u32 (slice bs 0 4) + get_u32 (slice bs 4 8) < 2 ^ 32 → decode bs ≢ panic
  unfolding decode
  decode-ne-panic fits = elim (Bool-cases (leb 12 (length bs))) [
    | inr short ↦ rw short (λ e. cc)
    | inl long ↦
        rw (long, size, total)
          (elim (Bool-cases (length bs == n)) [
            | inr other ↦ rw other (λ e. cc)
            | inl same ↦
                rw
                  (
                    same,
                    ← ==→eq (length bs) n same,
                    verify_crc-in bs (leb→le 12 (length bs) long) small,
                  )
                  (elim (Bool-cases crc_test) [
                    | inr bad ↦ rw bad (λ e. cc)
                    | inl good ↦
                        rw
                          (
                            good,
                            extract-in (get_u32 (slice bs 0 4)) (get_u32 (slice bs 4 8))
                                (sym (==→eq (length bs) n same)),
                          )
                          (λ e. cc)
                  ])
          ])
  ]
    where
      crc_test : Bool
      crc_test =
          get_u32 (slice bs (length bs - 4) (length bs))
          == calculate_crc32 (slice bs 0 (length bs - 4))

      n : ℕ
      n = 12 + get_u32 (slice bs 0 4) + get_u32 (slice bs 4 8)

      total : u32 (8 + get_u32 (slice bs 0 4) + get_u32 (slice bs 4 8) + 4) ≡ n
      total = omega (arith, fits)

      size : u32 (length bs) ≡ length bs
      size = omega (arith, small)

-- Equal parts of the same length: what stands before and behind the checksum.
split-eq : (a b x y : List ℕ) → length a ≡ length b → a ++ x ≡ b ++ y → (a ≡ b) × (x ≡ y)
split-eq a b x y l e = (
  sym (take-append (length b) a x l) ∙ ap (take (length b)) e ∙ take-append (length b) b y refl,
  sym (drop-append (length b) a x l) ∙ ap (drop (length b)) e ∙ drop-append (length b) b y refl,
)

-- `Decode` gives no message at all for a frame in which a window of at most four bytes of the
-- lengths, the topic and the payload was changed, whatever the window holds.
pub decode-corrupt :
    (m : Message) (before v w after : List ℕ)
    → Fits m
    → IsBytesMessage m
    → covered m ≡ before ++ (v ++ after)
    → IsBytes before
    → IsBytes v
    → IsBytes w
    → IsBytes after
    → length v ≤ 4
    → length v ≡ length w
    → v ≢ w
    → (m' : Message)
    → decode ((before ++ (w ++ after)) ++ put_u32 (calculate_crc32 (covered m))) ≢ ok m'
decode-corrupt m before v w after fits mb split hb hv hw ha small l ne m' h =
    calculate_crc32_detects before v w after hb hv hw ha small l ne
      (ap calculate_crc32 (sym split) ∙ same_crc ∙ ap calculate_crc32 (sym parts.0))
  where
    crc : List ℕ
    crc = put_u32 (calculate_crc32 (covered m))

    changed : List ℕ
    changed = before ++ (w ++ after)

    changed-IsBytes : IsBytes changed
    changed-IsBytes = All-append IsByte before (w ++ after) hb (All-append IsByte w after hw ha)

    size : length changed ≡ 8 + length m.topic + length m.payload
    size =
        length-append before (w ++ after)
        ∙ omega (
          arith,
          length-append w after,
          length-append v after,
          length-append before (v ++ after),
          ap length split,
          length-covered m,
        )

    all-IsBytes : IsBytes (changed ++ crc)
    all-IsBytes =
        All-append IsByte changed crc changed-IsBytes
          (put_u32-IsBytes (calculate_crc32 (covered m)))

    all_size : length (changed ++ crc) ≡ frame_size m
    all_size = omega (arith, length-append changed crc, size)

    decoded : (changed ++ crc ≡ frame m') × IsBytesMessage m'
    decoded = decode-eq-ok (changed ++ crc) m' all-IsBytes (omega (arith, all_size)) h

    sizes : length changed ≡ length (covered m')
    sizes = omega (arith, all_size, size, ap length decoded.0, length-frame m', length-covered m')

    parts : (changed ≡ covered m') × (crc ≡ put_u32 (calculate_crc32 (covered m')))
    parts =
        split-eq changed (covered m') crc (put_u32 (calculate_crc32 (covered m'))) sizes decoded.0

    same_crc : calculate_crc32 (covered m) ≡ calculate_crc32 (covered m')
    same_crc =
        sym (get_u32-put_u32 (calculate_crc32 (covered m)) [] (crc-covered-IsU32 m mb))
        ∙ ap get_u32 parts.1
        ∙ get_u32-put_u32 (calculate_crc32 (covered m')) [] (crc-covered-IsU32 m' decoded.1)
