-- ===== src/Reader/Chunks.antt =====
-- `ReadMessage` of lib/go/qdp.go puts a message together from the pieces in which it arrives.
use qdp.Base.{
  ℕ, zero, suc, ◌+◌, ◌-◌, ◌/◌, ◌≤◌, ◌<◌, ◌≡◌, refl, sym, ap, ◌∙◌, ltb, List, [], ◌∷◌, ◌++◌, arith,
  none, Bool-cases, inl, inr, length, take, drop, length-append, lt→ltb, gt→leb, le→leb,
}
use qdp.Base.Bytes.{slice}
use qdp.Message.{overwrite}
use qdp.Reader.{
  Reader, ReadFn, buffer_size, outer, scan, next, shift, accept, read_more, after_header,
  after_refill, after_scan, read_round,
}
use qdp.Reader.Bounds.{length-overwrite}

abbrev pub flatten : List (List ℕ) → List ℕ
flatten [] = []
flatten (c ∷ cs) = c ++ flatten cs

-- The io.Reader gives the chunks one by one, whole where there is room.
pub data Feeds {S : Type 0} (read : ReadFn S) : S → List (List ℕ) → Type 0 where
  fed : {s : S} → Feeds read s []
  feed :
      {s s' : S} {c : List ℕ} {cs : List (List ℕ)}
      → 0 < length c
      → ((n : ℕ) → length c ≤ n → read s n ≡ (c, none, s'))
      → Feeds read s' cs
      → Feeds read s (c ∷ cs)

-- Writing back what is there changes nothing.
pub overwrite_self : (buf : List ℕ) (n : ℕ) → overwrite buf 0 (take n buf) ≡ buf
unfolding overwrite
overwrite_self [] zero = refl
overwrite_self [] (suc n) = refl
overwrite_self (x ∷ buf) zero = refl
overwrite_self (x ∷ buf) (suc n) = ap (◌∷◌ x) (overwrite_self buf n)

-- What is written joins what stands before it.
pub take-overwrite :
    (buf src : List ℕ) (offset n : ℕ)
    → offset + length src ≡ n
    → n ≤ length buf
    → take n (overwrite buf offset src) ≡ take offset buf ++ src
unfolding overwrite
take-overwrite [] [] zero zero h k = refl
take-overwrite [] (s ∷ src) zero zero h k = absurd (omega arith)
take-overwrite [] src (suc offset) zero h k = absurd (omega arith)
take-overwrite [] src offset (suc n) h k = absurd (omega arith)
take-overwrite (x ∷ buf) [] zero zero h k = refl
take-overwrite (x ∷ buf) [] zero (suc n) h k = absurd (omega arith)
take-overwrite (x ∷ buf) (s ∷ src) zero zero h k = absurd (omega arith)
take-overwrite (x ∷ buf) (s ∷ src) zero (suc n) h k =
    ap (◌∷◌ s) (take-overwrite buf src 0 n (omega arith) (omega arith))
take-overwrite (x ∷ buf) src (suc offset) zero h k = absurd (omega arith)
take-overwrite (x ∷ buf) src (suc offset) (suc n) h k =
    ap (◌∷◌ x) (take-overwrite buf src offset n (omega arith) (omega arith))

-- A reader that has read `got` since it was made, and has returned nothing.
pub record IsFresh {S : Type 0} (got : List ℕ) (r : Reader S) : Type 0 where
  pub size : length r.buffer ≡ buffer_size
  pub at_start : r.pos ≡ 0
  pub held : r.count ≡ length got
  pub front : take (length got) r.buffer ≡ got

module _ {S : Type 0} (got : List ℕ) (r : Reader S) (f : IsFresh got r) where
  -- The shift to the beginning moves nothing.
  pub shift-fresh : shift r ≡ r
  unfolding shift
  shift-fresh = elim (Bool-cases (ltb (length r.buffer / 2) r.count)) [
    | inr half ↦ rw half
    | inl full ↦ rw full same
  ]
    where
      unmoved : r.count - r.pos ≡ r.count
      unmoved = omega (arith, f.at_start)

      held_part : slice r.buffer r.pos r.count ≡ take (r.count - r.pos) r.buffer
      held_part = ap (λ k. take (r.count - r.pos) (drop k r.buffer)) f.at_start

      same_buffer : overwrite r.buffer 0 (slice r.buffer r.pos r.count) ≡ r.buffer
      same_buffer = ap (overwrite r.buffer 0) held_part ∙ overwrite_self r.buffer (r.count - r.pos)

      same :
          ◌≡◌ {A = Reader S}
            (record r {
              buffer = overwrite r.buffer 0 (slice r.buffer r.pos r.count);
              pos = 0;
              count = r.count - r.pos;
            })
            r
      same = λ i. record {
        reader = r.reader;
        buffer = same_buffer i;
        pos = sym f.at_start i;
        count = unmoved i;
      }

-- The reader after a chunk.
abbrev pub with_chunk : {S : Type 0} → List ℕ → S → Reader S → Reader S
with_chunk c s r = record r {
  reader = s;
  buffer = overwrite r.buffer r.count c;
  count = r.count + length c;
}

module _ {S : Type 0} (read : ReadFn S) (got c : List ℕ) (s' : S) (r : Reader S)
    (f : IsFresh got r) where
  pub with_chunk-IsFresh :
      length got + length c ≤ buffer_size → IsFresh (got ++ c) (with_chunk c s' r)
  with_chunk-IsFresh room = record {
    size = length-overwrite r.buffer r.count c ∙ f.size;
    at_start = f.at_start;
    held = omega (arith, f.held, length-append got c);
    front =
        take-overwrite r.buffer c r.count (length (got ++ c))
          (omega (arith, f.held, length-append got c)) (omega (arith, length-append got c, f.size))
        ∙ ap (λ k. take k r.buffer ++ c) f.held
        ∙ ap (λ x. x ++ c) f.front;
  }

  pub read_more-fresh :
      0 < length c
      → ((n : ℕ) → length c ≤ n → read r.reader n ≡ (c, none, s'))
      → length got + length c ≤ buffer_size
      → read_more read r ≡ (none, with_chunk c s' r)
  unfolding read_more accept
  read_more-fresh filled gives room = rw (
    shift-fresh got r f,
    gives (length r.buffer - r.count) (omega (arith, f.size, f.held, room)),
    lt→ltb 0 (length c) filled,
  )

  -- The rounds that call the io.Reader.
  module _ (more : read_more read r ≡ (none, with_chunk c s' r)) where
    pub outer-short : length got < 8 → read_round read outer r ≡ next (scan 0) (with_chunk c s' r)
    unfolding read_round after_header
    outer-short short =
        rw (lt→ltb r.count (r.pos + 8) (omega (arith, f.held, f.at_start, short)), more)
          (ap (λ k. next (scan k) (with_chunk c s' r)) f.at_start)

    pub scan-short : length got < 8 → read_round read (scan 0) r ≡ next outer (with_chunk c s' r)
    unfolding read_round after_scan after_refill
    scan-short short = rw (
      gt→leb 8 r.count (omega (arith, f.held, short)),
      le→leb r.count 8 (omega (arith, f.held, short)),
      back,
      more,
    )
      where
        start : r.count - 8 ≡ r.pos
        start = omega (arith, f.held, f.at_start, short)

        back : ◌≡◌ {A = Reader S} (record r { pos = r.count - 8 }) r
        back = ap (λ k. record r { pos = k }) start
