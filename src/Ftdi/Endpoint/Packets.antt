-- ===== src/Ftdi/Endpoint/Packets.antt =====
-- lib/go/transport_ftdi.go: what `copy_out` and `after_transfer` make of the buffer and of a packet.
use qdp.Base.{
  ℕ, zero, suc, ◌+◌, ◌-◌, ◌≤◌, ◌<◌, ◌≡◌, ◌≢◌, refl, sym, ap, ap₂, subst, ◌∙◌, arith, ltb,
  Bool-cases, ltb→lt, ltb→ge, List, [], ◌∷◌, ◌++◌, some, take, drop, length, append-nil,
  length-take, take-append-drop, drop-drop, inl, inr, le→leb,
}
use qdp.Base.Bytes.{slice}
use qdp.Result.{Result, ok, err, panic}
use qdp.Message.{overwrite, slice_at}
use qdp.Reader.Bounds.{length-overwrite}
use qdp.Reader.Chunks.{take-overwrite}
use qdp.Ftdi.Endpoint.{
  Transfer, received, context_error, usb_error, EndpointReader, contents, ready, advance, copy_out,
  after_transfer,
}

-- No packet is longer than the buffer.
abbrev pub Fits : Transfer → Type 0
Fits (received bs) = length bs ≤ 64
Fits (context_error e) = Unit {0}
Fits (usb_error e) = Unit {0}

abbrev pub IsLawful : (ℕ → Transfer) → Type 0
IsLawful device = (i : ℕ) → Fits (device i)

-- The data of a packet.
abbrev pub payload : Transfer → List ℕ
payload (received bs) = drop 2 bs
payload (context_error e) = []
payload (usb_error e) = []

-- The data of the packets from number `i` on.
abbrev pub payloads : (ℕ → Transfer) → ℕ → ℕ → List ℕ
payloads device i zero = []
payloads device i (suc n) = payload (device i) ++ payloads device (i + 1) n

-- The data in the buffer that no Read has given yet.
abbrev pub pending : EndpointReader → List ℕ
pending r = slice (contents r.buf) (2 + r.pos) (2 + r.size)

pub record IsValid (r : EndpointReader) : Type 0 where
  pub within : r.pos ≤ r.size
  pub held : r.size ≤ 62
  pub full : length (ready r.buf) ≡ 64
  pub filled : r.pos < r.size → length (contents r.buf) ≡ 64

-- What a call hands over.
abbrev pub given : Result (List ℕ) → List ℕ
given (ok bs) = bs
given (err e) = []
given panic = []

take-empty : (n : ℕ) → take {A = ℕ} n [] ≡ []
take-empty zero = refl
take-empty (suc n) = refl

drop-take : (a b : ℕ) (xs : List ℕ) → drop a (take b xs) ≡ take (b - a) (drop a xs)
drop-take zero b xs = let same : b ≡ b - 0 = omega arith in ap (λ t. take t xs) same
drop-take (suc a) zero xs =
    let nothing : 0 ≡ 0 - suc a = omega arith in ap (λ t. take t (drop (suc a) xs)) nothing
drop-take (suc a) (suc b) [] = sym (take-empty (suc b - suc a))
drop-take (suc a) (suc b) (x ∷ xs) =
    let less : b - a ≡ suc b - suc a = omega arith in
    drop-take a b xs ∙ ap (λ t. take t (drop a xs)) less

-- What is behind `n` bytes of a slice is the slice from `n` bytes further on.
take-drop_further :
    (n from to : ℕ) (b : List ℕ)
    → take n (slice b from to) ++ slice b (from + n) to ≡ slice b from to
take-drop_further n from to b =
    let behind : to - (from + n) ≡ to - from - n = omega arith in
    rw
      (
        ← drop-drop n from (from + n) b (omega arith),
        behind,
        ← drop-take n (to - from) (drop from b),
      )
      (take-append-drop n (slice b from to))

slice_at-within :
    (b : List ℕ) (from to : ℕ)
    → from ≤ to
    → to ≤ length b
    → slice_at b from to ≡ ok (slice b from to)
unfolding slice_at
slice_at-within b from to low high = rw (le→leb from to low, le→leb to (length b) high)

take-length-take : (n : ℕ) (xs : List ℕ) → take (length (take n xs)) xs ≡ take n xs
take-length-take zero xs = refl
take-length-take (suc n) [] = refl
take-length-take (suc n) (x ∷ xs) = ap (λ t. x ∷ t) (take-length-take n xs)

-- A read does what it should: the reader stays valid, and what it gives, followed by what it still
-- holds, is what it held, followed by the data of the packets that it fetched.
abbrev pub Delivers :
    (ℕ → Transfer) → ℕ → EndpointReader → Result (List ℕ) × EndpointReader → Type 0
Delivers device n r (res, r') =
    IsValid r'
    × (res ≢ panic)
    × (length (given res) ≤ n)
    × ((k : ℕ) × (r'.transfers ≡ r.transfers + k)
        × (given res ++ pending r' ≡ pending r ++ payloads device r.transfers k))

copy_out-pending :
    (n : ℕ) (r : EndpointReader)
    → IsValid r
    → r.pos < r.size
    → copy_out n r
      ≡ (ok (take n (pending r)), record r { pos = r.pos + length (take n (pending r)) })
unfolding copy_out advance
copy_out-pending n r v some_left =
    let low : 2 + r.pos ≤ 2 + r.size = omega arith in
    let high : 2 + r.size ≤ length (contents r.buf) = omega (arith, v.filled some_left, v.held) in
    rw (slice_at-within (contents r.buf) (2 + r.pos) (2 + r.size) low high)

length-take_le : (n : ℕ) (xs : List ℕ) → length (take n xs) ≤ n
length-take_le n xs = omega (arith, length-take n xs)

length-pending : (r : EndpointReader) → length (pending r) ≤ r.size - r.pos
length-pending r =
    omega (arith, length-take (2 + r.size - (2 + r.pos)) (drop (2 + r.pos) (contents r.buf)))

advanced-IsValid :
    (n : ℕ) (r : EndpointReader)
    → IsValid r
    → IsValid (record r { pos = r.pos + length (take n (pending r)) })
advanced-IsValid n r v = record {
  within = omega (arith, length-take n (pending r), length-pending r, v.within);
  held = v.held;
  full = v.full;
  filled = λ h. v.filled (omega (arith, h));
}

-- What is given and what is left then is what was there.
advanced-pending :
    (n : ℕ) (r : EndpointReader)
    → take n (pending r) ++ pending (record r { pos = r.pos + length (take n (pending r)) })
      ≡ pending r
advanced-pending n r =
    let k = length (take n (pending r)) in
    let further : 2 + (r.pos + k) ≡ 2 + r.pos + k = omega arith in
    ap₂ (λ front from. front ++ slice (contents r.buf) from (2 + r.size))
      (sym (take-length-take n (pending r))) further
    ∙ take-drop_further k (2 + r.pos) (2 + r.size) (contents r.buf)

pending-empty : (r : EndpointReader) → r.size ≤ r.pos → pending r ≡ []
pending-empty r h =
    let none_left : 2 + r.size - (2 + r.pos) ≡ 0 = omega arith in
    ap (λ t. take t (drop (2 + r.pos) (contents r.buf))) none_left

-- `held` is the reader after `k` packets have been fetched.
pub copy_out-Delivers :
    (device : ℕ → Transfer) (n : ℕ) (r held : EndpointReader) (k : ℕ)
    → IsValid held
    → held.pos < held.size
    → held.transfers ≡ r.transfers + k
    → pending held ≡ pending r ++ payloads device r.transfers k
    → Delivers device n r (copy_out n held)
copy_out-Delivers device n r held k v some_left count same =
    subst (Delivers device n r) (sym (copy_out-pending n held v some_left)) (
      advanced-IsValid n held v,
      λ e. cc,
      length-take_le n (pending held),
      (k, count, advanced-pending n held ∙ same),
    )

-- The data of a packet that has arrived in the buffer.
fetched-pending :
    (r : EndpointReader) (bs : List ℕ)
    → 2 < length bs
    → length bs ≤ length (ready r.buf)
    → pending
        (record r { buf = some (overwrite (ready r.buf) 0 bs); size = length bs - 2; pos = 0 })
      ≡ drop 2 bs
unfolding contents
fetched-pending r bs long fits =
    let whole : 2 + (length bs - 2) - (2 + 0) ≡ length bs - 2 = omega arith in
    ap (λ t. take t (drop 2 (overwrite (ready r.buf) 0 bs))) whole
    ∙ sym (drop-take 2 (length bs) (overwrite (ready r.buf) 0 bs))
    ∙ ap (drop 2) (take-overwrite (ready r.buf) bs 0 (length bs) (omega arith) fits)

fetched-IsValid :
    (r : EndpointReader) (bs : List ℕ) (size : ℕ)
    → IsValid r
    → size ≤ 62
    → IsValid (record r {
      transfers = r.transfers + 1;
      buf = some (overwrite (ready r.buf) 0 bs);
      size = size;
      pos = 0;
    })
unfolding contents ready
fetched-IsValid r bs size v small = record {
  within = omega arith;
  held = small;
  full = length-overwrite (ready r.buf) 0 bs ∙ v.full;
  filled = λ _. length-overwrite (ready r.buf) 0 bs ∙ v.full;
}

failed-IsValid :
    (r : EndpointReader)
    → IsValid r
    → r.size ≤ r.pos
    → IsValid (record r { transfers = r.transfers + 1; buf = some (ready r.buf) })
unfolding contents ready
failed-IsValid r v spent = record {
  within = v.within;
  held = v.held;
  full = v.full;
  filled = λ _. v.full;
}

drop-short : (bs : List ℕ) → length bs ≤ 2 → drop 2 bs ≡ []
drop-short [] h = refl
drop-short (a ∷ []) h = refl
drop-short (a ∷ b ∷ []) h = refl
drop-short (a ∷ b ∷ c ∷ bs) h = absurd (omega arith)

one_packet :
    (device : ℕ → Transfer) (r : EndpointReader) (t : Transfer)
    → r.size ≤ r.pos
    → device r.transfers ≡ t
    → pending r ++ payloads device r.transfers 1 ≡ payload t
one_packet device r t spent e =
    ap₂ (◌++◌) (pending-empty r spent) (append-nil (payload (device r.transfers)) ∙ ap payload e)

pub after_transfer-Delivers :
    (device : ℕ → Transfer) (n : ℕ) (r : EndpointReader) (t : Transfer)
    → IsValid r
    → r.size ≤ r.pos
    → device r.transfers ≡ t
    → Fits t
    → Delivers device n r
        (after_transfer n (record r { transfers = r.transfers + 1 }) (ready r.buf) t)
unfolding after_transfer
after_transfer-Delivers device n r (received bs) v spent e fits =
    elim (Bool-cases (ltb 2 (length bs))) [
      | inl long ↦ rw long (
          copy_out-Delivers device n r
            (record r {
              transfers = r.transfers + 1;
              buf = some (overwrite (ready r.buf) 0 bs);
              size = length bs - 2;
              pos = 0;
            })
            1 (fetched-IsValid r bs (length bs - 2) v (omega (arith, fits)))
            (omega (arith, ltb→lt 2 (length bs) long)) refl
            (fetched-pending r bs (ltb→lt 2 (length bs) long) (omega (arith, fits, v.full))
              ∙ sym (one_packet device r (received bs) spent e)))
      | inr short ↦ rw short (
        fetched-IsValid r bs 0 v (omega arith),
        λ p. cc,
        omega arith,
        (
          1,
          refl,
          sym (
              one_packet device r (received bs) spent e
              ∙ drop-short bs (ltb→ge 2 (length bs) short)),
        ),
      )
    ]
after_transfer-Delivers device n r (context_error c) v spent e fits = (
  failed-IsValid r v spent,
  λ p. cc,
  omega arith,
  (
    1,
    refl,
    pending-empty (record r { buf = some (ready r.buf) }) spent
        ∙ sym (one_packet device r (context_error c) spent e),
  ),
)
after_transfer-Delivers device n r (usb_error c) v spent e fits = (
  failed-IsValid r v spent,
  λ p. cc,
  omega arith,
  (
    1,
    refl,
    pending-empty (record r { buf = some (ready r.buf) }) spent
        ∙ sym (one_packet device r (usb_error c) spent e),
  ),
)
