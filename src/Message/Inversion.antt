-- ===== src/Message/Inversion.antt =====
-- What `Decode` of lib/go/qdp.go accepts: the frames, and nothing else.
use qdp.Base.{
  ℕ, ◌+◌, ◌-◌, ◌≤◌, ◌≡◌, refl, sym, ap, ap₂, subst, ◌∙◌, List, [], ◌∷◌, ◌++◌, append_assoc, arith,
  ==→eq, length, take, drop, length-take, length-drop, take-append-drop, drop-drop, take-all,
  take-append, take-All, drop-All, ◌==◌, ◌/◌, ◌%◌, leb, leb→le,
}
use qdp.Base.Bytes.{IsByte, IsBytes, IsU32, put_u32, get_u32, slice, get_u32-IsU32}
use qdp.Result.{ok, guard, >>=-eq-ok, guard-eq-ok, invalid_message}
use qdp.Crc.{calculate_crc32}
use qdp.Message.{Message, u32, sub32, slice_at, get_u32_of, extract, verify_crc, decode}
use qdp.Message.Frame.{covered, frame, IsBytesMessage, length-covered}

pub slice_at-eq-ok :
    (bs : List ℕ) (from to : ℕ) {x : List ℕ}
    → slice_at bs from to ≡ ok x
    → (from ≤ to) × (to ≤ length bs) × (x ≡ slice bs from to)
unfolding slice_at
slice_at-eq-ok bs from to h = ground arith

get_u32_of-eq-ok : (bs : List ℕ) {v : ℕ} → get_u32_of bs ≡ ok v → (4 ≤ length bs) × (v ≡ get_u32 bs)
unfolding get_u32_of
get_u32_of-eq-ok bs h = ground arith

-- Adjacent slices make up the list.
slice-append-drop :
    (bs : List ℕ) (from to : ℕ) → from ≤ to → slice bs from to ++ drop to bs ≡ drop from bs
slice-append-drop bs from to h =
    ap (λ r. slice bs from to ++ r) (sym (drop-drop (to - from) from to bs (omega arith)))
    ∙ take-append-drop (to - from) (drop from bs)

pub length-slice :
    (bs : List ℕ) (from to : ℕ) → from ≤ to → to ≤ length bs → length (slice bs from to) ≡ to - from
length-slice bs from to h k =
    omega (arith, length-take (to - from) (drop from bs), length-drop from bs)

pub slice-IsBytes : (bs : List ℕ) (from to : ℕ) → IsBytes bs → IsBytes (slice bs from to)
slice-IsBytes bs from to h = take-All IsByte (to - from) (drop from bs) (drop-All IsByte from bs h)

pub put_u32-get_u32 : (bs : List ℕ) → IsBytes bs → length bs ≡ 4 → put_u32 (get_u32 bs) ≡ bs
put_u32-get_u32 [] h k = absurd (omega arith)
put_u32-get_u32 (a ∷ []) h k = absurd (omega arith)
put_u32-get_u32 (a ∷ b ∷ []) h k = absurd (omega arith)
put_u32-get_u32 (a ∷ b ∷ c ∷ []) h k = absurd (omega arith)
put_u32-get_u32 (a ∷ b ∷ c ∷ d ∷ []) h k =
    ap₂ ◌∷◌ e0 (ap₂ ◌∷◌ e1 (ap₂ ◌∷◌ e2 (ap (λ x. x ∷ []) e3)))
  where
    v : ℕ
    v = get_u32 (a ∷ b ∷ c ∷ d ∷ [])

    e0 : v % 256 ≡ a
    e0 = omega arith

    e1 : v / 256 % 256 ≡ b
    e1 = omega arith

    e2 : v / 65536 % 256 ≡ c
    e2 = omega arith

    e3 : v / 16777216 % 256 ≡ d
    e3 = omega arith
put_u32-get_u32 (a ∷ b ∷ c ∷ d ∷ e ∷ bs) h k = absurd (omega arith)

verify_crc-eq-ok :
    (bs : List ℕ) (total : ℕ) {u : Unit {0}}
    → verify_crc bs total ≡ ok u
    → (sub32 total 4 ≤ length bs)
      × (get_u32 (slice bs (sub32 total 4) (length bs))
          ≡ calculate_crc32 (slice bs 0 (sub32 total 4)))
unfolding verify_crc
verify_crc-eq-ok bs total h =
    let (trailer, t, h1) = >>=-eq-ok (slice_at bs (sub32 total 4) (length bs)) _ h in
    let (received, g, h2) = >>=-eq-ok (get_u32_of trailer) _ h1 in
    let (body, b, h3) = >>=-eq-ok (slice_at bs 0 (sub32 total 4)) _ h2 in
    let trailer_lem = slice_at-eq-ok bs (sub32 total 4) (length bs) t in
    (
      trailer_lem.0,
      ap get_u32 (sym trailer_lem.2)
          ∙ sym (get_u32_of-eq-ok trailer g).1
          ∙ ==→eq received (calculate_crc32 body) (guard-eq-ok _ _ h3)
          ∙ ap calculate_crc32 (slice_at-eq-ok bs 0 (sub32 total 4) b).2,
    )

extract-eq-ok :
    (bs : List ℕ) (topic_len total : ℕ) {m : Message}
    → extract bs topic_len total ≡ ok m
    → (8 ≤ u32 (8 + topic_len))
      × (u32 (8 + topic_len) ≤ sub32 total 4)
      × (m.topic ≡ slice bs 8 (u32 (8 + topic_len)))
      × (m.payload ≡ slice bs (u32 (8 + topic_len)) (sub32 total 4))
unfolding extract
extract-eq-ok bs topic_len total {m} h =
    let (topic, t, h1) = >>=-eq-ok (slice_at bs 8 (u32 (8 + topic_len))) _ h in
    let (payload, p, h2) = >>=-eq-ok (slice_at bs (u32 (8 + topic_len)) (sub32 total 4)) _ h1 in
    let topic_lem = slice_at-eq-ok bs 8 (u32 (8 + topic_len)) t in
    let payload_lem = slice_at-eq-ok bs (u32 (8 + topic_len)) (sub32 total 4) p in
    (topic_lem.0, payload_lem.0, cc (topic_lem.2), cc (payload_lem.2))

-- What a successful `Decode` has checked, with the lengths of the header as numbers.
pub record IsFrameOf (bs : List ℕ) (m : Message) : Type 0 where
  pub sizes : 12 + length m.topic + length m.payload ≡ length bs
  pub topic_len : get_u32 (slice bs 0 4) ≡ length m.topic
  pub payload_len : get_u32 (slice bs 4 8) ≡ length m.payload
  pub topic : m.topic ≡ slice bs 8 (8 + length m.topic)
  pub payload : m.payload ≡ slice bs (8 + length m.topic) (8 + length m.topic + length m.payload)
  pub crc :
      get_u32 (slice bs (8 + length m.topic + length m.payload) (length bs))
      ≡ calculate_crc32 (slice bs 0 (8 + length m.topic + length m.payload))

-- Such bytes are the frame of the message.
pub IsFrameOf-frame : (bs : List ℕ) (m : Message) → IsBytes bs → IsFrameOf bs m → bs ≡ frame m
IsFrameOf-frame bs m bytes v = sym (take-append-drop end bs) ∙ ap₂ ◌++◌ body trailer
  where
    end : ℕ
    end = 8 + length m.topic + length m.payload

    word :
        (from to n : ℕ)
        → from + 4 ≡ to
        → to ≤ length bs
        → get_u32 (slice bs from to) ≡ n
        → slice bs from to ≡ put_u32 n
    word from to n h k e =
        sym (
          put_u32-get_u32 (slice bs from to) (slice-IsBytes bs from to bytes)
            (length-slice bs from to (omega arith) k ∙ omega arith))
        ∙ ap put_u32 e

    pieces :
        bs
        ≡ put_u32 (length m.topic)
          ++ (put_u32 (length m.payload) ++ (m.topic ++ (m.payload ++ drop end bs)))
    pieces =
        sym (slice-append-drop bs 0 4 (omega arith))
        ∙ ap₂ ◌++◌ (word 0 4 (length m.topic) refl (omega (arith, v.sizes)) v.topic_len) (
            sym (slice-append-drop bs 4 8 (omega arith))
            ∙ ap₂ ◌++◌ (word 4 8 (length m.payload) refl (omega (arith, v.sizes)) v.payload_len) (
                sym (slice-append-drop bs 8 (8 + length m.topic) (omega arith))
                ∙ ap₂ ◌++◌ (sym v.topic) (
                    sym (slice-append-drop bs (8 + length m.topic) end (omega arith))
                    ∙ ap (λ r. r ++ drop end bs) (sym v.payload))))

    joined : bs ≡ covered m ++ drop end bs
    joined =
        pieces
        ∙ ap (λ r. put_u32 (length m.topic) ++ (put_u32 (length m.payload) ++ r))
            (sym (append_assoc m.topic m.payload (drop end bs)))

    body : take end bs ≡ covered m
    body = ap (take end) joined ∙ take-append end (covered m) (drop end bs) (length-covered m)

    all : end - 0 ≡ end
    all = omega arith

    trailer : drop end bs ≡ put_u32 (calculate_crc32 (covered m))
    trailer =
        sym (take-all (length bs - end) (drop end bs) (omega (arith, length-drop end bs)))
        ∙ word end (length bs) (calculate_crc32 (covered m)) (omega (arith, v.sizes)) (omega arith)
            (v.crc ∙ ap calculate_crc32 (ap (λ k. take k bs) all ∙ body))

-- The lengths that `Decode` has let through do not wrap: their sum is the length of the input.
no_wrap :
    (t p n : ℕ)
    → IsU32 t
    → IsU32 p
    → IsU32 n
    → 12 ≤ n
    → u32 n ≡ u32 (8 + t + p + 4)
    → 8 ≤ u32 (8 + t)
    → u32 (8 + t) ≤ sub32 (u32 n) 4
    → 12 + t + p ≡ n
no_wrap t p n ht hp hn small e lo hi = omega arith

pub IsFrameOf-intro :
    (bs : List ℕ) (m : Message) (t p : ℕ)
    → get_u32 (slice bs 0 4) ≡ t
    → get_u32 (slice bs 4 8) ≡ p
    → 12 + t + p ≡ length bs
    → m.topic ≡ slice bs 8 (8 + t)
    → m.payload ≡ slice bs (8 + t) (8 + t + p)
    → get_u32 (slice bs (8 + t + p) (length bs)) ≡ calculate_crc32 (slice bs 0 (8 + t + p))
    → IsFrameOf bs m
IsFrameOf-intro bs m t p et ep e topic payload crc = record {
  sizes = rw (topic_len, payload_len) e;
  topic_len = rw topic_len et;
  payload_len = rw payload_len ep;
  topic = rw topic_len topic;
  payload = rw (topic_len, payload_len) payload;
  crc = rw (topic_len, payload_len) crc;
}
  where
    topic_len : length m.topic ≡ t
    topic_len =
        ap length topic ∙ length-slice bs 8 (8 + t) (omega arith) (omega arith) ∙ omega arith

    payload_len : length m.payload ≡ p
    payload_len =
        ap length payload
        ∙ length-slice bs (8 + t) (8 + t + p) (omega arith) (omega arith)
        ∙ omega arith

-- A successful `Decode` has found a frame of the message.
decode-IsFrameOf :
    (bs : List ℕ) {m : Message} → IsBytes bs → IsU32 (length bs) → decode bs ≡ ok m → IsFrameOf bs m
unfolding decode
decode-IsFrameOf bs {m} bytes small h =
    let (_, g1, h1) = >>=-eq-ok (guard (leb 12 (length bs)) invalid_message) _ h in
    let (_, g2, h2) =
      >>=-eq-ok (guard (u32 (length bs) == u32 (8 + t + p + 4)) invalid_message) _ h1 in
    let (_, g3, h3) = >>=-eq-ok (verify_crc bs (u32 (8 + t + p + 4))) _ h2 in
    found (leb→le _ _ (guard-eq-ok _ _ g1))
      (==→eq (u32 (length bs)) (u32 (8 + t + p + 4)) (guard-eq-ok _ _ g2))
      (verify_crc-eq-ok bs (u32 (8 + t + p + 4)) g3) (extract-eq-ok bs t (u32 (8 + t + p + 4)) h3)
  where
    t : ℕ
    t = get_u32 (slice bs 0 4)

    p : ℕ
    p = get_u32 (slice bs 4 8)

    found :
        12 ≤ length bs
        → u32 (length bs) ≡ u32 (8 + t + p + 4)
        → (sub32 (u32 (8 + t + p + 4)) 4 ≤ length bs)
          × (get_u32 (slice bs (sub32 (u32 (8 + t + p + 4)) 4) (length bs))
              ≡ calculate_crc32 (slice bs 0 (sub32 (u32 (8 + t + p + 4)) 4)))
        → (8 ≤ u32 (8 + t))
          × (u32 (8 + t) ≤ sub32 (u32 (8 + t + p + 4)) 4)
          × (m.topic ≡ slice bs 8 (u32 (8 + t)))
          × (m.payload ≡ slice bs (u32 (8 + t)) (sub32 (u32 (8 + t + p + 4)) 4))
        → IsFrameOf bs m
    found long total (_, crc) (lo, hi, topic, payload) =
        IsFrameOf-intro bs m t p refl refl whole (topic ∙ ap (slice bs 8) topic_end)
          (payload ∙ ap₂ (slice bs) topic_end body_end)
          (ap (λ k. get_u32 (slice bs k (length bs))) (sym body_end)
            ∙ crc
            ∙ ap (λ k. calculate_crc32 (slice bs 0 k)) body_end)
      where
        t_small : IsU32 t
        t_small = get_u32-IsU32 (slice bs 0 4) (slice-IsBytes bs 0 4 bytes)

        p_small : IsU32 p
        p_small = get_u32-IsU32 (slice bs 4 8) (slice-IsBytes bs 4 8 bytes)

        whole : 12 + t + p ≡ length bs
        whole = no_wrap t p (length bs) t_small p_small small long total lo (rw (← total) at hi)

        topic_end : u32 (8 + t) ≡ 8 + t
        topic_end = omega (arith, whole)

        body_end : sub32 (u32 (8 + t + p + 4)) 4 ≡ 8 + t + p
        body_end = omega (arith, whole)

-- `Decode` accepts nothing but frames: if it gives a message for bytes whose number is a uint32, the
-- bytes are the frame of that message, which consists of bytes.
pub decode-eq-ok :
    (bs : List ℕ) (m : Message)
    → IsBytes bs
    → IsU32 (length bs)
    → decode bs ≡ ok m
    → (bs ≡ frame m) × IsBytesMessage m
decode-eq-ok bs m bytes small h =
    let v = decode-IsFrameOf bs bytes small h in
    (
      IsFrameOf-frame bs m bytes v,
      (
        subst IsBytes (sym v.topic) (slice-IsBytes bs 8 (8 + length m.topic) bytes),
        subst IsBytes (sym v.payload)
            (slice-IsBytes bs (8 + length m.topic) (8 + length m.topic + length m.payload) bytes),
      ),
    )
