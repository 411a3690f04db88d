-- ===== src/Ftdi/Endpoint/Stream.antt =====
-- lib/go/transport_ftdi.go: what the calls of `endpointReader.Read` make of the packets.
use qdp.Base.{
  ℕ, zero, suc, ◌+◌, ◌≡◌, ◌≢◌, refl, sym, ap, ap₂, subst, ◌∙◌, arith, leb, ◌==◌, if◌then◌else◌,
  Bool-cases, leb→le, leb→gt, List, [], ◌∷◌, ◌++◌, Bool, length, append-nil, append_assoc, inl, inr,
}
use qdp.Result.{Result, ok, err, panic}
use qdp.Ftdi.Endpoint.{Transfer, EndpointReader, fetch, refill, read, endpoint_is_nil}
use qdp.Ftdi.Endpoint.Packets.{
  IsLawful, payload, payloads, pending, IsValid, given, Delivers, copy_out-Delivers,
  after_transfer-Delivers,
}

idle-Delivers :
    (device : ℕ → Transfer) (n : ℕ) (r : EndpointReader) (res : Result (List ℕ))
    → IsValid r
    → res ≢ panic
    → given res ≡ []
    → Delivers device n r (res, r)
idle-Delivers device n r res v no_panic none_given = (
  v,
  no_panic,
  omega (arith, ap length none_given),
  (0, omega arith, ap (λ t. t ++ pending r) none_given ∙ sym (append-nil (pending r))),
)

fetch-Delivers :
    (device : ℕ → Transfer) (n : ℕ) (r : EndpointReader)
    → IsLawful device
    → IsValid r
    → Delivers device n r (fetch device n r)
unfolding fetch refill
fetch-Delivers device n r lawful v = elim (Bool-cases (n == 0)) [
  | inl nothing ↦ rw nothing (idle-Delivers device n r (ok []) v (λ e. cc) refl)
  | inr some_asked ↦ elim (Bool-cases (leb r.size r.pos)) [
    | inl spent ↦
        rw (some_asked, spent)
          (after_transfer-Delivers device n r (device r.transfers) v (leb→le r.size r.pos spent)
            refl (lawful r.transfers))
    | inr left ↦
        rw (some_asked, left)
          (copy_out-Delivers device n r r 0 v (leb→gt r.size r.pos left) (omega arith)
            (sym (append-nil (pending r))))
  ]
]

-- A Read of at most `n` bytes from a valid reader, with an endpoint whose packets fit the buffer,
-- does not panic, gives at most `n` bytes and leaves a valid reader; what it gives, followed by what
-- the reader then holds, is what it held before, followed by the data of the packets fetched.
pub read-Delivers :
    (device : ℕ → Transfer) (n : ℕ) (r : EndpointReader)
    → IsLawful device
    → IsValid r
    → Delivers device n r (read device n r)
unfolding read
read-Delivers device n r lawful v =
    let outcome = λ (b : Bool). if b then fetch device n r else (err endpoint_is_nil, r) in
    elim (Bool-cases r.connected) [
      | inl on ↦
          subst (λ b. Delivers device n r (outcome b)) (sym on) (fetch-Delivers device n r lawful v)
      | inr off ↦
          subst (λ b. Delivers device n r (outcome b)) (sym off)
            (idle-Delivers device n r (err endpoint_is_nil) v (λ e. cc) refl)
    ]

-- The calls with buffers of the lengths `ns`, one after another: all that they give, and the reader.
abbrev pub reads : (ℕ → Transfer) → List ℕ → EndpointReader → List ℕ × EndpointReader
reads device [] r = ([], r)
reads device (n ∷ ns) r =
    let (res, r') = read device n r in
    let (more, r'') = reads device ns r' in (given res ++ more, r'')

payloads-append :
    (device : ℕ → Transfer) (i k m : ℕ)
    → payloads device i k ++ payloads device (i + k) m ≡ payloads device i (k + m)
payloads-append device i zero m =
    let from : i + 0 ≡ i = omega arith in
    let many : m ≡ 0 + m = omega arith in ap₂ (payloads device) from many
payloads-append device i (suc k) m =
    let from : i + suc k ≡ i + 1 + k = omega arith in
    let many : suc (k + m) ≡ suc k + m = omega arith in
    append_assoc (payload (device i)) (payloads device (i + 1) k) (payloads device (i + suc k) m)
    ∙ ap (λ j. payload (device i) ++ (payloads device (i + 1) k ++ payloads device j m)) from
    ∙ ap (λ t. payload (device i) ++ t) (payloads-append device (i + 1) k m)
    ∙ ap (payloads device i) many

-- With an endpoint whose packets fit the buffer, the calls of Read on a valid reader, with buffers of
-- any lengths, together give the data of the packets fetched, in order and without the status bytes:
-- nothing is lost, doubled or reordered, and what is not given is still held by the reader.
pub reads-stream :
    (device : ℕ → Transfer) (ns : List ℕ) (r : EndpointReader)
    → IsLawful device
    → IsValid r
    → IsValid (reads device ns r).1
      × ((k : ℕ) × ((reads device ns r).1.transfers ≡ r.transfers + k)
          × ((reads device ns r).0 ++ pending (reads device ns r).1
              ≡ pending r ++ payloads device r.transfers k))
reads-stream device [] r lawful v = (v, (0, omega arith, sym (append-nil (pending r))))
reads-stream device (n ∷ ns) r lawful v =
    let r' = (read device n r).1 in
    let given_first = given (read device n r).0 in
    let (more, r'') = reads device ns r' in
    let (v', _, _, (k, count, first)) = read-Delivers device n r lawful v in
    let (v'', (m, count', rest)) = reads-stream device ns r' lawful v' in
    (
      v'',
      (
        k + m,
        omega (arith, count, count'),
        append_assoc given_first more (pending r'')
            ∙ ap (λ t. given_first ++ t) rest
            ∙ sym (append_assoc given_first (pending r') (payloads device r'.transfers m))
            ∙ ap₂ (λ t i. t ++ payloads device i m) first count
            ∙ append_assoc (pending r) (payloads device r.transfers k)
                (payloads device (r.transfers + k) m)
            ∙ ap (λ t. pending r ++ t) (payloads-append device r.transfers k m),
      ),
    )
