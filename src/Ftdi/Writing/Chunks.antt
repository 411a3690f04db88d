-- ===== src/Ftdi/Writing/Chunks.antt =====
-- lib/go/transport_ftdi.go: the packets that `writeChunked` writes.
use qdp.Base.{
  Option, ℕ, zero, suc, ◌+◌, ◌≤◌, ◌≡◌, refl, ap, ◌∙◌, arith, List, [], ◌∷◌, ◌++◌, none, some, take,
  drop, length, All, append-nil, append_assoc, length-take, length-drop, take-append-drop, ◌⊎◌, inl,
  inr,
}
use qdp.Result.{Error}
use qdp.Ftdi.Writing.{
  Sent, sent, refused, Writing, chunk_size, after_write, write_loop, write_chunked,
}

abbrev pub concat : List (List ℕ) → List ℕ
concat [] = []
concat (p ∷ ps) = p ++ concat ps

abbrev pub IsPacket : List ℕ → Type 0
IsPacket p = (1 ≤ length p) × (length p ≤ 62)

-- The endpoint has taken each packet, of which the first is passed to the call `call`, and `total` counts
-- the bytes it says it has written, after `written` of them; or it has refused the last packet, whose
-- error is `error`.
abbrev pub Answered : (ℕ → List ℕ → Sent) → ℕ → ℕ → List (List ℕ) → Option Error → ℕ → Type 0
Answered ep call written [] error total = (error ≡ none) × (total ≡ written)
Answered ep call written (p ∷ ps) error total =
    ((n : ℕ) × (ep call p ≡ sent n) × Answered ep (call + 1) (written + n) ps error total)
    ⊎ ((e : Error) × (ep call p ≡ refused e) × (ps ≡ []) × (error ≡ some e) × (total ≡ written))

-- Either all bytes have been written, or the last packet was refused and `unsent` was not tried.
abbrev pub Writes : (ℕ → List ℕ → Sent) → ℕ → ℕ → List ℕ → Writing → Type 0
Writes ep call written bytes w =
    All IsPacket w.packets
    × Answered ep call written w.packets w.error w.written
    × (((w.error ≡ none) × (concat w.packets ≡ bytes))
        ⊎ ((e : Error) × (unsent : List ℕ) × (w.error ≡ some e)
            × (concat w.packets ++ unsent ≡ bytes)))

chunk_size-bounds :
    (x : ℕ) (unsent : List ℕ)
    → (1 ≤ chunk_size (x ∷ unsent))
      × (chunk_size (x ∷ unsent) ≤ 62)
      × (chunk_size (x ∷ unsent) ≤ length (x ∷ unsent))
unfolding chunk_size
chunk_size-bounds x unsent = ground arith

after_write-Writes :
    (ep : ℕ → List ℕ → Sent) (call written size : ℕ) (bytes : List ℕ) (more : ℕ → Writing)
    (s : Sent)
    → ep call (take size bytes) ≡ s
    → 1 ≤ size
    → size ≤ 62
    → size ≤ length bytes
    → ((n : ℕ) → Writes ep (call + 1) (written + n) (drop size bytes) (more n))
    → Writes ep call written bytes (after_write written (take size bytes) more s)
unfolding after_write
after_write-Writes ep call written size bytes more (refused e) answer some_bytes small there rest =
    (
      (omega (arith, length-take size bytes), tt),
      inr (e, answer, refl, refl, refl),
      inr (
        e,
        drop size bytes,
        refl,
        ap (λ t. t ++ drop size bytes) (append-nil (take size bytes)) ∙ take-append-drop size bytes,
      ),
    )
after_write-Writes ep call written size bytes more (sent n) answer some_bytes small there rest =
    let (sizes, answered, outcome) = rest n in
    (
      (omega (arith, length-take size bytes), sizes),
      inl (n, answer, answered),
      elim outcome [
        | inl (fine, all) ↦
            inl (fine, ap (λ t. take size bytes ++ t) all ∙ take-append-drop size bytes)
        | inr (e, unsent, failed, all) ↦ inr (
          e,
          unsent,
          failed,
          append_assoc (take size bytes) (concat (more n).packets) unsent
              ∙ ap (λ t. take size bytes ++ t) all
              ∙ take-append-drop size bytes,
        )
      ],
    )

write_loop-Writes :
    (ep : ℕ → List ℕ → Sent) (fuel call written : ℕ) (bytes : List ℕ)
    → length bytes ≤ fuel
    → Writes ep call written bytes (write_loop ep fuel call written bytes)
unfolding write_loop
write_loop-Writes ep fuel call written [] enough = (tt, (refl, refl), inl (refl, refl))
write_loop-Writes ep zero call written (x ∷ unsent) enough = absurd (omega arith)
write_loop-Writes ep (suc fuel) call written (x ∷ unsent) enough =
    let (some_bytes, small, there) = chunk_size-bounds x unsent in
    let size = chunk_size (x ∷ unsent) in
    after_write-Writes ep call written size (x ∷ unsent)
      (λ n. write_loop ep fuel (call + 1) (written + n) (drop size (x ∷ unsent)))
      (ep call (take size (x ∷ unsent))) refl some_bytes small there
      (λ n.
        write_loop-Writes ep fuel (call + 1) (written + n) (drop size (x ∷ unsent))
          (omega (arith, length-drop size (x ∷ unsent), some_bytes, enough)))

-- writeChunked calls WriteContext with packets of 1 to 62 bytes. Either it returns no error, the endpoint
-- has taken each packet, and the packets make up the bytes it was given; or the endpoint has taken each
-- packet but the last, which it has refused with the error that writeChunked returns, and the packets
-- make up the bytes up to and with that packet. It returns the sum of what the endpoint says it has
-- written.
pub write_chunked-Writes :
    (ep : ℕ → List ℕ → Sent) (bytes : List ℕ) → Writes ep 0 0 bytes (write_chunked ep bytes)
unfolding write_chunked
write_chunked-Writes ep bytes = write_loop-Writes ep (length bytes) 0 0 bytes (omega arith)
