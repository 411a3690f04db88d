-- ===== src/Reader/Sequence.antt =====
-- Successive calls of `ReadMessage` of lib/go/qdp.go return the buffered messages in order.
use qdp.Base.{
  ℕ, zero, suc, ◌+◌, ◌-◌, ◌≡◌, sym, ap, ◌∙◌, List, [], ◌∷◌, ◌++◌, append_assoc, arith, Option, none,
  some, length, take, drop, length-append, length-take, length-drop, drop-drop, drop-append, All,
}
use qdp.Result.{ok, err, panic}
use qdp.Message.{Message}
use qdp.Message.Frame.{frame, frame_size, length-frame, IsBytesMessage}
use qdp.Reader.{Reader, ReadFn, read_message}
use qdp.Reader.Parsing.{IsSmall, drop-take}
use qdp.Reader.Bounds.{IsValid}
use qdp.Reader.Delivery.{pending, skip, read_message-frame}

-- `n` calls of `ReadMessage`, each within two rounds, that all return messages.
pub read_messages : {S : Type 0} → ReadFn S → ℕ → Reader S → Option (List Message × Reader S)
read_messages read zero r = some ([], r)
read_messages read (suc n) r = elim (read_message read 2 r) [
  | none ↦ none
  | some (ok m, r') ↦ elim (read_messages read n r') [
    | none ↦ none
    | some (ms, r'') ↦ some (m ∷ ms, r'')
  ]
  | some (err e, r') ↦ none
  | some (panic, r') ↦ none
]

abbrev pub frames : List Message → List ℕ
frames [] = []
frames (m ∷ ms) = frame m ++ frames ms

abbrev pub frames_size : List Message → ℕ
frames_size [] = 0
frames_size (m ∷ ms) = frame_size m + frames_size ms

module _ {S : Type 0} where
  -- What is pending behind a frame.
  skip-pending :
      (m : Message) (rest : List ℕ) (r : Reader S)
      → IsValid r
      → pending r ≡ frame m ++ rest
      → (pending (skip (frame_size m) r) ≡ rest) × IsValid (skip (frame_size m) r)
  skip-pending m rest r v e = (
    ap (take (r.count - (r.pos + n))) (sym (drop-drop n r.pos (r.pos + n) r.buffer (omega arith)))
        ∙ sym (
            drop-take n (r.count - (r.pos + n)) (r.count - r.pos) (drop r.pos r.buffer)
              (omega (arith, size)))
        ∙ ap (drop n) e
        ∙ drop-append n (frame m) rest (length-frame m),
    record { size = v.size; bytes = v.bytes; pos_le = omega (arith, size); count_le = v.count_le },
  )
    where
      n : ℕ
      n = frame_size m

      size : frame_size m + length rest ≡ r.count - r.pos
      size = omega (
        arith,
        ap length e,
        length-append (frame m) rest,
        length-frame m,
        length-take (r.count - r.pos) (drop r.pos r.buffer),
        length-drop r.pos r.buffer,
        v.count_le,
        v.size,
      )

  skip-skip : (a b : ℕ) (r : Reader S) → skip b (skip a r) ≡ skip (a + b) r
  skip-skip a b r =
      let e : r.pos + a + b ≡ r.pos + (a + b) = omega arith in ap (λ p. record r { pos = p }) e

module _ {S : Type 0} (read : ReadFn S) where
  read_messages-cons :
      (m : Message) (ms : List Message) (n : ℕ) (r r' r'' : Reader S)
      → read_message read 2 r ≡ some (ok m, r')
      → read_messages read n r' ≡ some (ms, r'')
      → read_messages read (suc n) r ≡ some (m ∷ ms, r'')
  unfolding read_messages
  read_messages-cons m ms n r r' r'' h k = rw (h, read_messages, k)

  -- With the frames of a list of messages at the front of what the reader holds, one call of
  -- `ReadMessage` for each of them returns these messages in their order, without a call of the
  -- io.Reader, and the reader goes on behind the last frame.
  pub read_messages-frames :
      (ms : List Message) (rest : List ℕ) (r : Reader S)
      → All (λ m. IsBytesMessage m × IsSmall m) ms
      → IsValid r
      → pending r ≡ frames ms ++ rest
      → read_messages read (length ms) r ≡ some (ms, skip (frames_size ms) r)
  read_messages-frames [] rest r h v e =
      let stay : r.pos ≡ r.pos + 0 = omega arith in
      unfold read_messages in ap (λ p. some ([], record r { pos = p })) stay
  read_messages-frames (m ∷ ms) rest r h v e =
      let e' : pending r ≡ frame m ++ (frames ms ++ rest) =
        e ∙ append_assoc (frame m) (frames ms) rest in
      let after = skip-pending m (frames ms ++ rest) r v e' in
      read_messages-cons m ms (length ms) r (skip (frame_size m) r) (skip (frames_size (m ∷ ms)) r)
        (read_message-frame read m (frames ms ++ rest) r 0 h.0.0 h.0.1 v e')
        (read_messages-frames ms rest (skip (frame_size m) r) h.1 after.1 after.0
          ∙ ap (λ x. some (ms, x)) (skip-skip (frame_size m) (frames_size ms) r))
