-- ===== src/Ftdi/Transport/Sending.antt =====
-- lib/go/transport_ftdi.go: what WriteMessage puts on the wire.
use qdp.Base.{
  if_true, if_false, subst, Bool-cases, ==→eq, choose, ℕ, ◌+◌, ◌<◌, ◌≡◌, refl, sym, ap, ◌∙◌, arith,
  ◌==◌, List, [], ◌++◌, map, length, append_assoc, append-nil, ◌&&◌, not, Option, none, some, inl,
  inr, ◌⊎◌,
}
use qdp.Result.{Error, ok, err, invalid_message}
use qdp.Message.{Message}
use qdp.Message.Frame.{frame, Fits}
use qdp.Message.Encoding.{encode-frame}
use qdp.Ftdi.Writing.{Writing}
use qdp.Ftdi.Writing.Chunks.{Writes, write_chunked-Writes}
use qdp.Ftdi.Usb.{Handle, Bus, ConnectError}
use qdp.Ftdi.Transport.Errors.{ForeignErrors, is_usb_disconnect_error}
use qdp.Ftdi.Transport.{
  FtdiTransport, Outcome, success, plain_error, panics, not_initialized, reconnect_failed, notice,
  try_reconnect, connect, after_connect, close_failed, close_resources, note_usb_error,
  note_success, writing, written_by, second_outcome, after_write_reconnect, after_write,
  write_encoded, write,
}

-- The packets of one connection.
abbrev pub over : ℕ → List (List ℕ) → List (ℕ × List ℕ)
over c ps = map (λ p. (c, p)) ps

-- What a call has put on the wire ends with the packets `w` of one writeChunked of the bytes, to the
-- connection `c`, whose endpoint had taken or refused `first` packets before; `error` is its error.
abbrev pub Sends : (ℕ → Bus) → List ℕ → Option Error → FtdiTransport → FtdiTransport → Type 0
Sends usb bytes error t t' =
    (before : List (ℕ × List ℕ)) × (c : ℕ) × (first : ℕ) × (w : Writing) × (t'.wire
      ≡ t.wire ++ (before ++ over c w.packets))
    × (w.error ≡ error)
    × Writes (λ i p. Bus.send (usb c) (first + i) p) 0 0 bytes w

-- A success has sent all; with any other result the last packet was refused.
abbrev pub Delivered :
    (ℕ → Bus) → List ℕ → FtdiTransport → Outcome (Unit {0}) × FtdiTransport → Type 0
Delivered usb bytes t (success u, t') = Sends usb bytes none t t'
Delivered usb bytes t (not_initialized, t') = ⊥
Delivered usb bytes t (panics, t') = ⊥
Delivered usb bytes t (plain_error e, t') = Sends usb bytes (some e) t t'
Delivered usb bytes t (reconnect_failed x, t') = (e : Error) × Sends usb bytes (some e) t t'

module _ (usb : ℕ → Bus) where
  written_by-wire :
      (bytes : List ℕ) (t : FtdiTransport)
      → (written_by usb bytes t).wire
        ≡ t.wire ++ over t.endpoints (Writing.packets (writing usb bytes t))
  unfolding written_by
  written_by-wire bytes t = refl

  -- A write to a transport that has put `before` on the wire since `t`, and nothing after it.
  written-Sends :
      (bytes : List ℕ) (t u : FtdiTransport) (before : List (ℕ × List ℕ)) (error : Option Error)
      → u.wire ≡ t.wire ++ before
      → Writing.error (writing usb bytes u) ≡ error
      → (t' : FtdiTransport) → t'.wire ≡ (written_by usb bytes u).wire
      → Sends usb bytes error t t'
  unfolding writing
  written-Sends bytes t u before error since same t' here =
      let w = writing usb bytes u in
      (
        before,
        u.endpoints,
        u.writes,
        w,
        here
            ∙ written_by-wire bytes u
            ∙ ap (λ x. x ++ over u.endpoints w.packets) since
            ∙ append_assoc t.wire before (over u.endpoints w.packets),
        same,
        write_chunked-Writes (λ i p. Bus.send (usb u.endpoints) (u.writes + i) p) bytes,
      )

  note_usb_error-wire :
      (foreign : ForeignErrors) (e : Error) (t : FtdiTransport)
      → (note_usb_error foreign e t).wire ≡ t.wire
  unfolding note_usb_error notice
  note_usb_error-wire foreign e t =
      choose (λ (u : FtdiTransport). u.wire ≡ t.wire)
        (is_usb_disconnect_error foreign e && not t.disconnected) refl refl

  note_success-wire : (t : FtdiTransport) → (note_success t).wire ≡ t.wire
  unfolding note_success notice
  note_success-wire t = choose (λ (u : FtdiTransport). u.wire ≡ t.wire) t.disconnected refl refl

  try_reconnect-wire : (t : FtdiTransport) → (try_reconnect usb t).1.wire ≡ t.wire
  unfolding try_reconnect connect close_resources
  try_reconnect-wire t = connected _ t.attempts
    where
      connected :
          (o : Option ConnectError × List Handle) (c : ℕ)
          → (close_failed c (after_connect o (close_resources t))).1.wire ≡ t.wire
      connected (some e, live) c = unfold after_connect close_failed close_resources in refl
      connected (none, live) c = unfold after_connect close_failed close_resources notice in refl

  second-Delivered :
      (bytes : List ℕ) (t u : FtdiTransport) (before : List (ℕ × List ℕ)) (e : Option Error)
      → u.wire ≡ t.wire ++ before
      → Writing.error (writing usb bytes u) ≡ e
      → Delivered usb bytes t (second_outcome e (written_by usb bytes u))
  unfolding second_outcome
  second-Delivered bytes t u before (some e) since same =
      written-Sends bytes t u before (some e) since same (written_by usb bytes u) refl
  second-Delivered bytes t u before none since same =
      written-Sends bytes t u before none since same (note_success (written_by usb bytes u))
        (note_success-wire (written_by usb bytes u))

  after_write_reconnect-Delivered :
      (bytes : List ℕ) (t : FtdiTransport) (e : Error) (o : Option ConnectError × FtdiTransport)
      → Writing.error (writing usb bytes t) ≡ some e
      → o.1.wire ≡ (written_by usb bytes t).wire
      → Delivered usb bytes t (after_write_reconnect usb bytes o)
  unfolding after_write_reconnect
  after_write_reconnect-Delivered bytes t e (some x, u) failed since =
      (e, written-Sends bytes t t [] (some e) (sym (append-nil t.wire)) failed u since)
  after_write_reconnect-Delivered bytes t e (none, u) failed since =
      second-Delivered bytes t u (over t.endpoints (Writing.packets (writing usb bytes t)))
        (Writing.error (writing usb bytes u)) (since ∙ written_by-wire bytes t) refl

module _ (foreign : ForeignErrors) (usb : ℕ → Bus) where
  after_write-Delivered :
      (bytes : List ℕ) (t : FtdiTransport) (e : Option Error)
      → Writing.error (writing usb bytes t) ≡ e
      → Delivered usb bytes t (after_write foreign usb bytes e (written_by usb bytes t))
  unfolding after_write
  after_write-Delivered bytes t none fine =
      written-Sends usb bytes t t [] none (sym (append-nil t.wire)) fine
        (note_success (written_by usb bytes t)) (note_success-wire usb (written_by usb bytes t))
  after_write-Delivered bytes t (some e) failed =
      let u = written_by usb bytes t in
      after_write_reconnect-Delivered usb bytes t e (try_reconnect usb (note_usb_error foreign e u))
        failed
        (try_reconnect-wire usb (note_usb_error foreign e u) ∙ note_usb_error-wire usb foreign e u)

  write_encoded-Delivered :
      (bytes : List ℕ) (t : FtdiTransport)
      → Delivered usb bytes t (write_encoded foreign usb (ok bytes) t)
  unfolding write_encoded
  write_encoded-Delivered bytes t =
      after_write-Delivered bytes t (Writing.error (writing usb bytes t)) refl

  -- WriteMessage, of a message whose frame has a size that is a uint32: it refuses one without a topic
  -- and changes nothing. For any other, the last packets passed to WriteContext, of 1 to 62 bytes and
  -- all over one connection, are those of one writeChunked of its frame. If WriteMessage returns nil,
  -- then the endpoint of that connection has taken each of them, and they make up the frame, also where
  -- a first write failed and the transport connected again. If it returns an error, then the endpoint
  -- has refused the last of them, with that error if the transport could connect again. It does not
  -- panic.
  pub write-Delivered :
      (m : Message) (t : FtdiTransport)
      → Fits m
      → ((length m.topic ≡ 0) × (write foreign usb m t ≡ (plain_error invalid_message, t)))
        ⊎ ((0 < length m.topic) × Delivered usb (frame m) t (write foreign usb m t))
  unfolding write
  write-Delivered m t fits = elim (Bool-cases (length m.topic == 0)) [
    | inl empty ↦ inl (
      ==→eq (length m.topic) 0 empty,
      ap (λ r. write_encoded foreign usb r t)
            (encode-frame m fits ∙ if_true (length m.topic == 0) _ _ empty)
          ∙ refused t,
    )
    | inr filled ↦ inr (
      ground arith,
      subst (λ r. Delivered usb (frame m) t (write_encoded foreign usb r t))
          (sym (encode-frame m fits ∙ if_false (length m.topic == 0) _ _ filled))
          (write_encoded-Delivered (frame m) t),
    )
  ]
    where
      refused :
          (t : FtdiTransport)
          → write_encoded foreign usb (err invalid_message) t ≡ (plain_error invalid_message, t)
      refused t = unfold write_encoded in refl
