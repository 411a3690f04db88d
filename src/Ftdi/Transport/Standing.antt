-- ===== src/Ftdi/Transport/Standing.antt =====
-- lib/go/transport_ftdi.go: by what an FTDI transport is marked as disconnected.
use qdp.Base.{
  if_true, if_false, choose, Bool-cases, ℕ, ◌≡◌, refl, sym, ap, ◌∙◌, if◌then◌else◌, List, [], ◌∷◌,
  Bool, true, false, ◌&&◌, not, Option, none, some, inl, inr,
}
use qdp.Result.{Error, Result, ok, err, panic}
use qdp.Message.{Message, encode}
use qdp.Reader.{Reader, read_message}
use qdp.TcpClient.{on_disconnect}
use qdp.Ftdi.Endpoint.{EndpointReader}
use qdp.Ftdi.Writing.{Writing}
use qdp.Ftdi.Usb.{Handle, Bus, ConnectError}
use qdp.Ftdi.Transport.Errors.{ForeignErrors, is_usb_disconnect_error}
use qdp.Ftdi.Transport.{
  FtdiTransport, notice, after_connect, connect, close_resources, close_failed, try_reconnect,
  note_usb_error, note_success, with_reader, read_reader, last_read, read_again,
  after_read_reconnect, after_read, read_from, read, writing, written_by, second_outcome,
  after_write_reconnect, after_write, write_encoded, write, note_closed, close, endpoint_read,
}
use qdp.Ftdi.Transport.Calls.{Call, reading, sending, closing, call, calls, ends}

abbrev pub is_none : {A : Type 0} → Option A → Bool
is_none none = true
is_none (some a) = false

module _ (foreign : ForeignErrors) (usb : ℕ → Bus) where
  -- Whether the transport can connect now.
  abbrev pub connects : FtdiTransport → Bool
  connects t = is_none (connect usb (close_resources t)).0

  -- What an error says of a transport that was up, or was not: it is up if it can connect again, and
  -- else not if the error counts as that of a disconnected device, and as it was otherwise.
  abbrev pub up_error : Bool → Error → FtdiTransport → Bool
  up_error b e t =
      if connects t then true else (if is_usb_disconnect_error foreign e then false else b)

  -- What the reader gives first, in one call of ReadMessage.
  abbrev pub first_read :
      ℕ
      → Option (Reader EndpointReader)
      → FtdiTransport
      → Option (Result Message × Reader EndpointReader)
  first_read fuel none t = none
  first_read fuel (some r) t = read_message (endpoint_read (usb t.endpoints).packets) fuel r

  abbrev pub up_read : Bool → Option (Result Message × Reader EndpointReader) → FtdiTransport → Bool
  up_read b none t = b
  up_read b (some (ok m, r)) t = true
  up_read b (some (err e, r)) t = up_error b e t
  up_read b (some (panic, r)) t = b

  abbrev pub up_write : Bool → Option Error → FtdiTransport → Bool
  up_write b none t = true
  up_write b (some e) t = up_error b e t

  abbrev pub up_send : Bool → Result (List ℕ) → FtdiTransport → Bool
  up_send b (ok bytes) t = up_write b (Writing.error (writing usb bytes t)) t
  up_send b (err e) t = b
  up_send b panic t = b

  -- Whether the transport is up after a call, by what the USB and the reader answer. A call that does
  -- not end says nothing.
  abbrev pub up : Bool → Call → FtdiTransport → Bool
  up b (reading fuel) t =
      if is_none (read foreign usb fuel t) then b else up_read b (first_read fuel t.reader t) t
  up b (sending m) t = up_send b (encode m) t
  up b closing t = false

  abbrev pub ups : Bool → List Call → FtdiTransport → Bool
  ups b [] t = b
  ups b (c ∷ cs) t = ups (up b c t) cs (call foreign usb c t)

module _ (foreign : ForeignErrors) (usb : ℕ → Bus) where
  blind :
      (o : Option ConnectError × List Handle) (u v : FtdiTransport)
      → (after_connect o u).0 ≡ (after_connect o v).0
  unfolding after_connect
  blind (none, live) u v = refl
  blind (some e, live) u v = refl

  success_up : (t : FtdiTransport) → not (note_success t).disconnected ≡ true
  unfolding note_success notice
  success_up t = elim (Bool-cases t.disconnected) [
    | inl off ↦ ap (λ (u : FtdiTransport). not u.disconnected) (if_true t.disconnected _ _ off)
    | inr on ↦
        ap (λ (u : FtdiTransport). not u.disconnected) (if_false t.disconnected _ _ on) ∙ ap not on
  ]

  noted_up :
      (e : Error) (t : FtdiTransport)
      → not (note_usb_error foreign e t).disconnected
        ≡ (if is_usb_disconnect_error foreign e then false else not t.disconnected)
  unfolding note_usb_error notice
  noted_up e t = pick (is_usb_disconnect_error foreign e) t.disconnected refl
    where
      pick :
          (b d : Bool)
          → t.disconnected ≡ d
          → not (
              FtdiTransport.disconnected (
                if b && not d
                then notice (on_disconnect (some e)) (record t { disconnected = true })
                else t))
            ≡ (if b then false else not d)
      pick true true off = ap not off
      pick true false on = refl
      pick false d same = ap not same

  noted_connects :
      (e : Error) (t : FtdiTransport)
      → (connect usb (close_resources (note_usb_error foreign e t))).0
        ≡ (connect usb (close_resources t)).0
  unfolding note_usb_error notice close_resources connect
  noted_connects e t =
      choose
        (λ (u : FtdiTransport).
          (connect usb (close_resources u)).0 ≡ (connect usb (close_resources t)).0)
        (is_usb_disconnect_error foreign e && not t.disconnected) (blind _ _ _) refl

  -- What a reconnection, from `t` closed, gives.
  record Reconnects (t : FtdiTransport) (x : Option ConnectError)
      (o : Option ConnectError × FtdiTransport) : Type 0 where
    outcome : o.0 ≡ x
    marked : not o.1.disconnected ≡ (if is_none o.0 then true else not t.disconnected)

  connected-Reconnects :
      (t : FtdiTransport) (c : ℕ) (o : Option ConnectError × List Handle)
      → Reconnects t
          (after_connect o (close_resources t)).0
          (close_failed c (after_connect o (close_resources t)))
  unfolding after_connect close_failed close_resources notice
  connected-Reconnects t c (none, live) = record { outcome = refl; marked = refl }
  connected-Reconnects t c (some e, live) = record { outcome = refl; marked = refl }

  try_reconnect-Reconnects :
      (t : FtdiTransport) → Reconnects t (connect usb (close_resources t)).0 (try_reconnect usb t)
  unfolding try_reconnect connect
  try_reconnect-Reconnects t = connected-Reconnects t t.attempts _

  -- After an error, of a transport that was up or not as `t`.
  error_up :
      (e : Error) (t u : FtdiTransport)
      → (connect usb (close_resources u)).0 ≡ (connect usb (close_resources t)).0
      → u.disconnected ≡ t.disconnected
      → let o = try_reconnect usb (note_usb_error foreign e u) in
        (is_none o.0 ≡ connects foreign usb t)
        × (not o.1.disconnected ≡ up_error foreign usb (not t.disconnected) e t)
  error_up e t u same marks =
      let v = try_reconnect-Reconnects (note_usb_error foreign e u) in
      let answer = ap is_none (v.outcome ∙ noted_connects e u ∙ same) in
      (
        answer,
        v.marked
            ∙ ap (λ b. if b then true else not (note_usb_error foreign e u).disconnected) answer
            ∙ ap (λ b. if connects foreign usb t then true else b)
                (noted_up e u
                  ∙ ap (λ d. if is_usb_disconnect_error foreign e then false else not d) marks),
      )

  module _ (t : FtdiTransport) (fuel : ℕ) where
    again_up :
        (v : FtdiTransport) (b : Bool) (o : Option (Reader EndpointReader))
        → not v.disconnected ≡ b
        → not (ends t (read_again usb fuel o v)).disconnected
          ≡ (if is_none (read_again usb fuel o v) then not t.disconnected else b)
    unfolding read_again read_reader
    again_up v b none same = same
    again_up v b (some r) same =
        last (read_message (endpoint_read (usb v.endpoints).packets) fuel r)
      where
        last :
            (x : Option (Result Message × Reader EndpointReader))
            → not (ends t (last_read (with_reader v x))).disconnected
              ≡ (if is_none (last_read (with_reader v x)) then not t.disconnected else b)
        last none = unfold last_read with_reader in refl
        last (some (res, r')) = unfold last_read with_reader in same

    reconnect_up :
        (b : Bool) (o : Option ConnectError × FtdiTransport)
        → not o.1.disconnected ≡ b
        → not (ends t (after_read_reconnect usb fuel o)).disconnected
          ≡ (if is_none (after_read_reconnect usb fuel o) then not t.disconnected else b)
    unfolding after_read_reconnect
    reconnect_up b (some x, v) same = same
    reconnect_up b (none, v) same = again_up v b v.reader same

    first_up :
        (x : Option (Result Message × Reader EndpointReader))
        → let o = after_read foreign usb fuel (with_reader t x) in
          not (ends t o).disconnected
          ≡ (if is_none o then not t.disconnected else up_read foreign usb (not t.disconnected) x t)
    unfolding after_read with_reader
    first_up none = refl
    first_up (some (ok m, r)) = success_up (record t { reader = some r })
    first_up (some (panic, r)) = refl
    first_up (some (err e, r)) =
        reconnect_up (up_error foreign usb (not t.disconnected) e t)
          (try_reconnect usb (note_usb_error foreign e (record t { reader = some r })))
          (error_up e t (record t { reader = some r })
            (unfold connect close_resources in blind _ _ _) refl).1

    reading_up :
        (o : Option (Reader EndpointReader))
        → not (ends t (read_from foreign usb fuel o t)).disconnected ≡ (
            if is_none (read_from foreign usb fuel o t)
            then not t.disconnected
            else up_read foreign usb (not t.disconnected) (first_read foreign usb fuel o t) t)
    unfolding read_from read_reader
    reading_up none = refl
    reading_up (some r) = first_up (read_message (endpoint_read (usb t.endpoints).packets) fuel r)

  second_up :
      (bytes : List ℕ) (b : Bool) (o : Option ConnectError × FtdiTransport)
      → (is_none o.0 ≡ true → b ≡ true)
      → not o.1.disconnected ≡ b
      → not (after_write_reconnect usb bytes o).1.disconnected ≡ b
  unfolding after_write_reconnect
  second_up bytes b (some x, v) on same = same
  second_up bytes b (none, v) on same = last (Writing.error (writing usb bytes v))
    where
      last : (e : Option Error) → not (second_outcome e (written_by usb bytes v)).1.disconnected ≡ b
      last none = unfold second_outcome in success_up (written_by usb bytes v) ∙ sym (on refl)
      last (some e) = unfold second_outcome written_by in same

  writing_up :
      (bytes : List ℕ) (t : FtdiTransport) (e : Option Error)
      → not (after_write foreign usb bytes e (written_by usb bytes t)).1.disconnected
        ≡ up_write foreign usb (not t.disconnected) e t
  unfolding after_write
  writing_up bytes t none = success_up (written_by usb bytes t)
  writing_up bytes t (some e) =
      let u = written_by usb bytes t in
      let (answer, marks) =
        error_up e t u (unfold connect close_resources written_by in blind _ _ _)
          (unfold written_by in refl) in
      second_up bytes (up_error foreign usb (not t.disconnected) e t)
        (try_reconnect usb (note_usb_error foreign e u))
        (λ good. if_true (connects foreign usb t) _ _ (sym answer ∙ good)) marks

  sending_up :
      (r : Result (List ℕ)) (t : FtdiTransport)
      → not (write_encoded foreign usb r t).1.disconnected
        ≡ up_send foreign usb (not t.disconnected) r t
  unfolding write_encoded
  sending_up (ok bytes) t = writing_up bytes t (Writing.error (writing usb bytes t))
  sending_up (err e) t = refl
  sending_up panic t = refl

  closing_up : (t : FtdiTransport) → t.has_handler ≡ true → not (close t).disconnected ≡ false
  unfolding close close_resources note_closed notice
  closing_up t handler = pick t.has_handler t.disconnected handler refl
    where
      pick :
          (h d : Bool)
          → h ≡ true
          → t.disconnected ≡ d
          → not (
              FtdiTransport.disconnected (
                if h && not d
                then notice
                    (on_disconnect none)
                    (record t { cancelled = true; disconnected = true })
                else record t { cancelled = true }))
            ≡ false
      pick true true on off = ap not off
      pick true false on still = refl
      pick false d on same = cc

  call-up :
      (c : Call) (t : FtdiTransport)
      → t.has_handler ≡ true
      → not (call foreign usb c t).disconnected ≡ up foreign usb (not t.disconnected) c t
  unfolding read write
  call-up (reading fuel) t handler = reading_up t fuel t.reader
  call-up (sending m) t handler = sending_up (encode m) t
  call-up closing t handler = closing_up t handler

  -- Over any calls of a transport with a handler, which they leave it.
  pub calls_up :
      (cs : List Call) (t : FtdiTransport)
      → ((c : Call) (u : FtdiTransport)
          → u.has_handler ≡ true
          → (call foreign usb c u).has_handler ≡ true)
      → t.has_handler ≡ true
      → not (calls foreign usb cs t).disconnected ≡ ups foreign usb (not t.disconnected) cs t
  calls_up [] t stays handler = refl
  calls_up (c ∷ cs) t stays handler =
      calls_up cs (call foreign usb c t) stays (stays c t handler)
      ∙ ap (λ b. ups foreign usb b cs (call foreign usb c t)) (call-up c t handler)
