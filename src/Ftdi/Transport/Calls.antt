-- ===== src/Ftdi/Transport/Calls.antt =====
-- lib/go/transport_ftdi.go: what every call of a transport's methods keeps, if each of its steps does.
use qdp.Base.{ℕ, List, [], ◌∷◌, true, Option, none, some}
use qdp.Result.{Error, Result, ok, err, panic}
use qdp.Message.{Message, encode}
use qdp.Reader.{Reader, read_message}
use qdp.Ftdi.Endpoint.{EndpointReader}
use qdp.Ftdi.Writing.{Writing}
use qdp.Ftdi.Usb.{Bus, ConnectError}
use qdp.Ftdi.Transport.Errors.{ForeignErrors}
use qdp.Ftdi.Transport.{
  FtdiTransport, try_reconnect, note_usb_error, note_success, read_reader, with_reader, last_read,
  read_again, after_read_reconnect, after_read, read_from, read, writing, written_by,
  second_outcome, after_write_reconnect, after_write, write_encoded, write, note_closed, close,
  close_resources, endpoint_read,
}

-- The transport after a call, which it leaves as it was if it does not end.
abbrev pub ends : {X : Type 0} → FtdiTransport → Option (X × FtdiTransport) → FtdiTransport
ends t none = t
ends t (some (x, t')) = t'

-- A predicate of transports that each step of a method keeps.
pub record IsKept (foreign : ForeignErrors) (usb : ℕ → Bus) (P : FtdiTransport → Type 0)
    : Type 0 where
  pub reading_on :
      (t : FtdiTransport) (r : Reader EndpointReader) → P t → P (record t { reader = some r })
  pub written_on : (t : FtdiTransport) (bytes : List ℕ) → P t → P (written_by usb bytes t)
  pub cancelling : (t : FtdiTransport) → P t → P (record t { cancelled = true })
  pub usb_error : (t : FtdiTransport) (e : Error) → P t → P (note_usb_error foreign e t)
  pub success : (t : FtdiTransport) → P t → P (note_success t)
  pub closed : (t : FtdiTransport) → P t → P (note_closed t)
  pub released : (t : FtdiTransport) → P t → P (close_resources t)
  pub reconnected : (t : FtdiTransport) → P t → P (try_reconnect usb t).1

-- The calls of a transport's methods from outside.
pub data Call : Type 0 where
  reading : ℕ → Call
  sending : Message → Call
  closing : Call

module _ (foreign : ForeignErrors) (usb : ℕ → Bus) where
  abbrev pub call : Call → FtdiTransport → FtdiTransport
  call (reading fuel) t = ends t (read foreign usb fuel t)
  call (sending m) t = (write foreign usb m t).1
  call closing t = close t

  abbrev pub calls : List Call → FtdiTransport → FtdiTransport
  calls [] t = t
  calls (c ∷ cs) t = calls cs (call c t)

module _ (foreign : ForeignErrors) (usb : ℕ → Bus) (P : FtdiTransport → Type 0)
    (kept : IsKept foreign usb P) where
  abbrev Ends : {X : Type 0} → Option (X × FtdiTransport) → Type 0
  Ends none = Unit {0}
  Ends (some (x, t)) = P t

  read_reader-Kept :
      (fuel : ℕ) (r : Reader EndpointReader) (t : FtdiTransport)
      → P t
      → Ends (read_reader usb fuel r t)
  unfolding read_reader with_reader
  read_reader-Kept fuel r t v =
      ended (read_message (endpoint_read (usb t.endpoints).packets) fuel r)
    where
      ended : (o : Option (Result Message × Reader EndpointReader)) → Ends (with_reader t o)
      ended none = tt
      ended (some (res, r')) = kept.reading_on t r' v

  read_again-Kept :
      (fuel : ℕ) (o : Option (Reader EndpointReader)) (t : FtdiTransport)
      → P t
      → Ends (read_again usb fuel o t)
  unfolding read_again last_read
  read_again-Kept fuel none t v = v
  read_again-Kept fuel (some r) t v = ended (read_reader usb fuel r t) (read_reader-Kept fuel r t v)
    where
      ended : (o : Option (Result Message × FtdiTransport)) → Ends o → Ends (last_read o)
      ended none w = tt
      ended (some (res, t')) w = w

  after_read_reconnect-Kept :
      (fuel : ℕ) (o : Option ConnectError × FtdiTransport)
      → P o.1
      → Ends (after_read_reconnect usb fuel o)
  unfolding after_read_reconnect
  after_read_reconnect-Kept fuel (some e, t) v = v
  after_read_reconnect-Kept fuel (none, t) v = read_again-Kept fuel t.reader t v

  reconnected-Kept :
      (e : Error) (t : FtdiTransport) → P t → P (try_reconnect usb (note_usb_error foreign e t)).1
  reconnected-Kept e t v = kept.reconnected (note_usb_error foreign e t) (kept.usb_error t e v)

  after_read-Kept :
      (fuel : ℕ) (o : Option (Result Message × FtdiTransport))
      → Ends o
      → Ends (after_read foreign usb fuel o)
  unfolding after_read
  after_read-Kept fuel none v = tt
  after_read-Kept fuel (some (ok m, t)) v = kept.success t v
  after_read-Kept fuel (some (err e, t)) v =
      after_read_reconnect-Kept fuel (try_reconnect usb (note_usb_error foreign e t))
        (reconnected-Kept e t v)
  after_read-Kept fuel (some (panic, t)) v = v

  read_from-Kept :
      (fuel : ℕ) (o : Option (Reader EndpointReader)) (t : FtdiTransport)
      → P t
      → Ends (read_from foreign usb fuel o t)
  unfolding read_from
  read_from-Kept fuel none t v = v
  read_from-Kept fuel (some r) t v =
      after_read-Kept fuel (read_reader usb fuel r t) (read_reader-Kept fuel r t v)

  second_outcome-Kept : (e : Option Error) (t : FtdiTransport) → P t → P (second_outcome e t).1
  unfolding second_outcome
  second_outcome-Kept none t v = kept.success t v
  second_outcome-Kept (some e) t v = v

  after_write_reconnect-Kept :
      (bytes : List ℕ) (o : Option ConnectError × FtdiTransport)
      → P o.1
      → P (after_write_reconnect usb bytes o).1
  unfolding after_write_reconnect
  after_write_reconnect-Kept bytes (some e, t) v = v
  after_write_reconnect-Kept bytes (none, t) v =
      second_outcome-Kept (Writing.error (writing usb bytes t)) (written_by usb bytes t)
        (kept.written_on t bytes v)

  after_write-Kept :
      (bytes : List ℕ) (e : Option Error) (t : FtdiTransport)
      → P t
      → P (after_write foreign usb bytes e t).1
  unfolding after_write
  after_write-Kept bytes none t v = kept.success t v
  after_write-Kept bytes (some e) t v =
      after_write_reconnect-Kept bytes (try_reconnect usb (note_usb_error foreign e t))
        (reconnected-Kept e t v)

  write_encoded-Kept :
      (r : Result (List ℕ)) (t : FtdiTransport) → P t → P (write_encoded foreign usb r t).1
  unfolding write_encoded
  write_encoded-Kept (ok bytes) t v =
      after_write-Kept bytes (Writing.error (writing usb bytes t)) (written_by usb bytes t)
        (kept.written_on t bytes v)
  write_encoded-Kept (err e) t v = v
  write_encoded-Kept panic t v = v

  ends-Kept :
      {X : Type 0} (t : FtdiTransport) (o : Option (X × FtdiTransport))
      → P t
      → Ends o
      → P (ends t o)
  ends-Kept t none v w = v
  ends-Kept t (some (x, t')) v w = w

  call-Kept : (c : Call) (t : FtdiTransport) → P t → P (call foreign usb c t)
  unfolding read write close
  call-Kept (reading fuel) t v =
      ends-Kept t (read foreign usb fuel t) v (read_from-Kept fuel t.reader t v)
  call-Kept (sending m) t v = write_encoded-Kept (encode m) t v
  call-Kept closing t v =
      kept.released _ (kept.closed (record t { cancelled = true }) (kept.cancelling t v))

  pub calls-Kept : (cs : List Call) (t : FtdiTransport) → P t → P (calls foreign usb cs t)
  calls-Kept [] t v = v
  calls-Kept (c ∷ cs) t v = calls-Kept cs (call foreign usb c t) (call-Kept c t v)
