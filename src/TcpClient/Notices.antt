-- ===== src/TcpClient/Notices.antt =====
-- lib/go/transport_tcp.go: what a connection handler hears of a client, and what is left of a client
-- that was closed.
use qdp.Base.{
  choose, ℕ, ◌≡◌, refl, ap, List, [], ◌∷◌, ◌++◌, true, false, Option, none, some, ◌⊎◌, inl, inr,
}
use qdp.Result.{Error, Result, ok, err, panic}
use qdp.Message.{Message, written_bytes}
use qdp.Reader.{ReadFn, Reader, read_message}
use qdp.TcpClient.{
  Notice, on_connect, on_disconnect, TcpClient, new_tcp_client, notify_disconnect, after_read, read,
  send, write, close,
}

-- A call of a method from outside, with what the connection does in it.
pub data Call : Type 0 where
  reading : ℕ → Call
  writing : (List ℕ → Option Error) → Message → Call
  closing : Option Error → Call

-- A call that does not end leaves the client as it was for the others.
abbrev pub read_end :
    {S : Type 0} → TcpClient S → Option (Result Message × TcpClient S) → TcpClient S
read_end t none = t
read_end t (some (res, t')) = t'

module _ {S : Type 0} (conn_read : ReadFn S) where
  abbrev pub call : Call → TcpClient S → TcpClient S
  call (reading fuel) t = read_end t (read conn_read fuel t)
  call (writing conn_write m) t = (write conn_write m t).1
  call (closing closed) t = (close closed t).1

  abbrev pub calls : List Call → TcpClient S → TcpClient S
  calls [] t = t
  calls (c ∷ cs) t = calls cs (call c t)

-- Of a client whose handler has heard `before` when it was made: either it is connected and the
-- handler has heard no more, or the handler has heard once that it is disconnected.
abbrev pub Heard : {S : Type 0} → List Notice → TcpClient S → Type 0
Heard before t =
    (t.has_handler ≡ true)
    × (((t.disconnected ≡ false) × (t.notices ≡ before))
        ⊎ ((t.disconnected ≡ true)
            × ((e : Option Error) × (t.notices ≡ before ++ (on_disconnect e ∷ [])))))

notify_disconnect-Heard :
    {S : Type 0} (before : List Notice) (e : Option Error) (t : TcpClient S)
    → Heard before t
    → Heard before (notify_disconnect e t)
unfolding notify_disconnect
notify_disconnect-Heard before e t (handler, inl (on, none_more)) =
    rw (handler, on) (refl, inr (refl, (e, ap (λ ns. ns ++ (on_disconnect e ∷ [])) none_more)))
notify_disconnect-Heard before e t (handler, inr (off, once)) =
    rw (handler, off) (refl, inr (refl, once))

after_read-Heard :
    {S : Type 0} (before : List Notice) (t : TcpClient S) (res : Result Message) (r : Reader S)
    → Heard before t
    → Heard before (after_read (res, r) t).1
unfolding after_read
after_read-Heard before t (ok m) r heard = heard
after_read-Heard before t (err e) r heard =
    notify_disconnect-Heard before (some e) (record t { reader = r }) heard
after_read-Heard before t panic r heard = heard

send-Heard :
    {S : Type 0} (before : List Notice) (conn_write : List ℕ → Option Error) (t : TcpClient S)
    (bytes : Result (List ℕ))
    → Heard before t
    → Heard before (send conn_write bytes t).1
unfolding send
send-Heard before conn_write t (ok bytes) heard = heard
send-Heard before conn_write t (err e) heard = heard
send-Heard before conn_write t panic heard = heard

read_end-Heard :
    {S : Type 0} (before : List Notice) (t : TcpClient S) (o : Option (Result Message × Reader S))
    → Heard before t
    → Heard before
        (read_end t (elim o [ none ↦ none | some outcome ↦ some (after_read outcome t) ]))
read_end-Heard before t none heard = heard
read_end-Heard before t (some (res, r)) heard = after_read-Heard before t res r heard

call-Heard :
    {S : Type 0} (conn_read : ReadFn S) (before : List Notice) (c : Call) (t : TcpClient S)
    → Heard before t
    → Heard before (call conn_read c t)
unfolding read write close
call-Heard conn_read before (reading fuel) t heard =
    choose (λ outcome. Heard before (read_end t outcome)) t.cancelled heard
      (read_end-Heard before t (read_message conn_read fuel t.reader) heard)
call-Heard {S} conn_read before (writing conn_write m) t heard =
    choose (λ (outcome : Result (Option Error) × TcpClient S). Heard before outcome.1) t.cancelled
      heard (send-Heard before conn_write t (written_bytes m) heard)
call-Heard conn_read before (closing closed) t heard =
    notify_disconnect-Heard before closed (record t { cancelled = true }) heard

-- A client made by NewTCPClientTransport with a handler tells it of the connection, and then of the
-- end of it at most once, over any sequence of calls of ReadMessage, WriteMessage and Close, with any
-- connection.
pub calls-Heard :
    {S : Type 0} (conn_read : ReadFn S) (s : S) (cs : List Call)
    → Heard (on_connect ∷ []) (calls conn_read cs (new_tcp_client s true))
unfolding new_tcp_client
calls-Heard {S} conn_read s cs = go cs (new_tcp_client s true) (refl, inl (refl, refl))
  where
    go :
        (cs : List Call) (t : TcpClient S)
        → Heard (on_connect ∷ []) t
        → Heard (on_connect ∷ []) (calls conn_read cs t)
    go [] t heard = heard
    go (c ∷ cs) t heard =
        go cs (call conn_read c t) (call-Heard conn_read (on_connect ∷ []) c t heard)
