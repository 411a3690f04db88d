-- ===== src/TcpClient/Closing.antt =====
-- lib/go/transport_tcp.go: what is left of a client that was closed.
use qdp.Base.{
  if_true, if_false, ℕ, ◌≡◌, refl, sym, ap, ◌∙◌, if◌then◌else◌, List, [], ◌∷◌, Bool, true, false,
  ◌&&◌, not, Option, some,
}
use qdp.Result.{Error, Result, ok, err, eof}
use qdp.Message.{Message}
use qdp.Reader.{ReadFn}
use qdp.TcpClient.{TcpClient, notify_disconnect, read, write, close}
use qdp.TcpClient.Notices.{Call, reading, writing, closing, read_end, call, calls}

-- The context is done, and the handler, if there is one, has heard of it.
abbrev pub IsClosed : {S : Type 0} → TcpClient S → Type 0
IsClosed t = (t.cancelled ≡ true) × ((t.has_handler && not t.disconnected) ≡ false)

choose_told {ℓ} :
    {A : Type ℓ} (P : A → Type 0) (b : Bool) {x y : A}
    → P x
    → (b ≡ false → P y)
    → P (if b then x else y)
choose_told P true px py = px
choose_told P false px py = py refl

and-false : (b : Bool) → (b && false) ≡ false
and-false true = refl
and-false false = refl

close-IsClosed : {S : Type 0} (e : Option Error) (t : TcpClient S) → IsClosed (close e t).1
unfolding close notify_disconnect
close-IsClosed e t =
    choose_told IsClosed (t.has_handler && not t.disconnected) (refl, and-false t.has_handler)
      (λ told. (refl, told))

call-closed :
    {S : Type 0} (conn_read : ReadFn S) (c : Call) (t : TcpClient S)
    → IsClosed t
    → call conn_read c t ≡ t
unfolding read write close notify_disconnect
call-closed conn_read (reading fuel) t (over, told) = ap (read_end t) (if_true t.cancelled _ _ over)
call-closed {S} conn_read (writing conn_write m) t (over, told) =
    ap (λ (outcome : Result (Option Error) × TcpClient S). outcome.1) (if_true t.cancelled _ _ over)
call-closed conn_read (closing closed) t (over, told) =
    if_false (t.has_handler && not t.disconnected) _ _ told
    ∙ ap (λ b. record t { cancelled = b }) (sym over)

calls-closed :
    {S : Type 0} (conn_read : ReadFn S) (cs : List Call) (t : TcpClient S)
    → IsClosed t
    → calls conn_read cs t ≡ t
calls-closed conn_read [] t closed = refl
calls-closed conn_read (c ∷ cs) t closed =
    ap (calls conn_read cs) (call-closed conn_read c t closed) ∙ calls-closed conn_read cs t closed

-- After Close nothing more happens to a client, whatever is called: nothing is read from the
-- connection or written to it, the handler hears nothing more, ReadMessage and WriteMessage give
-- io.EOF.
pub calls-close :
    {S : Type 0} (conn_read : ReadFn S) (cs : List Call) (fuel : ℕ)
    (conn_write : List ℕ → Option Error) (m : Message) (e : Option Error) (t : TcpClient S)
    → (calls conn_read cs (close e t).1 ≡ (close e t).1)
      × (read conn_read fuel (close e t).1 ≡ some (err eof, (close e t).1))
      × (write conn_write m (close e t).1 ≡ (ok (some eof), (close e t).1))
unfolding read write
calls-close conn_read cs fuel conn_write m e t =
    let closed = close-IsClosed e t in
    let (over, _) = closed in
    (
      calls-closed conn_read cs (close e t).1 closed,
      if_true (close e t).1.cancelled _ _ over,
      if_true (close e t).1.cancelled _ _ over,
    )
