-- ===== src/TcpClient/Ends.antt =====
-- lib/go/transport_tcp.go: by what a TCP client is marked as disconnected.
use qdp.Base.{
  if_true, if_false, subst, choose, Bool-cases, ℕ, ◌≡◌, refl, sym, ap, ◌∙◌, List, [], ◌∷◌, Bool,
  true, false, ◌&&◌, ◌||◌, not, Option, none, some, inl, inr,
}
use qdp.Result.{Error, Result, ok, err, panic}
use qdp.Message.{Message, written_bytes}
use qdp.Reader.{ReadFn, Reader, read_message}
use qdp.TcpClient.{
  TcpClient, new_tcp_client, notify_disconnect, after_read, read, send, write, close,
}
use qdp.TcpClient.Notices.{Call, reading, writing, closing, read_end, call, calls}

abbrev pub fails : {X : Type 0} → Option (Result Message × X) → Bool
fails none = false
fails (some (ok m, x)) = false
fails (some (err e, x)) = true
fails (some (panic, x)) = false

module _ {S : Type 0} (conn_read : ReadFn S) where
  -- A call that ends the connection: Close, and a ReadMessage that gives an error.
  abbrev pub ends : Call → TcpClient S → Bool
  ends (reading fuel) t = fails (read conn_read fuel t)
  ends (writing conn_write m) t = false
  ends (closing closed) t = true

  abbrev pub has_ended : List Call → TcpClient S → Bool
  has_ended [] t = false
  has_ended (c ∷ cs) t = ends c t || has_ended cs (call conn_read c t)

or_false : (b : Bool) → b ≡ (b || false)
or_false true = refl
or_false false = refl

or_true : (b : Bool) → true ≡ (b || true)
or_true true = refl
or_true false = refl

or_assoc : (a b c : Bool) → ((a || b) || c) ≡ (a || (b || c))
or_assoc true b c = refl
or_assoc false b c = refl

module _ {S : Type 0} where
  -- A client with a handler, which is marked as disconnected if it is closed.
  record IsTelling (t : TcpClient S) : Type 0 where
    handler : t.has_handler ≡ true
    closed : t.cancelled ≡ true → t.disconnected ≡ true

  -- The client has become `t'`, marked as disconnected if it was or if `ended`.
  record Follows (ended : Bool) (t t' : TcpClient S) : Type 0 where
    telling : IsTelling t'
    marked : t'.disconnected ≡ (t.disconnected || ended)

  same-Follows :
      (t t' : TcpClient S)
      → t'.has_handler ≡ t.has_handler
      → t'.cancelled ≡ t.cancelled
      → t'.disconnected ≡ t.disconnected
      → IsTelling t
      → Follows false t t'
  same-Follows t t' h c d v = record {
    telling = record { handler = h ∙ v.handler; closed = λ over. d ∙ v.closed (sym c ∙ over) };
    marked = d ∙ or_false t.disconnected;
  }

  told-Follows :
      (e : Option Error) (t u : TcpClient S)
      → u.has_handler ≡ true
      → u.disconnected ≡ t.disconnected
      → Follows true t (notify_disconnect e u)
  unfolding notify_disconnect
  told-Follows e t u h d = elim (Bool-cases u.disconnected) [
    | inl off ↦
        choose (Follows true t) (u.has_handler && not u.disconnected)
          (record {
            telling = record { handler = h; closed = λ over. refl };
            marked = or_true t.disconnected;
          })
          (record {
            telling = record { handler = h; closed = λ over. off };
            marked = off ∙ or_true t.disconnected;
          })
    | inr on ↦
        subst (Follows true t)
          (sym (
            if_true (u.has_handler && not u.disconnected) _ _
              (ap (λ b. u.has_handler && not b) on ∙ ap (λ b. b && true) h)))
          (record {
            telling = record { handler = h; closed = λ over. refl };
            marked = or_true t.disconnected;
          })
  ]

  read_end-Follows :
      (t : TcpClient S) (o : Option (Result Message × Reader S))
      → IsTelling t
      → let outcome : Option (Result Message × TcpClient S) = elim o [
        | none ↦ none
        | some outcome ↦ some (after_read outcome t)
      ] in
        Follows (fails outcome) t (read_end t outcome)
  unfolding after_read
  read_end-Follows t none v = same-Follows t t refl refl refl v
  read_end-Follows t (some (ok m, r)) v = same-Follows t (record t { reader = r }) refl refl refl v
  read_end-Follows t (some (err e, r)) v =
      told-Follows (some e) t (record t { reader = r }) v.handler refl
  read_end-Follows t (some (panic, r)) v = same-Follows t (record t { reader = r }) refl refl refl v

  call-Follows :
      (conn_read : ReadFn S) (c : Call) (t : TcpClient S)
      → IsTelling t
      → Follows (ends conn_read c t) t (call conn_read c t)
  unfolding read write close
  call-Follows conn_read (reading fuel) t v = elim (Bool-cases t.cancelled) [
    | inl over ↦
        subst (λ (o : Option (Result Message × TcpClient S)). Follows (fails o) t (read_end t o))
          (sym (if_true t.cancelled _ _ over))
          (record { telling = v; marked = v.closed over ∙ or_true t.disconnected })
    | inr on ↦
        subst (λ (o : Option (Result Message × TcpClient S)). Follows (fails o) t (read_end t o))
          (sym (if_false t.cancelled _ _ on))
          (read_end-Follows t (read_message conn_read fuel t.reader) v)
  ]
  call-Follows conn_read (writing conn_write m) t v =
      choose (λ (o : Result (Option Error) × TcpClient S). Follows false t o.1) t.cancelled
        (same-Follows t t refl refl refl v) (sent (written_bytes m))
    where
      sent : (r : Result (List ℕ)) → Follows false t (send conn_write r t).1
      sent (ok bytes) = unfold send in same-Follows t _ refl refl refl v
      sent (err e) = unfold send in same-Follows t t refl refl refl v
      sent panic = unfold send in same-Follows t t refl refl refl v
  call-Follows conn_read (closing closed) t v =
      told-Follows closed t (record t { cancelled = true }) v.handler refl

  calls-marked :
      (conn_read : ReadFn S) (cs : List Call) (t : TcpClient S)
      → IsTelling t
      → (calls conn_read cs t).disconnected ≡ (t.disconnected || has_ended conn_read cs t)
  calls-marked conn_read [] t v = or_false t.disconnected
  calls-marked conn_read (c ∷ cs) t v =
      let first = call-Follows conn_read c t v in
      calls-marked conn_read cs (call conn_read c t) first.telling
      ∙ ap (λ b. b || has_ended conn_read cs (call conn_read c t)) first.marked
      ∙ or_assoc t.disconnected (ends conn_read c t) (has_ended conn_read cs (call conn_read c t))

  -- A new client with a handler.
  pub calls-has_ended :
      (conn_read : ReadFn S) (s : S) (cs : List Call)
      → let t = new_tcp_client s true in
        (calls conn_read cs t).disconnected ≡ has_ended conn_read cs t
  unfolding new_tcp_client
  calls-has_ended conn_read s cs =
      calls-marked conn_read cs (new_tcp_client s true)
        (record { handler = refl; closed = λ over. over })
