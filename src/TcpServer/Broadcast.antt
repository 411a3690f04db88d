-- ===== src/TcpServer/Broadcast.antt =====
-- lib/go/transport_tcp.go: what WriteMessage and the read loops of a TCP server send to its clients.
use qdp.Base.{
  Bool-cases, subst, ℕ, zero, suc, ◌<◌, ◌≡◌, refl, sym, ap, ◌∙◌, arith, if◌then◌else◌, ◌==◌, ==→eq,
  append_assoc, append-nil, List, [], ◌∷◌, ◌++◌, Bool, true, false, Option, none, some, inl, inr,
}
use qdp.Result.{Error, Result, ok, eof}
use qdp.Message.{Message, written_bytes}
use qdp.Message.Frame.{frame, Fits}
use qdp.Message.Encoding.{written_bytes-frame}
use qdp.TcpClient.{send, write}
use qdp.TcpServer.Clients.{close-cancelled, close-sent}
use qdp.TcpServer.{
  Client, TcpServer, Network, after_send, send_to, map_client, send_all, errors_of, send_errors,
  broadcast_errors, write_message,
}

-- What a broadcast of `bytes` does to one client, with the errors that WriteMessage hears of it: it is
-- not in the map and stays as it is; it gets the bytes and stays in the map; its connection refuses
-- them, or it was closed before, and then it is closed and not in the map.
pub data Reached {S : Type 0} (net : Network) (bytes : List ℕ) (i : ℕ) (c c' : Client S)
    : List Error → Type 0 where
  absent : c.listed ≡ false → c' ≡ c → Reached net bytes i c c' []
  reached :
      c.listed ≡ true
      → c'.listed ≡ true
      → net.conn_write i bytes ≡ none
      → c'.socket ≡ (record c.socket { sent = c.socket.sent ++ (bytes ∷ []) })
      → Reached net bytes i c c' []
  failed :
      (e : Error)
      → c.listed ≡ true
      → c'.listed ≡ false
      → net.conn_write i bytes ≡ some e
      → c'.socket.cancelled ≡ true
      → c'.socket.sent ≡ c.socket.sent ++ (bytes ∷ [])
      → Reached net bytes i c c' (e ∷ [])
  over :
      c.listed ≡ true
      → c.socket.cancelled ≡ true
      → c'.listed ≡ false
      → c'.socket.cancelled ≡ true
      → c'.socket.sent ≡ c.socket.sent
      → Reached net bytes i c c' (eof ∷ [])

module _ {S : Type 0} (net : Network) (bytes : List ℕ) (i : ℕ) (c : Client S) where
  answered :
      (o : Option Error)
      → c.listed ≡ true
      → net.conn_write i bytes ≡ o
      → let s = record c.socket { sent = c.socket.sent ++ (bytes ∷ []) } in
        Reached net bytes i c (after_send net i (ok o, s) c) (errors_of (ok o, s))
  unfolding after_send errors_of
  answered none here answer = reached here here answer refl
  answered (some e) here answer =
      failed e here refl answer (close-cancelled (net.conn_close i) _)
        (close-sent (net.conn_close i) (record c.socket { sent = c.socket.sent ++ (bytes ∷ []) }))

  written :
      (b : Bool) (r : Result (List ℕ))
      → c.socket.cancelled ≡ b
      → c.listed ≡ true
      → r ≡ ok bytes
      → let o = if b then (ok (some eof), c.socket) else send (net.conn_write i) r c.socket in
        Reached net bytes i c (after_send net i o c) (errors_of o)
  unfolding after_send errors_of send
  written true r gone here encoded =
      over here gone refl (close-cancelled (net.conn_close i) c.socket)
        (close-sent (net.conn_close i) c.socket)
  written false r on here encoded =
      subst
        (λ r.
          Reached net bytes i c (after_send net i (send (net.conn_write i) r c.socket) c)
            (errors_of (send (net.conn_write i) r c.socket)))
        (sym encoded) (answered (net.conn_write i bytes) here refl)

  in_map :
      (b : Bool) (c' : Client S) (es : List Error)
      → c.listed ≡ b
      → (b ≡ true → Reached net bytes i c c' es)
      → Reached net bytes i c (if b then c' else c) (if b then es else [])
  in_map true c' es here then_reached = then_reached refl
  in_map false c' es gone then_reached = absent gone refl

module _ {S : Type 0} (net : Network) (m : Message) where
  send_to-Reached :
      (i : ℕ) (c : Client S)
      → Fits m
      → Reached net (frame m) i c (send_to net m i c) (send_errors net m i (some c))
  unfolding send_to send_errors write
  send_to-Reached i c fits =
      in_map net (frame m) i c c.listed (after_send net i (write (net.conn_write i) m c.socket) c)
        (errors_of (write (net.conn_write i) m c.socket)) refl
        (λ here.
          written net (frame m) i c c.socket.cancelled (written_bytes m) refl here
            (written_bytes-frame m fits))

  errors_among :
      (clients : ℕ → Option (Client S)) (i n : ℕ)
      → i < n
      → (es : List Error) × (fs : List Error) × (broadcast_errors net m clients n
          ≡ es ++ (send_errors net m i (clients i) ++ fs))
  unfolding broadcast_errors
  errors_among clients i zero early = absurd (omega arith)
  errors_among clients i (suc n) early = elim (Bool-cases (i == n)) [
    | inl same ↦ (
      broadcast_errors net m clients n,
      [],
      ap (λ es. broadcast_errors net m clients n ++ es)
          (ap (λ k. send_errors net m k (clients k)) (sym (==→eq i n same))
            ∙ sym (append-nil (send_errors net m i (clients i)))),
    )
    | inr other ↦
        let (es, fs, among) = errors_among clients i n (ground arith) in
        (
          es,
          fs ++ send_errors net m n (clients n),
          ap (λ xs. xs ++ send_errors net m n (clients n)) among
              ∙ append_assoc es (send_errors net m i (clients i) ++ fs) _
              ∙ ap (λ xs. es ++ xs) (append_assoc (send_errors net m i (clients i)) fs _),
        )
  ]

-- WriteMessage of a TCP server, for a message whose frame has a size that is a uint32: each client that
-- it has accepted is reached by the frame, once, or if its connection refuses that or was closed
-- before, it is closed and taken out of the map, and the error is one of those that WriteMessage gives;
-- a client that is not in the map stays as it is.
pub write_message-Reached :
    {S : Type 0} (net : Network) (m : Message) (t : TcpServer S) (i : ℕ) (c : Client S)
    → Fits m
    → i < t.accepted
    → t.clients i ≡ some c
    → (c' : Client S) × (own : List Error) × (es : List Error) × (fs : List Error) × ((write_message
            net m t).1.clients
          i
        ≡ some c')
      × Reached net (frame m) i c c' own
      × ((write_message net m t).0 ≡ es ++ (own ++ fs))
unfolding write_message send_all map_client
write_message-Reached net m t i c fits early here =
    let (es, fs, among) = errors_among net m t.clients i t.accepted early in
    (
      send_to net m i c,
      send_errors net m i (some c),
      es,
      fs,
      ap (map_client (send_to net m i)) here,
      send_to-Reached net m i c fits,
      among ∙ ap (λ o. es ++ (send_errors net m i o ++ fs)) here,
    )
