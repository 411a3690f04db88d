-- ===== src/TcpServer/Clients.antt =====
-- lib/go/transport_tcp.go: what holds of one client of a TCP server and its read loop.
use qdp.Base.{
  if_true, if_false, choose, Bool-cases, ==→eq, ℕ, ◌≡◌, refl, sym, ap, subst, ◌∙◌, arith, ◌==◌,
  if◌then◌else◌, List, [], ◌∷◌, ◌++◌, append-nil, Bool, true, false, ◌&&◌, not, Option, none, some,
  ◌⊎◌, inl, inr,
}
use qdp.Result.{Error, Result, ok, err, panic}
use qdp.Message.{Message, written_bytes}
use qdp.TcpClient.{TcpClient, notify_disconnect, send, write, close}
use qdp.TcpServer.{
  ReadLoop, at_head, in_read, stopped, at_range, at_send, Client, Network, set, after_send, send_to,
  map_client, close_client,
}

-- The messages that a client has got into msgCh.
unfoldable pub from : ℕ → List (ℕ × Message) → List Message
from i [] = []
from i ((j, m) ∷ puts) = let rest = from i puts in if j == i then m ∷ rest else rest

-- The message that a read loop has not yet sent to msgCh.
abbrev pub held : ReadLoop → List Message
held at_head = []
held in_read = []
held stopped = []
held (at_range m r) = m ∷ []
held (at_send m r) = m ∷ []

-- The messages that ReadMessage of the client has given are those that have got into msgCh, the one
-- that its loop holds, and what was dropped, in order; a message is dropped only by a loop that stops when the context is done. A client that is not
-- in the map is closed, or its loop has stopped.
pub record IsOrdered {S : Type 0} (done : Bool) (ps : List Message) (c : Client S) : Type 0 where
  pub order : c.received ≡ ps ++ (held c.read_loop ++ c.dropped)
  pub drops : (c.dropped ≡ []) ⊎ ((done ≡ true) × (c.read_loop ≡ stopped))
  pub removed : (c.listed ≡ true) ⊎ ((c.socket.cancelled ≡ true) ⊎ (c.read_loop ≡ stopped))

-- A client that was not accepted has got nothing into msgCh.
abbrev pub InOrder : {S : Type 0} → Bool → List Message → Option (Client S) → Type 0
InOrder done ps none = ps ≡ []
InOrder done ps (some c) = IsOrdered done ps c

pub from-append :
    (i j : ℕ) (m : Message) (puts : List (ℕ × Message))
    → from i (puts ++ ((j, m) ∷ [])) ≡ from i puts ++ (if j == i then m ∷ [] else [])
unfolding from
from-append i j m [] = ground arith
from-append i j m ((k, n) ∷ puts) =
    ap (λ rest. if k == i then n ∷ rest else rest) (from-append i j m puts)
    ∙ choose_append (k == i) n (from i puts) (if j == i then m ∷ [] else [])
  where
    choose_append :
        (b : Bool) (n : Message) (rest end : List Message)
        → (if b then n ∷ (rest ++ end) else rest ++ end) ≡ (if b then n ∷ rest else rest) ++ end
    choose_append true n rest end = refl
    choose_append false n rest end = refl

module _ {S : Type 0} where
  pub close-cancelled : (e : Option Error) (s : TcpClient S) → (close e s).1.cancelled ≡ true
  unfolding close notify_disconnect
  close-cancelled e s =
      choose (λ (u : TcpClient S). u.cancelled ≡ true) (s.has_handler && not s.disconnected) refl
        refl

  pub close-sent : (e : Option Error) (s : TcpClient S) → (close e s).1.sent ≡ s.sent
  unfolding close notify_disconnect
  close-sent e s =
      choose (λ (u : TcpClient S). u.sent ≡ s.sent) (s.has_handler && not s.disconnected) refl refl

  pub write-cancelled :
      (conn_write : List ℕ → Option Error) (m : Message) (s : TcpClient S)
      → (write conn_write m s).1.cancelled ≡ s.cancelled
  unfolding write
  write-cancelled conn_write m s =
      choose (λ (o : Result (Option Error) × TcpClient S). o.1.cancelled ≡ s.cancelled) s.cancelled
        refl (sent (written_bytes m))
    where
      sent : (r : Result (List ℕ)) → (send conn_write r s).1.cancelled ≡ s.cancelled
      sent (ok bytes) = unfold send in refl
      sent (err e) = unfold send in refl
      sent panic = unfold send in refl

  still_removed :
      (c : Client S) (s : TcpClient S)
      → s.cancelled ≡ c.socket.cancelled
      → (c.listed ≡ true) ⊎ ((c.socket.cancelled ≡ true) ⊎ (c.read_loop ≡ stopped))
      → (c.listed ≡ true) ⊎ ((s.cancelled ≡ true) ⊎ (c.read_loop ≡ stopped))
  still_removed c s same (inl here) = inl here
  still_removed c s same (inr (inl gone)) = inr (inl (same ∙ gone))
  still_removed c s same (inr (inr stops)) = inr (inr stops)

  module _ (done : Bool) (ps : List Message) (net : Network) (i : ℕ) where
    pub after_send-IsOrdered :
        (o : Result (Option Error) × TcpClient S) (c : Client S)
        → o.1.cancelled ≡ c.socket.cancelled
        → IsOrdered done ps c
        → IsOrdered done ps (after_send net i o c)
    unfolding after_send
    after_send-IsOrdered (ok none, s) c same v = record {
      order = v.order;
      drops = v.drops;
      removed = still_removed c s same v.removed;
    }
    after_send-IsOrdered (ok (some e), s) c same v = record {
      order = v.order;
      drops = v.drops;
      removed = inr (inl (close-cancelled (net.conn_close i) s));
    }
    after_send-IsOrdered (err e, s) c same v = record {
      order = v.order;
      drops = v.drops;
      removed = inr (inl (close-cancelled (net.conn_close i) s));
    }
    after_send-IsOrdered (panic, s) c same v = record {
      order = v.order;
      drops = v.drops;
      removed = still_removed c s same v.removed;
    }

    pub send_to-IsOrdered :
        (m : Message) (c : Client S) → IsOrdered done ps c → IsOrdered done ps (send_to net m i c)
    unfolding send_to
    send_to-IsOrdered m c v =
        choose (IsOrdered done ps) c.listed
          (after_send-IsOrdered (write (net.conn_write i) m c.socket) c
            (write-cancelled (net.conn_write i) m c.socket) v)
          v

    pub close_client-IsOrdered :
        (c : Client S) → IsOrdered done ps c → IsOrdered done ps (close_client net i c)
    unfolding close_client
    close_client-IsOrdered c v =
        choose (IsOrdered done ps) c.listed
          (record {
            order = v.order;
            drops = v.drops;
            removed = inr (inl (close-cancelled (net.conn_close i) c.socket));
          })
          v

  pub map_client-InOrder :
      (done : Bool) (ps : List Message) (f : Client S → Client S)
      → ((c : Client S) → IsOrdered done ps c → IsOrdered done ps (f c))
      → (o : Option (Client S)) → InOrder done ps o
      → InOrder done ps (map_client f o)
  unfolding map_client
  map_client-InOrder done ps f keeps none v = v
  map_client-InOrder done ps f keeps (some c) v = keeps c v

  pub map_client-none : (f : Client S → Client S) → map_client f none ≡ none
  unfolding map_client
  map_client-none f = refl

  pub done-InOrder :
      (done : Bool) (ps : List Message) (o : Option (Client S))
      → InOrder done ps o
      → InOrder true ps o
  done-InOrder done ps none v = v
  done-InOrder done ps (some c) v = record {
    order = v.order;
    drops = elim v.drops [ inl kept ↦ inl kept | inr (now, stops) ↦ inr (refl, stops) ];
    removed = v.removed;
  }

  pub set-others :
      (P : ℕ → Option (Client S) → Type 0) (i : ℕ) (c : Client S) (clients : ℕ → Option (Client S))
      → P i (some c)
      → ((j : ℕ) → (j == i) ≡ false → P j (clients j))
      → (j : ℕ) → P j (set i c clients j)
  unfolding set
  set-others P i c clients here there j = elim (Bool-cases (j == i)) [
    | inl same ↦
        subst (P j) (sym (if_true (j == i) _ _ same))
          (subst (λ k. P k (some c)) (sym (==→eq j i same)) here)
    | inr other ↦ subst (P j) (sym (if_false (j == i) _ _ other)) (there j other)
  ]

  -- A loop that has not stopped has dropped nothing.
  pub running :
      (done : Bool) (ps : List Message) (c : Client S) (l : ReadLoop)
      → IsOrdered done ps c
      → c.read_loop ≡ l
      → (l ≡ stopped → ⊥)
      → (c.received ≡ ps ++ held l)
        × (c.dropped ≡ [])
        × ((c.listed ≡ true) ⊎ (c.socket.cancelled ≡ true))
  running done ps c l v stands goes = elim v.drops [
    | inl kept ↦ (
      v.order
          ∙ ap (λ ms. ps ++ (held c.read_loop ++ ms)) kept
          ∙ ap (λ k. ps ++ (held k ++ [])) stands
          ∙ ap (λ ms. ps ++ ms) (append-nil (held l)),
      kept,
      elim v.removed [
        | inl here ↦ inl here
        | inr (inl over) ↦ inr over
        | inr (inr stops) ↦ absurd (goes (sym stands ∙ stops))
      ],
    )
    | inr (now, stops) ↦ absurd (goes (sym stands ∙ stops))
  ]

  pub going :
      (done : Bool) (ps : List Message) (c : Client S)
      → c.received ≡ ps ++ held c.read_loop
      → c.dropped ≡ []
      → (c.listed ≡ true) ⊎ ((c.socket.cancelled ≡ true) ⊎ (c.read_loop ≡ stopped))
      → IsOrdered done ps c
  going done ps c order kept removed = record {
    order =
        order
        ∙ ap (λ ms. ps ++ ms) (sym (append-nil (held c.read_loop)))
        ∙ ap (λ ms. ps ++ (held c.read_loop ++ ms)) (sym kept);
    drops = inl kept;
    removed = removed;
  }

  pub still_there :
      (c : Client S) (over : Bool)
      → over ≡ c.socket.cancelled
      → (c.listed ≡ true) ⊎ (c.socket.cancelled ≡ true)
      → (l : ReadLoop) → (c.listed ≡ true) ⊎ ((over ≡ true) ⊎ (l ≡ stopped))
  still_there c over same (inl here) l = inl here
  still_there c over same (inr gone) l = inr (inl (same ∙ gone))
