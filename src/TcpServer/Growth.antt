-- ===== src/TcpServer/Growth.antt =====
-- lib/go/transport_tcp.go: what was sent to the clients of a TCP server only grows, and a client that is
-- out of the map stays out of it.
use qdp.Base.{
  choose, ℕ, ◌≡◌, refl, sym, ◌∙◌, List, [], ◌∷◌, ◌++◌, append-nil, true, Option, none, some,
}
use qdp.Result.{Error, Result, ok, err, panic}
use qdp.Message.{Message, written_bytes}
use qdp.TcpClient.{TcpClient, send, write, close}
use qdp.TcpServer.{Client, Network, set, after_send, send_to, map_client, close_client}
use qdp.TcpServer.Reading.{sent_to}
use qdp.TcpServer.Clients.{close-sent, set-others}

module _ {S : Type 0} where
  abbrev pub Extends : TcpClient S → TcpClient S → Type 0
  Extends s s' = (zs : List (List ℕ)) × (s'.sent ≡ s.sent ++ zs)

  abbrev pub Grows : Option (Client S) → Option (Client S) → Type 0
  Grows none o = Unit {0}
  Grows (some c) none = ⊥
  Grows (some c) (some c') = Extends c.socket c'.socket × (c'.listed ≡ true → c.listed ≡ true)

  pub same-Extends : (s s' : TcpClient S) → s'.sent ≡ s.sent → Extends s s'
  same-Extends s s' same = ([], same ∙ sym (append-nil s.sent))

  pub Grows-refl : (o : Option (Client S)) → Grows o o
  Grows-refl none = tt
  Grows-refl (some c) = (same-Extends c.socket c.socket refl, λ here. here)

  pub Grows-sent :
      (o o' : Option (Client S))
      → Grows o o'
      → (zs : List (List ℕ)) × (sent_to o' ≡ sent_to o ++ zs)
  unfolding sent_to
  Grows-sent none o' grown = (sent_to o', refl)
  Grows-sent (some c) none grown = absurd grown
  Grows-sent (some c) (some c') grown = grown.0

  write-Extends :
      (conn_write : List ℕ → Option Error) (m : Message) (s : TcpClient S)
      → Extends s (write conn_write m s).1
  unfolding write
  write-Extends conn_write m s =
      choose (λ (o : Result (Option Error) × TcpClient S). Extends s o.1) s.cancelled
        (same-Extends s s refl) (sent (written_bytes m))
    where
      sent : (r : Result (List ℕ)) → Extends s (send conn_write r s).1
      sent (ok bytes) = unfold send in (bytes ∷ [], refl)
      sent (err e) = unfold send in same-Extends s s refl
      sent panic = unfold send in same-Extends s s refl

  close-Extends : (e : Option Error) (s s' : TcpClient S) → Extends s s' → Extends s (close e s').1
  close-Extends e s s' (zs, grown) = (zs, close-sent e s' ∙ grown)

  after_send-Grows :
      (net : Network) (j : ℕ) (o : Result (Option Error) × TcpClient S) (d : Client S)
      → Extends d.socket o.1
      → Grows (some d) (some (after_send net j o d))
  unfolding after_send
  after_send-Grows net j (ok none, s) d grown = (grown, λ here. here)
  after_send-Grows net j (ok (some e), s) d grown =
      (close-Extends (net.conn_close j) d.socket s grown, λ here. cc)
  after_send-Grows net j (err e, s) d grown =
      (close-Extends (net.conn_close j) d.socket s grown, λ here. cc)
  after_send-Grows net j (panic, s) d grown = (grown, λ here. here)

  -- A client that is written to,
  pub written-Grows :
      (net : Network) (m : Message) (j : ℕ) (d : Client S)
      → Grows (some d) (some (after_send net j (write (net.conn_write j) m d.socket) d))
  written-Grows net m j d =
      after_send-Grows net j (write (net.conn_write j) m d.socket) d
        (write-Extends (net.conn_write j) m d.socket)

  send_to-Grows :
      (net : Network) (m : Message) (j : ℕ) (d : Client S)
      → Grows (some d) (some (send_to net m j d))
  unfolding send_to
  send_to-Grows net m j d =
      choose (λ c. Grows (some d) (some c)) d.listed (written-Grows net m j d) (Grows-refl (some d))

  close_client-Grows :
      (net : Network) (j : ℕ) (d : Client S) → Grows (some d) (some (close_client net j d))
  unfolding close_client
  close_client-Grows net j d =
      choose (λ c. Grows (some d) (some c)) d.listed
        (
          close-Extends (net.conn_close j) d.socket d.socket (same-Extends d.socket d.socket refl),
          λ here. here,
        )
        (Grows-refl (some d))

  -- all that WriteMessage writes to, and all that Close closes.
  pub send_all-Grows :
      (net : Network) (m : Message) (j : ℕ) (o : Option (Client S))
      → Grows o (map_client (send_to net m j) o)
  unfolding map_client
  send_all-Grows net m j none = tt
  send_all-Grows net m j (some d) = send_to-Grows net m j d

  pub close_all-Grows :
      (net : Network) (j : ℕ) (o : Option (Client S)) → Grows o (map_client (close_client net j) o)
  unfolding map_client
  close_all-Grows net j none = tt
  close_all-Grows net j (some d) = close_client-Grows net j d

  pub set-Grows :
      (clients : ℕ → Option (Client S)) (i : ℕ) (c : Client S)
      → Grows (clients i) (some c)
      → (j : ℕ) → Grows (clients j) (set i c clients j)
  set-Grows clients i c grown =
      set-others (λ j. Grows (clients j)) i c clients grown (λ j other. Grows-refl (clients j))
