-- ===== src/TcpServer/Winding.antt =====
-- lib/go/transport_tcp.go: what the read loop of one client of a TCP server, whose context is done, keeps
-- while others go on.
use qdp.Base.{
  if_true, if_false, choose, Bool-cases, subst, ==→eq, ==-refl, arith, ℕ, ltb, ◌≤◌, ◌≡◌, refl, sym,
  ap, ◌∙◌, ◌==◌, [], ◌∷◌, ◌++◌, length, true, false, Option, none, some, inl, inr,
}
use qdp.Result.{Error, Result, ok, err, panic}
use qdp.Message.{Message}
use qdp.TcpClient.{TcpClient, write}
use qdp.TcpServer.{
  msg_ch_size, Range, ReadLoop, at_head, in_read, stopped, at_range, at_send, Client, TcpServer,
  Network, set, after_send, send_to, map_client, close_client,
}
use qdp.TcpServer.Clients.{close-cancelled, write-cancelled}
use qdp.TcpServer.Reading.{
  begin_range, after_receive, may_reach, mark_reached, at_client, reach_client, is_over, end_range,
  put, give_up, Choice, goes_on, gives_up, reaches, range_step, send_or_stop,
}
use qdp.TcpServer.Turns.{rank}

-- A bound on the turns that a loop needs, if there is one.
abbrev pub Below : Option ℕ → ReadLoop → Type 0
Below none l = Unit {0}
Below (some n) l = rank l ≤ n

-- The loop is within the bound; and if it is in ReadMessage of its client, then the client is closed.
pub record IsWinding {S : Type 0} (b : Option ℕ) (c : Client S) : Type 0 where
  pub below : Below b c.read_loop
  pub closed : c.read_loop ≡ in_read → c.socket.cancelled ≡ true

abbrev pub Winds : {S : Type 0} → Option (Client S) → Option ℕ → Type 0
Winds (some c) b = IsWinding b c
Winds none none = Unit {0}
Winds none (some n) = ⊥

pub Below-lower : (b : Option ℕ) (l l' : ReadLoop) → rank l' ≤ rank l → Below b l → Below b l'
Below-lower none l l' lower v = tt
Below-lower (some n) l l' lower v = omega arith

-- What others do to a client: its loop stays, and it stays closed.
abbrev pub Quiet : {S : Type 0} → Client S → Client S → Type 0
Quiet c c' = (c'.read_loop ≡ c.read_loop) × (c.socket.cancelled ≡ true → c'.socket.cancelled ≡ true)

module _ {S : Type 0} where
  pub Quiet-IsWinding :
      (b : Option ℕ) (c c' : Client S) → Quiet c c' → IsWinding b c → IsWinding b c'
  Quiet-IsWinding b c c' (same, stays) v = record {
    below = subst (Below b) (sym same) v.below;
    closed = λ reading. stays (v.closed (sym same ∙ reading));
  }

  pub stopped-IsWinding : (b : Option ℕ) (c : Client S) → c.read_loop ≡ stopped → IsWinding b c
  unfolding rank
  stopped-IsWinding b c stops = record {
    below = subst (Below b) (sym stops) (least b);
    closed = λ reading. absurd (apart (sym stops ∙ reading));
  }
    where
      least : (b : Option ℕ) → Below b stopped
      least none = tt
      least (some n) = omega arith

      apart : stopped ≡ in_read → ⊥
      apart e = cc

  pub after_send-Quiet :
      (net : Network) (j : ℕ) (m : Message) (d : Client S)
      → Quiet d (after_send net j (write (net.conn_write j) m d.socket) d)
  unfolding after_send
  after_send-Quiet net j m d =
      quiet (write (net.conn_write j) m d.socket) (write-cancelled (net.conn_write j) m d.socket)
    where
      quiet :
          (o : Result (Option Error) × TcpClient S)
          → o.1.cancelled ≡ d.socket.cancelled
          → Quiet d (after_send net j o d)
      quiet (ok none, s) same = (refl, λ gone. same ∙ gone)
      quiet (ok (some e), s) same = (refl, λ gone. close-cancelled (net.conn_close j) s)
      quiet (err e, s) same = (refl, λ gone. close-cancelled (net.conn_close j) s)
      quiet (panic, s) same = (refl, λ gone. same ∙ gone)

  pub send_to-Quiet :
      (net : Network) (m : Message) (j : ℕ) (d : Client S) → Quiet d (send_to net m j d)
  unfolding send_to
  send_to-Quiet net m j d =
      choose (Quiet d) d.listed (after_send-Quiet net j m d) (refl, λ gone. gone)

  pub close_client-Quiet : (net : Network) (j : ℕ) (d : Client S) → Quiet d (close_client net j d)
  unfolding close_client
  close_client-Quiet net j d =
      choose (Quiet d) d.listed (refl, λ gone. close-cancelled (net.conn_close j) d.socket)
        (refl, λ gone. gone)

  pub map_client-Winds :
      (f : Client S → Client S) (b : Option ℕ) (o : Option (Client S))
      → ((c : Client S) → Quiet c (f c))
      → Winds o b
      → Winds (map_client f o) b
  unfolding map_client
  map_client-Winds f b none quiet v = v
  map_client-Winds f b (some c) quiet v = Quiet-IsWinding b c (f c) (quiet c) v

  module _ (b : Option ℕ) (clients : ℕ → Option (Client S)) (i : ℕ) where
    pub own-Winds : (c : Client S) → IsWinding b c → Winds (set i c clients i) b
    unfolding set
    own-Winds c v =
        subst (λ o. Winds o b) (sym (if_true (i == i) (some c) (clients i) (==-refl i))) v

    pub other-Winds :
        (k : ℕ) (c : Client S)
        → (i == k) ≡ false
        → Winds (clients i) b
        → Winds (set k c clients i) b
    unfolding set
    other-Winds k c other v =
        subst (λ o. Winds o b) (sym (if_false (i == k) (some c) (clients i) other)) v

  -- What the server needs to end, as far as it concerns the loop of the client `i`.
  pub record IsEnding (b : Option ℕ) (i : ℕ) (t : TcpServer S) : Type 0 where
    pub over : t.cancelled ≡ true
    pub winds : Winds (t.clients i) b

  module _ (b : Option ℕ) (i : ℕ) (k : ℕ) (other : (i == k) ≡ false) where
    -- A step of the loop of another client, which only changes that client,
    pub plain-IsEnding :
        (c : Client S) (t u : TcpServer S)
        → u.cancelled ≡ t.cancelled
        → u.clients ≡ set k c t.clients
        → IsEnding b i t
        → IsEnding b i u
    plain-IsEnding c t u same changed v = record {
      over = same ∙ v.over;
      winds =
          subst (λ (f : ℕ → Option (Client S)). Winds (f i) b) (sym changed)
            (other-Winds b t.clients i k c other v.winds);
    }

    -- or one that it reaches,
    reached-IsEnding :
        (net : Network) (c : Client S) (m : Message) (r : Range) (j : ℕ) (o : Option (Client S))
        (t : TcpServer S)
        → IsEnding b i t
        → t.clients j ≡ o
        → IsEnding b i (at_client net k c m r j o t)
    unfolding at_client set
    reached-IsEnding net c m r j none t v there = v
    reached-IsEnding net c m r j (some d) t v there =
        let c' = record c { read_loop = at_range m (mark_reached j r) } in
        let d' = after_send net j (write (net.conn_write j) m d.socket) d in
        choose (IsEnding b i) (j == k) (plain-IsEnding c' t _ refl refl v) (record {
          over = v.over;
          winds = elim (Bool-cases (i == j)) [
            | inl same ↦
                subst (λ o. Winds o b)
                  (sym (if_true (i == j) (some d') (set k c' t.clients i) same))
                  (Quiet-IsWinding b d d' (after_send-Quiet net j m d)
                    (subst (λ o. Winds o b) (ap t.clients (==→eq i j same) ∙ there) v.winds))
            | inr apart ↦
                other-Winds b (set k c' t.clients) i j d' apart
                  (other-Winds b t.clients i k c' other v.winds)
          ];
        })

    -- whatever its step is.
    pub range_step-others :
        (net : Network) (choice : Choice) (c : Client S) (m : Message) (r : Range) (t : TcpServer S)
        → IsEnding b i t
        → IsEnding b i (range_step net choice k c m r t)
    unfolding range_step reach_client end_range
    range_step-others net goes_on c m r t v =
        choose (IsEnding b i) (is_over t.clients r r.bound)
          (plain-IsEnding (record c { read_loop = at_send m r }) t _ refl refl v) v
    range_step-others net gives_up c m r t v = v
    range_step-others net (reaches j) c m r t v =
        choose (IsEnding b i) (may_reach j r) (reached-IsEnding net c m r j (t.clients j) t v refl)
          v

    pub after_receive-others :
        (c : Client S) (o : Option (Result Message × TcpClient S)) (t : TcpServer S)
        → IsEnding b i t
        → IsEnding b i (after_receive k c o t)
    unfolding after_receive
    after_receive-others c none t v = v
    after_receive-others c (some (ok m, s)) t v =
        plain-IsEnding
          (record c {
            socket = s;
            read_loop = at_range m (begin_range t);
            received = c.received ++ (m ∷ []);
          })
          t _ refl refl v
    after_receive-others c (some (err e, s)) t v =
        plain-IsEnding (record c { socket = s; read_loop = stopped; listed = false }) t _ refl refl
          v
    after_receive-others c (some (panic, s)) t v =
        plain-IsEnding (record c { socket = s; read_loop = stopped }) t _ refl refl v

    pub send_or_stop-others :
        (choice : Choice) (c : Client S) (m : Message) (t : TcpServer S)
        → IsEnding b i t
        → IsEnding b i (send_or_stop choice k c m t)
    unfolding send_or_stop put give_up
    send_or_stop-others goes_on c m t v =
        choose (IsEnding b i) (ltb (length t.msg_ch) msg_ch_size)
          (plain-IsEnding (record c { read_loop = at_head }) t _ refl refl v) v
    send_or_stop-others gives_up c m t v =
        choose (IsEnding b i) t.cancelled
          (plain-IsEnding (record c { read_loop = stopped; dropped = m ∷ [] }) t _ refl refl v) v
    send_or_stop-others (reaches j) c m t v = v
