-- ===== src/TcpServer/Ending.antt =====
-- lib/go/transport_tcp.go: every event of a TCP server whose context is done leaves the read loop of a
-- client as near to its end as it was.
use qdp.Base.{
  if_true, if_false, choose, Bool-cases, subst, arith, ℕ, ltb, ◌≤◌, ◌≡◌, refl, sym, ◌∙◌, ◌==◌,
  if◌then◌else◌, [], ◌∷◌, length, true, false, Option, none, some, inl, inr,
}
use qdp.Message.{Message}
use qdp.Reader.{ReadFn}
use qdp.TcpClient.{read}
use qdp.TcpServer.{
  msg_ch_size, Range, at_head, in_read, stopped, at_range, at_send, Client, TcpServer, Network, set,
}
use qdp.TcpServer.Reading.{
  enter_read, after_receive, may_reach, mark_reached, at_client, reach_client, is_over, end_range,
  put, give_up, Choice, goes_on, gives_up, reaches, range_step, send_or_stop,
}
use qdp.TcpServer.Turns.{rank, unreached-mark_reached}
use qdp.TcpServer.Winding.{
  Below, IsWinding, Winds, Below-lower, stopped-IsWinding, own-Winds, IsEnding, plain-IsEnding,
}

module _ {S : Type 0} where
  -- A step of the loop itself, to the state `c`.
  pub own-IsEnding :
      (b : Option ℕ) (i : ℕ) (c : Client S) (t u : TcpServer S)
      → t.cancelled ≡ true
      → u.cancelled ≡ t.cancelled
      → u.clients ≡ set i c t.clients
      → IsWinding b c
      → IsEnding b i u
  own-IsEnding b i c t u over same changed v = record {
    over = same ∙ over;
    winds =
        subst (λ (f : ℕ → Option (Client S)). Winds (f i) b) (sym changed)
          (own-Winds b t.clients i c v);
  }

  -- The head of the loop, and ReadMessage of a client that is closed, end it.
  pub enter_read-IsEnding :
      (b : Option ℕ) (i : ℕ) (c : Client S) (t : TcpServer S)
      → t.cancelled ≡ true
      → IsEnding b i (enter_read i c t)
  unfolding enter_read
  enter_read-IsEnding b i c t over =
      let c' = record c { read_loop = if t.cancelled then stopped else in_read } in
      own-IsEnding b i c' t _ over refl refl
        (stopped-IsWinding b c' (if_true t.cancelled stopped in_read over))

  pub after_receive-IsEnding :
      (conn_read : ReadFn S) (fuel : ℕ) (b : Option ℕ) (i : ℕ) (c : Client S) (t : TcpServer S)
      → t.cancelled ≡ true
      → c.socket.cancelled ≡ true
      → IsEnding b i (after_receive i c (read conn_read fuel c.socket) t)
  unfolding after_receive read
  after_receive-IsEnding conn_read fuel b i c t over gone =
      let c' = record c { socket = c.socket; read_loop = stopped; listed = false } in
      subst (λ o. IsEnding b i (after_receive i c o t)) (sym (if_true c.socket.cancelled _ _ gone))
        (own-IsEnding b i c' t _ over refl refl (stopped-IsWinding b c' refl))

  -- The broadcast reaches a client of the map, its own or another.
  pub at_client-IsEnding :
      (b : Option ℕ) (net : Network) (i : ℕ) (c : Client S) (m : Message) (r : Range) (j : ℕ)
      (d : Client S) (t : TcpServer S)
      → t.cancelled ≡ true
      → IsWinding b (record c { read_loop = at_range m (mark_reached j r) })
      → IsEnding b i (at_client net i c m r j (some d) t)
  unfolding at_client
  at_client-IsEnding b net i c m r j d t over v =
      let c' = record c { read_loop = at_range m (mark_reached j r) } in
      elim (Bool-cases (j == i)) [
        | inl same ↦
            subst (IsEnding b i) (sym (if_true (j == i) _ _ same))
              (own-IsEnding b i c' t (record t { clients = set i c' t.clients }) over refl refl v)
        | inr apart ↦ subst (IsEnding b i) (sym (if_false (j == i) _ _ apart)) (
            plain-IsEnding b i j (flip j i apart) _ (record t { clients = set i c' t.clients }) _
              refl refl
              (own-IsEnding b i c' t (record t { clients = set i c' t.clients }) over refl refl v))
      ]
    where
      flip : (x y : ℕ) → (x == y) ≡ false → (y == x) ≡ false
      flip x y e = ground arith

  at_range-IsWinding :
      (b : Option ℕ) (c : Client S) (m : Message) (r r' : Range)
      → c.read_loop ≡ at_range m r
      → rank (at_range m r') ≤ rank (at_range m r)
      → IsWinding b c
      → IsWinding b (record c { read_loop = at_range m r' })
  at_range-IsWinding b c m r r' stands lower v = record {
    below = Below-lower b (at_range m r) (at_range m r') lower (subst (Below b) stands v.below);
    closed = λ reading. absurd (apart reading);
  }
    where
      apart : at_range m r' ≡ in_read → ⊥
      apart e = cc

  -- The steps in a broadcast and behind it,
  pub range_step-IsEnding :
      (b : Option ℕ) (net : Network) (choice : Choice) (i : ℕ) (c : Client S) (m : Message)
      (r : Range) (t : TcpServer S)
      → IsEnding b i t
      → IsWinding b c
      → c.read_loop ≡ at_range m r
      → IsEnding b i (range_step net choice i c m r t)
  unfolding range_step end_range reach_client rank
  range_step-IsEnding b net goes_on i c m r t v w stands =
      choose (IsEnding b i) (is_over t.clients r r.bound)
        (own-IsEnding b i (record c { read_loop = at_send m r }) t _ v.over refl refl
          (record {
            below =
                Below-lower b (at_range m r) (at_send m r) (omega arith)
                  (subst (Below b) stands w.below);
            closed = λ reading. absurd (apart reading);
          }))
        v
    where
      apart : at_send m r ≡ in_read → ⊥
      apart e = cc
  range_step-IsEnding b net gives_up i c m r t v w stands = v
  range_step-IsEnding b net (reaches j) i c m r t v w stands =
      choose (IsEnding b i) (may_reach j r) (reached (t.clients j)) v
    where
      reached : (o : Option (Client S)) → IsEnding b i (at_client net i c m r j o t)
      reached none = unfold at_client in v
      reached (some d) = at_client-IsEnding b net i c m r j d t v.over (
          at_range-IsWinding b c m r (mark_reached j r) stands
            (unfold mark_reached in omega (arith, unreached-mark_reached j r r.bound)) w)

  pub gives_up-IsEnding :
      (b : Option ℕ) (i : ℕ) (c : Client S) (m : Message) (t : TcpServer S)
      → t.cancelled ≡ true
      → IsEnding b i (send_or_stop gives_up i c m t)
  unfolding send_or_stop give_up
  gives_up-IsEnding b i c m t over =
      let c' = record c { read_loop = stopped; dropped = m ∷ [] } in
      subst (IsEnding b i) (sym (if_true t.cancelled _ _ over)) (
        own-IsEnding b i c' t (record t { clients = set i c' t.clients }) over refl refl
          (stopped-IsWinding b c' refl))

  pub send_or_stop-IsEnding :
      (b : Option ℕ) (choice : Choice) (i : ℕ) (c : Client S) (m : Message) (r : Range)
      (t : TcpServer S)
      → IsEnding b i t
      → IsWinding b c
      → c.read_loop ≡ at_send m r
      → IsEnding b i (send_or_stop choice i c m t)
  unfolding send_or_stop put rank
  send_or_stop-IsEnding b goes_on i c m r t v w stands =
      choose (IsEnding b i) (ltb (length t.msg_ch) msg_ch_size)
        (own-IsEnding b i (record c { read_loop = at_head }) t _ v.over refl refl
          (record {
            below =
                Below-lower b (at_send m r) at_head (omega arith) (subst (Below b) stands w.below);
            closed = λ reading. absurd (apart reading);
          }))
        v
    where
      apart : at_head ≡ in_read → ⊥
      apart e = cc
  send_or_stop-IsEnding b gives_up i c m r t v w stands = gives_up-IsEnding b i c m t v.over
  send_or_stop-IsEnding b (reaches j) i c m r t v w stands = v
