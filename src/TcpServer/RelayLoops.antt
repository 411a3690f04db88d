-- ===== src/TcpServer/RelayLoops.antt =====
-- lib/go/transport_tcp.go: what the steps of a read loop do to the broadcasts in progress.
use qdp.Base.{
  if_true, if_false, choose, Bool-cases, subst, ==→eq, ==-refl, arith, ℕ, ltb, ◌≤◌, ◌≡◌, refl, sym,
  ap, ◌∙◌, ◌==◌, if◌then◌else◌, List, [], ◌∷◌, ◌++◌, length, true, false, Option, none, some, inl,
  inr,
}
use qdp.Result.{Error, Result, ok, err, panic}
use qdp.Message.{Message}
use qdp.TcpClient.{TcpClient, write}
use qdp.TcpServer.{
  msg_ch_size, Range, at_head, in_read, stopped, at_range, at_send, Client, TcpServer, Network, set,
  after_send,
}
use qdp.TcpServer.Clients.{set-others}
use qdp.TcpServer.Reading.{
  sent_to, enter_read, begin_range, after_receive, may_reach, mark_reached, at_client, reach_client,
  is_over, end_range, put, give_up, Choice, goes_on, gives_up, reaches, range_step, send_or_stop,
}
use qdp.TcpServer.Loops.{Keeps}
use qdp.TcpServer.Growth.{Grows, same-Extends, written-Grows, set-Grows}
use qdp.TcpServer.Relay.{
  Got, IsRanging, Relays, loop_of, IsRelaying, Relays-Grows, step-IsRelaying, begin-IsRanging,
  after_send-Got, mark-IsRanging, end-Got,
}

module _ {S : Type 0} where
  -- The loop of the client `i` goes on to a state in which it relays.
  own_step :
      (t : TcpServer S) (i : ℕ) (c c' : Client S)
      → IsRelaying t.clients
      → t.clients i ≡ some c
      → Grows (some c) (some c')
      → (((j : ℕ) → Grows (t.clients j) (set i c' t.clients j))
          → (j : ℕ) → Relays i j c'.read_loop (set i c' t.clients j))
      → IsRelaying (set i c' t.clients)
  unfolding set
  own_step t i c c' v here grown own =
      let all = set-Grows t.clients i c' (subst (λ o. Grows o (some c')) (sym here) grown) in
      step-IsRelaying t.clients (set i c' t.clients) i v all
        (λ k other. ap loop_of (if_false (k == i) _ _ other))
        (λ j.
          subst (λ o. Relays i j (loop_of o) (set i c' t.clients j))
            (sym (if_true (i == i) (some c') (t.clients i) (==-refl i))) (own all j))

  -- To a state outside of a broadcast.
  plain_step :
      (t : TcpServer S) (i : ℕ) (c c' : Client S)
      → IsRelaying t.clients
      → t.clients i ≡ some c
      → Grows (some c) (some c')
      → ((j : ℕ) (o : Option (Client S)) → Relays i j c'.read_loop o)
      → IsRelaying (set i c' t.clients)
  plain_step t i c c' v here grown own =
      own_step t i c c' v here grown (λ all j. own j (set i c' t.clients j))

  still :
      (c c' : Client S)
      → c'.socket.sent ≡ c.socket.sent
      → c'.listed ≡ c.listed
      → Grows (some c) (some c')
  still c c' same listing = (same-Extends c.socket c'.socket same, λ here. sym listing ∙ here)

  pub enter_read-IsRelaying :
      (i : ℕ) (c : Client S) (t : TcpServer S)
      → IsRelaying t.clients
      → t.clients i ≡ some c
      → IsRelaying (enter_read i c t).clients
  unfolding enter_read
  enter_read-IsRelaying i c t v here =
      let c' = record c { read_loop = if t.cancelled then stopped else in_read } in
      plain_step t i c c' v here (still c c' refl refl)
        (λ j o. choose (λ l. Relays i j l o) t.cancelled tt tt)

  pub after_receive-IsRelaying :
      (i : ℕ) (c : Client S) (o : Option (Result Message × TcpClient S)) (t : TcpServer S)
      → ((j : ℕ) → t.accepted ≤ j → t.clients j ≡ none)
      → IsRelaying t.clients
      → t.clients i ≡ some c
      → Keeps c.socket o
      → IsRelaying (after_receive i c o t).clients
  unfolding after_receive
  after_receive-IsRelaying i c none t fresh v here keeps = v
  after_receive-IsRelaying i c (some (ok m, s)) t fresh v here keeps =
      let c' = record c {
        socket = s;
        read_loop = at_range m (begin_range t);
        received = c.received ++ (m ∷ []);
      } in
      own_step t i c c' v here (still c c' keeps.1 refl)
        (λ all j. begin-IsRanging t (set i c' t.clients) i m fresh all j)
  after_receive-IsRelaying i c (some (err e, s)) t fresh v here keeps =
      plain_step t i c (record c { socket = s; read_loop = stopped; listed = false }) v here
        (same-Extends c.socket s keeps.1, λ listed. cc) (λ j o. tt)
  after_receive-IsRelaying i c (some (panic, s)) t fresh v here keeps =
      let c' = record c { socket = s; read_loop = stopped } in
      plain_step t i c c' v here (still c c' keeps.1 refl) (λ j o. tt)

  ranging :
      (t : TcpServer S) (i j : ℕ) (c : Client S) (m : Message) (r : Range)
      → IsRelaying t.clients
      → t.clients i ≡ some c
      → c.read_loop ≡ at_range m r
      → IsRanging i j m r (t.clients j)
  ranging t i j c m r v here stands =
      subst (λ l. Relays i j l (t.clients j)) (ap loop_of here ∙ stands) (v.relays i j)

  end_range-IsRelaying :
      (i : ℕ) (c : Client S) (m : Message) (r : Range) (t : TcpServer S)
      → IsRelaying t.clients
      → t.clients i ≡ some c
      → c.read_loop ≡ at_range m r
      → IsRelaying (end_range i c m r t).clients
  unfolding end_range
  end_range-IsRelaying i c m r t v here stands = elim (Bool-cases (is_over t.clients r r.bound)) [
    | inl over ↦
        subst (λ (u : TcpServer S). IsRelaying u.clients)
          (sym (if_true (is_over t.clients r r.bound) _ _ over))
          (own_step t i c (record c { read_loop = at_send m r }) v here
            (still c (record c { read_loop = at_send m r }) refl refl)
            (λ all j.
              Relays-Grows i j (at_send m r) (t.clients j)
                (set i (record c { read_loop = at_send m r }) t.clients j) (all j)
                (λ fits present other.
                  end-Got t.clients i j m r over (ranging t i j c m r v here stands) fits present
                    other)))
    | inr on ↦
        subst (λ (u : TcpServer S). IsRelaying u.clients)
          (sym (if_false (is_over t.clients r r.bound) _ _ on)) v
  ]

  pub after_send-loop :
      (net : Network) (j : ℕ) (o : Result (Option Error) × TcpClient S) (d : Client S)
      → (after_send net j o d).read_loop ≡ d.read_loop
  unfolding after_send
  after_send-loop net j (ok none, s) d = refl
  after_send-loop net j (ok (some e), s) d = refl
  after_send-loop net j (err e, s) d = refl
  after_send-loop net j (panic, s) d = refl

  -- The broadcast reaches its own client, which is passed over,
  reach_own :
      (i : ℕ) (c : Client S) (m : Message) (r : Range) (j : ℕ) (t : TcpServer S)
      → IsRelaying t.clients
      → t.clients i ≡ some c
      → c.read_loop ≡ at_range m r
      → (j == i) ≡ true
      → IsRelaying (set i (record c { read_loop = at_range m (mark_reached j r) }) t.clients)
  reach_own i c m r j t v here stands same =
      let c' = record c { read_loop = at_range m (mark_reached j r) } in
      own_step t i c c' v here (still c c' refl refl) (λ all k.
        mark-IsRanging i j k m r (t.clients k) (set i c' t.clients k) (all k)
          (ranging t i k c m r v here stands) (λ fits other met. absurd (apart k other met)))
    where
      apart : (k : ℕ) → (k == i) ≡ false → (j == k) ≡ true → ⊥
      apart k other met = ground (arith, ==→eq j i same)

  -- or another.
  reach_other :
      (net : Network) (i : ℕ) (c : Client S) (m : Message) (r : Range) (j : ℕ) (d : Client S)
      (t : TcpServer S)
      → IsRelaying t.clients
      → t.clients i ≡ some c
      → c.read_loop ≡ at_range m r
      → t.clients j ≡ some d
      → (j == i) ≡ false
      → IsRelaying (
          set j
            (after_send net j (write (net.conn_write j) m d.socket) d)
            (set i (record c { read_loop = at_range m (mark_reached j r) }) t.clients))
  unfolding set
  reach_other net i c m r j d t v here stands there other =
      let c' = record c { read_loop = at_range m (mark_reached j r) } in
      let passed = set i c' t.clients in
      let d' = after_send net j (write (net.conn_write j) m d.socket) d in
      let grown =
        set-others (λ k. Grows (t.clients k)) j d' passed
          (subst (λ o. Grows o (some d')) (sym there) (written-Grows net m j d))
          (λ k apart.
            set-Grows t.clients i c'
              (subst (λ o. Grows o (some c')) (sym here) (still c c' refl refl)) k) in
      step-IsRelaying t.clients (set j d' passed) i v grown
        (set-others (λ k o. (k == i) ≡ false → loop_of o ≡ loop_of (t.clients k)) j d' passed
          (λ apart.
            after_send-loop net j (write (net.conn_write j) m d.socket) d ∙ ap loop_of (sym there))
          (λ k apart elsewhere. ap loop_of (if_false (k == i) _ _ elsewhere)))
        (λ k.
          subst (λ (o : Option (Client S)). Relays i k (loop_of o) (set j d' passed k))
            (sym (
              if_false (i == j) (some d') (passed i) (==-apart j i other)
              ∙ if_true (i == i) (some c') (t.clients i) (==-refl i)))
            (mark-IsRanging i j k m r (t.clients k) (set j d' passed k) (grown k)
              (ranging t i k c m r v here stands)
              (λ fits apart met.
                subst (λ n. Got r m n (set j d' passed n)) (==→eq j k met)
                  (subst (Got r m j) (sym (if_true (j == j) _ _ (==-refl j))) (
                    after_send-Got net r m j d fits (
                      subst (λ o. (zs : List (List ℕ)) × (sent_to o ≡ r.before j ++ zs)) there
                        (IsRanging.since (ranging t i j c m r v here stands))))))))
    where
      ==-apart : (a b : ℕ) → (a == b) ≡ false → (b == a) ≡ false
      ==-apart a b e = ground arith

  at_client-IsRelaying :
      (net : Network) (i : ℕ) (c : Client S) (m : Message) (r : Range) (j : ℕ)
      (o : Option (Client S)) (t : TcpServer S)
      → IsRelaying t.clients
      → t.clients i ≡ some c
      → c.read_loop ≡ at_range m r
      → t.clients j ≡ o
      → IsRelaying (at_client net i c m r j o t).clients
  unfolding at_client
  at_client-IsRelaying net i c m r j none t v here stands there = v
  at_client-IsRelaying net i c m r j (some d) t v here stands there = elim (Bool-cases (j == i)) [
    | inl same ↦
        subst (λ (u : TcpServer S). IsRelaying u.clients) (sym (if_true (j == i) _ _ same))
          (reach_own i c m r j t v here stands same)
    | inr other ↦
        subst (λ (u : TcpServer S). IsRelaying u.clients) (sym (if_false (j == i) _ _ other))
          (reach_other net i c m r j d t v here stands there other)
  ]

  pub range_step-IsRelaying :
      (net : Network) (choice : Choice) (i : ℕ) (c : Client S) (m : Message) (r : Range)
      (t : TcpServer S)
      → IsRelaying t.clients
      → t.clients i ≡ some c
      → c.read_loop ≡ at_range m r
      → IsRelaying (range_step net choice i c m r t).clients
  unfolding range_step reach_client
  range_step-IsRelaying net goes_on i c m r t v here stands =
      end_range-IsRelaying i c m r t v here stands
  range_step-IsRelaying net gives_up i c m r t v here stands = v
  range_step-IsRelaying net (reaches j) i c m r t v here stands =
      choose (λ (u : TcpServer S). IsRelaying u.clients) (may_reach j r)
        (at_client-IsRelaying net i c m r j (t.clients j) t v here stands refl) v

  pub send_or_stop-IsRelaying :
      (choice : Choice) (i : ℕ) (c : Client S) (m : Message) (t : TcpServer S)
      → IsRelaying t.clients
      → t.clients i ≡ some c
      → IsRelaying (send_or_stop choice i c m t).clients
  unfolding send_or_stop put give_up
  send_or_stop-IsRelaying goes_on i c m t v here =
      let c' = record c { read_loop = at_head } in
      choose (λ (u : TcpServer S). IsRelaying u.clients) (ltb (length t.msg_ch) msg_ch_size)
        (plain_step t i c c' v here (still c c' refl refl) (λ j o. tt)) v
  send_or_stop-IsRelaying gives_up i c m t v here =
      let c' = record c { read_loop = stopped; dropped = m ∷ [] } in
      choose (λ (u : TcpServer S). IsRelaying u.clients) t.cancelled
        (plain_step t i c c' v here (still c c' refl refl) (λ j o. tt)) v
  send_or_stop-IsRelaying (reaches j) i c m t v here = v
