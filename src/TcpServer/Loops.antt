-- ===== src/TcpServer/Loops.antt =====
-- lib/go/transport_tcp.go: what the read loops of a TCP server keep.
use qdp.Base.{
  if_true, if_false, choose, Bool-cases, ==-refl, length-append, ℕ, ltb, ◌<◌, ◌≡◌, refl, sym, ap,
  subst, ◌∙◌, arith, ◌==◌, List, [], ◌∷◌, ◌++◌, map, length, append_assoc, append-nil, true, false,
  Option, none, some, inl, inr, ◌&&◌, not,
}
use qdp.Result.{Result, ok, err, panic}
use qdp.Reader.{ReadFn, Reader, read_message}
use qdp.TcpClient.{Notice, TcpClient, notify_disconnect, after_read, read, write}
use qdp.TcpServer.Clients.{
  InOrder, IsOrdered, after_send-IsOrdered, write-cancelled, from, from-append, going, running,
  set-others, still_there,
}
use qdp.TcpServer.Methods.{IsConsistent, fresh-set, set-IsConsistent}
use qdp.Message.{Message}
use qdp.TcpServer.{
  msg_ch_size, Range, at_head, in_read, stopped, at_range, at_send, Client, TcpServer, Network, set,
}
use qdp.TcpServer.Reading.{
  enter_read, after_receive, begin_range, may_reach, mark_reached, at_client, reach_client, is_over,
  end_range, put, give_up, Choice, goes_on, gives_up, reaches, range_step, send_or_stop,
}

module _ {S : Type 0} where
  -- What a read leaves as it was.
  abbrev pub Same : TcpClient S → TcpClient S → Type 0
  Same t t' = (t'.cancelled ≡ t.cancelled) × (t'.sent ≡ t.sent)

  after_read-Same : (o : Result Message × Reader S) (t : TcpClient S) → Same t (after_read o t).1
  unfolding after_read notify_disconnect
  after_read-Same (ok m, r) t = (refl, refl)
  after_read-Same (err e, r) t =
      choose (Same t) (t.has_handler && not t.disconnected) (refl, refl) (refl, refl)
  after_read-Same (panic, r) t = (refl, refl)

  abbrev pub Keeps : TcpClient S → Option (Result Message × TcpClient S) → Type 0
  Keeps t none = Unit {0}
  Keeps t (some (res, t')) = Same t t'

  pub read-Keeps :
      (conn_read : ReadFn S) (fuel : ℕ) (t : TcpClient S) → Keeps t (read conn_read fuel t)
  unfolding read
  read-Keeps conn_read fuel t =
      choose (Keeps t) t.cancelled (refl, refl) (ended (read_message conn_read fuel t.reader))
    where
      ended :
          (o : Option (Result Message × Reader S))
          → Keeps t (elim o [ none ↦ none | some outcome ↦ some (after_read outcome t) ])
      ended none = tt
      ended (some outcome) = after_read-Same outcome t

module _ {S : Type 0} (before : List Notice) where
  -- Of a client that is there.
  its-IsOrdered :
      (t : TcpServer S) (i : ℕ) (c : Client S)
      → IsConsistent before t
      → t.clients i ≡ some c
      → IsOrdered t.cancelled (from i t.puts) c
  its-IsOrdered t i c v here = subst (InOrder t.cancelled (from i t.puts)) here (v.ordered i)

  pub enter_read-IsConsistent :
      (i : ℕ) (c : Client S) (t : TcpServer S)
      → IsConsistent before t
      → t.clients i ≡ some c
      → c.read_loop ≡ at_head
      → IsConsistent before (enter_read i c t)
  unfolding enter_read
  enter_read-IsConsistent i c t v here stands =
      let (order, kept, there) =
        running t.cancelled (from i t.puts) c at_head (its-IsOrdered t i c v here) stands
          (λ e. cc) in
      set-IsConsistent before t i c _ v here (
        choose (λ l. IsOrdered t.cancelled (from i t.puts) (record c { read_loop = l })) t.cancelled
          (going t.cancelled (from i t.puts) (record c { read_loop = stopped }) order kept
            (inr (inr refl)))
          (going t.cancelled (from i t.puts) (record c { read_loop = in_read }) order kept
            (still_there c c.socket.cancelled refl there in_read)))

  pub after_receive-IsConsistent :
      (i : ℕ) (c : Client S) (o : Option (Result Message × TcpClient S)) (t : TcpServer S)
      → IsConsistent before t
      → t.clients i ≡ some c
      → c.read_loop ≡ in_read
      → Keeps c.socket o
      → IsConsistent before (after_receive i c o t)
  unfolding after_receive
  after_receive-IsConsistent i c none t v here stands keeps = v
  after_receive-IsConsistent i c (some (ok m, s)) t v here stands keeps =
      let (order, kept, there) =
        running t.cancelled (from i t.puts) c in_read (its-IsOrdered t i c v here) stands
          (λ e. cc) in
      let l = at_range m (begin_range t) in
      set-IsConsistent before t i c _ v here (
        going t.cancelled (from i t.puts)
          (record c { socket = s; read_loop = l; received = c.received ++ (m ∷ []) })
          (ap (λ ms. ms ++ (m ∷ [])) (order ∙ append-nil (from i t.puts))) kept
          (still_there c s.cancelled keeps.0 there l))
  after_receive-IsConsistent i c (some (err e, s)) t v here stands keeps =
      let (order, kept, there) =
        running t.cancelled (from i t.puts) c in_read (its-IsOrdered t i c v here) stands
          (λ e. cc) in
      set-IsConsistent before t i c _ v here (
        going t.cancelled (from i t.puts)
          (record c { socket = s; read_loop = stopped; listed = false }) order kept
          (inr (inr refl)))
  after_receive-IsConsistent i c (some (panic, s)) t v here stands keeps =
      let (order, kept, there) =
        running t.cancelled (from i t.puts) c in_read (its-IsOrdered t i c v here) stands
          (λ e. cc) in
      set-IsConsistent before t i c _ v here (
        going t.cancelled (from i t.puts) (record c { socket = s; read_loop = stopped }) order kept
          (inr (inr refl)))

  -- A loop in its broadcast goes on in it, or to the send.
  broadcasting :
      (i : ℕ) (c : Client S) (m : Message) (r r' : Range) (t : TcpServer S)
      → IsConsistent before t
      → t.clients i ≡ some c
      → c.read_loop ≡ at_range m r
      → IsConsistent before
          (record t { clients = set i (record c { read_loop = at_range m r' }) t.clients })
        × IsConsistent before
            (record t { clients = set i (record c { read_loop = at_send m r' }) t.clients })
  broadcasting i c m r r' t v here stands =
      let (order, kept, there) =
        running t.cancelled (from i t.puts) c (at_range m r) (its-IsOrdered t i c v here) stands
          (λ e. cc) in
      (
        set-IsConsistent before t i c _ v here (
            going t.cancelled (from i t.puts) (record c { read_loop = at_range m r' }) order kept
              (still_there c c.socket.cancelled refl there (at_range m r'))),
        set-IsConsistent before t i c _ v here (
            going t.cancelled (from i t.puts) (record c { read_loop = at_send m r' }) order kept
              (still_there c c.socket.cancelled refl there (at_send m r'))),
      )

  at_client-IsConsistent :
      (net : Network) (i : ℕ) (c : Client S) (m : Message) (r : Range) (j : ℕ)
      (o : Option (Client S)) (t : TcpServer S)
      → IsConsistent before t
      → t.clients i ≡ some c
      → c.read_loop ≡ at_range m r
      → t.clients j ≡ o
      → IsConsistent before (at_client net i c m r j o t)
  unfolding at_client
  at_client-IsConsistent net i c m r j none t v here stands there = v
  at_client-IsConsistent net i c m r j (some d) t v here stands there =
      let (passed, _) = broadcasting i c m r (mark_reached j r) t v here stands in
      let u = record t {
        clients = set i (record c { read_loop = at_range m (mark_reached j r) }) t.clients;
      } in
      elim (Bool-cases (j == i)) [
        | inl same ↦ subst (IsConsistent before) (sym (if_true (j == i) _ _ same)) passed
        | inr other ↦ subst (IsConsistent before) (sym (if_false (j == i) _ _ other)) (
            set-IsConsistent before u j d _ passed
              (unfold set in (if_false (j == i) _ _ other ∙ there))
              (after_send-IsOrdered t.cancelled (from j t.puts) net j
                (write (net.conn_write j) m d.socket) d
                (write-cancelled (net.conn_write j) m d.socket) (its-IsOrdered t j d v there)))
      ]

  pub range_step-IsConsistent :
      (net : Network) (choice : Choice) (i : ℕ) (c : Client S) (m : Message) (r : Range)
      (t : TcpServer S)
      → IsConsistent before t
      → t.clients i ≡ some c
      → c.read_loop ≡ at_range m r
      → IsConsistent before (range_step net choice i c m r t)
  unfolding range_step end_range reach_client
  range_step-IsConsistent net goes_on i c m r t v here stands =
      choose (IsConsistent before) (is_over t.clients r r.bound)
        (broadcasting i c m r r t v here stands).1 v
  range_step-IsConsistent net gives_up i c m r t v here stands = v
  range_step-IsConsistent net (reaches j) i c m r t v here stands =
      choose (IsConsistent before) (may_reach j r)
        (at_client-IsConsistent net i c m r j (t.clients j) t v here stands refl) v

  put-IsConsistent :
      (i : ℕ) (c : Client S) (m : Message) (r : Range) (t : TcpServer S)
      → IsConsistent before t
      → t.clients i ≡ some c
      → c.read_loop ≡ at_send m r
      → length t.msg_ch < msg_ch_size
      → IsConsistent before (put i c m t)
  unfolding put
  put-IsConsistent i c m r t v here stands room =
      let (order, kept, there) =
        running t.cancelled (from i t.puts) c (at_send m r) (its-IsOrdered t i c v here) stands
          (λ e. cc) in
      record {
        merged =
            map-append t.puts ((i, m) ∷ [])
            ∙ ap (λ ms. ms ++ (m ∷ [])) v.merged
            ∙ append_assoc t.taken t.msg_ch (m ∷ []);
        bounded = omega (arith, length-append t.msg_ch (m ∷ []), room);
        ordered =
            set-others (λ j. InOrder t.cancelled (from j (t.puts ++ ((i, m) ∷ [])))) i _ t.clients
              (going t.cancelled (from i (t.puts ++ ((i, m) ∷ [])))
                (record c { read_loop = at_head })
                (order
                  ∙ ap (λ ms. from i t.puts ++ ms) (sym (if_true (i == i) (m ∷ []) [] (==-refl i)))
                  ∙ sym (from-append i i m t.puts)
                  ∙ sym (append-nil (from i (t.puts ++ ((i, m) ∷ [])))))
                kept (still_there c c.socket.cancelled refl there at_head))
              (λ j other.
                subst (λ ms. InOrder t.cancelled ms (t.clients j))
                  (sym (
                    from-append j i m t.puts
                    ∙ ap (λ ms. from j t.puts ++ ms)
                        (if_false (i == j) (m ∷ []) [] (==-false i j other))
                    ∙ append-nil (from j t.puts)))
                  (v.ordered j));
        fresh = fresh-set before t i c _ v here;
        told = v.told;
      }
    where
      ==-false : (i j : ℕ) → (j == i) ≡ false → (i == j) ≡ false
      ==-false i j other = ground arith

      map-append :
          (ps qs : List (ℕ × Message))
          → map (λ (p : ℕ × Message). p.1) (ps ++ qs)
            ≡ map (λ (p : ℕ × Message). p.1) ps ++ map (λ (p : ℕ × Message). p.1) qs
      map-append [] qs = refl
      map-append (p ∷ ps) qs = ap (λ ms. p.1 ∷ ms) (map-append ps qs)

  give_up-IsConsistent :
      (i : ℕ) (c : Client S) (m : Message) (r : Range) (t : TcpServer S)
      → IsConsistent before t
      → t.clients i ≡ some c
      → c.read_loop ≡ at_send m r
      → t.cancelled ≡ true
      → IsConsistent before (give_up i c m t)
  unfolding give_up
  give_up-IsConsistent i c m r t v here stands over =
      let (order, kept, there) =
        running t.cancelled (from i t.puts) c (at_send m r) (its-IsOrdered t i c v here) stands
          (λ e. cc) in
      set-IsConsistent before t i c _ v here
        (record { order = order; drops = inr (over, refl); removed = inr (inr refl) })

  pub send_or_stop-IsConsistent :
      (choice : Choice) (i : ℕ) (c : Client S) (m : Message) (r : Range) (t : TcpServer S)
      → IsConsistent before t
      → t.clients i ≡ some c
      → c.read_loop ≡ at_send m r
      → IsConsistent before (send_or_stop choice i c m t)
  unfolding send_or_stop
  send_or_stop-IsConsistent gives_up i c m r t v here stands = elim (Bool-cases t.cancelled) [
    | inl over ↦
        subst (IsConsistent before) (sym (if_true t.cancelled _ _ over))
          (give_up-IsConsistent i c m r t v here stands over)
    | inr on ↦ subst (IsConsistent before) (sym (if_false t.cancelled _ _ on)) v
  ]
  send_or_stop-IsConsistent goes_on i c m r t v here stands =
      elim (Bool-cases (ltb (length t.msg_ch) msg_ch_size)) [
        | inl room ↦
            subst (IsConsistent before) (sym (if_true (ltb (length t.msg_ch) msg_ch_size) _ _ room))
              (put-IsConsistent i c m r t v here stands (ground arith))
        | inr full ↦
            subst (IsConsistent before)
              (sym (if_false (ltb (length t.msg_ch) msg_ch_size) _ _ full)) v
      ]
  send_or_stop-IsConsistent (reaches j) i c m r t v here stands = v
