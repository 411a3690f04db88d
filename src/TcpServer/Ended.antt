-- ===== src/TcpServer/Ended.antt =====
-- lib/go/transport_tcp.go: once Close has been called, the read loops of a TCP server return.
use qdp.Base.{
  if_true, choose, Bool-cases, subst, ==→eq, arith, ℕ, ◌≤◌, ◌≡◌, refl, sym, ap, ◌∙◌, ◌==◌,
  if◌then◌else◌, List, [], ◌∷◌, false, ◌&&◌, not, Option, none, some, inl, inr,
}
use qdp.Result.{Error}
use qdp.Message.{Message}
use qdp.Reader.{ReadFn}
use qdp.TcpClient.{Notice, read}
use qdp.TcpServer.{
  ReadLoop, at_head, in_read, stopped, at_range, at_send, Client, TcpServer, Network, set,
  new_client, accept_conn, notify_end, stop_accepting, take_from, close_client, send_to, send_all,
  write_message, close_clients, close_server,
}
use qdp.TcpServer.Reading.{enter_read, Choice, client_step, step_of}
use qdp.TcpServer.Events.{
  Event, accepts, accept_returns, takes, steps, writes, closes, taken_end, happens, run,
}
use qdp.TcpServer.Methods.{IsConsistent}
use qdp.TcpServer.Consistency.{happens-IsConsistent}
use qdp.TcpServer.Winding.{
  IsWinding, Winds, send_to-Quiet, close_client-Quiet, map_client-Winds, other-Winds, IsEnding,
  plain-IsEnding, range_step-others, after_receive-others, send_or_stop-others,
}
use qdp.TcpServer.Ending.{
  enter_read-IsEnding, after_receive-IsEnding, range_step-IsEnding, send_or_stop-IsEnding,
}

module _ {S : Type 0} (conn_read : ReadFn S) (b : Option ℕ) (i : ℕ) where
  its-IsWinding :
      (c : Client S) (t : TcpServer S) → IsEnding b i t → t.clients i ≡ some c → IsWinding b c
  its-IsWinding c t v here = subst (λ o. Winds o b) here v.winds

  own_step :
      (net : Network) (fuel : ℕ) (choice : Choice) (c : Client S) (l : ReadLoop) (t : TcpServer S)
      → IsEnding b i t
      → t.clients i ≡ some c
      → c.read_loop ≡ l
      → IsEnding b i (client_step conn_read net fuel choice i c l t)
  unfolding client_step
  own_step net fuel choice c at_head t v here stands = enter_read-IsEnding b i c t v.over
  own_step net fuel choice c in_read t v here stands =
      after_receive-IsEnding conn_read fuel b i c t v.over
        (IsWinding.closed (its-IsWinding c t v here) stands)
  own_step net fuel choice c (at_range m r) t v here stands =
      range_step-IsEnding b net choice i c m r t v (its-IsWinding c t v here) stands
  own_step net fuel choice c (at_send m r) t v here stands =
      send_or_stop-IsEnding b choice i c m r t v (its-IsWinding c t v here) stands
  own_step net fuel choice c stopped t v here stands = v

  step_of_other :
      (net : Network) (fuel : ℕ) (choice : Choice) (k : ℕ) (c : Client S) (l : ReadLoop)
      (t : TcpServer S)
      → (i == k) ≡ false
      → IsEnding b i t
      → IsEnding b i (client_step conn_read net fuel choice k c l t)
  unfolding client_step enter_read
  step_of_other net fuel choice k c at_head t other v =
      plain-IsEnding b i k other (record c { read_loop = if t.cancelled then stopped else in_read })
        t _ refl refl v
  step_of_other net fuel choice k c in_read t other v =
      after_receive-others b i k other c (read conn_read fuel c.socket) t v
  step_of_other net fuel choice k c (at_range m r) t other v =
      range_step-others b i k other net choice c m r t v
  step_of_other net fuel choice k c (at_send m r) t other v =
      send_or_stop-others b i k other choice c m t v
  step_of_other net fuel choice k c stopped t other v = v

  -- A step of any loop.
  pub step_of-IsEnding :
      (net : Network) (fuel : ℕ) (choice : Choice) (k : ℕ) (o : Option (Client S)) (t : TcpServer S)
      → IsEnding b i t
      → t.clients k ≡ o
      → IsEnding b i (step_of conn_read net fuel choice k o t)
  unfolding step_of
  step_of-IsEnding net fuel choice k none t v here = v
  step_of-IsEnding net fuel choice k (some c) t v here = elim (Bool-cases (i == k)) [
    | inl same ↦
        subst (λ n. IsEnding b i (client_step conn_read net fuel choice n c c.read_loop t))
          (==→eq i k same)
          (own_step net fuel choice c c.read_loop t v (ap t.clients (==→eq i k same) ∙ here) refl)
    | inr other ↦ step_of_other net fuel choice k c c.read_loop t other v
  ]

  pub notify_end-IsEnding :
      (e : Option Error) (t : TcpServer S) → IsEnding b i t → IsEnding b i (notify_end e t)
  unfolding notify_end
  notify_end-IsEnding e t v =
      choose (IsEnding b i) (t.has_handler && not t.disconnected)
        (record { over = v.over; winds = v.winds }) v

  -- A client that is accepted after Close.
  accept_conn-IsEnding :
      (s : S) (t : TcpServer S)
      → ((j : ℕ) → t.accepted ≤ j → t.clients j ≡ none)
      → IsEnding b i t
      → IsEnding b i (accept_conn s t)
  unfolding accept_conn new_client set
  accept_conn-IsEnding s t fresh v =
      choose (IsEnding b i) t.accepting
        (record {
          over = v.over;
          winds = elim (Bool-cases (i == t.accepted)) [
            | inl same ↦
                subst (λ (o : Option (Client S)). Winds o b)
                  (sym (if_true (i == t.accepted) (some (new_client s)) (t.clients i) same))
                  (accepted b (
                    subst (λ (o : Option (Client S)). Winds o b)
                      (fresh i (omega (arith, ==→eq i t.accepted same))) v.winds))
            | inr other ↦ other-Winds b t.clients i t.accepted (new_client s) other v.winds
          ];
        })
        v
    where
      accepted : (b : Option ℕ) → Winds {S = S} none b → IsWinding b (new_client s)
      accepted none w = record { below = tt; closed = λ reading. absurd (apart reading) }
        where
          apart : at_head ≡ in_read → ⊥
          apart e = cc
      accepted (some n) w = absurd w

  pub happens-IsEnding :
      (before : List Notice) (e : Event S) (t : TcpServer S)
      → IsConsistent before t
      → IsEnding b i t
      → IsEnding b i (happens conn_read e t)
  unfolding happens write_message send_all close_server close_clients stop_accepting
  happens-IsEnding before (accepts s) t w v = accept_conn-IsEnding s t w.fresh v
  happens-IsEnding before accept_returns t w v =
      choose (IsEnding b i) t.accepting
        (notify_end-IsEnding none (record t { accepting = false })
          (record { over = v.over; winds = v.winds }))
        v
  happens-IsEnding before takes t w v = taken t.msg_ch
    where
      taken : (ms : List Message) → IsEnding b i (taken_end t (take_from ms t))
      taken [] = unfold taken_end take_from in v
      taken (m ∷ ms) = unfold taken_end take_from in record { over = v.over; winds = v.winds }
  happens-IsEnding before (steps net fuel choice k) t w v =
      step_of-IsEnding net fuel choice k (t.clients k) t v refl
  happens-IsEnding before (writes net m) t w v = record {
    over = v.over;
    winds = map_client-Winds (send_to net m i) b (t.clients i) (send_to-Quiet net m i) v.winds;
  }
  happens-IsEnding before (closes net closed) t w v = notify_end-IsEnding closed _ (record {
    over = refl;
    winds =
        map_client-Winds (close_client net i) b (t.clients i) (close_client-Quiet net i) v.winds;
  })

  pub run-IsEnding :
      (before : List Notice) (es : List (Event S)) (t : TcpServer S)
      → IsConsistent before t
      → IsEnding b i t
      → IsEnding b i (run conn_read es t)
  unfolding run
  run-IsEnding before [] t w v = v
  run-IsEnding before (e ∷ es) t w v =
      run-IsEnding before es (happens conn_read e t) (happens-IsConsistent conn_read before e t w)
        (happens-IsEnding before e t w v)
