-- ===== src/TcpServer/Turning.antt =====
-- lib/go/transport_tcp.go: a turn brings the read loop of a client nearer to its end once Close has been
-- called.
use qdp.Base.{
  if_true, subst, arith, ℕ, zero, suc, ◌≤◌, ◌≡◌, refl, sym, ap, ◌∙◌, List, true, false, ◌&&◌, ◌||◌,
  not, leb, ◌<◌, Option, none, some, inl, inr,
}
use qdp.Message.{Message}
use qdp.Reader.{ReadFn}
use qdp.TcpClient.{Notice}
use qdp.TcpServer.{
  Range, ReadLoop, at_head, in_read, stopped, at_range, at_send, Client, TcpServer, Network, set,
}
use qdp.TcpServer.Reading.{
  is_listed, is_member, may_reach, mark_reached, at_client, reach_client, is_over, end_range,
  goes_on, reaches, range_step, client_step, step_of,
}
use qdp.TcpServer.Events.{steps, happens}
use qdp.TcpServer.Methods.{IsConsistent}
use qdp.TcpServer.Consistency.{happens-IsConsistent}
use qdp.TcpServer.Turns.{
  rank, unreached-lower, left_out, left_out-cases, choice_of, loop_choice, take_turn,
}
use qdp.TcpServer.Winding.{IsWinding, Winds, stopped-IsWinding, IsEnding}
use qdp.TcpServer.Ending.{
  own-IsEnding, enter_read-IsEnding, after_receive-IsEnding, at_client-IsEnding, gives_up-IsEnding,
}
use qdp.TcpServer.Ended.{step_of-IsEnding}

module _ {S : Type 0} (conn_read : ReadFn S) (i : ℕ) where
  range_ends :
      (n : ℕ) (net : Network) (c : Client S) (m : Message) (r : Range) (t : TcpServer S)
      → t.cancelled ≡ true
      → rank (at_range m r) ≤ suc n
      → is_over t.clients r r.bound ≡ true
      → IsEnding (some n) i (range_step net goes_on i c m r t)
  unfolding rank range_step end_range
  range_ends n net c m r t over below ended =
      let c' = record c { read_loop = at_send m r } in
      subst (IsEnding (some n) i) (sym (if_true (is_over t.clients r r.bound) _ _ ended)) (
        own-IsEnding (some n) i c' t (record t { clients = set i c' t.clients }) over refl refl
          (record { below = omega arith; closed = λ reading. absurd (apart reading) }))
    where
      apart : at_send m r ≡ in_read → ⊥
      apart e = cc

  range_reaches :
      (n : ℕ) (net : Network) (c : Client S) (m : Message) (r : Range) (j : ℕ) (t : TcpServer S)
      → t.cancelled ≡ true
      → rank (at_range m r) ≤ suc n
      → j < r.bound
      → r.present j ≡ true
      → is_listed (t.clients j) ≡ true
      → is_member j r.reached ≡ false
      → IsEnding (some n) i (range_step net (reaches j) i c m r t)
  unfolding rank range_step reach_client may_reach
  range_reaches n net c m r j t over below low here listed new =
      subst (IsEnding (some n) i)
        (sym (
          if_true (not (is_member j r.reached) && (r.present j || leb r.bound j)) _ _ (
            ap (λ b. not b && (r.present j || leb r.bound j)) new
            ∙ ap (λ b. b || leb r.bound j) here)))
        (reached (t.clients j) listed)
    where
      apart : at_range m (mark_reached j r) ≡ in_read → ⊥
      apart e = cc

      reached :
          (o : Option (Client S))
          → is_listed o ≡ true
          → IsEnding (some n) i (at_client net i c m r j o t)
      reached none there = absurd (gone (unfold is_listed in there))
        where
          gone : false ≡ true → ⊥
          gone e = cc
      reached (some d) there = at_client-IsEnding (some n) net i c m r j d t over (record {
        below = unfold mark_reached in omega (arith, unreached-lower j r r.bound new low);
        closed = λ reading. absurd (apart reading);
      })

  -- A turn in a broadcast reaches one more client, or ends the broadcast.
  range_turn :
      (n : ℕ) (net : Network) (c : Client S) (m : Message) (r : Range) (t : TcpServer S)
      → t.cancelled ≡ true
      → rank (at_range m r) ≤ suc n
      → IsEnding (some n) i (range_step net (left_out t.clients r r.bound) i c m r t)
  range_turn n net c m r t over below = elim (left_out-cases t.clients r r.bound) [
    | inl (chosen, ended) ↦
        subst (λ k. IsEnding (some n) i (range_step net k i c m r t)) (sym chosen)
          (range_ends n net c m r t over below ended)
    | inr (j, chosen, low, here, listed, new) ↦
        subst (λ k. IsEnding (some n) i (range_step net k i c m r t)) (sym chosen)
          (range_reaches n net c m r j t over below low here listed new)
  ]

  -- Any turn brings the loop nearer to its end.
  client_turn :
      (n : ℕ) (net : Network) (fuel : ℕ) (c : Client S) (l : ReadLoop) (t : TcpServer S)
      → t.cancelled ≡ true
      → IsWinding (some (suc n)) c
      → t.clients i ≡ some c
      → c.read_loop ≡ l
      → IsEnding (some n) i (client_step conn_read net fuel (choice_of t.clients l) i c l t)
  unfolding client_step choice_of
  client_turn n net fuel c at_head t over v here stands = enter_read-IsEnding (some n) i c t over
  client_turn n net fuel c in_read t over v here stands =
      after_receive-IsEnding conn_read fuel (some n) i c t over (v.closed stands)
  client_turn n net fuel c (at_range m r) t over v here stands =
      range_turn n net c m r t over (subst (λ l. rank l ≤ suc n) stands v.below)
  client_turn n net fuel c (at_send m r) t over v here stands =
      gives_up-IsEnding (some n) i c m t over
  client_turn n net fuel c stopped t over v here stands = record {
    over = over;
    winds = subst (λ o. Winds o (some n)) (sym here) (stopped-IsWinding (some n) c stands);
  }

  take_turn-lower :
      (n : ℕ) (net : Network) (fuel : ℕ) (t : TcpServer S)
      → IsEnding (some (suc n)) i t
      → IsEnding (some n) i (take_turn conn_read i net fuel t)
  unfolding take_turn
  take_turn-lower n net fuel t v = turned (t.clients i) refl v.winds
    where
      turned :
          (o : Option (Client S))
          → t.clients i ≡ o
          → Winds o (some (suc n))
          → IsEnding (some n) i (step_of conn_read net fuel (loop_choice t.clients o) i o t)
      turned none here w = absurd w
      turned (some c) here w =
          unfold step_of loop_choice in client_turn n net fuel c c.read_loop t v.over w here refl

  pub take_turn-IsConsistent :
      (before : List Notice) (net : Network) (fuel : ℕ) (t : TcpServer S)
      → IsConsistent before t
      → IsConsistent before (take_turn conn_read i net fuel t)
  unfolding take_turn happens
  take_turn-IsConsistent before net fuel t w =
      happens-IsConsistent conn_read before (steps net fuel (loop_choice t.clients (t.clients i)) i)
        t w

  pub one_turn :
      (n k : ℕ) (net : Network) (fuel : ℕ) (t : TcpServer S)
      → n ≤ suc k
      → IsEnding (some n) i t
      → (n' : ℕ) × (n' ≤ k) × IsEnding (some n') i (take_turn conn_read i net fuel t)
  one_turn zero k net fuel t enough v = (
    0,
    omega arith,
    unfold take_turn in
        step_of-IsEnding conn_read (some 0) i net fuel (loop_choice t.clients (t.clients i)) i
          (t.clients i) t v refl,
  )
  one_turn (suc n) k net fuel t enough v =
      (n, omega (arith, enough), take_turn-lower n net fuel t v)
