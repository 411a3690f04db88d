-- ===== src/TcpServer/Turns.antt =====
-- lib/go/transport_tcp.go: how far a read loop of a TCP server is from its end once Close has been called.
use qdp.Base.{
  ==→eq, arith, ℕ, zero, suc, ◌+◌, ◌==◌, ◌≤◌, ◌<◌, ◌≡◌, refl, sym, ap, ◌∙◌, if◌then◌else◌, List, [],
  ◌∷◌, Bool, true, false, ◌&&◌, ◌||◌, not, Option, none, some, ◌⊎◌, inl, inr,
}
use qdp.Reader.{ReadFn}
use qdp.TcpServer.{
  Range, ReadLoop, at_head, in_read, stopped, at_range, at_send, Client, TcpServer, Network,
}
use qdp.TcpServer.Reading.{
  is_listed, is_member, mark_reached, is_over, Choice, goes_on, gives_up, reaches, step_of,
}
use qdp.TcpServer.Events.{Event, run}

-- How many of the clients below `n` a broadcast has not reached.
unfoldable pub unreached : Range → ℕ → ℕ
unreached r zero = 0
unreached r (suc j) = unreached r j + (if is_member j r.reached then 0 else 1)

-- How many turns a read loop needs to return.
unfoldable pub rank : ReadLoop → ℕ
rank stopped = 0
rank at_head = 1
rank in_read = 1
rank (at_send m r) = 2
rank (at_range m r) = 3 + unreached r r.bound

-- A client that the broadcast must still reach, or its end.
pub left_out : {S : Type 0} → (ℕ → Option (Client S)) → Range → ℕ → Choice
left_out clients r zero = goes_on
left_out clients r (suc j) =
    let before = left_out clients r j in
    if r.present j && is_listed (clients j) && not (is_member j r.reached)
    then reaches j
    else before

-- What the loop does in its turn: where it can both send and stop, it stops.
unfoldable pub choice_of : {S : Type 0} → (ℕ → Option (Client S)) → ReadLoop → Choice
choice_of clients (at_range m r) = left_out clients r r.bound
choice_of clients (at_send m r) = gives_up
choice_of clients at_head = goes_on
choice_of clients in_read = goes_on
choice_of clients stopped = goes_on

unfoldable pub loop_choice : {S : Type 0} → (ℕ → Option (Client S)) → Option (Client S) → Choice
loop_choice clients none = goes_on
loop_choice clients (some c) = choice_of clients c.read_loop

-- A turn of a loop comes after any events; it has the answers of the connections, and the rounds that
-- ReadMessage may take.
pub record Turn (S : Type 0) : Type 0 where
  pub events : List (Event S)
  pub net : Network
  pub fuel : ℕ

module _ {S : Type 0} (conn_read : ReadFn S) (i : ℕ) where
  unfoldable pub take_turn : Network → ℕ → TcpServer S → TcpServer S
  take_turn net fuel t =
      step_of conn_read net fuel (loop_choice t.clients (t.clients i)) i (t.clients i) t

  unfoldable pub run_turns : List (Turn S) → TcpServer S → TcpServer S
  run_turns [] t = t
  run_turns (u ∷ us) t = run_turns us (take_turn u.net u.fuel (run conn_read u.events t))

pub unreached-mark_reached :
    (k : ℕ) (r : Range) (n : ℕ) → unreached (mark_reached k r) n ≤ unreached r n
unfolding unreached mark_reached is_member
unreached-mark_reached k r zero = omega arith
unreached-mark_reached k r (suc j) =
    fewer (k == j) (is_member j r.reached) (unreached-mark_reached k r j)
  where
    fewer :
        (a b : Bool)
        → unreached (mark_reached k r) j ≤ unreached r j
        → unreached (mark_reached k r) j + (if a || b then 0 else 1)
          ≤ unreached r j + (if b then 0 else 1)
    fewer true true h = omega arith
    fewer true false h = omega arith
    fewer false true h = omega arith
    fewer false false h = omega arith

pub unreached-lower :
    (k : ℕ) (r : Range) (n : ℕ)
    → is_member k r.reached ≡ false
    → k < n
    → suc (unreached (mark_reached k r) n) ≤ unreached r n
unfolding unreached mark_reached is_member
unreached-lower k r zero out below = omega arith
unreached-lower k r (suc j) out below =
    fewer (k == j) (is_member j r.reached)
      (λ same. ap (λ x. is_member x r.reached) (sym (==→eq k j same)) ∙ out)
      (unreached-mark_reached k r j) (λ other. unreached-lower k r j out (ground (arith, other)))
  where
    fewer :
        (a b : Bool)
        → (a ≡ true → b ≡ false)
        → unreached (mark_reached k r) j ≤ unreached r j
        → (a ≡ false → suc (unreached (mark_reached k r) j) ≤ unreached r j)
        → suc (unreached (mark_reached k r) j + (if a || b then 0 else 1))
          ≤ unreached r j + (if b then 0 else 1)
    fewer true true new most less = absurd (apart (new refl))
      where
        apart : true ≡ false → ⊥
        apart e = cc
    fewer true false new most less = omega arith
    fewer false true new most less = omega (arith, less refl)
    fewer false false new most less = omega (arith, less refl)

-- The choice is a client below `n` that the broadcast must reach and has not reached.
abbrev pub IsLeftOut : {S : Type 0} → (ℕ → Option (Client S)) → Range → ℕ → Choice → Type 0
IsLeftOut clients r n choice =
    (j : ℕ) × (choice ≡ reaches j)
    × (j < n)
    × (r.present j ≡ true)
    × (is_listed (clients j) ≡ true)
    × (is_member j r.reached ≡ false)

-- Either the broadcast can end, or there is a client that it must reach.
pub left_out-cases :
    {S : Type 0} (clients : ℕ → Option (Client S)) (r : Range) (n : ℕ)
    → ((left_out clients r n ≡ goes_on) × (is_over clients r n ≡ true))
      ⊎ IsLeftOut clients r n (left_out clients r n)
unfolding left_out is_over
left_out-cases clients r zero = inl (refl, refl)
left_out-cases clients r (suc j) =
    pick (r.present j) (is_listed (clients j)) (is_member j r.reached) refl refl refl
      (left_out-cases clients r j)
  where
    further :
        ((left_out clients r j ≡ goes_on) × (is_over clients r j ≡ true))
          ⊎ IsLeftOut clients r j (left_out clients r j)
        → ((left_out clients r j ≡ goes_on) × ((is_over clients r j && true) ≡ true))
          ⊎ IsLeftOut clients r (suc j) (left_out clients r j)
    further (inl (chosen, over)) = inl (chosen, ap (λ b. b && true) over)
    further (inr (k, chosen, below, here, listed, new)) =
        inr (k, chosen, omega arith, here, listed, new)

    pick :
        (here listing met : Bool)
        → r.present j ≡ here
        → is_listed (clients j) ≡ listing
        → is_member j r.reached ≡ met
        → ((left_out clients r j ≡ goes_on) × (is_over clients r j ≡ true))
          ⊎ IsLeftOut clients r j (left_out clients r j)
        → (((if here && listing && not met then reaches j else left_out clients r j) ≡ goes_on)
            × ((is_over clients r j && (not (here && listing) || met)) ≡ true))
          ⊎ IsLeftOut clients r
              (suc j)
              (if here && listing && not met then reaches j else left_out clients r j)
    pick true true false present listed new rest = inr (j, refl, omega arith, present, listed, new)
    pick true true true present listed new rest = further rest
    pick true false met present listed new rest = further rest
    pick false listing met present listed new rest = further rest
