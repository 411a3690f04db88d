-- ===== src/Protocol/Ordering.antt =====
-- lib/go/qdp.go: the invariants of the loops of StartReceiving.
use qdp.Base.{
  ◌≢◌, ◌≤◌, ◌≡◌, refl, sym, ap, ◌∙◌, arith, List, [], ◌∷◌, ◌++◌, true, length, append-nil,
  append_assoc, length-append, ◌⊎◌, inl, inr,
}
use qdp.Message.{Message}
use qdp.Protocol.{
  Phase, looping, receiving, offering, returned, Loops, start_receiving, Step, Steps, cancel, enter,
  leave, receive, give_up, retry, put, drop_message, process, stop_processing, stay, advance,
}

-- The message that the receive loop holds.
abbrev pub held : Phase → List Message
held looping = []
held receiving = []
held (offering m) = m ∷ []
held returned = []

-- Nothing is lost or reordered but a message held when the context was done.
pub record IsOrdered (s : Loops) : Type 0 where
  pub order : s.received ≡ s.handled ++ (s.channel ++ (held s.phase ++ s.dropped))
  pub room : length s.channel ≤ 100
  pub losses : (s.dropped ≡ []) ⊎ ((s.done ≡ true) × (s.phase ≡ returned))

-- The receive loop holds `ms`.
holding :
    {s : Loops} {p : Phase}
    → IsOrdered s
    → s.phase ≡ p
    → s.received ≡ s.handled ++ (s.channel ++ (held p ++ s.dropped))
holding {s} v e = v.order ∙ ap (λ p. s.handled ++ (s.channel ++ (held p ++ s.dropped))) e

none_dropped : {s : Loops} {p : Phase} → IsOrdered s → s.phase ≡ p → p ≢ returned → s.dropped ≡ []
none_dropped v e running = elim v.losses [
  | inl none_lost ↦ none_lost
  | inr (over, at_end) ↦ absurd (running (sym e ∙ at_end))
]

Step-IsOrdered : {s t : Loops} → IsOrdered s → Step s t → IsOrdered t
Step-IsOrdered v cancel = record {
  order = v.order;
  room = v.room;
  losses = elim v.losses [ inl l ↦ inl l | inr (over, at_end) ↦ inr (refl, at_end) ];
}
Step-IsOrdered v (enter p d) = record {
  order = holding v p;
  room = v.room;
  losses = inl (none_dropped v p (λ e. cc));
}
Step-IsOrdered v (leave p d) = record {
  order = holding v p;
  room = v.room;
  losses = inl (none_dropped v p (λ e. cc));
}
Step-IsOrdered {s} v (receive m p) =
    let unlost = none_dropped v p (λ e. cc) in
    record {
      order =
          ap (λ ms. ms ++ (m ∷ []))
            (holding v p
              ∙ ap (λ d. s.handled ++ (s.channel ++ d)) unlost
              ∙ ap (λ c. s.handled ++ c) (append-nil s.channel))
          ∙ append_assoc s.handled s.channel (m ∷ [])
          ∙ ap (λ d. s.handled ++ (s.channel ++ (m ∷ d))) (sym unlost);
      room = v.room;
      losses = inl unlost;
    }
Step-IsOrdered v (give_up p d) = record {
  order = holding v p;
  room = v.room;
  losses = inl (none_dropped v p (λ e. cc));
}
Step-IsOrdered v (retry p d) = record {
  order = holding v p;
  room = v.room;
  losses = inl (none_dropped v p (λ e. cc));
}
Step-IsOrdered {s} v (put m p h) = record {
  order = holding v p ∙ ap (λ c. s.handled ++ c) (sym (append_assoc s.channel (m ∷ []) s.dropped));
  room = omega (arith, length-append s.channel (m ∷ []), h);
  losses = inl (none_dropped v p (λ e. cc));
}
Step-IsOrdered {s} v (drop_message m p d) = record {
  order =
      holding v p
      ∙ ap (λ lost. s.handled ++ (s.channel ++ lost))
          (ap (λ lost. m ∷ lost) (none_dropped v p (λ e. cc))
            ∙ ap (λ lost. lost ++ (m ∷ [])) (sym (none_dropped v p (λ e. cc))));
  room = v.room;
  losses = inr (d, refl);
}
Step-IsOrdered {s} v (process m rest p c) =
    let behind = held s.phase ++ s.dropped in
    record {
      order =
          v.order
          ∙ ap (λ q. s.handled ++ (q ++ behind)) c
          ∙ sym (append_assoc s.handled (m ∷ []) (rest ++ behind));
      room = omega (arith, ap length c, v.room);
      losses = v.losses;
    }
Step-IsOrdered v (stop_processing p d) = record {
  order = v.order;
  room = v.room;
  losses = v.losses;
}

start_receiving-IsOrdered : IsOrdered start_receiving
unfolding start_receiving
start_receiving-IsOrdered = record { order = refl; room = omega arith; losses = inl refl }

-- In every state that the loops of StartReceiving reach, the messages that ReceiveMessage has given
-- are, in order, those that handleMessage was called with, those in the channel, which holds at most
-- 100, and the one that the receive loop holds or has dropped; it drops one only when the context is
-- done and then returns.
pub reachable-IsOrdered : {s : Loops} → Steps start_receiving s → IsOrdered s
reachable-IsOrdered stay = start_receiving-IsOrdered
reachable-IsOrdered (advance before step) = Step-IsOrdered (reachable-IsOrdered before) step
