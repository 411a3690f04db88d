-- ===== src/Protocol/Runs.antt =====
-- lib/go/qdp.go: a run of the loops of StartReceiving.
use qdp.Base.{◌+◌, ◌≤◌, ◌≡◌, refl, arith, [], ◌∷◌, true, false, length, none, some}
use qdp.Result.{eof}
use qdp.Message.{Message}
use qdp.Protocol.{
  receiving, returned, Loops, start_receiving, Steps, enter, receive, put, drop_message, process,
  stay, advance, send_message, publish_message,
}
use qdp.Protocol.Ordering.{IsOrdered, reachable-IsOrdered}
use qdp.Protocol.Shutdown.{Steps-received}

abbrev note : Message
note = record { topic = b'a' ∷ []; payload = b'1' ∷ [] }

-- A refused message is not reported as sent.
send_note : send_message none note ≡ (none, note ∷ [])
unfolding send_message
send_note = refl

send_refused : send_message (some eof) note ≡ (some eof, [])
unfolding send_message
send_refused = refl

publish_note : publish_message (λ m. none) (b'a' ∷ []) (b'1' ∷ []) ≡ (none, note ∷ [])
unfolding send_message publish_message
publish_note = refl

-- In ReceiveMessage, after one message has been handled.
abbrev between : Loops
between = record {
  done = false;
  phase = receiving;
  processing = true;
  channel = [];
  received = note ∷ [];
  handled = note ∷ [];
  dropped = [];
}

run : Steps start_receiving between
unfolding start_receiving
run =
    advance
      (advance
        (advance (advance (advance stay (enter refl refl)) (receive note refl))
          (put note refl (omega arith)))
        (process note [] refl refl))
      (enter refl refl)

reachable-IsOrdered_example : IsOrdered between
reachable-IsOrdered_example = reachable-IsOrdered run

-- The context is done while the loop is in ReceiveMessage, which then gives a last message.
abbrev cancelled : Loops
cancelled = record between { done = true }

abbrev last : Loops
last = record cancelled { phase = returned; received = note ∷ note ∷ []; dropped = note ∷ [] }

Steps-received_example : (last.done ≡ true) × (length last.received ≤ length cancelled.received + 1)
Steps-received_example =
    Steps-received {s = cancelled} {t = last} refl
      (advance (advance stay (receive note refl)) (drop_message note refl refl))
