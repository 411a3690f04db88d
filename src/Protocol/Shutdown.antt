-- ===== src/Protocol/Shutdown.antt =====
-- lib/go/qdp.go: what the loops of StartReceiving still do when their context is done.
use qdp.Base.{ℕ, ◌+◌, ◌≤◌, ◌≡◌, refl, ap, arith, [], ◌∷◌, true, length, length-append}
use qdp.Protocol.{
  Phase, looping, receiving, offering, returned, Loops, Step, Steps, cancel, enter, leave, receive,
  give_up, retry, put, drop_message, process, stop_processing, stay, advance,
}

-- The messages that the receive loop may still take from the transport.
abbrev to_come : Phase → ℕ
to_come looping = 0
to_come receiving = 1
to_come (offering m) = 0
to_come returned = 0

abbrev Settles : Loops → Loops → Type 0
Settles s t =
    (t.done ≡ true) × (length t.received + to_come t.phase ≤ length s.received + to_come s.phase)

to_come-le_one : (p : Phase) → to_come p ≤ 1
to_come-le_one looping = omega arith
to_come-le_one receiving = omega arith
to_come-le_one (offering m) = omega arith
to_come-le_one returned = omega arith

Step-Settles : {s t : Loops} → s.done ≡ true → Step s t → Settles s t
Step-Settles over cancel = (refl, omega arith)
Step-Settles over (enter p d) = cc
Step-Settles over (leave p d) = (over, omega (arith, ap to_come p))
Step-Settles {s} over (receive m p) =
    (over, omega (arith, ap to_come p, length-append s.received (m ∷ [])))
Step-Settles over (give_up p d) = (over, omega (arith, ap to_come p))
Step-Settles over (retry p d) = cc
Step-Settles over (put m p h) = (over, omega (arith, ap to_come p))
Step-Settles over (drop_message m p d) = (over, omega (arith, ap to_come p))
Step-Settles over (process m rest p c) = (over, omega arith)
Step-Settles over (stop_processing p d) = (over, omega arith)

Steps-Settles : {s t : Loops} → s.done ≡ true → Steps s t → Settles s t
Steps-Settles over stay = (over, omega arith)
Steps-Settles over (advance before step) =
    let (still_over, few) = Steps-Settles over before in
    let (end_over, fewer) = Step-Settles still_over step in (end_over, omega (arith, few, fewer))

-- Once the context is done it stays so, and the receive loop takes at most one more message from the
-- transport, in whatever order the loops go on.
pub Steps-received :
    {s t : Loops}
    → s.done ≡ true
    → Steps s t
    → (t.done ≡ true) × (length t.received ≤ length s.received + 1)
Steps-received {s} {t} over steps =
    let (end_over, few) = Steps-Settles over steps in
    (end_over, omega (arith, few, to_come-le_one s.phase))
