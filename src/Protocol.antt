-- ===== src/Protocol.antt =====
-- lib/go/qdp.go: `DefaultProtocol`. Its methods are functions; the two goroutines of StartReceiving,
-- which share the channel and the context, are a step relation.
pub mod Ordering
pub mod Shutdown
pub mod Object
mod Runs
use qdp.Base.{
  ℕ, ◌+◌, ◌<◌, ◌≡◌, List, [], ◌∷◌, ◌++◌, Bool, true, false, Option, none, some, length, map,
}
use qdp.Result.{Error}
use qdp.Message.{Message}
use qdp.Subscriptions.{Handler, SubscriptionManager, on_message_rx}

-- The capacity of msgCh.
abbrev pub channel_size : ℕ
channel_size = 100

-- SendMessage. `outcome` is what the transport's WriteMessage gives; with it come the calls of
-- OnMessageTx.
pub send_message : Option Error → Message → Option Error × List Message
send_message none m = (none, m ∷ [])
send_message (some e) m = (some e, [])

-- PublishMessage. The transport answers the message.
pub publish_message : (Message → Option Error) → List ℕ → List ℕ → Option Error × List Message
publish_message write_message topic payload =
    let m : Message = record { topic = topic; payload = payload } in
    send_message (write_message m) m

-- A call that a received message leads to: OnMessageRx of the protocol's message handler, or of a
-- subscriber.
pub data RxCall : Type 0 where
  message_handler : Message → RxCall
  subscriber : Handler → Message → RxCall

pub handle_message : SubscriptionManager → Message → List RxCall
handle_message subscribers m =
    message_handler m ∷ map (λ h. subscriber h m) (on_message_rx subscribers m)

-- Where the receive loop stands: at the head of the loop, in ReceiveMessage, at the send to the
-- channel with a message, or returned.
pub data Phase : Type 0 where
  looping : Phase
  receiving : Phase
  offering : Message → Phase
  returned : Phase

-- `done` is that ctx is done, `processing` that the process loop runs. `received`, `handled` and
-- `dropped` have the messages that ReceiveMessage has given, that handleMessage was called with, and
-- that were not sent to the channel.
pub record Loops : Type 0 where
  pub done : Bool
  pub phase : Phase
  pub processing : Bool
  pub channel : List Message
  pub received : List Message
  pub handled : List Message
  pub dropped : List Message

-- StartReceiving, with a parent context that is not done.
pub start_receiving : Loops
start_receiving = record {
  done = false;
  phase = looping;
  processing = true;
  channel = [];
  received = [];
  handled = [];
  dropped = [];
}

pub data Step : Loops → Loops → Type 0 where
  -- The parent context is cancelled.
  cancel : {s : Loops} → Step s (record s { done = true })
  -- The receive loop: the select at its head,
  enter : {s : Loops} → s.phase ≡ looping → s.done ≡ false → Step s (record s { phase = receiving })
  leave : {s : Loops} → s.phase ≡ looping → s.done ≡ true → Step s (record s { phase = returned })
  -- what ReceiveMessage gives, a message or an error,
  receive :
      {s : Loops} (m : Message)
      → s.phase ≡ receiving
      → Step s (record s { phase = offering m; received = s.received ++ (m ∷ []) })
  give_up :
      {s : Loops} → s.phase ≡ receiving → s.done ≡ true → Step s (record s { phase = returned })
  retry : {s : Loops} → s.phase ≡ receiving → s.done ≡ false → Step s (record s { phase = looping })
  -- and the select with the send to the channel.
  put :
      {s : Loops} (m : Message)
      → s.phase ≡ offering m
      → length s.channel < channel_size
      → Step s (record s { phase = looping; channel = s.channel ++ (m ∷ []) })
  drop_message :
      {s : Loops} (m : Message)
      → s.phase ≡ offering m
      → s.done ≡ true
      → Step s (record s { phase = returned; dropped = s.dropped ++ (m ∷ []) })
  -- The process loop.
  process :
      {s : Loops} (m : Message) (rest : List Message)
      → s.processing ≡ true
      → s.channel ≡ m ∷ rest
      → Step s (record s { channel = rest; handled = s.handled ++ (m ∷ []) })
  stop_processing :
      {s : Loops} → s.processing ≡ true → s.done ≡ true → Step s (record s { processing = false })

-- Any number of steps.
pub data Steps : Loops → Loops → Type 0 where
  stay : {s : Loops} → Steps s s
  advance : {s t u : Loops} → Steps s t → Step t u → Steps s u
