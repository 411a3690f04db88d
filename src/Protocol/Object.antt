-- ===== src/Protocol/Object.antt =====
-- lib/go/qdp.go: `DefaultProtocol` as an object over an ITransport, and MessageHandlerFunc.
pub mod Tcp
pub mod Ends
mod Runs
use qdp.Base.{ℕ, List, [], ◌∷◌, ◌++◌, map, Bool, true, false, Option, none, some}
use qdp.Result.{Error, Result, ok, err, panic}
use qdp.Message.{Message}
use qdp.Subscriptions.{Handler, SubscriptionManager, new_subscription_manager}
use qdp.Subscriptions
use qdp.Protocol.{RxCall, send_message, handle_message}

-- ITransport, with the state `T` of the transport. A read may not return; a write may panic.
pub record Transport (T : Type 0) : Type 0 where
  pub read_from : T → Option (Result Message × T)
  pub write_to : Message → T → Result (Option Error) × T
  pub close_of : T → Option Error × T

-- MessageHandlerFunc: its two functions, which may be nil, by a number.
pub record MessageHandlerFunc : Type 0 where
  pub on_message_rx_func : Option ℕ
  pub on_message_tx_func : Option ℕ

-- The calls of a function that may be nil.
pub calls_of : Option ℕ → List Message → List (ℕ × Message)
calls_of none ms = []
calls_of (some f) ms = map (λ m. (f, m)) ms

-- `calls` has the calls of the functions of the message handler.
pub record DefaultProtocol (T : Type 0) : Type 0 where
  pub transport : T
  pub subscribers : SubscriptionManager
  pub msg_handler : MessageHandlerFunc
  pub cancelled : Bool
  pub calls : List (ℕ × Message)

-- NewProtocol: what is nil is made.
pub subscribers_or_new : Option SubscriptionManager → SubscriptionManager
subscribers_or_new none = new_subscription_manager
subscribers_or_new (some sm) = sm

unfoldable pub handler_or_empty : Option MessageHandlerFunc → MessageHandlerFunc
handler_or_empty none = record { on_message_rx_func = none; on_message_tx_func = none }
handler_or_empty (some h) = h

unfoldable pub new_protocol :
    {T : Type 0} → T → Option SubscriptionManager → Option MessageHandlerFunc → DefaultProtocol T
new_protocol transport subscribers msg_handler = record {
  transport = transport;
  subscribers = subscribers_or_new subscribers;
  msg_handler = handler_or_empty msg_handler;
  cancelled = false;
  calls = [];
}

pub subscribe_to : {T : Type 0} → List ℕ → Handler → DefaultProtocol T → DefaultProtocol T
subscribe_to topic handler p = record p {
  subscribers = Subscriptions.subscribe topic handler p.subscribers;
}

pub after_unsubscribe :
    {T : Type 0} → Result SubscriptionManager → DefaultProtocol T → Result (DefaultProtocol T)
after_unsubscribe (ok sm) p = ok (record p { subscribers = sm })
after_unsubscribe (err e) p = err e
after_unsubscribe panic p = panic

pub unsubscribe_from :
    {T : Type 0} → List ℕ → Handler → DefaultProtocol T → Result (DefaultProtocol T)
unsubscribe_from topic handler p =
    after_unsubscribe (Subscriptions.unsubscribe topic handler p.subscribers) p

-- SendMessage on what the transport gives.
pub after_write_to :
    {T : Type 0}
    → Message
    → Result (Option Error) × T
    → DefaultProtocol T
    → Result (Option Error) × DefaultProtocol T
after_write_to m (ok e, t) p =
    let (e', sent) = send_message e m in
    (
      ok e',
      record p { transport = t; calls = p.calls ++ calls_of p.msg_handler.on_message_tx_func sent },
    )
after_write_to m (err e, t) p = (err e, record p { transport = t })
after_write_to m (panic, t) p = (panic, record p { transport = t })

pub with_transport :
    {T : Type 0}
    → DefaultProtocol T
    → Option (Result Message × T)
    → Option (Result Message × DefaultProtocol T)
with_transport p none = none
with_transport p (some (res, t)) = some (res, record p { transport = t })

module _ {T : Type 0} (itransport : Transport T) where
  pub send_over : Message → DefaultProtocol T → Result (Option Error) × DefaultProtocol T
  send_over m p = after_write_to m (itransport.write_to m p.transport) p

  unfoldable pub publish_over :
      List ℕ → List ℕ → DefaultProtocol T → Result (Option Error) × DefaultProtocol T
  publish_over topic payload p = send_over (record { topic = topic; payload = payload }) p

  pub receive_message : DefaultProtocol T → Option (Result Message × DefaultProtocol T)
  receive_message p = with_transport p (itransport.read_from p.transport)

  -- Close cancels a context that the loops do not watch.
  pub close_over : DefaultProtocol T → Option Error × DefaultProtocol T
  close_over p =
      let (e, t) = itransport.close_of p.transport in
      (e, record p { transport = t; cancelled = true })

-- handleMessage: the functions of the message handler and the subscribers that are called.
unfoldable pub rx_call : MessageHandlerFunc → RxCall → List (Option Handler × Message)
rx_call h (RxCall.message_handler m) =
    map (λ c. (none, c.1)) (calls_of h.on_message_rx_func (m ∷ []))
rx_call h (RxCall.subscriber s m) = (some s, m) ∷ []

pub rx_calls : MessageHandlerFunc → List RxCall → List (Option Handler × Message)
rx_calls h [] = []
rx_calls h (c ∷ cs) = rx_call h c ++ rx_calls h cs

pub handle_received : {T : Type 0} → DefaultProtocol T → Message → List (Option Handler × Message)
handle_received p m = rx_calls p.msg_handler (handle_message p.subscribers m)
