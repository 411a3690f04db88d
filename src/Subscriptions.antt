-- ===== src/Subscriptions.antt =====
-- lib/go/qdp.go: `DefaultSubscriptionManager`. Each method holds the mutex throughout, so a method
-- is one step on the list. Handlers are called from within `OnMessageRx`: the model gives the list of
-- those that are called, in order.
pub mod Laws
mod Runs
use qdp.Base.{
  ℕ, zero, suc, ◌+◌, ◌==◌, if◌then◌else◌, List, [], ◌∷◌, ◌++◌, Bool, true, false, ◌&&◌, Option,
  none, some, take, drop, length,
}
use qdp.Result.{Result, ok, err, panic, ◌>>=◌}
use qdp.Message.{Message}
use qdp.Topic.{bytes_eq, match_topic}

-- A value of the interface IMessageRxHandler, which is not nil: its dynamic type and an identity.
-- `pointer` has a dynamic type that can be compared, `closure` one that cannot, such as
-- MessageRxHandlerFunc, a func type.
pub data Handler : Type 0 where
  pointer : ℕ → ℕ → Handler
  closure : ℕ → ℕ → Handler

-- The operator == on two interface values: it panics if the dynamic types are the same and cannot be
-- compared.
pub handler_eq : Handler → Handler → Result Bool
handler_eq (pointer t v) (pointer u w) = ok (t == u && v == w)
handler_eq (pointer t v) (closure u w) = ok false
handler_eq (closure t v) (pointer u w) = ok false
handler_eq (closure t v) (closure u w) = if t == u then panic else ok false

pub record Subscription : Type 0 where
  pub topic : List ℕ
  pub handler : Handler

pub record SubscriptionManager : Type 0 where
  pub subscriptions : List Subscription

pub new_subscription_manager : SubscriptionManager
new_subscription_manager = record { subscriptions = [] }

pub subscribe : List ℕ → Handler → SubscriptionManager → SubscriptionManager
subscribe topic handler sm = record {
  subscriptions = sm.subscriptions ++ (record { topic = topic; handler = handler } ∷ []);
}

-- sm.subscriptions[i]
abbrev pub get_elem? : List Subscription → ℕ → Option Subscription
get_elem? [] i = none
get_elem? (s ∷ subs) zero = some s
get_elem? (s ∷ subs) (suc i) = get_elem? subs i

-- append(subs[:i], subs[i+1:]...)
abbrev pub remove_at : ℕ → List Subscription → List Subscription
remove_at i subs = take i subs ++ drop (i + 1) subs

-- `sub.topic == topic && sub.handler == handler`: the handlers are compared only if the topics agree.
pub is_subscribed : List ℕ → Handler → Subscription → Result Bool
is_subscribed topic handler sub =
    if bytes_eq sub.topic topic then handler_eq sub.handler handler else ok false

-- The loop from the last index down; `n` is one more than the next index.
pub unsubscribe_loop : List ℕ → Handler → ℕ → List Subscription → Result (List Subscription)
unsubscribe_loop topic handler zero subs = ok subs
unsubscribe_loop topic handler (suc i) subs = elim (get_elem? subs i) [
  | none ↦ panic
  | some sub ↦ do
    found ← is_subscribed topic handler sub
    unsubscribe_loop topic handler i (if found then remove_at i subs else subs)
]

-- A panic leaves the list as the loop has made it; `unsubscribe` says only that there was one.
pub unsubscribe : List ℕ → Handler → SubscriptionManager → Result SubscriptionManager
unsubscribe topic handler sm = do
  subs ← unsubscribe_loop topic handler (length sm.subscriptions) sm.subscriptions
  ok (record { subscriptions = subs })

-- The loop of `OnMessageRx`: the handlers that are called with the message.
called : List Subscription → Message → List Handler
called [] msg = []
called (sub ∷ subs) msg =
    let rest = called subs msg in
    if match_topic sub.topic msg.topic then sub.handler ∷ rest else rest

pub on_message_rx : SubscriptionManager → Message → List Handler
on_message_rx sm msg = called sm.subscriptions msg
