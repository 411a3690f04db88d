-- ===== src/Subscriptions/Runs.antt =====
-- Concrete subscriptions, and the theorems at concrete inputs.
use qdp.Base.{ℕ, ◌≡◌, refl, List, [], ◌∷◌, ◌++◌, if◌then◌else◌}
use qdp.Result.{ok, panic}
use qdp.Message.{Message}
use qdp.Topic.{match_topic, split, bytes_eq, last_part, match_parts}
use qdp.Subscriptions.{
  pointer, closure, SubscriptionManager, new_subscription_manager, subscribe, unsubscribe,
  unsubscribe_loop, is_subscribed, handler_eq, called, on_message_rx,
}
use qdp.Subscriptions.Laws.{
  reject, same_subscription, some_of, clashes, on_message_rx-subscribe, unsubscribe-reject,
  unsubscribe_closure, unsubscribe-subscribe_closure,
}

abbrev topic : List ℕ
topic = b'a' ∷ []

abbrev message : Message
message = record { topic = topic; payload = [] }

-- Two pointers and a func value, all on one pattern.
subscribed : SubscriptionManager
unfolding subscribe new_subscription_manager
subscribed =
    subscribe topic (closure 7 1)
      (subscribe topic (pointer 1 2) (subscribe topic (pointer 1 1) new_subscription_manager))

called_in_order : on_message_rx subscribed message ≡ pointer 1 1 ∷ pointer 1 2 ∷ closure 7 1 ∷ []
unfolding subscribed on_message_rx called match_topic split bytes_eq last_part match_parts
called_in_order = refl

unsubscribed :
    unsubscribe topic (pointer 1 1) subscribed
    ≡ ok (record {
      subscriptions =
          record { topic = topic; handler = pointer 1 2 }
          ∷ record { topic = topic; handler = closure 7 1 }
          ∷ [];
    })
unfolding subscribed unsubscribe unsubscribe_loop is_subscribed handler_eq bytes_eq
unsubscribed = refl

on_message_rx-subscribe_example :
    on_message_rx (subscribe topic (pointer 1 3) subscribed) message
    ≡ on_message_rx subscribed message ++ (if match_topic topic topic then pointer 1 3 ∷ [] else [])
on_message_rx-subscribe_example = on_message_rx-subscribe topic (pointer 1 3) subscribed message

unsubscribe-reject_example :
    unsubscribe topic (pointer 1 1) subscribed
    ≡ ok (record { subscriptions = reject (same_subscription topic 1 1) subscribed.subscriptions })
unsubscribe-reject_example = unsubscribe-reject topic 1 1 subscribed

unsubscribe_closure_example :
    unsubscribe topic (closure 8 1) subscribed
    ≡ (if some_of (clashes topic 8) subscribed.subscriptions then panic else ok subscribed)
unsubscribe_closure_example = unsubscribe_closure topic 8 1 subscribed

closure_stays : unsubscribe topic (closure 7 1) (subscribe topic (closure 7 1) subscribed) ≡ panic
closure_stays = unsubscribe-subscribe_closure topic 7 1 subscribed
