-- ===== src/Broker/Delivery.antt =====
-- message_broker.go: what a received message is written to.
use qdp.Base.{
  ℕ, ◌≡◌, refl, sym, ap, ◌∙◌, ◌==◌, ◌&&◌, if◌then◌else◌, Bool, true, false, List, [], ◌∷◌, ◌++◌,
  append_assoc, append-nil, map, foldl,
}
use qdp.Message.{Message}
use qdp.Topic.{match_topic}
use qdp.Subscriptions.{
  Handler, closure, SubscriptionManager, subscribe, new_subscription_manager, on_message_rx,
}
use qdp.Subscriptions.Laws.{on_message_rx-subscribe, on_message_rx-new_subscription_manager}
use qdp.Broker.{Store, topic, transport_reference, rx_message, rx_message_fn, qdp_topic}
use qdp.Broker.Jobs.{make_protocol, subscribe_topics, deliver, write_topic}

-- A subscription under a condition.
subscribe_if :
    (b : Bool) (title : List ℕ) (h : Handler) (sm : SubscriptionManager) (m : Message)
    → on_message_rx (if b then subscribe title h sm else sm) m
      ≡ on_message_rx sm m ++ (if b && match_topic title m.topic then h ∷ [] else [])
subscribe_if true title h sm m = on_message_rx-subscribe title h sm m
subscribe_if false title h sm m = sym (append-nil (on_message_rx sm m))

map_if :
    (b : Bool) (t : ℕ) (rest : List ℕ)
    → map (closure 0) (if b then t ∷ rest else rest)
      ≡ (if b then closure 0 t ∷ [] else []) ++ map (closure 0) rest
map_if true t rest = refl
map_if false t rest = refl

module _ {S : Type 0} (db : Store S) where
  -- The topic entities among `topics` that refer to the transport and whose pattern the message
  -- matches.
  abbrev pub listening : S → ℕ → Message → List ℕ → List ℕ
  listening s entity m [] = []
  listening s entity m (t ∷ topics) =
      let rest = listening s entity m topics in
      if Store.read_entity_reference db s t transport_reference == entity
        && match_topic (Store.read_string db s t topic) m.topic
      then t ∷ rest
      else rest

  subscribe_topics-listening :
      (s : S) (entity : ℕ) (m : Message) (topics : List ℕ) (sm : SubscriptionManager)
      → on_message_rx (subscribe_topics db s entity topics sm) m
        ≡ on_message_rx sm m ++ map (closure 0) (listening s entity m topics)
  unfolding subscribe_topics
  subscribe_topics-listening s entity m [] sm = sym (append-nil (on_message_rx sm m))
  subscribe_topics-listening s entity m (t ∷ topics) sm =
      let mine = Store.read_entity_reference db s t transport_reference == entity in
      let title = Store.read_string db s t topic in
      let rest = map (closure 0) (listening s entity m topics) in
      subscribe_topics-listening s entity m topics
        (if mine then subscribe title (closure 0 t) sm else sm)
      ∙ ap (λ hs. hs ++ rest) (subscribe_if mine title (closure 0 t) sm m)
      ∙ append_assoc (on_message_rx sm m)
          (if mine && match_topic title m.topic then closure 0 t ∷ [] else []) rest
      ∙ ap (λ hs. on_message_rx sm m ++ hs)
          (sym (map_if (mine && match_topic title m.topic) t (listening s entity m topics)))

  -- Writing the payload to both fields of each topic, in order.
  abbrev pub write_topics : Message → List ℕ → S → S
  write_topics m [] s = s
  write_topics m (t ∷ ts) s = write_topics m ts (
      Store.write_string db (Store.write_string db s t rx_message m.payload) t rx_message_fn
        m.payload)

  foldl-write_topics :
      (m : Message) (ts : List ℕ) (s : S)
      → foldl (write_topic db m) s (map (closure 0) ts) ≡ write_topics m ts s
  unfolding write_topic
  foldl-write_topics m [] s = refl
  foldl-write_topics m (t ∷ ts) s = foldl-write_topics m ts (
      Store.write_string db (Store.write_string db s t rx_message m.payload) t rx_message_fn
        m.payload)

  pub deliver-listening :
      (s s' : S) (number entity : ℕ) (m : Message)
      → deliver db (make_protocol db s number entity) m s'
        ≡ write_topics m (listening s entity m (Store.entities db s qdp_topic)) s'
  unfolding deliver make_protocol
  deliver-listening s s' number entity m =
      ap (foldl (write_topic db m) s') (
        subscribe_topics-listening s entity m (Store.entities db s qdp_topic)
          new_subscription_manager
        ∙ ap (λ hs. hs ++ map (closure 0) (listening s entity m (Store.entities db s qdp_topic)))
            (on_message_rx-new_subscription_manager m))
      ∙ foldl-write_topics m (listening s entity m (Store.entities db s qdp_topic)) s'
