-- ===== src/Broker/Making.antt =====
-- message_broker.go: which transports are made, and which entities are marked as not connected, and that
-- `teardown` and the notifications do neither.
use qdp.Base.{
  ℕ, ◌≡◌, refl, sym, ap, ◌∙◌, ◌==◌, if◌then◌else◌, List, [], ◌∷◌, ◌++◌, append-nil, append_assoc,
  Option, none, some, Bool, true, false, ◌||◌,
}
use qdp.Broker.{
  Store, Broker, BrokerProtocol, Effect, EntityType, NotificationConfig, is_connected, is_enabled,
  new_tcp_client_transport, new_tcp_server_transport, new_ftdi_transport, start_receiving,
  close_protocol, send_message, notify, unbind,
}
use qdp.Broker.Protocols.{lookup}
use qdp.Broker.Jobs.{close_found, close_entity}
use qdp.Broker.Setup.{close_entities, unbind_all, teardown, ids, notify_of, notify_all}

-- The entities for which transports have been made, in order.
abbrev pub transport_of : Effect → List ℕ
transport_of (new_tcp_client_transport e addr) = e ∷ []
transport_of (new_tcp_server_transport e addr) = e ∷ []
transport_of (new_ftdi_transport e config) = e ∷ []
transport_of (start_receiving n) = []
transport_of (close_protocol n) = []
transport_of (send_message n m) = []
transport_of (notify n config) = []
transport_of (unbind n) = []

abbrev pub transports_made : List Effect → List ℕ
transports_made [] = []
transports_made (x ∷ xs) = transports_made xs ++ transport_of x

abbrev pub is_in : ℕ → List ℕ → Bool
is_in f [] = false
is_in f (e ∷ es) = e == f || is_in f es

choose_append :
    (b : Bool) (e : ℕ) (es fs : List ℕ)
    → (if b then e ∷ es else es) ++ fs ≡ (if b then e ∷ (es ++ fs) else es ++ fs)
choose_append true e es fs = refl
choose_append false e es fs = refl

marked_or :
    (here late early any b : Bool)
    → (if late then false else (if early then false else b)) ≡ (if any then false else b)
    → (if late then false else (if here || early then false else b))
      ≡ (if here || any then false else b)
marked_or true true early any b same = refl
marked_or true false early any b same = refl
marked_or false late early any b same = same

module _ {S : Type 0} (db : Store S) where
  abbrev pub enabled : S → List ℕ → List ℕ
  enabled s [] = []
  enabled s (e ∷ es) =
      let rest = enabled s es in if Store.read_bool db s e is_enabled then e ∷ rest else rest

  -- What starting needs of the store: a read of the field IsConnected gives what was written last, and
  -- that field is apart from IsEnabled and from which entities there are.
  pub record KeepsSettings : Type 0 where
    pub connected_written :
        (s : S) (e f : ℕ) (b : Bool)
        → Store.read_bool db (Store.write_bool db s e is_connected b) f is_connected
          ≡ (if e == f then b else Store.read_bool db s f is_connected)
    pub enabled_apart :
        (s : S) (e f : ℕ) (b : Bool)
        → Store.read_bool db (Store.write_bool db s e is_connected b) f is_enabled
          ≡ Store.read_bool db s f is_enabled
    pub entities_apart :
        (s : S) (e : ℕ) (b : Bool) (type : EntityType)
        → Store.entities db (Store.write_bool db s e is_connected b) type ≡ Store.entities db s type

  -- The entities `es` are marked as not connected, and a transport is made for those that are enabled.
  pub record Starts (es : List ℕ) (w w' : Broker S) : Type 0 where
    pub made : transports_made w'.effects ≡ transports_made w.effects ++ enabled w.store es
    pub marked :
        (f : ℕ)
        → Store.read_bool db w'.store f is_connected
          ≡ (if is_in f es then false else Store.read_bool db w.store f is_connected)
    pub enabled_same :
        (f : ℕ) → Store.read_bool db w'.store f is_enabled ≡ Store.read_bool db w.store f is_enabled
    pub entities_same :
        (type : EntityType) → Store.entities db w'.store type ≡ Store.entities db w.store type

  enabled-same :
      (s s' : S) (es : List ℕ)
      → ((f : ℕ) → Store.read_bool db s' f is_enabled ≡ Store.read_bool db s f is_enabled)
      → enabled s' es ≡ enabled s es
  enabled-same s s' [] same = refl
  enabled-same s s' (e ∷ es) same =
      ap (λ b. if b then e ∷ enabled s' es else enabled s' es) (same e)
      ∙ ap (λ rest. if Store.read_bool db s e is_enabled then e ∷ rest else rest)
          (enabled-same s s' es same)

  pub Starts-refl : (w : Broker S) → Starts [] w w
  Starts-refl w = record {
    made = sym (append-nil (transports_made w.effects));
    marked = λ f. refl;
    enabled_same = λ f. refl;
    entities_same = λ type. refl;
  }

  pub Starts-trans :
      (es fs : List ℕ) (w w' w'' : Broker S)
      → Starts es w w'
      → Starts fs w' w''
      → Starts (es ++ fs) w w''
  Starts-trans es fs w w' w'' v v' = record {
    made =
        v'.made
        ∙ ap (λ ks. ks ++ enabled w'.store fs) v.made
        ∙ append_assoc (transports_made w.effects) (enabled w.store es) (enabled w'.store fs)
        ∙ ap (λ ks. transports_made w.effects ++ (enabled w.store es ++ ks))
            (enabled-same w.store w'.store fs v.enabled_same)
        ∙ ap (λ ks. transports_made w.effects ++ ks) (enabled-append es);
    marked = λ f.
        v'.marked f
        ∙ ap (λ b. if is_in f fs then false else b) (v.marked f)
        ∙ both f es (Store.read_bool db w.store f is_connected);
    enabled_same = λ f. v'.enabled_same f ∙ v.enabled_same f;
    entities_same = λ type. v'.entities_same type ∙ v.entities_same type;
  }
    where
      enabled-append :
          (es : List ℕ) → enabled w.store es ++ enabled w.store fs ≡ enabled w.store (es ++ fs)
      enabled-append [] = refl
      enabled-append (e ∷ es) =
          choose_append (Store.read_bool db w.store e is_enabled) e (enabled w.store es)
            (enabled w.store fs)
          ∙ ap (λ rest. if Store.read_bool db w.store e is_enabled then e ∷ rest else rest)
              (enabled-append es)

      both :
          (f : ℕ) (es : List ℕ) (b : Bool)
          → (if is_in f fs then false else (if is_in f es then false else b))
            ≡ (if is_in f (es ++ fs) then false else b)
      both f [] b = refl
      both f (e ∷ es) b =
          marked_or (e == f) (is_in f fs) (is_in f es) (is_in f (es ++ fs)) b (both f es b)

  -- An effect that makes no transport.
  pub silent-Starts :
      (w w' : Broker S)
      → w'.store ≡ w.store
      → transports_made w'.effects ≡ transports_made w.effects
      → Starts [] w w'
  silent-Starts w w' same none_more = record {
    made = none_more ∙ sym (append-nil (transports_made w.effects));
    marked = λ f. ap (λ s. Store.read_bool db s f is_connected) same;
    enabled_same = λ f. ap (λ s. Store.read_bool db s f is_enabled) same;
    entities_same = λ type. ap (λ s. Store.entities db s type) same;
  }

  close_found-Starts :
      (k : ℕ) (o : Option BrokerProtocol) (w : Broker S) → Starts [] w (close_found k o w)
  unfolding close_found
  close_found-Starts k none w = Starts-refl w
  close_found-Starts k (some p) w = silent-Starts w _ refl (append-nil (transports_made w.effects))

  close_entities-Starts : (ks : List ℕ) (w : Broker S) → Starts [] w (close_entities ks w)
  unfolding close_entities close_entity
  close_entities-Starts [] w = Starts-refl w
  close_entities-Starts (k ∷ ks) w =
      let w' = close_found k (lookup k w.protocols_by_entity) w in
      Starts-trans [] [] w w' (close_entities ks w')
        (close_found-Starts k (lookup k w.protocols_by_entity) w) (close_entities-Starts ks w')

  unbind_all-Starts : (tokens : List ℕ) (w : Broker S) → Starts [] w (unbind_all tokens w)
  unfolding unbind_all
  unbind_all-Starts [] w = Starts-refl w
  unbind_all-Starts (token ∷ tokens) w =
      let w' = record w { effects = unbind token ∷ w.effects } in
      Starts-trans [] [] w w' (unbind_all tokens w')
        (silent-Starts w w' refl (append-nil (transports_made w.effects)))
        (unbind_all-Starts tokens w')

  pub teardown-Starts : (w : Broker S) → Starts [] w (teardown w)
  unfolding teardown
  teardown-Starts w =
      let closed = close_entities (ids w.protocols_by_entity) w in
      let unbound = unbind_all closed.tokens closed in
      let v =
        Starts-trans [] [] w closed unbound (close_entities-Starts (ids w.protocols_by_entity) w)
          (unbind_all-Starts closed.tokens closed) in
      Starts-trans [] [] w unbound (record unbound { tokens = [] }) v
        (silent-Starts unbound _ refl refl)

  notify_of-Starts : (config : NotificationConfig) (w : Broker S) → Starts [] w (notify_of config w)
  unfolding notify_of
  notify_of-Starts config w = silent-Starts w _ refl (append-nil (transports_made w.effects))

  pub notify_all-Starts : (w : Broker S) → Starts [] w (notify_all w)
  unfolding notify_all
  notify_all-Starts w =
      Starts-trans [] [] w _ _
        (Starts-trans [] [] w _ _
          (Starts-trans [] [] w _ _ (notify_of-Starts _ w) (notify_of-Starts _ _))
          (notify_of-Starts _ _))
        (notify_of-Starts _ _)
