-- ===== src/Broker/Starting.antt =====
-- message_broker.go: what a broker does with the transports of the store when it becomes the leader.
use qdp.Base.{
  choose, ℕ, ◌≡◌, refl, sym, ap, ◌∙◌, ◌==◌, if◌then◌else◌, List, [], ◌∷◌, ◌++◌, append-nil, Bool,
  true, false, ◌||◌, subst,
}
use qdp.Broker.{
  Store, Broker, Effect, is_connected, is_enabled, qdp_tcp_transport, qdp_ftdi_transport,
  new_ftdi_transport, is_client,
}
use qdp.Broker.Setup.{
  teardown, tcp_transport, setup_tcp_transport, ftdi_config, setup_ftdi_transport, notify_all,
  setup_tcp_transports, setup_ftdi_transports, setup,
}
use qdp.Broker.Events.{became_leader, handle, on_became_leader}
use qdp.Broker.Making.{
  transport_of, transports_made, KeepsSettings, Starts, Starts-refl, Starts-trans, silent-Starts,
  teardown-Starts, notify_all-Starts,
}

module _ {S : Type 0} (db : Store S) (kept : KeepsSettings db) where
  started :
      (e : ℕ) (x : Effect) (w : Broker S)
      → transport_of x ≡ e ∷ []
      → let s = Store.write_bool db w.store e is_connected false in
        Starts db (e ∷ []) w (
          if Store.read_bool db s e is_enabled
          then record w { store = s; effects = x ∷ w.effects }
          else record w { store = s })
  started e x w makes =
      pick (Store.read_bool db s e is_enabled) (kept.enabled_apart w.store e e false)
    where
      s : S
      s = Store.write_bool db w.store e is_connected false

      single : (here b : Bool) → (if here then false else b) ≡ (if here || false then false else b)
      single true b = refl
      single false b = refl

      begun :
          (w' : Broker S)
          → w'.store ≡ s
          → transports_made w'.effects
            ≡ transports_made w.effects
              ++ (if Store.read_bool db w.store e is_enabled then e ∷ [] else [])
          → Starts db (e ∷ []) w w'
      begun w' same makes_it = record {
        made = makes_it;
        marked = λ f.
            ap (λ t. Store.read_bool db t f is_connected) same
            ∙ kept.connected_written w.store e f false
            ∙ single (e == f) (Store.read_bool db w.store f is_connected);
        enabled_same = λ f.
            ap (λ t. Store.read_bool db t f is_enabled) same ∙ kept.enabled_apart w.store e f false;
        entities_same = λ type.
            ap (λ t. Store.entities db t type) same ∙ kept.entities_apart w.store e false type;
      }

      pick :
          (b : Bool)
          → b ≡ Store.read_bool db w.store e is_enabled
          → Starts db (e ∷ []) w (
              if b then record w { store = s; effects = x ∷ w.effects } else record w { store = s })
      pick true same =
          begun (record w { store = s; effects = x ∷ w.effects }) refl
            (ap (λ ks. transports_made w.effects ++ ks)
              (makes ∙ ap (λ b. if b then e ∷ [] else []) same))
      pick false same =
          begun (record w { store = s }) refl
            (sym (append-nil (transports_made w.effects))
              ∙ ap (λ b. transports_made w.effects ++ (if b then e ∷ [] else [])) same)

  tcp-Starts : (es : List ℕ) (w : Broker S) → Starts db es w (setup_tcp_transports db es w)
  unfolding setup_tcp_transports setup_tcp_transport tcp_transport
  tcp-Starts [] w = Starts-refl db w
  tcp-Starts (e ∷ es) w =
      let s = Store.write_bool db w.store e is_connected false in
      Starts-trans db (e ∷ []) es w (setup_tcp_transport db e w) (setup_tcp_transports db es _)
        (started e (tcp_transport db e s) w
          (choose (λ x. transport_of x ≡ e ∷ []) (Store.read_bool db s e is_client) refl refl))
        (tcp-Starts es (setup_tcp_transport db e w))

  ftdi-Starts : (es : List ℕ) (w : Broker S) → Starts db es w (setup_ftdi_transports db es w)
  unfolding setup_ftdi_transports setup_ftdi_transport
  ftdi-Starts [] w = Starts-refl db w
  ftdi-Starts (e ∷ es) w =
      let s = Store.write_bool db w.store e is_connected false in
      Starts-trans db (e ∷ []) es w (setup_ftdi_transport db e w) (setup_ftdi_transports db es _)
        (started e (new_ftdi_transport e (ftdi_config db e s)) w refl)
        (ftdi-Starts es (setup_ftdi_transport db e w))

  -- In a store where a read of IsConnected gives what was written last, and where writing it changes
  -- neither IsEnabled nor which entities there are: when a broker becomes the leader, it marks each
  -- entity of a transport as not connected, and no other entity, and makes a transport for each of them
  -- that is enabled, those of the TCP transports first, in the order of the store, and for no other.
  -- What is enabled, and which entities there are, stays as it was.
  pub became_leader-Starts :
      (w : Broker S)
      → Starts db
          (Store.entities db w.store qdp_tcp_transport
            ++ Store.entities db w.store qdp_ftdi_transport)
          w
          (handle db became_leader w)
  unfolding handle on_became_leader setup
  became_leader-Starts w =
      let leading = record w { is_leader = true } in
      let empty = teardown leading in
      let bound_all = notify_all empty in
      let tcp = Store.entities db bound_all.store qdp_tcp_transport in
      let tcp_done = setup_tcp_transports db tcp bound_all in
      let ftdi = Store.entities db tcp_done.store qdp_ftdi_transport in
      let start =
        Starts-trans db [] [] w empty bound_all
          (Starts-trans db [] [] w leading empty (silent-Starts db w leading refl refl)
            (teardown-Starts db leading))
          (notify_all-Starts db empty) in
      let middle = Starts-trans db [] tcp w bound_all tcp_done start (tcp-Starts tcp bound_all) in
      let all =
        Starts-trans db tcp ftdi w tcp_done (setup_ftdi_transports db ftdi tcp_done) middle
          (ftdi-Starts ftdi tcp_done) in
      subst (λ es. Starts db es w (setup_ftdi_transports db ftdi tcp_done))
        (ap (λ es. es ++ ftdi) (start.entities_same qdp_tcp_transport)
          ∙ ap (λ es. Store.entities db w.store qdp_tcp_transport ++ es)
              (middle.entities_same qdp_ftdi_transport))
        all
