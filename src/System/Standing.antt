-- ===== src/System/Standing.antt =====
-- message_broker.go: what a broker that leads holds of a transport while the jobs of all transports run.
use qdp.Base.{
  if_true, if_false, Bool-cases, subst, ==-refl, ℕ, ◌≡◌, refl, sym, ap, ◌∙◌, ◌==◌, if◌then◌else◌,
  Bool, true, false, List, [], ◌∷◌, map, Option, none, some, inl, inr,
}
use qdp.TcpClient.{Notice, on_connect, on_disconnect}
use qdp.Broker.{Store, Broker, is_connected, total_received, total_sent}
use qdp.Broker.Protocols.{lookup, lookup-insert}
use qdp.Broker.Jobs.{
  Job, message_rx, message_tx, connect, disconnect, run_job, on_message_rx_job, on_message_tx_job,
  on_connect_job, on_disconnect_job, increment, install, close_entity,
}
use qdp.Broker.Events.{job, handle, handle_all}
use qdp.Broker.Counting.{close_found-rest}
use qdp.Broker.Routing.{close_found-lookup}
use qdp.System.{connect_jobs, disconnect_jobs, hears, hears_all, connection_handler}

-- The jobs of one transport among those of all: its connections and disconnections.
unfoldable pub of_transport : ℕ → List Job → List Job
of_transport e [] = []
of_transport e (message_rx f ∷ js) = of_transport e js
of_transport e (message_tx f ∷ js) = of_transport e js
of_transport e (connect f ∷ js) =
    let rest = of_transport e js in if f == e then connect f ∷ rest else rest
of_transport e (disconnect f error ∷ js) =
    let rest = of_transport e js in if f == e then disconnect f error ∷ rest else rest

-- How the last of its jobs leaves the transport: connected or not.
standing : ℕ → Bool → List Job → Bool
standing e b [] = b
standing e b (message_rx f ∷ js) = standing e b js
standing e b (message_tx f ∷ js) = standing e b js
standing e b (connect f ∷ js) = standing e (if f == e then true else b) js
standing e b (disconnect f error ∷ js) = standing e (if f == e then false else b) js

unfoldable pub last_notice : Bool → List Notice → Bool
last_notice b [] = b
last_notice b (on_connect ∷ ns) = last_notice true ns
last_notice b (on_disconnect e ∷ ns) = last_notice false ns

abbrev is_some : {A : Type 0} → Option A → Bool
is_some none = false
is_some (some a) = true

-- The map of protocols and the field IsConnected say whether the transport `e` is connected.
pub record Shows {S : Type 0} (db : Store S) (e : ℕ) (b : Bool) (w : Broker S) : Type 0 where
  pub leads : w.is_leader ≡ true
  pub held : is_some (lookup e w.protocols_by_entity) ≡ b
  pub told : Store.read_bool db w.store e is_connected ≡ b

-- What the field IsConnected needs of the store: a read gives what was written last to that field, and
-- the counters are other fields.
pub record KeepsFlags {S : Type 0} (db : Store S) : Type 0 where
  pub flag_written :
      (s : S) (e f : ℕ) (b : Bool)
      → Store.read_bool db (Store.write_bool db s e is_connected b) f is_connected
        ≡ (if e == f then b else Store.read_bool db s f is_connected)
  pub received_apart :
      (s : S) (e f v : ℕ)
      → Store.read_bool db (Store.write_int db s e total_received v) f is_connected
        ≡ Store.read_bool db s f is_connected
  pub sent_apart :
      (s : S) (e f v : ℕ)
      → Store.read_bool db (Store.write_int db s e total_sent v) f is_connected
        ≡ Store.read_bool db s f is_connected

standing-of_transport :
    (e : ℕ) (b : Bool) (js : List Job) → standing e b (of_transport e js) ≡ standing e b js
unfolding standing of_transport
standing-of_transport e b [] = refl
standing-of_transport e b (message_rx f ∷ js) = standing-of_transport e b js
standing-of_transport e b (message_tx f ∷ js) = standing-of_transport e b js
standing-of_transport e b (connect f ∷ js) = elim (Bool-cases (f == e)) [
  | inl same ↦
      ap (standing e b) (if_true (f == e) _ _ same)
      ∙ standing-of_transport e (if f == e then true else b) js
  | inr other ↦
      ap (standing e b) (if_false (f == e) _ _ other)
      ∙ standing-of_transport e b js
      ∙ ap (λ c. standing e c js) (sym (if_false (f == e) true b other))
]
standing-of_transport e b (disconnect f error ∷ js) = elim (Bool-cases (f == e)) [
  | inl same ↦
      ap (standing e b) (if_true (f == e) _ _ same)
      ∙ standing-of_transport e (if f == e then false else b) js
  | inr other ↦
      ap (standing e b) (if_false (f == e) _ _ other)
      ∙ standing-of_transport e b js
      ∙ ap (λ c. standing e c js) (sym (if_false (f == e) false b other))
]

standing-hears_all :
    (e : ℕ) (b : Bool) (ns : List Notice)
    → standing e b (hears_all (connection_handler e) ns) ≡ last_notice b ns
unfolding standing hears_all hears connection_handler connect_jobs disconnect_jobs last_notice
standing-hears_all e b [] = refl
standing-hears_all e b (on_connect ∷ ns) =
    ap (λ c. standing e c (hears_all (connection_handler e) ns))
      (if_true (e == e) true b (==-refl e))
    ∙ standing-hears_all e true ns
standing-hears_all e b (on_disconnect error ∷ ns) =
    ap (λ c. standing e c (hears_all (connection_handler e) ns))
      (if_true (e == e) false b (==-refl e))
    ∙ standing-hears_all e false ns

is_some_if :
    {A : Type 0} (test b : Bool) (v x : Option A)
    → is_some x ≡ b
    → is_some (if test then v else x) ≡ (if test then is_some v else b)
is_some_if true b v x same = refl
is_some_if false b v x same = same

module _ {S : Type 0} (db : Store S) (kept : KeepsFlags db) (e : ℕ) where
  -- A job of a broker that leads does what its function does after the test.
  for_leader :
      (b : Bool) (w w' : Broker S)
      → w.is_leader ≡ true
      → Shows db e b w'
      → Shows db e b (if w.is_leader then w' else w)
  for_leader b w w' leads v = subst (Shows db e b) (sym (if_true w.is_leader w' w leads)) v

  close_entity-Shows :
      (b : Bool) (f : ℕ) (w : Broker S)
      → w.is_leader ≡ true
      → is_some (lookup e w.protocols_by_entity) ≡ b
      → Store.read_bool db w.store e is_connected ≡ (if f == e then false else b)
      → Shows db e (if f == e then false else b) (close_entity f w)
  unfolding close_entity
  close_entity-Shows b f w leads held told =
      let (store_same, leader_same) = close_found-rest f (lookup f w.protocols_by_entity) w in
      record {
        leads = leader_same ∙ leads;
        held =
            ap is_some (close_found-lookup f e (lookup f w.protocols_by_entity) w refl)
            ∙ is_some_if (f == e) b none (lookup e w.protocols_by_entity) held;
        told = ap (λ s. Store.read_bool db s e is_connected) store_same ∙ told;
      }

  run_job-Shows :
      (b : Bool) (j : Job) (w : Broker S)
      → Shows db e b w
      → Shows db e (standing e b (j ∷ [])) (run_job db j w)
  unfolding run_job standing on_message_rx_job on_message_tx_job on_connect_job on_disconnect_job
      increment install
  run_job-Shows b (message_rx f) w v =
      for_leader b w _ v.leads (record {
        leads = v.leads;
        held = v.held;
        told = kept.received_apart w.store f e _ ∙ v.told;
      })
  run_job-Shows b (message_tx f) w v =
      for_leader b w _ v.leads
        (record { leads = v.leads; held = v.held; told = kept.sent_apart w.store f e _ ∙ v.told })
  run_job-Shows b (connect f) w v = for_leader (if f == e then true else b) w _ v.leads (record {
    leads = v.leads;
    held =
        ap is_some (lookup-insert f e _ w.protocols_by_entity)
        ∙ is_some_if (f == e) b (some _) (lookup e w.protocols_by_entity) v.held;
    told = kept.flag_written w.store f e true ∙ ap (λ c. if f == e then true else c) v.told;
  })
  run_job-Shows b (disconnect f error) w v = for_leader (if f == e then false else b) w _ v.leads (
      close_entity-Shows b f _ v.leads v.held
        (kept.flag_written w.store f e false ∙ ap (λ c. if f == e then false else c) v.told))

  standing-step :
      (b : Bool) (j : Job) (js : List Job)
      → standing e (standing e b (j ∷ [])) js ≡ standing e b (j ∷ js)
  unfolding standing
  standing-step b (message_rx f) js = refl
  standing-step b (message_tx f) js = refl
  standing-step b (connect f) js = refl
  standing-step b (disconnect f error) js = refl

  run_jobs-Shows :
      (b : Bool) (js : List Job) (w : Broker S)
      → Shows db e b w
      → Shows db e (standing e b js) (handle_all db (map job js) w)
  unfolding handle_all handle
  run_jobs-Shows b [] w v = unfold standing in v
  run_jobs-Shows b (j ∷ js) w v =
      subst (λ c. Shows db e c (handle_all db (map job js) (run_job db j w))) (standing-step b j js)
        (run_jobs-Shows (standing e b (j ∷ [])) js (run_job db j w) (run_job-Shows b j w v))

  -- The jobs of all transports, in which those of `e` are what its handler has passed on.
  pub jobs-Shows :
      (b : Bool) (ns : List Notice) (js : List Job) (w : Broker S)
      → of_transport e js ≡ hears_all (connection_handler e) ns
      → Shows db e b w
      → Shows db e (last_notice b ns) (handle_all db (map job js) w)
  jobs-Shows b ns js w own v =
      subst (λ c. Shows db e c (handle_all db (map job js) w))
        (sym (standing-of_transport e b js) ∙ ap (standing e b) own ∙ standing-hears_all e b ns)
        (run_jobs-Shows b js w v)
