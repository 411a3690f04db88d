-- ===== src/Broker/Counting.antt =====
-- message_broker.go: the counters TotalReceived and TotalSent.
use qdp.Base.{
  if_true, ℕ, ◌+◌, ◌%◌, ◌^◌, ◌<◌, ◌≡◌, refl, sym, ap, ◌∙◌, subst, arith, ◌==◌, if◌then◌else◌, Bool,
  true, false, Bool-cases, inl, inr, List, [], ◌∷◌, map, Option, none, some, ==→eq,
}
use qdp.Broker.{Store, Broker, BrokerProtocol, is_connected, total_received, total_sent}
use qdp.Broker.Protocols.{lookup}
use qdp.Broker.Jobs.{
  Job, message_rx, message_tx, connect, disconnect, increment, install, close_found, close_entity,
  run_job, on_message_rx_job, on_message_tx_job, on_connect_job, on_disconnect_job,
}
use qdp.Broker.Events.{job, handle, handle_all}

-- What the counters need of the store: a read gives what was written last to that field, and a write
-- of another kind of value leaves the ints.
pub record KeepsCounts {S : Type 0} (db : Store S) : Type 0 where
  pub received_written :
      (s : S) (e f v : ℕ)
      → Store.read_int db (Store.write_int db s e total_received v) f total_received
        ≡ (if e == f then v else Store.read_int db s f total_received)
  pub sent_written :
      (s : S) (e f v : ℕ)
      → Store.read_int db (Store.write_int db s e total_sent v) f total_received
        ≡ Store.read_int db s f total_received
  pub connected_written :
      (s : S) (e f : ℕ) (b : Bool)
      → Store.read_int db (Store.write_bool db s e is_connected b) f total_received
        ≡ Store.read_int db s f total_received

-- How many of the jobs tell of a message received by the transport.
abbrev pub receptions : ℕ → List Job → ℕ
receptions e [] = 0
receptions e (message_rx f ∷ js) = (if f == e then 1 else 0) + receptions e js
receptions e (message_tx f ∷ js) = receptions e js
receptions e (connect f ∷ js) = receptions e js
receptions e (disconnect f error ∷ js) = receptions e js

receptions-cons :
    (e : ℕ) (j : Job) (js : List Job)
    → receptions e (j ∷ js) ≡ receptions e (j ∷ []) + receptions e js
receptions-cons e (message_rx f) js = omega arith
receptions-cons e (message_tx f) js = omega arith
receptions-cons e (connect f) js = omega arith
receptions-cons e (disconnect f error) js = omega arith

pub close_found-rest :
    {S : Type 0} (e : ℕ) (o : Option BrokerProtocol) (w : Broker S)
    → ((close_found e o w).store ≡ w.store) × ((close_found e o w).is_leader ≡ w.is_leader)
unfolding close_found
close_found-rest e none w = (refl, refl)
close_found-rest e (some p) w = (refl, refl)

module _ {S : Type 0} (db : Store S) (kept : KeepsCounts db) where
  abbrev total : ℕ → Broker S → ℕ
  total e w = Store.read_int db w.store e total_received

  -- A job of a leader: it stays the leader, and the counter goes up by `k`, in 64 bits.
  abbrev Counts : ℕ → ℕ → Broker S → Broker S → Type 0
  Counts e k w w' = (w'.is_leader ≡ true) × (total e w' ≡ (total e w + k) % 2 ^ 64)

  run_job-Counts :
      (e : ℕ) (j : Job) (w : Broker S)
      → w.is_leader ≡ true
      → total e w < 2 ^ 64
      → Counts e (receptions e (j ∷ [])) w (handle db (job j) w)
  unfolding handle run_job on_message_rx_job on_message_tx_job on_connect_job on_disconnect_job
      increment install close_entity
  run_job-Counts e (message_rx f) w leader small =
      subst (Counts e ((if f == e then 1 else 0) + 0) w) (sym (if_true w.is_leader _ _ leader)) (
        leader,
        elim (Bool-cases (f == e)) [
          | inl same ↦ ground (
            arith,
            kept.received_written w.store f e
                ((Store.read_int db w.store f total_received + 1) % 2 ^ 64),
            ap (λ x. Store.read_int db w.store x total_received) (==→eq f e same),
          )
          | inr other ↦ ground (
            arith,
            kept.received_written w.store f e
                ((Store.read_int db w.store f total_received + 1) % 2 ^ 64),
          )
        ],
      )
  run_job-Counts e (message_tx f) w leader small =
      subst (Counts e 0 w) (sym (if_true w.is_leader _ _ leader)) (
        leader,
        omega (
          arith,
          kept.sent_written w.store f e ((Store.read_int db w.store f total_sent + 1) % 2 ^ 64),
        ),
      )
  run_job-Counts e (connect f) w leader small =
      subst (Counts e 0 w) (sym (if_true w.is_leader _ _ leader))
        (leader, omega (arith, kept.connected_written w.store f e true))
  run_job-Counts e (disconnect f error) w leader small =
      let told = record w { store = Store.write_bool db w.store f is_connected false } in
      let (store_same, leader_same) = close_found-rest f (lookup f w.protocols_by_entity) told in
      subst (Counts e 0 w) (sym (if_true w.is_leader _ _ leader)) (
        leader_same ∙ leader,
        omega (
          arith,
          ap (λ s. Store.read_int db s e total_received) store_same,
          kept.connected_written w.store f e false,
        ),
      )

  -- In a store where a read of TotalReceived gives what was written last, and where TotalSent and
  -- IsConnected are other fields: while the broker is the leader, the counter TotalReceived of a
  -- transport, a number of 64 bits, goes up by exactly the number of its messages, modulo 2 ^ 64,
  -- whatever else the transports report in between.
  pub handle_all-receptions :
      (e : ℕ) (js : List Job) (w : Broker S)
      → w.is_leader ≡ true
      → Store.read_int db w.store e total_received < 2 ^ 64
      → Store.read_int db (handle_all db (map job js) w).store e total_received
        ≡ (Store.read_int db w.store e total_received + receptions e js) % 2 ^ 64
  unfolding handle_all
  handle_all-receptions e [] w leader small = omega arith
  handle_all-receptions e (j ∷ js) w leader small =
      let (still, counted) = run_job-Counts e j w leader small in
      let w' = handle db (job j) w in
      omega (
        arith,
        counted,
        handle_all-receptions e js w' still (omega (arith, counted)),
        receptions-cons e j js,
      )
