-- ===== src/Broker/Leadership.antt =====
-- message_broker.go: `teardown`, and what is left of the broker without leadership.
use qdp.Base.{
  if_false, ℕ, ◌+◌, ◌≤◌, ◌≡◌, refl, sym, ap, ◌∙◌, arith, ◌==◌, if◌then◌else◌, false, List, [], ◌∷◌,
  map, Option, none, some, ==-refl,
}
use qdp.Broker.{Store, Broker, BrokerProtocol, Effect, unbind}
use qdp.Broker.Protocols.{
  lookup, holders, holders-erase_single, erase, entries, entries-erase, erase-absent, erase_comm,
}
use qdp.Broker.Jobs.{
  Job, message_rx, message_tx, connect, disconnect, run_job, close_found, close_entity,
  on_message_rx_job, on_message_tx_job, on_connect_job, on_disconnect_job,
}
use qdp.Broker.Setup.{ids, close_entities, unbind_all, teardown}
use qdp.Broker.Events.{job, handle, handle_all, on_losing_leadership}
use qdp.Broker.Quiet.{closes, owned}
use qdp.Broker.Closing.{IsOwned}

-- How often the token `t` has been unbound, and how often it is among the tokens.
abbrev pub unbinds : ℕ → List Effect → ℕ
unbinds t [] = 0
unbinds t (unbind u ∷ es) = (if u == t then 1 else 0) + unbinds t es
unbinds t (e ∷ es) = unbinds t es

abbrev pub count : ℕ → List ℕ → ℕ
count t [] = 0
count t (u ∷ us) = (if u == t then 1 else 0) + count t us

abbrev Singles : {S : Type 0} → Broker S → Type 0
Singles w = (k : ℕ) → entries k w.protocols_by_entity ≤ 1

-- What closing a protocol does, whether it is there or not.
record Closes {S : Type 0} (m : List (ℕ × BrokerProtocol)) (w w' : Broker S) : Type 0 where
  pub left : w'.protocols_by_entity ≡ m
  pub same : (n : ℕ) → owned n w' ≡ owned n w
  pub unbound : (t : ℕ) → unbinds t w'.effects ≡ unbinds t w.effects
  pub tokens_same : w'.tokens ≡ w.tokens
  pub leader_same : w'.is_leader ≡ w.is_leader

close_found-Closes :
    {S : Type 0} (k : ℕ) (o : Option BrokerProtocol) (w : Broker S)
    → lookup k w.protocols_by_entity ≡ o
    → entries k w.protocols_by_entity ≤ 1
    → Closes (erase k w.protocols_by_entity) w (close_found k o w)
unfolding close_found
close_found-Closes k none w absent single = record {
  left = sym (erase-absent k w.protocols_by_entity absent);
  same = λ n. refl;
  unbound = λ t. refl;
  tokens_same = refl;
  leader_same = refl;
}
close_found-Closes k (some p) w found single = record {
  left = refl;
  same = λ n. omega (arith, holders-erase_single n k w.protocols_by_entity p found single);
  unbound = λ t. refl;
  tokens_same = refl;
  leader_same = refl;
}

close_entity-Closes :
    {S : Type 0} (k : ℕ) (w : Broker S)
    → entries k w.protocols_by_entity ≤ 1
    → Closes (erase k w.protocols_by_entity) w (close_entity k w)
unfolding close_entity
close_entity-Closes k w single = close_found-Closes k (lookup k w.protocols_by_entity) w refl single

erase_all : List ℕ → List (ℕ × BrokerProtocol) → List (ℕ × BrokerProtocol)
erase_all [] m = m
erase_all (k ∷ ks) m = erase_all ks (erase k m)

erase_all-erase :
    (ks : List ℕ) (k : ℕ) (m : List (ℕ × BrokerProtocol))
    → erase_all ks (erase k m) ≡ erase k (erase_all ks m)
unfolding erase_all
erase_all-erase [] k m = refl
erase_all-erase (j ∷ ks) k m =
    ap (erase_all ks) (erase_comm j k m) ∙ erase_all-erase ks k (erase j m)

erase-head :
    (k : ℕ) (p : BrokerProtocol) (m : List (ℕ × BrokerProtocol)) → erase k ((k, p) ∷ m) ≡ erase k m
unfolding erase
erase-head k p m = rw (==-refl k)

erase_all-ids : (m : List (ℕ × BrokerProtocol)) → erase_all (ids m) m ≡ []
unfolding erase_all ids
erase_all-ids [] = refl
erase_all-ids ((k, p) ∷ m) =
    ap (erase_all (ids m)) (erase-head k p m)
    ∙ erase_all-erase (ids m) k m
    ∙ ap (erase k) (erase_all-ids m)
    ∙ nothing
  where
    nothing : erase k [] ≡ []
    nothing = unfold erase in refl

close_entities-Closes :
    {S : Type 0} (ks : List ℕ) (w : Broker S)
    → Singles w
    → Closes (erase_all ks w.protocols_by_entity) w (close_entities ks w)
unfolding close_entities erase_all
close_entities-Closes [] w single = record {
  left = refl;
  same = λ n. refl;
  unbound = λ t. refl;
  tokens_same = refl;
  leader_same = refl;
}
close_entities-Closes (k ∷ ks) w single =
    let first = close_entity-Closes k w (single k) in
    let still : Singles (close_entity k w) = λ j.
      ground
        (arith, ap (entries j) first.left, entries-erase j k w.protocols_by_entity, single j) in
    let rest = close_entities-Closes ks (close_entity k w) still in
    record {
      left = rest.left ∙ ap (erase_all ks) first.left;
      same = λ n. rest.same n ∙ first.same n;
      unbound = λ t. rest.unbound t ∙ first.unbound t;
      tokens_same = rest.tokens_same ∙ first.tokens_same;
      leader_same = rest.leader_same ∙ first.leader_same;
    }

record Unbinds {S : Type 0} (ts : List ℕ) (w w' : Broker S) : Type 0 where
  pub map_same : w'.protocols_by_entity ≡ w.protocols_by_entity
  pub closes_same : (n : ℕ) → closes n w'.effects ≡ closes n w.effects
  pub unbound : (t : ℕ) → unbinds t w'.effects ≡ count t ts + unbinds t w.effects
  pub leader_same : w'.is_leader ≡ w.is_leader

unbind_all-Unbinds : {S : Type 0} (ts : List ℕ) (w : Broker S) → Unbinds ts w (unbind_all ts w)
unfolding unbind_all
unbind_all-Unbinds [] w = record {
  map_same = refl;
  closes_same = λ n. refl;
  unbound = λ t. omega arith;
  leader_same = refl;
}
unbind_all-Unbinds (u ∷ ts) w =
    let rest = unbind_all-Unbinds ts (record w { effects = unbind u ∷ w.effects }) in
    record {
      map_same = rest.map_same;
      closes_same = rest.closes_same;
      unbound = λ t. omega (arith, rest.unbound t);
      leader_same = rest.leader_same;
    }

-- Nothing is left: the protocols of the map have been closed and the tokens unbound, each as often as
-- it was there.
pub record TornDown {S : Type 0} (w w' : Broker S) : Type 0 where
  pub no_protocols : w'.protocols_by_entity ≡ []
  pub no_tokens : w'.tokens ≡ []
  pub closed : (n : ℕ) → closes n w'.effects ≡ holders n w.protocols_by_entity + closes n w.effects
  pub unbound : (t : ℕ) → unbinds t w'.effects ≡ count t w.tokens + unbinds t w.effects
  pub leader_same : w'.is_leader ≡ w.is_leader

pub teardown-TornDown :
    {S : Type 0} (w : Broker S)
    → ((k : ℕ) → entries k w.protocols_by_entity ≤ 1)
    → TornDown w (teardown w)
unfolding teardown holders
teardown-TornDown w single =
    let ks = ids w.protocols_by_entity in
    let shut = close_entities ks w in
    let first = close_entities-Closes ks w single in
    let second = unbind_all-Unbinds shut.tokens shut in
    let empty = first.left ∙ erase_all-ids w.protocols_by_entity in
    record {
      no_protocols = second.map_same ∙ empty;
      no_tokens = refl;
      closed = λ n. omega (arith, second.closes_same n, first.same n, ap (holders n) empty);
      unbound =
          λ t. omega (arith, second.unbound t, first.unbound t, ap (count t) first.tokens_same);
      leader_same = second.leader_same ∙ first.leader_same;
    }

module _ {S : Type 0} (db : Store S) where
  pub idle_job : (j : Job) (w : Broker S) → w.is_leader ≡ false → handle db (job j) w ≡ w
  unfolding handle run_job on_message_rx_job on_message_tx_job on_connect_job on_disconnect_job
  idle_job (message_rx e) w idle = if_false w.is_leader _ _ idle
  idle_job (message_tx e) w idle = if_false w.is_leader _ _ idle
  idle_job (connect e) w idle = if_false w.is_leader _ _ idle
  idle_job (disconnect e error) w idle = if_false w.is_leader _ _ idle

  pub idle_jobs :
      (js : List Job) (w : Broker S) → w.is_leader ≡ false → handle_all db (map job js) w ≡ w
  unfolding handle_all
  idle_jobs [] w idle = refl
  idle_jobs (j ∷ js) w idle =
      ap (handle_all db (map job js)) (idle_job j w idle) ∙ idle_jobs js w idle

  -- When a broker in a state that it can be in loses leadership, each protocol of its map is closed
  -- and each token unbound, the map and the tokens are empty, and the jobs that the transports have
  -- queued or will queue change nothing.
  pub on_losing_leadership-TornDown :
      (w : Broker S) (js : List Job)
      → IsOwned w
      → TornDown (record w { is_leader = false }) (on_losing_leadership w)
        × (handle_all db (map job js) (on_losing_leadership w) ≡ on_losing_leadership w)
  unfolding on_losing_leadership
  on_losing_leadership-TornDown w js v =
      let down = teardown-TornDown (record w { is_leader = false }) v.single in
      (down, idle_jobs js (teardown (record w { is_leader = false })) down.leader_same)
