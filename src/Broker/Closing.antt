-- ===== src/Broker/Closing.antt =====
-- message_broker.go: that a protocol is closed at most once, and which is never closed.
use qdp.Base.{
  ℕ, ◌≤◌, ◌<◌, ◌≡◌, sym, ap, subst, arith, if◌then◌else◌, true, List, [], ◌∷◌, some, inl, inr,
}
use qdp.Broker.{Store, Broker, BrokerProtocol, new_message_broker}
use qdp.Broker.Protocols.{lookup, holders, holders-erase_found, insert, entries}
use qdp.Broker.Jobs.{connect, install, make_protocol, run_job, on_connect_job}
use qdp.Broker.Quiet.{closes, owned, install-owned, install-made, install-entries}
use qdp.Broker.Ownership.{Outcome, handle-Outcome}
use qdp.Broker.Events.{Event, job, handle, handle_all}

-- Each protocol is held by the map or has been closed at most once, both together, and no protocol
-- that has not been made; no entity has two entries.
pub record IsOwned {S : Type 0} (w : Broker S) : Type 0 where
  pub once : (n : ℕ) → owned n w ≤ 1
  pub none_ahead : (n : ℕ) → w.made ≤ n → owned n w ≡ 0
  pub single : (k : ℕ) → entries k w.protocols_by_entity ≤ 1

module _ {S : Type 0} (db : Store S) where
  install-IsOwned : (entity : ℕ) (w : Broker S) → IsOwned w → IsOwned (install db entity w)
  install-IsOwned entity w v = record {
    once = λ n. ground (arith, install-owned db entity n w, v.once n, v.none_ahead n);
    none_ahead = λ n ahead.
        ground (arith, install-owned db entity n w, install-made db entity w, v.none_ahead n);
    single = λ k. ground (arith, install-entries db entity k w, v.single k);
  }

  pub Outcome-IsOwned : (w w' : Broker S) → Outcome db w w' → IsOwned w → IsOwned w'
  Outcome-IsOwned w w' (inl quiet) v = record {
    once = λ n. omega (arith, quiet.fewer n, v.once n);
    none_ahead = λ n ahead. omega (arith, quiet.fewer n, v.none_ahead n, quiet.made_same, ahead);
    single = λ k. omega (arith, quiet.keys k, v.single k);
  }
  Outcome-IsOwned w w' (inr (entity, same)) v =
      subst IsOwned (sym same) (install-IsOwned entity w v)

  handle_all-IsOwned : (es : List Event) (w : Broker S) → IsOwned w → IsOwned (handle_all db es w)
  unfolding handle_all
  handle_all-IsOwned [] w v = v
  handle_all-IsOwned (e ∷ es) w v =
      handle_all-IsOwned es (handle db e w)
        (Outcome-IsOwned w (handle db e w) (handle-Outcome db e w) v)

  pub new_message_broker-IsOwned : (s : S) → IsOwned (new_message_broker s)
  unfolding new_message_broker holders entries
  new_message_broker-IsOwned s = record {
    once = λ n. omega arith;
    none_ahead = λ n ahead. omega arith;
    single = λ k. omega arith;
  }

  -- Whatever happens to a new broker, each protocol that it has made is closed at most once, none that
  -- is closed is still in the map, no protocol is in the map twice, and none is closed or in the map
  -- that was not made; no entity has two entries.
  pub handle_all-new_message_broker :
      (s : S) (es : List Event) → IsOwned (handle_all db es (new_message_broker s))
  handle_all-new_message_broker s es =
      handle_all-IsOwned es (new_message_broker s) (new_message_broker-IsOwned s)

  -- What is not owned stays so.
  Outcome-lost :
      (w w' : Broker S) (n : ℕ)
      → Outcome db w w'
      → n < w.made
      → owned n w ≡ 0
      → (n < w'.made) × (owned n w' ≡ 0)
  Outcome-lost w w' n (inl quiet) old lost =
      (omega (arith, quiet.made_same, old), omega (arith, quiet.fewer n, lost))
  Outcome-lost w w' n (inr (entity, same)) old lost =
      subst (λ (u : Broker S). (n < u.made) × (owned n u ≡ 0)) (sym same)
        (
          omega (arith, install-made db entity w, old),
          ground (arith, install-owned db entity n w, old, lost),
        )

  handle_all-lost :
      (es : List Event) (w : Broker S) (n : ℕ)
      → n < w.made
      → owned n w ≡ 0
      → owned n (handle_all db es w) ≡ 0
  unfolding handle_all
  handle_all-lost [] w n old lost = lost
  handle_all-lost (e ∷ es) w n old lost =
      let (old', lost') = Outcome-lost w (handle db e w) n (handle-Outcome db e w) old lost in
      handle_all-lost es (handle db e w) n old' lost'

  pub handle-connect :
      (entity : ℕ) (w : Broker S)
      → w.is_leader ≡ true
      → handle db (job (connect entity)) w ≡ install db entity w
  unfolding handle run_job on_connect_job
  handle-connect entity w leader = ap (λ b. if b then install db entity w else w) leader

  found-lt-made :
      (w : Broker S) (entity : ℕ) (p : BrokerProtocol)
      → IsOwned w
      → lookup entity w.protocols_by_entity ≡ some p
      → p.number < w.made
  found-lt-made w entity p v found = ground (
    arith,
    holders-erase_found p.number entity w.protocols_by_entity p found,
    v.none_ahead p.number,
  )

  install-lost :
      (w : Broker S) (entity : ℕ) (p : BrokerProtocol)
      → IsOwned w
      → lookup entity w.protocols_by_entity ≡ some p
      → owned p.number (install db entity w) ≡ 0
  unfolding install insert holders make_protocol
  install-lost w entity p v found = ground (
    arith,
    holders-erase_found p.number entity w.protocols_by_entity p found,
    found-lt-made w entity p v found,
    v.once p.number,
  )

  -- A connection of an entity whose protocol is in the map makes the broker lose that protocol, which
  -- it has started: whatever happens then, the protocol is never closed and never in the map again.
  pub connect_loses :
      (w : Broker S) (entity : ℕ) (p : BrokerProtocol) (es : List Event)
      → IsOwned w
      → w.is_leader ≡ true
      → lookup entity w.protocols_by_entity ≡ some p
      → (closes p.number (handle_all db (job (connect entity) ∷ es) w).effects ≡ 0)
        × (holders p.number (handle_all db (job (connect entity) ∷ es) w).protocols_by_entity ≡ 0)
  unfolding handle_all
  connect_loses w entity p es v leader found =
      let old = found-lt-made w entity p v found in
      let lost =
        handle_all-lost es (install db entity w) p.number
          (omega (arith, install-made db entity w, old)) (install-lost w entity p v found) in
      subst
        (λ (u : Broker S).
          (closes p.number (handle_all db es u).effects ≡ 0)
          × (holders p.number (handle_all db es u).protocols_by_entity ≡ 0))
        (sym (handle-connect entity w leader)) (omega (arith, lost), omega (arith, lost))
