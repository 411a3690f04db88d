-- ===== src/Broker/Protocols.antt =====
-- message_broker.go: the map `protocolsByEntity`, as an association list with at most one entry for
-- a key.
use qdp.Base.{ℕ, ◌+◌, ◌≤◌, ◌≡◌, refl, ◌==◌, if◌then◌else◌, List, [], ◌∷◌, Option, none, some, arith}
use qdp.Broker.{BrokerProtocol}

-- m[k]
unfoldable pub lookup : ℕ → List (ℕ × BrokerProtocol) → Option BrokerProtocol
lookup k [] = none
lookup k ((j, p) ∷ m) = if j == k then some p else lookup k m

-- delete(m, k)
unfoldable pub erase : ℕ → List (ℕ × BrokerProtocol) → List (ℕ × BrokerProtocol)
erase k [] = []
erase k ((j, p) ∷ m) = let rest = erase k m in if j == k then rest else (j, p) ∷ rest

-- m[k] = p
unfoldable pub insert : ℕ → BrokerProtocol → List (ℕ × BrokerProtocol) → List (ℕ × BrokerProtocol)
insert k p m = (k, p) ∷ erase k m

pub lookup-erase :
    (k j : ℕ) (m : List (ℕ × BrokerProtocol))
    → lookup j (erase k m) ≡ (if k == j then none else lookup j m)
unfolding lookup erase
lookup-erase k j [] = ground arith
lookup-erase k j ((i, p) ∷ m) = ground (arith, lookup-erase k j m)

pub lookup-insert :
    (k j : ℕ) (p : BrokerProtocol) (m : List (ℕ × BrokerProtocol))
    → lookup j (insert k p m) ≡ (if k == j then some p else lookup j m)
unfolding lookup insert
lookup-insert k j p m = ground (arith, lookup-erase k j m)

-- How many entries hold the protocol with the number `n`.
unfoldable pub holders : ℕ → List (ℕ × BrokerProtocol) → ℕ
holders n [] = 0
holders n ((j, p) ∷ m) = (if p.number == n then 1 else 0) + holders n m

pub holders-erase : (n k : ℕ) (m : List (ℕ × BrokerProtocol)) → holders n (erase k m) ≤ holders n m
unfolding holders erase
holders-erase n k [] = omega arith
holders-erase n k ((j, p) ∷ m) = ground (arith, holders-erase n k m)

-- What `lookup` finds is held once less after `erase`.
pub holders-erase_found :
    (n k : ℕ) (m : List (ℕ × BrokerProtocol)) (p : BrokerProtocol)
    → lookup k m ≡ some p
    → (if p.number == n then 1 else 0) + holders n (erase k m) ≤ holders n m
unfolding holders erase lookup
holders-erase_found n k [] p found = cc
holders-erase_found n k ((j, q) ∷ m) p found =
    ground (arith, holders-erase_found n k m p, holders-erase n k m)

-- How many entries have the key `k`.
unfoldable pub entries : ℕ → List (ℕ × BrokerProtocol) → ℕ
entries k [] = 0
entries k ((j, p) ∷ m) = (if j == k then 1 else 0) + entries k m

pub entries-erase :
    (j k : ℕ) (m : List (ℕ × BrokerProtocol))
    → entries j (erase k m) ≡ (if k == j then 0 else entries j m)
unfolding entries erase
entries-erase j k [] = ground arith
entries-erase j k ((i, p) ∷ m) = ground (arith, entries-erase j k m)

pub entries-insert :
    (j k : ℕ) (p : BrokerProtocol) (m : List (ℕ × BrokerProtocol))
    → entries j (insert k p m) ≡ (if k == j then 1 else entries j m)
unfolding entries insert
entries-insert j k p m = ground (arith, entries-erase j k m)

pub erase-absent : (k : ℕ) (m : List (ℕ × BrokerProtocol)) → lookup k m ≡ none → erase k m ≡ m
unfolding erase lookup
erase-absent k [] absent = refl
erase-absent k ((j, p) ∷ m) absent = ground (arith, erase-absent k m)

erase-no_entry : (k : ℕ) (m : List (ℕ × BrokerProtocol)) → entries k m ≡ 0 → erase k m ≡ m
unfolding erase entries
erase-no_entry k [] absent = refl
erase-no_entry k ((j, p) ∷ m) absent = ground (arith, erase-no_entry k m)

-- With one entry for a key, what `lookup` finds is all that `erase` takes out.
pub holders-erase_single :
    (n k : ℕ) (m : List (ℕ × BrokerProtocol)) (p : BrokerProtocol)
    → lookup k m ≡ some p
    → entries k m ≤ 1
    → (if p.number == n then 1 else 0) + holders n (erase k m) ≡ holders n m
unfolding holders erase lookup entries
holders-erase_single n k [] p found single = cc
holders-erase_single n k ((j, q) ∷ m) p found single =
    ground (arith, holders-erase_single n k m p, erase-no_entry k m)

pub erase_comm :
    (j k : ℕ) (m : List (ℕ × BrokerProtocol)) → erase j (erase k m) ≡ erase k (erase j m)
unfolding erase
erase_comm j k [] = refl
erase_comm j k ((i, p) ∷ m) = ground (arith, erase_comm j k m)
