-- ===== src/Result.antt =====
-- Go's (value, error) results of lib/go, with a panic as one more outcome.
use qdp.Base.{ℕ, ◌≡◌, refl, Bool, true, false}

-- `invalid_message` and `crc_mismatch` are ErrInvalidMessage and ErrCRCMismatch, `eof` is io.EOF,
-- and `failure` stands for any other error, by a number.
pub data Error : Type 0 where
  invalid_message : Error
  crc_mismatch : Error
  eof : Error
  failure : ℕ → Error

-- `panic` is a run-time panic, such as a slice out of range.
pub data Result {ℓ} (X : Type ℓ) : Type ℓ where
  panic : Result X
  err : Error → Result X
  ok : X → Result X

-- A run-time check, such as that of a slice's bounds.
abbrev pub check : Bool → Result (Unit {0})
check false = panic
check true = ok tt

-- `if !b { return nil, e }`
abbrev pub guard : Bool → Error → Result (Unit {0})
guard false reason = err reason
guard true _ = ok tt

-- The step after, which a panic and an error skip.
infixl 5 ◌>>=◌
abbrev pub ◌>>=◌ {ℓ κ} : {X : Type ℓ} {Y : Type κ} → Result X → (X → Result Y) → Result Y
panic >>= _ = panic
err reason >>= _ = err reason
ok x >>= next = next x

infixl 5 ◌>>◌
abbrev pub ◌>>◌ {κ} : {Y : Type κ} → Result (Unit {0}) → Result Y → Result Y
first >> second = first >>= λ _. second

pub guard-eq-ok : (b : Bool) (e : Error) {u : Unit {0}} → guard b e ≡ ok u → b ≡ true
guard-eq-ok true e h = refl
guard-eq-ok false e h = cc

-- What a success of two steps says of the first.
pub >>=-eq-ok {ℓ κ} :
    {X : Type ℓ} {Y : Type κ} (r : Result X) (next : X → Result Y) {y : Y}
    → (r >>= next) ≡ ok y
    → (x : X) × (r ≡ ok x) × (next x ≡ ok y)
>>=-eq-ok panic next passed = cc
>>=-eq-ok (err reason) next passed = cc
>>=-eq-ok (ok x) next passed = (x, refl, passed)
