-- ===== src/Reader/Rounds.antt =====
-- How the rounds of `ReadMessage` follow one another.
use qdp.Base.{ℕ, suc, ◌≡◌, refl, ◌⊎◌, inl, inr, some}
use qdp.Result.{Result}
use qdp.Message.{Message}
use qdp.Reader.{Reader, ReadFn, Control, Round, done, next, read_round, read_rounds}

pub Round-cases :
    {S : Type 0} (x : Round S)
    → ((result : Result Message) × (r : Reader S) × (x ≡ done result r))
      ⊎ ((c : Control) × (r : Reader S) × (x ≡ next c r))
Round-cases (done result r) = inl (result, r, refl)
Round-cases (next c r) = inr (c, r, refl)

module _ {S : Type 0} (read : ReadFn S) where
  pub read_rounds-done :
      (fuel : ℕ) (c : Control) (r r' : Reader S) (result : Result Message)
      → read_round read c r ≡ done result r'
      → read_rounds read (suc fuel) c r ≡ some (result, r')
  unfolding read_rounds
  read_rounds-done fuel c r r' result h = rw (h, read_rounds)

  pub read_rounds-next :
      (fuel : ℕ) (c c' : Control) (r r' : Reader S)
      → read_round read c r ≡ next c' r'
      → read_rounds read (suc fuel) c r ≡ read_rounds read fuel c' r'
  unfolding read_rounds
  read_rounds-next fuel c c' r r' h = rw (h, read_rounds)
