-- ===== src/Base/Effect.antt =====
-- How a call ends, and code that changes a state and may fail. `ok` and `err` are the `Ok` and the
-- `Err` of a `Result`; `panic` is an index out of range or an `unreachable!`; `hang` is a loop
-- that has used up the rounds it was given. The state is kept on every ending, since code that
-- returns an `Err` has made its changes through `&mut`.
use mathlib.Core.Bool.{Bool, true, false}

pub data Exit {ℓ κ} (E : Type ℓ) (A : Type κ) : Type (ℓ ⊔ κ) where
  ok : A → Exit E A
  err : E → Exit E A
  panic hang : Exit E A

abbrev pub Run : Type 0 → Type 0 → Type 0 → Type 0
Run S E A = S → S × Exit E A

module _ {S E A B : Type 0} where
  -- The rest of the code after a call that has ended.
  abbrev pub proceed : (A → Run S E B) → S → Exit E A → S × Exit E B
  proceed k s (ok a) = k a s
  proceed k s (err e) = (s, err e)
  proceed k s panic = (s, panic)
  proceed k s hang = (s, hang)

  infixl 5 ◌>>=◌
  abbrev pub ◌>>=◌ : Run S E A → (A → Run S E B) → Run S E B
  ◌>>=◌ m k s = let (s', r) = m s in proceed k s' r

module _ {S E A : Type 0} where
  abbrev pub return : A → Run S E A
  return a s = (s, ok a)

  abbrev pub throw : E → Run S E A
  throw e s = (s, err e)

  infixl 5 ◌>>◌
  abbrev pub ◌>>◌ : Run S E (Unit {0}) → Run S E A → Run S E A
  m >> k = m >>= λ _. k

module _ {E A : Type 0} where
  -- `r.unwrap_or(d)`.
  abbrev pub unwrap_or : Exit E A → A → Exit E A
  unwrap_or (ok a) d = ok a
  unwrap_or (err e) d = ok d
  unwrap_or panic d = panic
  unwrap_or hang d = hang

  -- `Some(v)` from `Ok(v)` and nothing else.
  abbrev pub is_ok : Exit E A → Bool
  is_ok (ok a) = true
  is_ok _ = false

-- `r.map_err(|_| e)`.
abbrev pub map_err : {E E' A : Type 0} → E' → Exit E A → Exit E' A
map_err e (ok a) = ok a
map_err e (err _) = err e
map_err e panic = panic
map_err e hang = hang
