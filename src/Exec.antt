-- ===== src/Exec.antt =====
-- Go functions as state passing: a result and the state that the call leaves behind.
pub mod Tame
use psql_wire.Base.{Option, none, some}
use psql_wire.Errors.{Error}

-- What a call comes back with. A Go function that returns `(value, error)` answers `ok` with the
-- value where the error is nil, and `err` with the error otherwise; the callers that are modelled
-- look at the value only where the error is nil. `panic` is a run-time panic. `stuck` is no Go
-- value: a loop of the model ran out of fuel.
pub data Result {ℓ} (A : Type ℓ) : Type ℓ where
  ok : A → Result A
  err : Error → Result A
  panic : Result A
  stuck : Result A

abbrev pub Exec {ℓ} : Type ℓ → Type ℓ → Type ℓ
Exec S A = S → Result A × S

abbrev pub after {ℓ} : {S A B : Type ℓ} → Result A × S → (A → Exec S B) → Result B × S
after (ok a, s) f = f a s
after (err e, s) f = (err e, s)
after (panic, s) f = (panic, s)
after (stuck, s) f = (stuck, s)

-- `x, err := m(); if err != nil { return err }; ...`
infixl 5 ◌>>=◌ ◌>>◌
abbrev pub ◌>>=◌ {ℓ} : {S A B : Type ℓ} → Exec S A → (A → Exec S B) → Exec S B
◌>>=◌ m f s = after (m s) f

abbrev pub ◌>>◌ {ℓ} : {S A B : Type ℓ} → Exec S A → Exec S B → Exec S B
◌>>◌ m k s = after (m s) (λ _. k)

abbrev pub pure {ℓ} : {S A : Type ℓ} → A → Exec S A
pure a s = (ok a, s)

abbrev pub raise {ℓ} : {S A : Type ℓ} → Error → Exec S A
raise e s = (err e, s)

-- A pure function that may fail.
abbrev pub lift {ℓ} : {S A : Type ℓ} → Result A → Exec S A
lift r s = (r, s)

-- `if err != nil { return err }`
abbrev pub check : {S : Type 0} → Option Error → Exec S (Unit {0})
check none = pure tt
check (some e) = raise e
