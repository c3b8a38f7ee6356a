-- ===== src/Exec/Tame.antt =====
-- Actions that come back: they never run out of fuel, never make the state larger, and keep what
-- they rely on. One rule for each way to build an action.
use native.Mathlib.Nat.{le_trans}
use psql_wire.Base.{Bool, Option, arith, false, if◌then◌else◌, none, refl, some, true, ℕ, ◌≢◌, ◌≤◌}
use psql_wire.Errors.{Error}
use psql_wire.Exec.{
  Exec, Result, after, check, err, lift, ok, panic, pure, raise, stuck, ◌>>=◌, ◌>>◌,
}

pub record Tame {S A : Type 0} (size : S → ℕ) (Good : S → Type 0) (m : Exec S A) : Type 0 where
  pub returns : (s : S) → Good s → (m s).0 ≢ stuck
  pub shrinks : (s : S) → Good s → size (m s).1 ≤ size s
  pub keeps : (s : S) → Good s → Good (m s).1

-- `m` never runs out of fuel.
abbrev pub Returns : {S A : Type 0} → Exec S A → Type 0
Returns m = Tame (λ s. 0) (λ s. Unit {0}) m

pub Returns-at : {S A : Type 0} {m : Exec S A} → ((s : S) → (m s).0 ≢ stuck) → Returns m
Returns-at h = record { returns = λ s _. h s; shrinks = λ s _. omega arith; keeps = λ s g. g }

module _ {S A : Type 0} {size : S → ℕ} {Good : S → Type 0} where
  pub Tame-pure : (a : A) → Tame size Good (pure a)
  Tame-pure a = record { returns = λ s g e. cc; shrinks = λ s g. omega arith; keeps = λ s g. g }

  pub Tame-raise : (e : Error) → Tame size Good (raise {A = A} e)
  Tame-raise e = record { returns = λ s g p. cc; shrinks = λ s g. omega arith; keeps = λ s g. g }

  pub Tame-lift : (r : Result A) → r ≢ stuck → Tame size Good (lift r)
  Tame-lift r h = record { returns = λ s g. h; shrinks = λ s g. omega arith; keeps = λ s g. g }

  pub Tame-if :
      (b : Bool) {m k : Exec S A}
      → Tame size Good m
      → Tame size Good k
      → Tame size Good (if b then m else k)
  Tame-if true tm tk = tm
  Tame-if false tm tk = tk

module _ {S A B : Type 0} {size : S → ℕ} {Good : S → Type 0} (f : A → Exec S B)
    (tf : (a : A) → Tame size Good (f a)) where
  after-returns : (p : Result A × S) → p.0 ≢ stuck → Good p.1 → (after p f).0 ≢ stuck
  after-returns (ok a, s) h g = (tf a).returns s g
  after-returns (err e, s) h g = λ p. cc
  after-returns (panic, s) h g = λ p. cc
  after-returns (stuck, s) h g = absurd (h refl)

  after-shrinks : (p : Result A × S) → Good p.1 → size (after p f).1 ≤ size p.1
  after-shrinks (ok a, s) g = (tf a).shrinks s g
  after-shrinks (err e, s) g = omega arith
  after-shrinks (panic, s) g = omega arith
  after-shrinks (stuck, s) g = omega arith

  after-keeps : (p : Result A × S) → Good p.1 → Good (after p f).1
  after-keeps (ok a, s) g = (tf a).keeps s g
  after-keeps (err e, s) g = g
  after-keeps (panic, s) g = g
  after-keeps (stuck, s) g = g

  pub Tame-bind : {m : Exec S A} → Tame size Good m → Tame size Good (m >>= f)
  Tame-bind {m} tm = record {
    returns = λ s g. after-returns (m s) (tm.returns s g) (tm.keeps s g);
    shrinks = λ s g. le_trans (after-shrinks (m s) (tm.keeps s g)) (tm.shrinks s g);
    keeps = λ s g. after-keeps (m s) (tm.keeps s g);
  }

pub if-ne-stuck :
    {S A : Type 0} (b : Bool) (p q : Result A × S)
    → p.0 ≢ stuck
    → q.0 ≢ stuck
    → (if b then p else q).0 ≢ stuck
if-ne-stuck true p q hp hq = hp
if-ne-stuck false p q hp hq = hq

if_holds :
    {S A : Type 0} (P : S → Type 0) (b : Bool) (p q : Result A × S)
    → P p.1
    → P q.1
    → P (if b then p else q).1
if_holds P true p q hp hq = hp
if_holds P false p q hp hq = hq

-- A test on the state.
pub Tame-choose :
    {S A : Type 0} {size : S → ℕ} {Good : S → Type 0} {m k : Exec S A} (test : S → Bool)
    → Tame size Good m
    → Tame size Good k
    → Tame size Good (λ s. if test s then m s else k s)
Tame-choose {Good = Good} test tm tk = record {
  returns = λ s g. if-ne-stuck (test s) _ _ (tm.returns s g) (tk.returns s g);
  shrinks = λ s g. ground (arith, tm.shrinks s g, tk.shrinks s g);
  keeps = λ s g. if_holds Good (test s) _ _ (tm.keeps s g) (tk.keeps s g);
}

pub Tame-then :
    {S A B : Type 0} {size : S → ℕ} {Good : S → Type 0} {m : Exec S A} {k : Exec S B}
    → Tame size Good m
    → Tame size Good k
    → Tame size Good (m >> k)
Tame-then {k} tm tk = Tame-bind (λ _. k) (λ _. tk) tm

pub Tame-check :
    {S : Type 0} {size : S → ℕ} {Good : S → Type 0} (e : Option Error)
    → Tame size Good (check {S = S} e)
Tame-check none = Tame-pure tt
Tame-check (some e) = Tame-raise e

pub ruleset tame_rules = (Tame-pure, Tame-raise, Tame-if, Tame-bind, Tame-then, Tame-check)
