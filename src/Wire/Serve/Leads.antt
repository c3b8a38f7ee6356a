-- ===== src/Wire/Serve/Leads.antt =====
-- The steps of a session: each comes back, keeps the input live, and answers with what the next needs.
use psql_wire.Base.{
  Bytes, [], arith, inl, inr, length, refl, some, subst, suc, zero, ℕ, ◌<◌, ◌∷◌, ◌≡◌, ◌≢◌,
}
use psql_wire.Buffer.Reader.{Reader, get_string}
use psql_wire.Buffer.Reader.Ends.{IsLive}
use psql_wire.Buffer.Reader.Values.{get_string_shrinks}
use psql_wire.Buffer.Writer.Returning.{Emits-Returns}
use psql_wire.Exec.{Exec, Result, after, err, ok, panic, pure, stuck, ◌>>=◌}
use psql_wire.Exec.Tame.{Tame}
use psql_wire.Wire.Cache.{made}
use psql_wire.Wire.Command.Handlers.{Live}
use psql_wire.Wire.Context.{
  Context, Parameters, set_client_parameters, set_parameter, set_server_parameters,
}
use psql_wire.Wire.DataWriter.Returning.{IsContext}
use psql_wire.Wire.Handshake.{
  read_client_loop, read_client_parameters, server_parameters, write_parameters,
}
use psql_wire.Wire.Handshake.Pairs.{write_each_parameter-Emits}
use psql_wire.Wire.Server.{Server, World, from_client}

-- `m` comes back, keeps `Good`, and what it answers is `P`.
pub record Leads {S A : Type 0} (Good : S → Type 0) (P : A → Type 0) (m : Exec S A) : Type 0 where
  pub returns : (s : S) → Good s → (m s).0 ≢ stuck
  pub keeps : (s : S) → Good s → Good (m s).1
  pub gives : (s : S) (a : A) → Good s → (m s).0 ≡ ok a → P a

pub Leads-Tame :
    {S A : Type 0} {size : S → ℕ} {Good : S → Type 0} {m : Exec S A}
    → Tame size Good m
    → Leads Good (λ a. Unit {0}) m
Leads-Tame tm = record { returns = tm.returns; keeps = tm.keeps; gives = λ s a g e. tt }

module _ {S A B : Type 0} {Good : S → Type 0} {P : A → Type 0} (f : A → Exec S B) where
  pub after_lead :
      (p : Result A × S)
      → p.0 ≢ stuck
      → Good p.1
      → ((a : A) → p.0 ≡ ok a → P a)
      → ((a : A) → P a → (s : S) → Good s → (f a s).0 ≢ stuck)
      → (after p f).0 ≢ stuck
  after_lead (ok a, s) h g gives next = next a (gives a refl) s g
  after_lead (err e, s) h g gives next = λ q. cc
  after_lead (panic, s) h g gives next = λ q. cc
  after_lead (stuck, s) h g gives next = absurd (h refl)

  pub bind_returns :
      {m : Exec S A} (s : S)
      → Good s
      → Leads Good P m
      → ((a : A) → P a → (t : S) → Good t → (f a t).0 ≢ stuck)
      → ((m >>= f) s).0 ≢ stuck
  bind_returns {m} s g lm next =
      after_lead (m s) (lm.returns s g) (lm.keeps s g) (λ a e. lm.gives s a g e) next

-- What a call that succeeds answers.
abbrev pub Answers : {A : Type 0} → (A → Type 0) → Result A → Type 0
Answers P (ok a) = P a
Answers P (err e) = Unit {0}
Answers P panic = Unit {0}
Answers P stuck = Unit {0}

abbrev IsFine : Result Parameters × Reader → Type 0
IsFine p = (p.0 ≢ stuck) × IsLive p.1

module _ (fuel : ℕ)
    (again : (meta : Parameters) (r : Reader)
      → IsLive r
      → length r.msg < fuel
      → IsFine (read_client_loop fuel meta r)) where
  value_step :
      (key : Bytes) (meta : Parameters) (r : Reader)
      → IsLive r
      → length r.msg < fuel
      → IsFine
          (after (get_string r) (λ value. read_client_loop fuel (set_parameter key value meta)))
  value_step key meta r g h = elim (get_string_shrinks r) [
    | inl e ↦ rw e (λ q. cc, g)
    | inr (value, rest, e, l) ↦ rw e (
        again (set_parameter key value meta) (record r { msg = rest })
          (record {
            positive = g.positive;
            bounded = omega (arith, l, g.bounded);
            network = g.network;
          })
          (omega arith))
  ]

  abbrev on_key : Parameters → Bytes → Exec Reader Parameters
  on_key meta key = elim key [
    | [] ↦ pure meta
    | b ∷ rest ↦ (do
      value ← get_string
      read_client_loop fuel (set_parameter (b ∷ rest) value meta))
  ]

  key_step :
      (key : Bytes) (meta : Parameters) (r : Reader)
      → IsLive r
      → length r.msg < fuel
      → IsFine (on_key meta key r)
  key_step [] meta r g h = (λ q. cc, g)
  key_step (b ∷ rest) meta r g h = value_step (b ∷ rest) meta r g h

read_client_loop-IsFine :
    (fuel : ℕ) (meta : Parameters) (r : Reader)
    → IsLive r
    → length r.msg < fuel
    → IsFine (read_client_loop fuel meta r)
unfolding read_client_loop
read_client_loop-IsFine zero meta r g h = absurd (omega arith)
read_client_loop-IsFine (suc fuel) meta r g h = elim (get_string_shrinks r) [
  | inl e ↦ rw (e, read_client_loop) (λ q. cc, g)
  | inr (key, rest, e, l) ↦
      rw (e, read_client_loop)
        (key_step fuel (read_client_loop-IsFine fuel) key meta (record r { msg = rest })
          (record {
            positive = g.positive;
            bounded = omega (arith, l, g.bounded);
            network = g.network;
          })
          (omega arith))
]

module _ {V : Type 0} where
  after_parameters :
      (ctx : Context V) (p : Result Parameters × Reader)
      → IsContext ctx
      → IsFine p
      → let q = after p (λ meta. pure (set_client_parameters (some meta) ctx)) in
        (q.0 ≢ stuck) × IsLive q.1 × Answers IsContext q.0
  unfolding set_client_parameters
  after_parameters ctx (ok meta, r) h (n, g) = ((λ q. cc), g, record { types = h.types })
  after_parameters ctx (err e, r) h (n, g) = ((λ q. cc), g, tt)
  after_parameters ctx (panic, r) h (n, g) = ((λ q. cc), g, tt)
  after_parameters ctx (stuck, r) h (n, g) = absurd (n refl)

  pub read_client_parameters-Leads :
      (ctx : Context V)
      → IsContext ctx
      → Leads {S = World V} Live IsContext (from_client (read_client_parameters ctx))
  unfolding read_client_parameters
  read_client_parameters-Leads ctx h = record {
    returns = λ w g. (all w g).0;
    keeps = λ w g. (all w g).1;
    gives = λ w a g e. subst (Answers IsContext) e (all w g).2;
  }
    where
      all :
          (w : World V)
          → Live w
          → let q = read_client_parameters ctx w.conn.reader in
            (q.0 ≢ stuck) × IsLive q.1 × Answers IsContext q.0
      all w g = after_parameters ctx _ h (
          read_client_loop-IsFine (suc (length w.conn.reader.msg)) [] w.conn.reader g (omega arith))

  after_written :
      (ctx : Context V) (params : Parameters) (p : Result (Unit {0}) × World V)
      → IsContext ctx
      → p.0 ≢ stuck
      → Live p.1
      → let q = after p (λ _. pure (set_server_parameters (some params) ctx)) in
        (q.0 ≢ stuck) × Live q.1 × Answers IsContext q.0
  unfolding set_server_parameters
  after_written ctx params (ok a, w) h n g = ((λ q. cc), g, record { types = h.types })
  after_written ctx params (err e, w) h n g = ((λ q. cc), g, tt)
  after_written ctx params (panic, w) h n g = ((λ q. cc), g, tt)
  after_written ctx params (stuck, w) h n g = absurd (n refl)

  pub write_parameters-Leads :
      (order : Parameters → Parameters) (srv : Server V) (ctx : Context V)
      → IsContext ctx
      → Leads {S = World V} Live IsContext (write_parameters order srv ctx)
  unfolding write_parameters
  write_parameters-Leads order srv ctx h = record {
    returns = λ w g. (all w g).0;
    keeps = λ w g. (all w g).1;
    gives = λ w a g e. subst (Answers IsContext) e (all w g).2;
  }
    where
      all :
          (w : World V)
          → Live w
          → let q = write_parameters order srv ctx w in
            (q.0 ≢ stuck) × Live q.1 × Answers IsContext q.0
      all w g =
          let params = server_parameters srv ctx (made w.parameters) in
          after_written ctx params _ h
            ((Emits-Returns _ (write_each_parameter-Emits (order params))).returns w.conn.writer tt)
            g
