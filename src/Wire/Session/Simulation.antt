-- ===== src/Wire/Session/Simulation.antt =====
-- What it means that the handlers do what the session does.
use psql_wire.Base.{
  Bool, Bytes, List, Option, equal, false, if◌then◌else◌, refl, some, true, ℕ, ◌∙◌, ◌≡◌,
}
use psql_wire.Buffer.Reader.{Reader}
use psql_wire.Buffer.Stream.{Stream}
use psql_wire.Exec.{Result, ok}
use psql_wire.Wire.Cache.{
  DefaultPortalCache, DefaultStatementCache, Portal, StatementFn, bind, get, insert, lookup, made,
  set,
}
use psql_wire.Wire.Cache.Laws.{get-set}
use psql_wire.Wire.Server.{World}
use psql_wire.Wire.Session.{Session, update}

module _ {V : Type 0} where
  -- The caches hold what the names mean.
  abbrev pub IsKnown : DefaultStatementCache V → (Bytes → Option (StatementFn V)) → Type 0
  IsKnown known f = (n : Bytes) → (get n known).0 ≡ ok (f n)

  abbrev pub IsBound : DefaultPortalCache V → (Bytes → Option (Portal V)) → Type 0
  IsBound bound g = (n : Bytes) → lookup n (made bound.portals) ≡ g n

  -- A handler's answer and what it leaves are those of the session.
  pub record Matches {A : Type 0} (p : Result A × World V) (q : Result A × Session V) : Type 0 where
    pub answer : p.0 ≡ q.0
    pub known : DefaultStatementCache V
    pub bound : DefaultPortalCache V
    pub known_is : p.1.statements ≡ some known
    pub bound_is : p.1.portals ≡ some bound
    pub statements : IsKnown known q.1.statements
    pub portals : IsBound bound q.1.portals
    pub client : p.1.conn.writer ≡ q.1.client

  -- Moreover it has left this input, and the limit of the reader.
  pub record Follows {A : Type 0} (input : Stream) (max : ℕ) (p : Result A × World V)
      (q : Result A × Session V) : Type 0 where
    pub matches : Matches p q
    pub buffer : p.1.conn.reader.buffer ≡ input
    pub max_size : p.1.conn.reader.max_message_size ≡ max

  -- The answer is left out of account.
  pub answering :
      {A B : Type 0} (r : Result B) (p : Result A × World V) (q : Result A × Session V)
      → Matches p q
      → Matches (r, p.1) (r, q.1)
  answering r p q h = record {
    answer = refl;
    known = h.known;
    bound = h.bound;
    known_is = h.known_is;
    bound_is = h.bound_is;
    statements = h.statements;
    portals = h.portals;
    client = h.client;
  }

  -- So is the reader.
  pub reading :
      {A : Type 0} (r : Reader) (p : Result A × World V) (q : Result A × Session V)
      → Matches p q
      → Matches (p.0, record (p.1) { conn = record (p.1.conn) { reader = r } }) q
  reading r p q h = record {
    answer = h.answer;
    known = h.known;
    bound = h.bound;
    known_is = h.known_is;
    bound_is = h.bound_is;
    statements = h.statements;
    portals = h.portals;
    client = h.client;
  }

  pub set-IsKnown :
      (name : Bytes) (fn : Option (StatementFn V)) (known : DefaultStatementCache V)
      (f : Bytes → Option (StatementFn V))
      → IsKnown known f
      → IsKnown (set name fn known).1 (update name fn f)
  set-IsKnown name fn known f h n = get-set n name fn known ∙ if_known (equal name n)
    where
      if_known : (b : Bool) → (if b then ok fn else (get n known).0) ≡ ok (if b then fn else f n)
      if_known true = refl
      if_known false = h n

  pub bind-IsBound :
      (name : Bytes) (fn : Option (StatementFn V)) (values : List Bytes)
      (bound : DefaultPortalCache V) (g : Bytes → Option (Portal V))
      → IsBound bound g
      → IsBound
          (bind name fn values bound).1
          (update name (some (record { statement = fn; parameters = values })) g)
  unfolding bind lookup insert
  bind-IsBound name fn values bound g h n = if_bound (equal name n)
    where
      if_bound :
          (b : Bool)
          → (if b
              then some (record { statement = fn; parameters = values })
              else lookup n (made bound.portals))
            ≡ (if b then some (record { statement = fn; parameters = values }) else g n)
      if_bound true = refl
      if_bound false = h n
