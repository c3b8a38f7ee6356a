-- ===== src/Examples/Numeric.antt =====
-- examples/numeric/main.go. `D` is the decimal type of shopspring, and `new_from_string` reads one; the
-- oid of lib/pq is a parameter.
use psql_wire.Base.{Bytes, List, [], ap, codes, inl, inr, refl, some, ℕ, ◌++◌, ◌∷◌, ◌≡◌, ◌≤◌, ◌⊎◌}
use psql_wire.Buffer.Writer.{Writer}
use psql_wire.Errors.{Error}
use psql_wire.Exec.{Result, ok}
use psql_wire.Wire.Context.{ConnInfo, Context}
use psql_wire.Wire.DataWriter.{Script, completes, defines, returns, rows}
use psql_wire.Wire.DataWriter.Tables.{AreRows, each_row, table_messages}
use psql_wire.Wire.Options.{
  Setup, apply_options, default_setup, extend_types, new_server, simple_query,
}
use psql_wire.Wire.Options.Parser.{Oids, count_parameters, simple_parse}
use psql_wire.Wire.Query.{run_query}
use psql_wire.Wire.Query.Tables.{table-answers}
use psql_wire.Wire.Response.Sent.{ready_message}
use psql_wire.Wire.Row.{Column, text_format}

module _ {D : Type 0} (new_from_string : Bytes → D ⊎ Error) (t_numeric : ℕ) where
  abbrev pub balance_table : List Column
  balance_table =
      record {
        table = 0;
        name = codes "account_balance";
        attr_no = 0;
        oid = t_numeric;
        width = 1;
        type_modifier = 0;
        format = text_format;
      }
      ∷ []

  -- What `handle` does with the answer of `decimal.NewFromString`.
  abbrev pub send_balance : D ⊎ Error → Script D
  send_balance (inl balance) =
      defines (some balance_table)
        (λ _. rows (some balance ∷ []) (λ _. completes (codes "OK") (λ e. returns e)))
  send_balance (inr e) = returns (some e)

  -- `handle`
  unfoldable pub handle_numeric : Context D → Bytes → List Bytes → Script D
  handle_numeric ctx query parameters = send_balance (new_from_string (codes "256.23"))

  -- `main`: the type is registered, and the handler is set.
  unfoldable pub numeric_server :
      (ConnInfo D → ConnInfo D) → ConnInfo D → (ℕ → ℕ) → Result (Setup D)
  unfolding handle_numeric
  numeric_server register types grow =
      new_server types (extend_types register ∷ simple_query grow (some handle_numeric) ∷ [])

  -- `NewServer` takes these options: the server has the registered type and the handler, and the rest is
  -- that of a new server.
  pub numeric_server-ok :
      (register : ConnInfo D → ConnInfo D) (types : ConnInfo D) (grow : ℕ → ℕ)
      → numeric_server register types grow
        ≡ ok (record (default_setup (register types)) {
          server = record ((default_setup (register types)).server) {
            parse = some (simple_parse grow (some handle_numeric));
          };
        })
  unfolding numeric_server new_server apply_options extend_types simple_query default_setup
  numeric_server-ok register types grow = refl

  -- Where the number can be read and the registered type encodes it, each simple query whose
  -- placeholders the parser can count is answered by one row that holds it, on a connection that takes
  -- four messages.
  pub handle_numeric-answers :
      (grow : ℕ → ℕ) (ctx : Context D) (query : Bytes) (balance : D) (encoded : Bytes) (p : Oids)
      (w : Writer)
      → count_parameters grow query ≡ ok p
      → new_from_string (codes "256.23") ≡ inl balance
      → AreRows ctx balance_table ((some balance ∷ []) ∷ []) ((encoded ∷ []) ∷ [])
      → 4 ≤ w.sink.accepts
      → ((run_query ctx (simple_parse grow (some handle_numeric)) query w).0 ≡ ok tt)
        × ((run_query ctx (simple_parse grow (some handle_numeric)) query w).1.sink.sent
            ≡ w.sink.sent
              ++ (table_messages balance_table
                    ((some balance ∷ []) ∷ [])
                    ((encoded ∷ []) ∷ [])
                    (codes "OK")
                  ++ ready_message ∷ []))
  unfolding handle_numeric each_row
  handle_numeric-answers grow ctx query balance encoded p w counted read h room =
      table-answers grow ctx handle_numeric query p counted w _ _ ((some balance ∷ []) ∷ [])
        ((encoded ∷ []) ∷ []) (codes "OK") (ap send_balance read) h room
