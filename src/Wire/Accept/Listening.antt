-- ===== src/Wire/Accept/Listening.antt =====
-- `ListenAndServe` of wire.go, the method and the function; net.Listen is a parameter.
use psql_wire.Base.{Bytes, List, Option, [], none, refl, some, ℕ, ◌∷◌, ◌≡◌}
use psql_wire.Errors.{Error}
use psql_wire.Exec.{Result, err, ok, panic, stuck}
use psql_wire.Wire.Accept.{Process, fresh_process, start_serving}
use psql_wire.Wire.Context.{ConnInfo, Context}
use psql_wire.Wire.DataWriter.{Script}
use psql_wire.Wire.Options.{Setup, apply_options, default_setup, new_server, simple_query}
use psql_wire.Wire.Options.Parser.{simple_parse}

abbrev start_or_fail : Option Error → Process → Result Process
start_or_fail (some e) s = err e
start_or_fail none s = ok (start_serving s)

module _ (listen : Bytes → Option Error) where
  -- `Server.ListenAndServe`, up to the first `Accept`
  unfoldable pub listen_and_serve : Bytes → Process → Result Process
  listen_and_serve address s = start_or_fail (listen address) s

  module _ {V : Type 0} (types : ConnInfo V) (grow : ℕ → ℕ) where
    abbrev with_process : Setup V → Result Process → Result (Setup V × Process)
    with_process setup (ok s) = ok (setup, s)
    with_process setup (err e) = err e
    with_process setup panic = panic
    with_process setup stuck = stuck

    -- What `ListenAndServe` does with the answer of `NewServer`.
    unfoldable pub listen_with : Bytes → Result (Setup V) → Result (Setup V × Process)
    unfolding listen_and_serve
    listen_with address (ok setup) = with_process setup (listen_and_serve address fresh_process)
    listen_with address (err e) = err e
    listen_with address panic = panic
    listen_with address stuck = stuck

    -- `ListenAndServe`
    unfoldable pub listen_and_serve_handler :
        Bytes → Option (Context V → Bytes → List Bytes → Script V) → Result (Setup V × Process)
    unfolding listen_with
    listen_and_serve_handler address handler =
        listen_with address (new_server types (simple_query grow handler ∷ []))

    -- The server of `ListenAndServe`.
    abbrev pub handler_setup : Option (Context V → Bytes → List Bytes → Script V) → Setup V
    handler_setup handler = record (default_setup types) {
      server = record ((default_setup types).server) { parse = some (simple_parse grow handler) };
    }

    -- Where the address can be listened at, `ListenAndServe` accepts connections with a new server whose
    -- parser hands each query to the handler.
    pub listen_and_serve_handler-starts :
        (address : Bytes) (handler : Option (Context V → Bytes → List Bytes → Script V))
        → listen address ≡ none
        → listen_and_serve_handler address handler
          ≡ ok (handler_setup handler, start_serving fresh_process)
    unfolding listen_and_serve_handler new_server apply_options simple_query default_setup
    listen_and_serve_handler-starts address handler h = rw h refl
