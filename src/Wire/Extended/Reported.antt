-- ===== src/Wire/Extended/Reported.antt =====
-- What `handleExecute` answers for the error of a statement.
use psql_wire.Base.{
  Bytes, List, Option, [], ap, append-nil, length, none, refl, some, sym, ◌++◌, ◌∙◌, ◌≡◌, ◌≤◌,
}
use psql_wire.Buffer.Stream.{Sink}
use psql_wire.Buffer.Writer.{Writer}
use psql_wire.Buffer.Writer.Emits.{sends}
use psql_wire.Errors.{Error}
use psql_wire.Exec.{Result, err, ok, panic, stuck}
use psql_wire.Wire.Extended.{report}
use psql_wire.Wire.Query.Finished.{ending_messages, failure_of}
use psql_wire.Wire.Response.Sent.{error_code-Emits}

-- What an outcome of a statement adds to what the statement has sent.
abbrev pub failure_messages : Option Error → List Bytes
failure_messages none = []
failure_messages (some e) = ending_messages (some e)

pub report_lem :
    (p : Result (Unit {0}) × Writer) (failure : Option Error)
    → failure_of p.0 ≡ some failure
    → length (failure_messages failure) ≤ p.1.sink.accepts
    → ((report p).0 ≡ ok tt) × ((report p).1.sink.sent ≡ p.1.sink.sent ++ failure_messages failure)
unfolding report
report_lem (ok a, w) none h room = (refl, sym (append-nil w.sink.sent))
report_lem (ok a, w) (some e) h room = absurd cc
report_lem (err e, w) none h room = absurd cc
report_lem (err e, w) (some e') h room =
    let same : e ≡ e' = cc in
    let (d, s) = sends (error_code-Emits (some e)) w room in
    (
      d,
      ap (λ (s : Sink). s.sent) s
          ∙ ap (λ (e : Error). w.sink.sent ++ failure_messages (some e)) same,
    )
report_lem (panic, w) failure h room = absurd cc
report_lem (stuck, w) failure h room = absurd cc
