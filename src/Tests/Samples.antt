-- ===== src/Tests/Samples.antt =====
-- Connections, servers and messages.
use psql_wire.Base.{
  Bool, Bytes, List, Option, [], arith, codes, equal, false, if◌then◌else◌, none, pos, some, subst,
  true, ℕ, ◌∷◌, ◌≢◌,
}
use psql_wire.Buffer.Reader.{Reader}
use psql_wire.Buffer.Reader.Values.{IsText}
use psql_wire.Buffer.Stream.{Sink}
use psql_wire.Buffer.Writer.{Writer, new_writer}
use psql_wire.Errors.{eof, net_closed, text}
use psql_wire.Exec.{Result, err, ok, panic, stuck}
use psql_wire.Wire.Cache.{DefaultPortalCache, DefaultStatementCache, StatementFn}
use psql_wire.Wire.Command.Handlers.{IsServer}
use psql_wire.Wire.Context.{ConnInfo, Context, DataType}
use psql_wire.Wire.DataWriter.{completes, returns}
use psql_wire.Wire.DataWriter.Returning.{IsContext, IsTypes}
use psql_wire.Wire.Server.{Conn, ParseFn, Server, World}

abbrev pub open_sink : Sink
open_sink = record { sent = []; accepts = 8; broken = net_closed; closed = false }

abbrev pub open_writer : Writer
open_writer = new_writer open_sink

-- A reader with these bytes to come, and messages of at most 32 bytes.
abbrev pub reader_of : Bytes → Reader
reader_of input = record {
  buffer = record { pending = input; ending = eof; held = 0 };
  msg = [];
  max_message_size = 32;
}

abbrev pub reader_at : Bytes → Reader
reader_at msg = record {
  buffer = record { pending = []; ending = eof; held = 0 };
  msg = msg;
  max_message_size = 32;
}

abbrev pub conn_of : Bytes → Conn
conn_of input = record { reader = reader_of input; writer = open_writer }

abbrev pub conn_at : Bytes → Conn
conn_at msg = record { reader = reader_at msg; writer = open_writer }

abbrev pub no_statements : DefaultStatementCache ℕ
no_statements = record { statements = none }

abbrev pub no_portals : DefaultPortalCache ℕ
no_portals = record { portals = none }

abbrev pub world_on : Conn → World ℕ
world_on c = record {
  conn = c;
  statements = some no_statements;
  portals = some no_portals;
  parameters = none;
}

-- A statement that completes at once, with the tag `OK`.
abbrev pub completing : StatementFn ℕ
completing ctx parameters = completes (codes "OK") (λ e. returns e)

-- A parser that rejects the query `bad`.
abbrev pub sample_parser : ParseFn ℕ
sample_parser ctx query =
    if equal query (codes "bad")
    then err (text (codes "syntax error"))
    else ok (some completing, [])

abbrev pub plain : DataType ℕ
plain = record {
  set = λ v. none;
  encode_text = λ v. ok (codes "ab");
  encode_binary = λ v. ok (codes "ab");
}

abbrev pub plain_types : ConnInfo ℕ
plain_types = record { data_type_for_oid = λ oid. some plain }

abbrev pub sample_server : Server ℕ
sample_server = record {
  types = plain_types;
  auth = none;
  buffered_msg_size = pos 32;
  certificates = 0;
  parse = some sample_parser;
  session = some (λ ctx. ok ctx);
  close_conn = none;
  terminate_conn = none;
  version = [];
}

abbrev pub sample_context : Context ℕ
sample_context = record {
  cancelled = none;
  type_info = some plain_types;
  client_metadata = some [];
  server_metadata = none;
}

abbrev pub letters : Bytes
letters = 97 ∷ 98 ∷ []

pub letters-IsText : IsText letters
letters-IsText = ground arith

pub plain-IsTypes : IsTypes plain_types
plain-IsTypes = record {
  encode_text = λ oid d v e. subst (λ (o : Option (DataType ℕ)). encodes o v ≢ stuck) e (λ q. cc);
  encode_binary =
      λ oid d v e. subst (λ (o : Option (DataType ℕ)). encodes_binary o v ≢ stuck) e (λ q. cc);
}
  where
    encodes : Option (DataType ℕ) → Option ℕ → Result Bytes
    encodes none v = panic
    encodes (some d) v = d.encode_text v

    encodes_binary : Option (DataType ℕ) → Option ℕ → Result Bytes
    encodes_binary none v = panic
    encodes_binary (some d) v = d.encode_binary v

pub sample_context-IsContext : IsContext sample_context
sample_context-IsContext = record { types = λ ci e. subst types_of e plain-IsTypes }
  where
    types_of : Option (ConnInfo ℕ) → Type 0
    types_of none = Unit {0}
    types_of (some ci) = IsTypes ci

pub sample_server-IsServer : IsServer sample_server
sample_server-IsServer = record {
  parse = λ p ctx query e.
      subst (λ (o : Option (ParseFn ℕ)). parses o ctx query ≢ stuck) e
        (parser_returns (equal query (codes "bad")));
}
  where
    parses : Option (ParseFn ℕ) → Context ℕ → Bytes → Result (Option (StatementFn ℕ) × List ℕ)
    parses none ctx query = panic
    parses (some p) ctx query = p ctx query

    parser_returns :
        (b : Bool)
        → if◌then◌else◌ {A = Result (Option (StatementFn ℕ) × List ℕ)} b
            (err (text (codes "syntax error")))
            (ok (some completing, []))
          ≢ stuck
    parser_returns true = λ e. cc
    parser_returns false = λ e. cc

abbrev pub refuse_all : Bytes → Bytes → Result Bool
refuse_all username password = ok false
