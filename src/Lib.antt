-- ===== src/Lib.antt =====
-- psql-wire: a server for the wire protocol of PostgreSQL.
--
-- A connection is served by `serve` (wire.go): a handshake, the parameters of the client, an
-- authentication strategy, the parameters of the server, a session handler, and then commands until
-- the client leaves. Commands are read from a buffered reader (internal/buffer/reader.go) and
-- answered through a buffered writer (internal/buffer/writer.go). A command parses a query, binds a
-- statement to a portal or runs a statement, which writes rows through a data writer (writer.go).
-- Statements and portals lie in caches (cache.go) that all connections share.
--
-- Base: the lists, tests, byte strings and integers that the other modules share.
-- Exec: a Go function as state passing. `ok` and `err` are its results, `panic` a run-time panic;
--   `stuck` says that a loop of the model has run out of fuel, and is no Go value. `Tame` collects
--   the actions that never run out of fuel, one rule for each way to build an action.
-- Errors: errors/*.go, and codes/codes.go in Errors.Codes, one file to a group of classes; Errors.Chain
--   reads the decorations of an error off its chain of layers, Errors.Coded its code.
-- Messages: internal/types.
-- Buffer: internal/buffer. Stream has the two directions of a `net.Conn`: what the client sends and
--   the error that ends it, what it was sent and how many more writes succeed. Reader and Writer have
--   the operations under their own names; Reader.Values, Typed, Slurped, Bounded and Ends, and
--   Writer.Emits, Framing and Returning have the lemmas.
-- Wire: the package wire. Response is error.go and `readyForQuery`; Context conn.go; Row row.go and
--   format.go; DataWriter writer.go; Cache cache.go; Server the fields of `Server` and the state of
--   a connection; Accept the goroutines of `ListenAndServe`, `Serve` and `Close` of wire.go as a step
--   relation; Query `handleSimpleQuery`, Extended `handleParse`, `handleBind` and
--   `handleExecute`, Command `handleCommand` and `consumeCommands` of command.go; Auth auth.go;
--   Handshake handshake.go and ssl.go; Options options.go and `NewServer`, with the parser that
--   `SimpleQuery` sets in Options.Parser; Serve `serve`.
-- Wire.Session: what the commands of command.go promise, with no bytes, no reader and no association
--   lists: a session has a function from names to statements, one from names to portals, and a client
--   that is written to. Session.Messages has the bytes of a command, Session.Simulation what it means
--   that the state of a connection matches a session, and Session.Handlers and Session.Refinement that
--   the handlers, the command loop and a whole connection do what the session does.
-- Mock: the client of the tests, internal/mock, whose reads are in Mock.Reads and which meets the server
--   in Mock.Served.
-- Examples: the servers of examples/simple, examples/error and examples/numeric.
-- Tests: the theorems at connections that are written out.
--
-- Strings and byte slices are lists of bytes. Integers of 16 and 32 bits on the wire are their bit
-- patterns; `int` has 64 bits. A write to the connection takes a whole message or fails; reads meet
-- an end of the input with an error of the network's. A handler is an arbitrary function of the
-- context; a prepared statement is a `Script`, the calls of the data writer that it makes, each of
-- which may depend on what the calls before have answered. A handler or statement that never
-- returns is not modelled.
--
-- Loops whose recursion is not structural run on fuel: `slurp` on the number of bytes it discards,
-- since a round reads a byte at least; `read_client_parameters` on the length of the message; the
-- command loop on one more round than there are bytes to read, since a round that goes on has read
-- the type byte of a message.
--
-- The goroutines of a server are steps in any order: `Serve` with one listener, the watcher of its
-- channel, one goroutine to a connection and one call of `Close`. A connection is one goroutine more
-- there and `serve` in Serve; the caches and the parameter map that connections share are changed by one
-- connection at a time.
--
-- Not modelled: logging, crypto/tls (a function from the bytes on the wire to those inside the
-- session) and the options that only it or the logger reads, github.com/jackc/pgtype (`DataType` and
-- `ConnInfo` hold what the server asks of a type), caches other than the default ones, the order in
-- which a map is gone through (a parameter), and the examples session and tls: one reads a value in
-- the context that no other code reads, the other loads certificates from files.
pub mod Base
pub mod Errors
pub mod Exec
pub mod Messages
pub mod Buffer
pub mod Wire
pub mod Mock
pub mod Examples
pub mod Tests
