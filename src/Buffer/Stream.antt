-- ===== src/Buffer/Stream.antt =====
-- The two directions of a net.Conn, and `io.ReadFull` over the buffered reader.
use psql_wire.Base.{
  Bool, Bytes, List, Option, [], drop, if◌then◌else◌, leb, length, none, some, take, true, ℕ, ◌++◌,
  ◌-◌, ◌==◌, ◌∷◌,
}
use psql_wire.Errors.{Error, eof, net_closed, unexpected_eof}
use psql_wire.Exec.{Exec, err, ok}

-- What the client still sends, and the error that a read meets behind it: `eof` where the client
-- closes the connection, another error where the connection breaks. `held` is how much of it the
-- buffered reader has fetched already when the server closes the connection itself.
pub record Stream : Type 0 where
  pub pending : Bytes
  pub ending : Error
  pub held : ℕ

-- What the client was sent, one entry to a successful write. The connection takes `accepts` more
-- writes, and fails with `broken` from then on. Bytes of a failing write are not counted.
-- `closed`: the server has closed the connection.
pub record Sink : Type 0 where
  pub sent : List Bytes
  pub accepts : ℕ
  pub broken : Error
  pub closed : Bool

-- `conn.Write`
unfoldable pub write : Bytes → Exec Sink (Unit {0})
write bytes s =
    if s.accepts == 0
    then (err s.broken, s)
    else (ok tt, record s { sent = s.sent ++ bytes ∷ []; accepts = s.accepts - 1 })

-- The end of the reading side of `conn.Close()`: the fetched bytes are left.
unfoldable pub close_stream : Stream → Stream
close_stream s = record s { pending = take s.held s.pending; ending = net_closed }

-- `conn.Close()` on the writing side.
unfoldable pub close_sink : Sink → Sink
close_sink s = record s { accepts = 0; broken = net_closed; closed = true }

abbrev pub take_byte : Bytes → Exec Stream ℕ
take_byte [] s = (err s.ending, s)
take_byte (b ∷ rest) s = (ok b, record s { pending = rest })

-- `ReadByte`
unfoldable pub read_byte : Exec Stream ℕ
read_byte s = take_byte s.pending s

-- The error of `io.ReadFull` where the input ends after `count` bytes.
unfoldable pub short_read : ℕ → Error → Error
short_read count e = if count == 0 then e else elim e [ eof ↦ unexpected_eof | other ↦ other ]

-- `io.ReadFull` into `size` bytes: the bytes read, the error, and the input left.
pub record Filled : Type 0 where
  pub bytes : Bytes
  pub failure : Option Error
  pub left : Stream

unfoldable pub read_full : ℕ → Stream → Filled
unfolding short_read
read_full size s =
    if leb size (length s.pending)
    then record {
      bytes = take size s.pending;
      failure = none;
      left = record s { pending = drop size s.pending };
    }
    else record {
      bytes = s.pending;
      failure = some (short_read (length s.pending) s.ending);
      left = record s { pending = [] };
    }
