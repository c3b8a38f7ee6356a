-- ===== src/Wire/Server/Returning.antt =====
-- Code on a connection that comes back and keeps the input live.
use psql_wire.Base.{arith}
use psql_wire.Buffer.Reader.{Reader}
use psql_wire.Buffer.Reader.Ends.{IsLive, TameReader}
use psql_wire.Buffer.Writer.{Writer}
use psql_wire.Exec.{Exec}
use psql_wire.Exec.Tame.{Returns, Tame}
use psql_wire.Wire.Server.{Conn, on_reader, on_writer}

abbrev pub TameConn : {A : Type 0} → Exec Conn A → Type 0
TameConn m = Tame (λ c. 0) (λ c. IsLive c.reader) m

pub on_reader-Tame : {A : Type 0} {m : Exec Reader A} → TameReader m → TameConn (on_reader m)
on_reader-Tame tm = record {
  returns = λ c g. tm.returns c.reader g;
  shrinks = λ c g. omega arith;
  keeps = λ c g. tm.keeps c.reader g;
}

pub on_writer-Tame : {A : Type 0} {m : Exec Writer A} → Returns m → TameConn (on_writer m)
on_writer-Tame rm = record {
  returns = λ c g. rm.returns c.writer tt;
  shrinks = λ c g. omega arith;
  keeps = λ c g. g;
}
