-- ===== src/Examples/Values.antt =====
-- The values that the examples hand to the data writer.
use psql_wire.Base.{Bool, Bytes, ℤ}

pub data Any : Type 0 where
  string : Bytes → Any
  boolean : Bool → Any
  integer : ℤ → Any
