-- ===== src/Tests/Counting.antt =====
-- Queries with parameters.
use psql_wire.Base.{Bytes, codes, equal, if◌then◌else◌, leb, length, refl, ℕ, ◌*◌, ◌+◌, ◌≡◌}
use psql_wire.Exec.{ok, panic}
use psql_wire.Wire.Options.Counting.{
  AreAnonymous, ArePositional, count_parameters-positional, greatest,
}
use psql_wire.Wire.Options.Parser.{count_parameters, find_parameters}

abbrev fifth : Bytes
fifth = codes "$5"

abbrev grow_twice : ℕ → ℕ
grow_twice n = n * 2 + 1

fifth-ArePositional : ArePositional (find_parameters fifth)
unfolding find_parameters equal
fifth-ArePositional = (refl, tt)

count_parameters-positional_example :
    let matches = find_parameters fifth in
    count_parameters grow_twice fifth ≡ (
      if leb (greatest matches 0) (length matches)
      then ok (record { len = greatest matches 0; cap = length matches })
      else panic)
count_parameters-positional_example =
    count_parameters-positional grow_twice fifth fifth-ArePositional

-- The parser panics on `$5`.
fifth_panics : count_parameters grow_twice fifth ≡ panic
unfolding count_parameters equal
fifth_panics = refl

abbrev marks : Bytes
marks = codes "??"

marks-AreAnonymous : AreAnonymous (find_parameters marks)
unfolding find_parameters equal
marks-AreAnonymous = (refl, (refl, tt))
