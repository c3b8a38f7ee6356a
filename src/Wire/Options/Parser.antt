-- ===== src/Wire/Options/Parser.antt =====
-- The parser that `SimpleQuery` of options.go sets.
use psql_wire.Base.{
  Bool, Bytes, List, Option, [], equal, if◌then◌else◌, leb, length, ltb, none, not, replicate, some,
  ℕ, ◌&&◌, ◌*◌, ◌+◌, ◌-◌, ◌==◌, ◌∷◌,
}
use psql_wire.Exec.{Result, err, ok, panic, stuck}
use psql_wire.Wire.Context.{Context}
use psql_wire.Wire.DataWriter.{Script, crashes}
use psql_wire.Wire.Server.{ParseFn}

abbrev pub is_digit : ℕ → Bool
is_digit c = leb b'0' c && leb c b'9'

unfoldable pub leading_digits : Bytes → Bytes
leading_digits [] = []
leading_digits (c ∷ s) = let rest = leading_digits s in if is_digit c then c ∷ rest else []

-- The groups that `QueryParameters`, the expression `\$(\d+)|\?`, captures: the digits of a
-- positional parameter, nothing for a question mark. No match begins with a digit, so the search
-- may go on right behind the dollar sign.
unfoldable pub find_parameters : Bytes → List Bytes
unfolding leading_digits
find_parameters [] = []
find_parameters (c ∷ s) =
    let rest = find_parameters s in
    if c == b'?'
    then [] ∷ rest
    else if c == b'$' && not (equal (leading_digits s) [])
    then leading_digits s ∷ rest
    else rest

-- `strconv.Atoi` of a string of digits: a number that is too large reads as the largest int, and
-- the empty string as 0.
abbrev pub max_int : ℕ
max_int = 9223372036854775807

unfoldable pub number : ℕ → Bytes → ℕ
number acc [] = acc
number acc (c ∷ s) = number (acc * 10 + (c - b'0')) s

unfoldable pub atoi : Bytes → ℕ
unfolding number
atoi s = if ltb max_int (number 0 s) then max_int else number 0 s

-- The slice of oids that the parser builds. All its elements, and all behind them in its array, are
-- zero. The capacity of an array that `append` has to allocate is `grow cap`.
pub record Oids : Type 0 where
  pub len : ℕ
  pub cap : ℕ

module _ (grow : ℕ → ℕ) where
  -- `append(parameters, 0)`
  unfoldable pub append_zero : Oids → Oids
  append_zero p = record { len = p.len + 1; cap = if ltb p.len p.cap then p.cap else grow p.cap }

  -- `parameters[:position]`
  unfoldable pub reslice : ℕ → Oids → Result Oids
  reslice position p = if leb position p.cap then ok (record p { len = position }) else panic

  -- The body of the loop over the matches.
  unfoldable pub add_match : Bytes → Oids → Result Oids
  unfolding append_zero reslice atoi
  add_match group p =
      let p' = if equal group [] then append_zero p else p in
      if ltb p'.len (atoi group) then reslice (atoi group) p' else ok p'

  unfoldable pub add_matches : List Bytes → Oids → Result Oids
  unfolding add_match
  add_matches [] p = ok p
  add_matches (group ∷ groups) p = elim (add_match group p) [
    | ok p' ↦ add_matches groups p'
    | err e ↦ err e
    | panic ↦ panic
    | stuck ↦ stuck
  ]

  -- The oids that the parser of `SimpleQuery` answers.
  unfoldable pub count_parameters : Bytes → Result Oids
  unfolding add_matches find_parameters
  count_parameters query =
      let matches = find_parameters query in
      add_matches matches (record { len = 0; cap = length matches })

  module _ {V : Type 0} where
    -- The parser that `SimpleQuery(fn)` sets. A call of a nil `fn` panics.
    unfoldable pub simple_parse : Option (Context V → Bytes → List Bytes → Script V) → ParseFn V
    unfolding count_parameters
    simple_parse fn ctx query = elim (count_parameters query) [
      | ok p ↦ ok (
        some (λ ctx' parameters. elim fn [ none ↦ crashes | some f ↦ f ctx' query parameters ]),
        replicate p.len 0,
      )
      | err e ↦ err e
      | panic ↦ panic
      | stuck ↦ stuck
    ]
