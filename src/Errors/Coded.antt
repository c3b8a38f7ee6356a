-- ===== src/Errors/Coded.antt =====
-- The codes that errors carry.
use psql_wire.Base.{
  All, Bool, List, Option, [], ap, equal, equal_iff, false, none, refl, some, subst, sym, true,
  ◌&&◌, ◌++◌, ◌||◌, ◌∙◌, ◌∷◌, ◌≡◌,
}
use psql_wire.Errors.{Error, flatten, get_code}
use psql_wire.Errors.Chain.{first, get_code-layers, layers, or_else, own_code}
use psql_wire.Errors.Codes.{Code, IsSqlState, all, is_sql_state}
use psql_wire.Errors.Codes.Access.{access_codes}
use psql_wire.Errors.Codes.Completion.{completion_codes}
use psql_wire.Errors.Codes.Data.{data_codes}
use psql_wire.Errors.Codes.Foreign.{foreign_codes}
use psql_wire.Errors.Codes.Internals.{internals_codes, uncategorized}
use psql_wire.Errors.Codes.Resources.{resources_codes}
use psql_wire.Errors.Codes.Transactions.{transactions_codes}

abbrev pub code_table : List Code
code_table =
    completion_codes
    ++ (data_codes
        ++ (transactions_codes
            ++ (access_codes ++ (resources_codes ++ (foreign_codes ++ internals_codes)))))

abbrev pub any : {A : Type 0} → (A → Bool) → List A → Bool
any test [] = false
any test (a ∷ xs) = test a || any test xs

-- A constant of codes.go.
abbrev pub IsListed : Code → Type 0
IsListed code = any (equal code) code_table ≡ true

-- The codes given by `WithCode` are such constants.
abbrev pub OwnIsListed : Option Code → Type 0
OwnIsListed none = Unit {0}
OwnIsListed (some code) = IsListed code

abbrev pub CarriesListed : Error → Type 0
CarriesListed e = All (λ layer. OwnIsListed (own_code layer)) (layers e)

-- Every constant of the table is an SQL state.
code_table-AreSqlStates : all is_sql_state code_table ≡ true
code_table-AreSqlStates = refl

any-all :
    (code : Code) (test : Code → Bool) (table : List Code)
    → any (equal code) table ≡ true
    → all test table ≡ true
    → test code ≡ true
any-all code test [] found passes = absurd (cc)
any-all code test (c ∷ table) found passes =
    by_head (equal code c) refl (test c) refl found passes (any-all code test table)
  where
    by_head :
        (b : Bool)
        → equal code c ≡ b
        → (p : Bool) → test c ≡ p
        → b || any (equal code) table ≡ true
        → p && all test table ≡ true
        → (any (equal code) table ≡ true → all test table ≡ true → test code ≡ true)
        → test code ≡ true
    by_head b same false fails f g more = absurd (cc)
    by_head true same true holds f g more = ap test ((equal_iff code c).0 same) ∙ holds
    by_head false same true holds f g more = more f g

uncategorized-IsListed : IsListed uncategorized
unfolding equal
uncategorized-IsListed = refl

first-IsListed :
    (ls : List Error)
    → All (λ layer. OwnIsListed (own_code layer)) ls
    → IsListed (or_else uncategorized (first own_code ls))
unfolding first
first-IsListed [] h = uncategorized-IsListed
first-IsListed (l ∷ ls) (h, hs) = by_layer (own_code l) h (first-IsListed ls hs)
  where
    by_layer :
        (o : Option Code)
        → OwnIsListed o
        → IsListed (or_else uncategorized (first own_code ls))
        → IsListed (or_else uncategorized (elim o [ none ↦ first own_code ls | some a ↦ some a ]))
    by_layer none h' more = more
    by_layer (some code) h' more = h'

-- Where every code that `WithCode` has put on an error is a constant of the table, the code that
-- `Flatten` gives the error is one as well, and it has the five digits or capital letters of an SQL
-- state.
pub flatten-IsSqlState :
    (e : Error)
    → CarriesListed e
    → IsListed (flatten (some e)).code × IsSqlState (flatten (some e)).code
unfolding flatten
flatten-IsSqlState e h =
    let l : IsListed (get_code e) =
      subst IsListed (sym (get_code-layers e)) (first-IsListed (layers e) h) in
    (l, any-all (get_code e) is_sql_state code_table l code_table-AreSqlStates)
