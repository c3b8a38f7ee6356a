-- ===== src/Errors/Codes.antt =====
-- codes/codes.go: the error codes.
pub mod Completion
pub mod Data
pub mod Transactions
pub mod Access
pub mod Resources
pub mod Foreign
pub mod Internals
use psql_wire.Base.{Bool, Bytes, List, [], leb, length, true, ℕ, ◌&&◌, ◌==◌, ◌||◌, ◌∷◌, ◌≡◌}

abbrev pub Code : Type 0
Code = Bytes

-- A digit or a capital letter.
abbrev pub is_code_character : ℕ → Bool
is_code_character c = (leb 48 c && leb c 57) || (leb 65 c && leb c 90)

abbrev pub all : {A : Type 0} → (A → Bool) → List A → Bool
all test [] = true
all test (a ∷ xs) = test a && all test xs

-- Five of them, as the SQL standard has it.
abbrev pub is_sql_state : Code → Bool
is_sql_state code = length code == 5 && all is_code_character code

abbrev pub IsSqlState : Code → Type 0
IsSqlState code = is_sql_state code ≡ true
