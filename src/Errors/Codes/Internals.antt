-- ===== src/Errors/Codes/Internals.antt =====
-- codes/codes.go: classes P0 and XX, and the codes of CockroachDB.
use psql_wire.Base.{List, [], codes, ◌∷◌}
use psql_wire.Errors.Codes.{Code}
use psql_wire.Errors.Codes.Completion.{connection_failure}

abbrev pub pl_pg_sql : Code
pl_pg_sql = codes "P0000"

abbrev pub raise_exception : Code
raise_exception = codes "P0001"

abbrev pub no_data_found : Code
no_data_found = codes "P0002"

abbrev pub too_many_rows : Code
too_many_rows = codes "P0003"

abbrev pub assert_failure : Code
assert_failure = codes "P0004"

abbrev pub internal : Code
internal = codes "XX000"

abbrev pub data_corrupted : Code
data_corrupted = codes "XX001"

abbrev pub index_corrupted : Code
index_corrupted = codes "XX002"

abbrev pub uncategorized : Code
uncategorized = codes "XXUUU"

abbrev pub ccl_required : Code
ccl_required = codes "XXC01"

abbrev pub ccl_valid_license_required : Code
ccl_valid_license_required = codes "XXC02"

abbrev pub transaction_committed_with_schema_change_failure : Code
transaction_committed_with_schema_change_failure = codes "XXA00"

abbrev pub scalar_operation_cannot_run_without_full_session_context : Code
scalar_operation_cannot_run_without_full_session_context = codes "22C01"

abbrev pub schema_change_occurred : Code
schema_change_occurred = codes "55C01"

abbrev pub no_primary_key : Code
no_primary_key = codes "55C02"

abbrev pub range_unavailable : Code
range_unavailable = codes "58C00"

abbrev pub deprecated_range_unavailable : Code
deprecated_range_unavailable = codes "XXC00"

abbrev pub internal_connection_failure : Code
internal_connection_failure = codes "58C01"

abbrev pub deprecated_internal_connection_failure : Code
deprecated_internal_connection_failure = connection_failure

abbrev pub internals_codes : List Code
internals_codes =
    pl_pg_sql ∷ raise_exception ∷ no_data_found ∷ too_many_rows ∷ assert_failure ∷ internal
    ∷ data_corrupted ∷ index_corrupted ∷ uncategorized ∷ ccl_required ∷ ccl_valid_license_required
    ∷ transaction_committed_with_schema_change_failure
    ∷ scalar_operation_cannot_run_without_full_session_context ∷ schema_change_occurred
    ∷ no_primary_key ∷ range_unavailable ∷ deprecated_range_unavailable
    ∷ internal_connection_failure ∷ deprecated_internal_connection_failure ∷ []
