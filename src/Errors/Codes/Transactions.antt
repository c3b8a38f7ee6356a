-- ===== src/Errors/Codes/Transactions.antt =====
-- codes/codes.go: classes 23 to 40.
use psql_wire.Base.{List, [], codes, ◌∷◌}
use psql_wire.Errors.Codes.{Code}

abbrev pub integrity_constraint_violation : Code
integrity_constraint_violation = codes "23000"

abbrev pub restrict_violation : Code
restrict_violation = codes "23001"

abbrev pub not_null_violation : Code
not_null_violation = codes "23502"

abbrev pub foreign_key_violation : Code
foreign_key_violation = codes "23503"

abbrev pub unique_violation : Code
unique_violation = codes "23505"

abbrev pub check_violation : Code
check_violation = codes "23514"

abbrev pub exclusion_violation : Code
exclusion_violation = codes "23P01"

abbrev pub invalid_cursor_state : Code
invalid_cursor_state = codes "24000"

abbrev pub invalid_transaction_state : Code
invalid_transaction_state = codes "25000"

abbrev pub active_sql_transaction : Code
active_sql_transaction = codes "25001"

abbrev pub branch_transaction_already_active : Code
branch_transaction_already_active = codes "25002"

abbrev pub held_cursor_requires_same_isolation_level : Code
held_cursor_requires_same_isolation_level = codes "25008"

abbrev pub inappropriate_access_mode_for_branch_transaction : Code
inappropriate_access_mode_for_branch_transaction = codes "25003"

abbrev pub inappropriate_isolation_level_for_branch_transaction : Code
inappropriate_isolation_level_for_branch_transaction = codes "25004"

abbrev pub no_active_sql_transaction_for_branch_transaction : Code
no_active_sql_transaction_for_branch_transaction = codes "25005"

abbrev pub read_only_sql_transaction : Code
read_only_sql_transaction = codes "25006"

abbrev pub schema_and_data_statement_mixing_not_supported : Code
schema_and_data_statement_mixing_not_supported = codes "25007"

abbrev pub no_active_sql_transaction : Code
no_active_sql_transaction = codes "25P01"

abbrev pub in_failed_sql_transaction : Code
in_failed_sql_transaction = codes "25P02"

abbrev pub invalid_sql_statement_name : Code
invalid_sql_statement_name = codes "26000"

abbrev pub triggered_data_change_violation : Code
triggered_data_change_violation = codes "27000"

abbrev pub invalid_authorization_specification : Code
invalid_authorization_specification = codes "28000"

abbrev pub invalid_password : Code
invalid_password = codes "28P01"

abbrev pub dependent_privilege_descriptors_still_exist : Code
dependent_privilege_descriptors_still_exist = codes "2B000"

abbrev pub dependent_objects_still_exist : Code
dependent_objects_still_exist = codes "2BP01"

abbrev pub invalid_transaction_termination : Code
invalid_transaction_termination = codes "2D000"

abbrev pub routine_exception_function_executed_no_return_statement : Code
routine_exception_function_executed_no_return_statement = codes "2F005"

abbrev pub routine_exception_modifying_sql_data_not_permitted : Code
routine_exception_modifying_sql_data_not_permitted = codes "2F002"

abbrev pub routine_exception_prohibited_sql_statement_attempted : Code
routine_exception_prohibited_sql_statement_attempted = codes "2F003"

abbrev pub routine_exception_reading_sql_data_not_permitted : Code
routine_exception_reading_sql_data_not_permitted = codes "2F004"

abbrev pub invalid_cursor_name : Code
invalid_cursor_name = codes "34000"

abbrev pub external_routine_exception : Code
external_routine_exception = codes "38000"

abbrev pub external_routine_containing_sql_not_permitted : Code
external_routine_containing_sql_not_permitted = codes "38001"

abbrev pub external_routine_modifying_sql_data_not_permitted : Code
external_routine_modifying_sql_data_not_permitted = codes "38002"

abbrev pub external_routine_prohibited_sql_statement_attempted : Code
external_routine_prohibited_sql_statement_attempted = codes "38003"

abbrev pub external_routine_reading_sql_data_not_permitted : Code
external_routine_reading_sql_data_not_permitted = codes "38004"

abbrev pub external_routine_invocation_exception : Code
external_routine_invocation_exception = codes "39000"

abbrev pub external_routine_invalid_sql_state_returned : Code
external_routine_invalid_sql_state_returned = codes "39001"

abbrev pub external_routine_null_value_not_allowed : Code
external_routine_null_value_not_allowed = codes "39004"

abbrev pub external_routine_trigger_protocol_violated : Code
external_routine_trigger_protocol_violated = codes "39P01"

abbrev pub external_routine_srf_protocol_violated : Code
external_routine_srf_protocol_violated = codes "39P02"

abbrev pub savepoint_exception : Code
savepoint_exception = codes "3B000"

abbrev pub invalid_savepoint_specification : Code
invalid_savepoint_specification = codes "3B001"

abbrev pub invalid_catalog_name : Code
invalid_catalog_name = codes "3D000"

abbrev pub invalid_schema_name : Code
invalid_schema_name = codes "3F000"

abbrev pub transaction_rollback : Code
transaction_rollback = codes "40000"

abbrev pub transaction_integrity_constraint_violation : Code
transaction_integrity_constraint_violation = codes "40002"

abbrev pub serialization_failure : Code
serialization_failure = codes "40001"

abbrev pub statement_completion_unknown : Code
statement_completion_unknown = codes "40003"

abbrev pub deadlock_detected : Code
deadlock_detected = codes "40P01"

abbrev pub transactions_codes : List Code
transactions_codes =
    integrity_constraint_violation ∷ restrict_violation ∷ not_null_violation ∷ foreign_key_violation
    ∷ unique_violation ∷ check_violation ∷ exclusion_violation ∷ invalid_cursor_state
    ∷ invalid_transaction_state ∷ active_sql_transaction ∷ branch_transaction_already_active
    ∷ held_cursor_requires_same_isolation_level ∷ inappropriate_access_mode_for_branch_transaction
    ∷ inappropriate_isolation_level_for_branch_transaction
    ∷ no_active_sql_transaction_for_branch_transaction ∷ read_only_sql_transaction
    ∷ schema_and_data_statement_mixing_not_supported ∷ no_active_sql_transaction
    ∷ in_failed_sql_transaction ∷ invalid_sql_statement_name ∷ triggered_data_change_violation
    ∷ invalid_authorization_specification ∷ invalid_password
    ∷ dependent_privilege_descriptors_still_exist ∷ dependent_objects_still_exist
    ∷ invalid_transaction_termination ∷ routine_exception_function_executed_no_return_statement
    ∷ routine_exception_modifying_sql_data_not_permitted
    ∷ routine_exception_prohibited_sql_statement_attempted
    ∷ routine_exception_reading_sql_data_not_permitted ∷ invalid_cursor_name
    ∷ external_routine_exception ∷ external_routine_containing_sql_not_permitted
    ∷ external_routine_modifying_sql_data_not_permitted
    ∷ external_routine_prohibited_sql_statement_attempted
    ∷ external_routine_reading_sql_data_not_permitted ∷ external_routine_invocation_exception
    ∷ external_routine_invalid_sql_state_returned ∷ external_routine_null_value_not_allowed
    ∷ external_routine_trigger_protocol_violated ∷ external_routine_srf_protocol_violated
    ∷ savepoint_exception ∷ invalid_savepoint_specification ∷ invalid_catalog_name
    ∷ invalid_schema_name ∷ transaction_rollback ∷ transaction_integrity_constraint_violation
    ∷ serialization_failure ∷ statement_completion_unknown ∷ deadlock_detected ∷ []
