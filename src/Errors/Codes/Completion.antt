-- ===== src/Errors/Codes/Completion.antt =====
-- codes/codes.go: classes 00 to 20.
use psql_wire.Base.{List, [], codes, ◌∷◌}
use psql_wire.Errors.Codes.{Code}

abbrev pub successful_completion : Code
successful_completion = codes "00000"

abbrev pub warning : Code
warning = codes "01000"

abbrev pub warning_dynamic_result_sets_returned : Code
warning_dynamic_result_sets_returned = codes "0100C"

abbrev pub warning_implicit_zero_bit_padding : Code
warning_implicit_zero_bit_padding = codes "01008"

abbrev pub warning_null_value_eliminated_in_set_function : Code
warning_null_value_eliminated_in_set_function = codes "01003"

abbrev pub warning_privilege_not_granted : Code
warning_privilege_not_granted = codes "01007"

abbrev pub warning_privilege_not_revoked : Code
warning_privilege_not_revoked = codes "01006"

abbrev pub warning_string_data_right_truncation : Code
warning_string_data_right_truncation = codes "01004"

abbrev pub warning_deprecated_feature : Code
warning_deprecated_feature = codes "01P01"

abbrev pub no_data : Code
no_data = codes "02000"

abbrev pub no_additional_dynamic_result_sets_returned : Code
no_additional_dynamic_result_sets_returned = codes "02001"

abbrev pub sql_statement_not_yet_complete : Code
sql_statement_not_yet_complete = codes "03000"

abbrev pub connection_exception : Code
connection_exception = codes "08000"

abbrev pub connection_does_not_exist : Code
connection_does_not_exist = codes "08003"

abbrev pub connection_failure : Code
connection_failure = codes "08006"

abbrev pub sql_client_unable_to_establish_sql_connection : Code
sql_client_unable_to_establish_sql_connection = codes "08001"

abbrev pub sql_server_rejected_establishment_of_sql_connection : Code
sql_server_rejected_establishment_of_sql_connection = codes "08004"

abbrev pub transaction_resolution_unknown : Code
transaction_resolution_unknown = codes "08007"

abbrev pub protocol_violation : Code
protocol_violation = codes "08P01"

abbrev pub triggered_action_exception : Code
triggered_action_exception = codes "09000"

abbrev pub feature_not_supported : Code
feature_not_supported = codes "0A000"

abbrev pub invalid_transaction_initiation : Code
invalid_transaction_initiation = codes "0B000"

abbrev pub locator_exception : Code
locator_exception = codes "0F000"

abbrev pub invalid_locator_specification : Code
invalid_locator_specification = codes "0F001"

abbrev pub invalid_grantor : Code
invalid_grantor = codes "0L000"

abbrev pub invalid_grant_operation : Code
invalid_grant_operation = codes "0LP01"

abbrev pub invalid_role_specification : Code
invalid_role_specification = codes "0P000"

abbrev pub diagnostics_exception : Code
diagnostics_exception = codes "0Z000"

abbrev pub stacked_diagnostics_accessed_without_active_handler : Code
stacked_diagnostics_accessed_without_active_handler = codes "0Z002"

abbrev pub case_not_found : Code
case_not_found = codes "20000"

abbrev pub completion_codes : List Code
completion_codes =
    successful_completion ∷ warning ∷ warning_dynamic_result_sets_returned
    ∷ warning_implicit_zero_bit_padding ∷ warning_null_value_eliminated_in_set_function
    ∷ warning_privilege_not_granted ∷ warning_privilege_not_revoked
    ∷ warning_string_data_right_truncation ∷ warning_deprecated_feature ∷ no_data
    ∷ no_additional_dynamic_result_sets_returned ∷ sql_statement_not_yet_complete
    ∷ connection_exception ∷ connection_does_not_exist ∷ connection_failure
    ∷ sql_client_unable_to_establish_sql_connection
    ∷ sql_server_rejected_establishment_of_sql_connection ∷ transaction_resolution_unknown
    ∷ protocol_violation ∷ triggered_action_exception ∷ feature_not_supported
    ∷ invalid_transaction_initiation ∷ locator_exception ∷ invalid_locator_specification
    ∷ invalid_grantor ∷ invalid_grant_operation ∷ invalid_role_specification ∷ diagnostics_exception
    ∷ stacked_diagnostics_accessed_without_active_handler ∷ case_not_found ∷ []
