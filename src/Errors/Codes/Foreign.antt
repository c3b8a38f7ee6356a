-- ===== src/Errors/Codes/Foreign.antt =====
-- codes/codes.go: class HV.
use psql_wire.Base.{List, [], codes, ◌∷◌}
use psql_wire.Errors.Codes.{Code}

abbrev pub fdw_error : Code
fdw_error = codes "HV000"

abbrev pub fdw_column_name_not_found : Code
fdw_column_name_not_found = codes "HV005"

abbrev pub fdw_dynamic_parameter_value_needed : Code
fdw_dynamic_parameter_value_needed = codes "HV002"

abbrev pub fdw_function_sequence_error : Code
fdw_function_sequence_error = codes "HV010"

abbrev pub fdw_inconsistent_descriptor_information : Code
fdw_inconsistent_descriptor_information = codes "HV021"

abbrev pub fdw_invalid_attribute_value : Code
fdw_invalid_attribute_value = codes "HV024"

abbrev pub fdw_invalid_column_name : Code
fdw_invalid_column_name = codes "HV007"

abbrev pub fdw_invalid_column_number : Code
fdw_invalid_column_number = codes "HV008"

abbrev pub fdw_invalid_data_type : Code
fdw_invalid_data_type = codes "HV004"

abbrev pub fdw_invalid_data_type_descriptors : Code
fdw_invalid_data_type_descriptors = codes "HV006"

abbrev pub fdw_invalid_descriptor_field_identifier : Code
fdw_invalid_descriptor_field_identifier = codes "HV091"

abbrev pub fdw_invalid_handle : Code
fdw_invalid_handle = codes "HV00B"

abbrev pub fdw_invalid_option_index : Code
fdw_invalid_option_index = codes "HV00C"

abbrev pub fdw_invalid_option_name : Code
fdw_invalid_option_name = codes "HV00D"

abbrev pub fdw_invalid_string_length_or_buffer_length : Code
fdw_invalid_string_length_or_buffer_length = codes "HV090"

abbrev pub fdw_invalid_string_format : Code
fdw_invalid_string_format = codes "HV00A"

abbrev pub fdw_invalid_use_of_null_pointer : Code
fdw_invalid_use_of_null_pointer = codes "HV009"

abbrev pub fdw_too_many_handles : Code
fdw_too_many_handles = codes "HV014"

abbrev pub fdw_out_of_memory : Code
fdw_out_of_memory = codes "HV001"

abbrev pub fdw_no_schemas : Code
fdw_no_schemas = codes "HV00P"

abbrev pub fdw_option_name_not_found : Code
fdw_option_name_not_found = codes "HV00J"

abbrev pub fdw_reply_handle : Code
fdw_reply_handle = codes "HV00K"

abbrev pub fdw_schema_not_found : Code
fdw_schema_not_found = codes "HV00Q"

abbrev pub fdw_table_not_found : Code
fdw_table_not_found = codes "HV00R"

abbrev pub fdw_unable_to_create_execution : Code
fdw_unable_to_create_execution = codes "HV00L"

abbrev pub fdw_unable_to_create_reply : Code
fdw_unable_to_create_reply = codes "HV00M"

abbrev pub fdw_unable_to_establish_connection : Code
fdw_unable_to_establish_connection = codes "HV00N"

abbrev pub foreign_codes : List Code
foreign_codes =
    fdw_error ∷ fdw_column_name_not_found ∷ fdw_dynamic_parameter_value_needed
    ∷ fdw_function_sequence_error ∷ fdw_inconsistent_descriptor_information
    ∷ fdw_invalid_attribute_value ∷ fdw_invalid_column_name ∷ fdw_invalid_column_number
    ∷ fdw_invalid_data_type ∷ fdw_invalid_data_type_descriptors
    ∷ fdw_invalid_descriptor_field_identifier ∷ fdw_invalid_handle ∷ fdw_invalid_option_index
    ∷ fdw_invalid_option_name ∷ fdw_invalid_string_length_or_buffer_length
    ∷ fdw_invalid_string_format ∷ fdw_invalid_use_of_null_pointer ∷ fdw_too_many_handles
    ∷ fdw_out_of_memory ∷ fdw_no_schemas ∷ fdw_option_name_not_found ∷ fdw_reply_handle
    ∷ fdw_schema_not_found ∷ fdw_table_not_found ∷ fdw_unable_to_create_execution
    ∷ fdw_unable_to_create_reply ∷ fdw_unable_to_establish_connection ∷ []
