-- ===== src/Errors/Codes/Data.antt =====
-- codes/codes.go: classes 21 and 22.
use psql_wire.Base.{List, [], codes, ◌∷◌}
use psql_wire.Errors.Codes.{Code}

abbrev pub cardinality_violation : Code
cardinality_violation = codes "21000"

abbrev pub data_exception : Code
data_exception = codes "22000"

abbrev pub array_subscript : Code
array_subscript = codes "2202E"

abbrev pub character_not_in_repertoire : Code
character_not_in_repertoire = codes "22021"

abbrev pub datetime_field_overflow : Code
datetime_field_overflow = codes "22008"

abbrev pub division_by_zero : Code
division_by_zero = codes "22012"

abbrev pub invalid_window_frame_offset : Code
invalid_window_frame_offset = codes "22013"

abbrev pub error_in_assignment : Code
error_in_assignment = codes "22005"

abbrev pub escape_character_conflict : Code
escape_character_conflict = codes "2200B"

abbrev pub indicator_overflow : Code
indicator_overflow = codes "22022"

abbrev pub interval_field_overflow : Code
interval_field_overflow = codes "22015"

abbrev pub invalid_argument_for_logarithm : Code
invalid_argument_for_logarithm = codes "2201E"

abbrev pub invalid_argument_for_ntile_function : Code
invalid_argument_for_ntile_function = codes "22014"

abbrev pub invalid_argument_for_nth_value_function : Code
invalid_argument_for_nth_value_function = codes "22016"

abbrev pub invalid_argument_for_power_function : Code
invalid_argument_for_power_function = codes "2201F"

abbrev pub invalid_argument_for_width_bucket_function : Code
invalid_argument_for_width_bucket_function = codes "2201G"

abbrev pub invalid_character_value_for_cast : Code
invalid_character_value_for_cast = codes "22018"

abbrev pub invalid_datetime_format : Code
invalid_datetime_format = codes "22007"

abbrev pub invalid_escape_character : Code
invalid_escape_character = codes "22019"

abbrev pub invalid_escape_octet : Code
invalid_escape_octet = codes "2200D"

abbrev pub invalid_escape_sequence : Code
invalid_escape_sequence = codes "22025"

abbrev pub nonstandard_use_of_escape_character : Code
nonstandard_use_of_escape_character = codes "22P06"

abbrev pub invalid_indicator_parameter_value : Code
invalid_indicator_parameter_value = codes "22010"

abbrev pub invalid_parameter_value : Code
invalid_parameter_value = codes "22023"

abbrev pub invalid_regular_expression : Code
invalid_regular_expression = codes "2201B"

abbrev pub invalid_row_count_in_limit_clause : Code
invalid_row_count_in_limit_clause = codes "2201W"

abbrev pub invalid_row_count_in_result_offset_clause : Code
invalid_row_count_in_result_offset_clause = codes "2201X"

abbrev pub invalid_time_zone_displacement_value : Code
invalid_time_zone_displacement_value = codes "22009"

abbrev pub invalid_use_of_escape_character : Code
invalid_use_of_escape_character = codes "2200C"

abbrev pub most_specific_type_mismatch : Code
most_specific_type_mismatch = codes "2200G"

abbrev pub null_value_not_allowed : Code
null_value_not_allowed = codes "22004"

abbrev pub null_value_no_indicator_parameter : Code
null_value_no_indicator_parameter = codes "22002"

abbrev pub numeric_value_out_of_range : Code
numeric_value_out_of_range = codes "22003"

abbrev pub sequence_generator_limit_exceeded : Code
sequence_generator_limit_exceeded = codes "2200H"

abbrev pub string_data_length_mismatch : Code
string_data_length_mismatch = codes "22026"

abbrev pub string_data_right_truncation : Code
string_data_right_truncation = codes "22001"

abbrev pub substring : Code
substring = codes "22011"

abbrev pub trim : Code
trim = codes "22027"

abbrev pub unterminated_c_string : Code
unterminated_c_string = codes "22024"

abbrev pub zero_length_character_string : Code
zero_length_character_string = codes "2200F"

abbrev pub floating_point_exception : Code
floating_point_exception = codes "22P01"

abbrev pub invalid_text_representation : Code
invalid_text_representation = codes "22P02"

abbrev pub invalid_binary_representation : Code
invalid_binary_representation = codes "22P03"

abbrev pub bad_copy_file_format : Code
bad_copy_file_format = codes "22P04"

abbrev pub untranslatable_character : Code
untranslatable_character = codes "22P05"

abbrev pub not_an_xml_document : Code
not_an_xml_document = codes "2200L"

abbrev pub invalid_xml_document : Code
invalid_xml_document = codes "2200M"

abbrev pub invalid_xml_content : Code
invalid_xml_content = codes "2200N"

abbrev pub invalid_xml_comment : Code
invalid_xml_comment = codes "2200S"

abbrev pub invalid_xml_processing_instruction : Code
invalid_xml_processing_instruction = codes "2200T"

abbrev pub data_codes : List Code
data_codes =
    cardinality_violation ∷ data_exception ∷ array_subscript ∷ character_not_in_repertoire
    ∷ datetime_field_overflow ∷ division_by_zero ∷ invalid_window_frame_offset ∷ error_in_assignment
    ∷ escape_character_conflict ∷ indicator_overflow ∷ interval_field_overflow
    ∷ invalid_argument_for_logarithm ∷ invalid_argument_for_ntile_function
    ∷ invalid_argument_for_nth_value_function ∷ invalid_argument_for_power_function
    ∷ invalid_argument_for_width_bucket_function ∷ invalid_character_value_for_cast
    ∷ invalid_datetime_format ∷ invalid_escape_character ∷ invalid_escape_octet
    ∷ invalid_escape_sequence ∷ nonstandard_use_of_escape_character
    ∷ invalid_indicator_parameter_value ∷ invalid_parameter_value ∷ invalid_regular_expression
    ∷ invalid_row_count_in_limit_clause ∷ invalid_row_count_in_result_offset_clause
    ∷ invalid_time_zone_displacement_value ∷ invalid_use_of_escape_character
    ∷ most_specific_type_mismatch ∷ null_value_not_allowed ∷ null_value_no_indicator_parameter
    ∷ numeric_value_out_of_range ∷ sequence_generator_limit_exceeded ∷ string_data_length_mismatch
    ∷ string_data_right_truncation ∷ substring ∷ trim ∷ unterminated_c_string
    ∷ zero_length_character_string ∷ floating_point_exception ∷ invalid_text_representation
    ∷ invalid_binary_representation ∷ bad_copy_file_format ∷ untranslatable_character
    ∷ not_an_xml_document ∷ invalid_xml_document ∷ invalid_xml_content ∷ invalid_xml_comment
    ∷ invalid_xml_processing_instruction ∷ []
