-- ===== src/Errors/Codes/Access.antt =====
-- codes/codes.go: classes 42 and 44.
use psql_wire.Base.{List, [], codes, ◌∷◌}
use psql_wire.Errors.Codes.{Code}

abbrev pub syntax_error_or_access_rule_violation : Code
syntax_error_or_access_rule_violation = codes "42000"

abbrev pub syntax : Code
syntax = codes "42601"

abbrev pub insufficient_privilege : Code
insufficient_privilege = codes "42501"

abbrev pub cannot_coerce : Code
cannot_coerce = codes "42846"

abbrev pub grouping : Code
grouping = codes "42803"

abbrev pub windowing : Code
windowing = codes "42P20"

abbrev pub invalid_recursion : Code
invalid_recursion = codes "42P19"

abbrev pub invalid_foreign_key : Code
invalid_foreign_key = codes "42830"

abbrev pub invalid_name : Code
invalid_name = codes "42602"

abbrev pub name_too_long : Code
name_too_long = codes "42622"

abbrev pub reserved_name : Code
reserved_name = codes "42939"

abbrev pub datatype_mismatch : Code
datatype_mismatch = codes "42804"

abbrev pub indeterminate_datatype : Code
indeterminate_datatype = codes "42P18"

abbrev pub collation_mismatch : Code
collation_mismatch = codes "42P21"

abbrev pub indeterminate_collation : Code
indeterminate_collation = codes "42P22"

abbrev pub wrong_object_type : Code
wrong_object_type = codes "42809"

abbrev pub undefined_column : Code
undefined_column = codes "42703"

abbrev pub undefined_cursor : Code
undefined_cursor = codes "34000"

abbrev pub undefined_database : Code
undefined_database = codes "3D000"

abbrev pub undefined_function : Code
undefined_function = codes "42883"

abbrev pub undefined_prepared_statement : Code
undefined_prepared_statement = codes "26000"

abbrev pub undefined_schema : Code
undefined_schema = codes "3F000"

abbrev pub undefined_table : Code
undefined_table = codes "42P01"

abbrev pub undefined_parameter : Code
undefined_parameter = codes "42P02"

abbrev pub undefined_object : Code
undefined_object = codes "42704"

abbrev pub duplicate_column : Code
duplicate_column = codes "42701"

abbrev pub duplicate_cursor : Code
duplicate_cursor = codes "42P03"

abbrev pub duplicate_database : Code
duplicate_database = codes "42P04"

abbrev pub duplicate_function : Code
duplicate_function = codes "42723"

abbrev pub duplicate_prepared_statement : Code
duplicate_prepared_statement = codes "42P05"

abbrev pub duplicate_schema : Code
duplicate_schema = codes "42P06"

abbrev pub duplicate_relation : Code
duplicate_relation = codes "42P07"

abbrev pub duplicate_alias : Code
duplicate_alias = codes "42712"

abbrev pub duplicate_object : Code
duplicate_object = codes "42710"

abbrev pub ambiguous_column : Code
ambiguous_column = codes "42702"

abbrev pub ambiguous_function : Code
ambiguous_function = codes "42725"

abbrev pub ambiguous_parameter : Code
ambiguous_parameter = codes "42P08"

abbrev pub ambiguous_alias : Code
ambiguous_alias = codes "42P09"

abbrev pub invalid_column_reference : Code
invalid_column_reference = codes "42P10"

abbrev pub invalid_column_definition : Code
invalid_column_definition = codes "42611"

abbrev pub invalid_cursor_definition : Code
invalid_cursor_definition = codes "42P11"

abbrev pub invalid_database_definition : Code
invalid_database_definition = codes "42P12"

abbrev pub invalid_function_definition : Code
invalid_function_definition = codes "42P13"

abbrev pub invalid_prepared_statement_definition : Code
invalid_prepared_statement_definition = codes "42P14"

abbrev pub invalid_schema_definition : Code
invalid_schema_definition = codes "42P15"

abbrev pub invalid_table_definition : Code
invalid_table_definition = codes "42P16"

abbrev pub invalid_object_definition : Code
invalid_object_definition = codes "42P17"

abbrev pub file_already_exists : Code
file_already_exists = codes "42C01"

abbrev pub with_check_option_violation : Code
with_check_option_violation = codes "44000"

abbrev pub access_codes : List Code
access_codes =
    syntax_error_or_access_rule_violation ∷ syntax ∷ insufficient_privilege ∷ cannot_coerce
    ∷ grouping ∷ windowing ∷ invalid_recursion ∷ invalid_foreign_key ∷ invalid_name ∷ name_too_long
    ∷ reserved_name ∷ datatype_mismatch ∷ indeterminate_datatype ∷ collation_mismatch
    ∷ indeterminate_collation ∷ wrong_object_type ∷ undefined_column ∷ undefined_cursor
    ∷ undefined_database ∷ undefined_function ∷ undefined_prepared_statement ∷ undefined_schema
    ∷ undefined_table ∷ undefined_parameter ∷ undefined_object ∷ duplicate_column ∷ duplicate_cursor
    ∷ duplicate_database ∷ duplicate_function ∷ duplicate_prepared_statement ∷ duplicate_schema
    ∷ duplicate_relation ∷ duplicate_alias ∷ duplicate_object ∷ ambiguous_column
    ∷ ambiguous_function ∷ ambiguous_parameter ∷ ambiguous_alias ∷ invalid_column_reference
    ∷ invalid_column_definition ∷ invalid_cursor_definition ∷ invalid_database_definition
    ∷ invalid_function_definition ∷ invalid_prepared_statement_definition
    ∷ invalid_schema_definition ∷ invalid_table_definition ∷ invalid_object_definition
    ∷ file_already_exists ∷ with_check_option_violation ∷ []
