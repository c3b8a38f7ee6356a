-- ===== src/Errors/Codes/Resources.antt =====
-- codes/codes.go: classes 53 to F0.
use psql_wire.Base.{List, [], codes, ◌∷◌}
use psql_wire.Errors.Codes.{Code}

abbrev pub insufficient_resources : Code
insufficient_resources = codes "53000"

abbrev pub disk_full : Code
disk_full = codes "53100"

abbrev pub out_of_memory : Code
out_of_memory = codes "53200"

abbrev pub too_many_connections : Code
too_many_connections = codes "53300"

abbrev pub configuration_limit_exceeded : Code
configuration_limit_exceeded = codes "53400"

abbrev pub program_limit_exceeded : Code
program_limit_exceeded = codes "54000"

abbrev pub statement_too_complex : Code
statement_too_complex = codes "54001"

abbrev pub too_many_columns : Code
too_many_columns = codes "54011"

abbrev pub too_many_arguments : Code
too_many_arguments = codes "54023"

abbrev pub object_not_in_prerequisite_state : Code
object_not_in_prerequisite_state = codes "55000"

abbrev pub object_in_use : Code
object_in_use = codes "55006"

abbrev pub cant_change_runtime_param : Code
cant_change_runtime_param = codes "55P02"

abbrev pub lock_not_available : Code
lock_not_available = codes "55P03"

abbrev pub operator_intervention : Code
operator_intervention = codes "57000"

abbrev pub query_canceled : Code
query_canceled = codes "57014"

abbrev pub admin_shutdown : Code
admin_shutdown = codes "57P01"

abbrev pub crash_shutdown : Code
crash_shutdown = codes "57P02"

abbrev pub cannot_connect_now : Code
cannot_connect_now = codes "57P03"

abbrev pub database_dropped : Code
database_dropped = codes "57P04"

abbrev pub system : Code
system = codes "58000"

abbrev pub io : Code
io = codes "58030"

abbrev pub undefined_file : Code
undefined_file = codes "58P01"

abbrev pub duplicate_file : Code
duplicate_file = codes "58P02"

abbrev pub config_file : Code
config_file = codes "F0000"

abbrev pub lock_file_exists : Code
lock_file_exists = codes "F0001"

abbrev pub resources_codes : List Code
resources_codes =
    insufficient_resources ∷ disk_full ∷ out_of_memory ∷ too_many_connections
    ∷ configuration_limit_exceeded ∷ program_limit_exceeded ∷ statement_too_complex
    ∷ too_many_columns ∷ too_many_arguments ∷ object_not_in_prerequisite_state ∷ object_in_use
    ∷ cant_change_runtime_param ∷ lock_not_available ∷ operator_intervention ∷ query_canceled
    ∷ admin_shutdown ∷ crash_shutdown ∷ cannot_connect_now ∷ database_dropped ∷ system ∷ io
    ∷ undefined_file ∷ duplicate_file ∷ config_file ∷ lock_file_exists ∷ []
