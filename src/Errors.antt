-- ===== src/Errors.antt =====
-- Go's `error` values, and the decorations of errors/*.go.
pub mod Codes
pub mod Chain
pub mod Coded
use Codes.{Code}
use Codes.Internals.{uncategorized, internal}
use psql_wire.Base.{
  Bool, Bytes, Option, [], codes, equal, false, has_prefix, if◌then◌else◌, none, some, true, ℕ, ℤ,
}

abbrev pub Severity : Type 0
Severity = Bytes

abbrev pub level_error : Severity
level_error = codes "ERROR"

abbrev pub level_fatal : Severity
level_fatal = codes "FATAL"

-- `Source`: the place that an error comes from. The line is the bit pattern of an int32.
pub record Source : Type 0 where
  pub file : Bytes
  pub line : ℕ
  pub function : Bytes

-- An error value that is not nil. `text m` is any error that wraps no other and is none of the
-- sentinels: `errors.New(m)`, and what callbacks return. `wrapped m e` is `fmt.Errorf` with `%w`.
-- `message_size_exceeded` has the message, the size and the maximum; the six last constructors are
-- the private structs withCode, withSeverity, withHint, withDetail, withConstraint and withSource.
pub data Error : Type 0 where
  eof unexpected_eof net_closed missing_nul_terminator insufficient_data : Error
  undefined_columns data_written closed_writer : Error
  text : Bytes → Error
  message_size_exceeded : Bytes → ℤ → ℕ → Error
  wrapped : Bytes → Error → Error
  coded : Error → Code → Error
  graded : Error → Severity → Error
  hinted : Error → Bytes → Error
  detailed : Error → Bytes → Error
  constrained : Error → Bytes → Error
  sourced : Error → Source → Error

-- Go's `error`: `none` is nil. The decorations leave nil alone.
unfoldable pub with_code : Option Error → Code → Option Error
with_code none code = none
with_code (some e) code = some (coded e code)

unfoldable pub with_severity : Option Error → Severity → Option Error
with_severity none severity = none
with_severity (some e) severity = some (graded e severity)

unfoldable pub with_hint : Option Error → Bytes → Option Error
with_hint none hint = none
with_hint (some e) hint = some (hinted e hint)

unfoldable pub with_detail : Option Error → Bytes → Option Error
with_detail none detail = none
with_detail (some e) detail = some (detailed e detail)

unfoldable pub with_constraint_name : Option Error → Bytes → Option Error
with_constraint_name none constraint = none
with_constraint_name (some e) constraint = some (constrained e constraint)

unfoldable pub with_source : Option Error → Source → Option Error
with_source none source = none
with_source (some e) source = some (sourced e source)

-- `err.Error()`
unfoldable pub message : Error → Bytes
message eof = codes "EOF"
message unexpected_eof = codes "unexpected EOF"
message net_closed = codes "use of closed network connection"
message missing_nul_terminator = codes "NUL terminator not found"
message insufficient_data = codes "insufficient data"
message undefined_columns = codes "columns have not been defined"
message data_written = codes "data has already been written"
message closed_writer = codes "closed writer"
message (text m) = m
message (message_size_exceeded m size max) = m
message (wrapped m e) = m
message (coded e _) = message e
message (graded e _) = message e
message (hinted e _) = message e
message (detailed e _) = message e
message (constrained e _) = message e
message (sourced e _) = message e

-- `errors.Unwrap(err)`
unfoldable pub unwrap : Error → Option Error
unwrap (wrapped _ e) = some e
unwrap (coded e _) = some e
unwrap (graded e _) = some e
unwrap (hinted e _) = some e
unwrap (detailed e _) = some e
unwrap (constrained e _) = some e
unwrap (sourced e _) = some e
unwrap _ = none

-- The most specific error code.
unfoldable pub combine_codes : Code → Code → Code
combine_codes inner outer =
    if equal outer uncategorized
    then inner
    else if has_prefix outer (codes "XX")
    then outer
    else if equal inner uncategorized
    then outer
    else inner

-- `GetCode`: the layer's own code, or the inner code combined with `Uncategorized`.
unfoldable pub get_code : Error → Code
unfolding combine_codes
get_code (coded e code) = code
get_code (wrapped _ e) = combine_codes (get_code e) uncategorized
get_code (graded e _) = combine_codes (get_code e) uncategorized
get_code (hinted e _) = combine_codes (get_code e) uncategorized
get_code (detailed e _) = combine_codes (get_code e) uncategorized
get_code (constrained e _) = combine_codes (get_code e) uncategorized
get_code (sourced e _) = combine_codes (get_code e) uncategorized
get_code _ = uncategorized

-- `if inner != "" { return inner }; return ""`
abbrev pub or_empty : Bytes → Bytes
or_empty inner = if equal inner [] then [] else inner

unfoldable pub get_severity : Error → Severity
get_severity (graded e severity) = severity
get_severity (wrapped _ e) = or_empty (get_severity e)
get_severity (coded e _) = or_empty (get_severity e)
get_severity (hinted e _) = or_empty (get_severity e)
get_severity (detailed e _) = or_empty (get_severity e)
get_severity (constrained e _) = or_empty (get_severity e)
get_severity (sourced e _) = or_empty (get_severity e)
get_severity _ = []

unfoldable pub get_constraint_name : Error → Bytes
get_constraint_name (constrained e constraint) = constraint
get_constraint_name (wrapped _ e) = or_empty (get_constraint_name e)
get_constraint_name (coded e _) = or_empty (get_constraint_name e)
get_constraint_name (graded e _) = or_empty (get_constraint_name e)
get_constraint_name (hinted e _) = or_empty (get_constraint_name e)
get_constraint_name (detailed e _) = or_empty (get_constraint_name e)
get_constraint_name (sourced e _) = or_empty (get_constraint_name e)
get_constraint_name _ = []

unfoldable pub get_hint : Error → Bytes
get_hint (hinted e hint) = hint
get_hint (wrapped _ e) = get_hint e
get_hint (coded e _) = get_hint e
get_hint (graded e _) = get_hint e
get_hint (detailed e _) = get_hint e
get_hint (constrained e _) = get_hint e
get_hint (sourced e _) = get_hint e
get_hint _ = []

unfoldable pub get_detail : Error → Bytes
get_detail (detailed e detail) = detail
get_detail (wrapped _ e) = get_detail e
get_detail (coded e _) = get_detail e
get_detail (graded e _) = get_detail e
get_detail (hinted e _) = get_detail e
get_detail (constrained e _) = get_detail e
get_detail (sourced e _) = get_detail e
get_detail _ = []

unfoldable pub get_source : Error → Option Source
get_source (sourced e source) = some source
get_source (wrapped _ e) = get_source e
get_source (coded e _) = get_source e
get_source (graded e _) = get_source e
get_source (hinted e _) = get_source e
get_source (detailed e _) = get_source e
get_source (constrained e _) = get_source e
get_source _ = none

unfoldable pub default_severity : Severity → Severity
default_severity severity = if equal severity [] then level_error else severity

-- The struct `Error` of errors.go.
pub record Description : Type 0 where
  pub code : Code
  pub text_message : Bytes
  pub detail : Bytes
  pub hint : Bytes
  pub severity : Severity
  pub constraint_name : Bytes
  pub source : Option Source

-- `Flatten`
unfoldable pub flatten : Option Error → Description
flatten none = record {
  code = internal;
  text_message = codes "unknown error, an internal process attempted to throw an error";
  detail = [];
  hint = [];
  severity = level_fatal;
  constraint_name = [];
  source = none;
}
flatten (some e) = record {
  code = get_code e;
  text_message = message e;
  detail = get_detail e;
  hint = get_hint e;
  severity = default_severity (get_severity e);
  constraint_name = get_constraint_name e;
  source = get_source e;
}

-- `errors.Is(err, io.EOF)`
unfoldable pub is_eof : Error → Bool
is_eof eof = true
is_eof (wrapped _ e) = is_eof e
is_eof (coded e _) = is_eof e
is_eof (graded e _) = is_eof e
is_eof (hinted e _) = is_eof e
is_eof (detailed e _) = is_eof e
is_eof (constrained e _) = is_eof e
is_eof (sourced e _) = is_eof e
is_eof _ = false
