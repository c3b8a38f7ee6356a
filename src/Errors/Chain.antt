-- ===== src/Errors/Chain.antt =====
-- The decorations of an error, read off its chain of layers.
use psql_wire.Base.{Bytes, List, Option, [], equal, none, refl, some, ◌∙◌, ◌∷◌, ◌≡◌}
use psql_wire.Errors.{
  Error, Severity, Source, coded, combine_codes, constrained, default_severity, detailed, flatten,
  get_code, get_constraint_name, get_detail, get_hint, get_severity, get_source, graded, hinted,
  message, or_empty, sourced, wrapped,
}
use psql_wire.Errors.Codes.{Code}
use psql_wire.Errors.Codes.Internals.{uncategorized}

-- `err`, `errors.Unwrap(err)`, and so on.
unfoldable pub layers : Error → List Error
layers (wrapped m e) = wrapped m e ∷ layers e
layers (coded e code) = coded e code ∷ layers e
layers (graded e severity) = graded e severity ∷ layers e
layers (hinted e hint) = hinted e hint ∷ layers e
layers (detailed e detail) = detailed e detail ∷ layers e
layers (constrained e constraint) = constrained e constraint ∷ layers e
layers (sourced e source) = sourced e source ∷ layers e
layers e = e ∷ []

-- The first layer that has something to give.
unfoldable pub first : {A : Type 0} → (Error → Option A) → List Error → Option A
first own [] = none
first own (e ∷ es) = elim (own e) [ none ↦ first own es | some a ↦ some a ]

abbrev pub or_else : {A : Type 0} → A → Option A → A
or_else a none = a
or_else a (some b) = b

-- What one layer holds itself.
abbrev pub own_code : Error → Option Code
own_code (coded e code) = some code
own_code _ = none

abbrev pub own_hint : Error → Option Bytes
own_hint (hinted e hint) = some hint
own_hint _ = none

abbrev pub own_detail : Error → Option Bytes
own_detail (detailed e detail) = some detail
own_detail _ = none

abbrev pub own_severity : Error → Option Severity
own_severity (graded e severity) = some severity
own_severity _ = none

abbrev pub own_constraint : Error → Option Bytes
own_constraint (constrained e constraint) = some constraint
own_constraint _ = none

abbrev pub own_source : Error → Option Source
own_source (sourced e source) = some source
own_source _ = none

get_hint-layers : (e : Error) → get_hint e ≡ or_else [] (first own_hint (layers e))
unfolding get_hint first layers
get_hint-layers (hinted e hint) = refl
get_hint-layers (wrapped _ e) = get_hint-layers e
get_hint-layers (coded e _) = get_hint-layers e
get_hint-layers (graded e _) = get_hint-layers e
get_hint-layers (detailed e _) = get_hint-layers e
get_hint-layers (constrained e _) = get_hint-layers e
get_hint-layers (sourced e _) = get_hint-layers e
get_hint-layers _ = refl

get_detail-layers : (e : Error) → get_detail e ≡ or_else [] (first own_detail (layers e))
unfolding get_detail first layers
get_detail-layers (detailed e detail) = refl
get_detail-layers (wrapped _ e) = get_detail-layers e
get_detail-layers (coded e _) = get_detail-layers e
get_detail-layers (graded e _) = get_detail-layers e
get_detail-layers (hinted e _) = get_detail-layers e
get_detail-layers (constrained e _) = get_detail-layers e
get_detail-layers (sourced e _) = get_detail-layers e
get_detail-layers _ = refl

get_source-layers : (e : Error) → get_source e ≡ first own_source (layers e)
unfolding get_source first layers
get_source-layers (sourced e source) = refl
get_source-layers (wrapped _ e) = get_source-layers e
get_source-layers (coded e _) = get_source-layers e
get_source-layers (graded e _) = get_source-layers e
get_source-layers (hinted e _) = get_source-layers e
get_source-layers (detailed e _) = get_source-layers e
get_source-layers (constrained e _) = get_source-layers e
get_source-layers _ = refl

pub or_empty_lem : (s : Bytes) → or_empty s ≡ s
unfolding equal
or_empty_lem [] = refl
or_empty_lem (b ∷ s) = refl

get_severity-layers : (e : Error) → get_severity e ≡ or_else [] (first own_severity (layers e))
unfolding get_severity first layers
get_severity-layers (graded e severity) = refl
get_severity-layers (wrapped _ e) = or_empty_lem (get_severity e) ∙ get_severity-layers e
get_severity-layers (coded e _) = or_empty_lem (get_severity e) ∙ get_severity-layers e
get_severity-layers (hinted e _) = or_empty_lem (get_severity e) ∙ get_severity-layers e
get_severity-layers (detailed e _) = or_empty_lem (get_severity e) ∙ get_severity-layers e
get_severity-layers (constrained e _) = or_empty_lem (get_severity e) ∙ get_severity-layers e
get_severity-layers (sourced e _) = or_empty_lem (get_severity e) ∙ get_severity-layers e
get_severity-layers _ = refl

get_constraint_name-layers :
    (e : Error) → get_constraint_name e ≡ or_else [] (first own_constraint (layers e))
unfolding get_constraint_name first layers
get_constraint_name-layers (constrained e constraint) = refl
get_constraint_name-layers (wrapped _ e) =
    or_empty_lem (get_constraint_name e) ∙ get_constraint_name-layers e
get_constraint_name-layers (coded e _) =
    or_empty_lem (get_constraint_name e) ∙ get_constraint_name-layers e
get_constraint_name-layers (graded e _) =
    or_empty_lem (get_constraint_name e) ∙ get_constraint_name-layers e
get_constraint_name-layers (hinted e _) =
    or_empty_lem (get_constraint_name e) ∙ get_constraint_name-layers e
get_constraint_name-layers (detailed e _) =
    or_empty_lem (get_constraint_name e) ∙ get_constraint_name-layers e
get_constraint_name-layers (sourced e _) =
    or_empty_lem (get_constraint_name e) ∙ get_constraint_name-layers e
get_constraint_name-layers _ = refl

pub inner_code : (inner : Code) → combine_codes inner uncategorized ≡ inner
unfolding combine_codes equal
inner_code inner = refl

pub get_code-layers : (e : Error) → get_code e ≡ or_else uncategorized (first own_code (layers e))
unfolding get_code first layers
get_code-layers (coded e code) = refl
get_code-layers (wrapped _ e) = inner_code (get_code e) ∙ get_code-layers e
get_code-layers (graded e _) = inner_code (get_code e) ∙ get_code-layers e
get_code-layers (hinted e _) = inner_code (get_code e) ∙ get_code-layers e
get_code-layers (detailed e _) = inner_code (get_code e) ∙ get_code-layers e
get_code-layers (constrained e _) = inner_code (get_code e) ∙ get_code-layers e
get_code-layers (sourced e _) = inner_code (get_code e) ∙ get_code-layers e
get_code-layers _ = refl

-- `Flatten` of an error that is not nil: the message of the error, and of each decoration the
-- outermost one on its chain of unwrapped errors, or the default where the chain has none.
pub flatten-layers :
    (e : Error)
    → flatten (some e) ≡ record {
      code = or_else uncategorized (first own_code (layers e));
      text_message = message e;
      detail = or_else [] (first own_detail (layers e));
      hint = or_else [] (first own_hint (layers e));
      severity = default_severity (or_else [] (first own_severity (layers e)));
      constraint_name = or_else [] (first own_constraint (layers e));
      source = first own_source (layers e);
    }
unfolding flatten
flatten-layers e =
    rw
      (
        get_code-layers e,
        get_detail-layers e,
        get_hint-layers e,
        get_severity-layers e,
        get_constraint_name-layers e,
        get_source-layers e,
      )
      refl
