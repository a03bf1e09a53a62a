-- ===== src/Config/Templates.antt =====
-- internal/config/templates.go.
pub mod Required
use Prim.Native.String.{◌++◌}
use backlog_server.Prelude.{
  String, Bool, true, false, Option, none, some, List, [], ◌∷◌, ◌==◌, if◌then◌else◌, is_empty,
  trim_space,
}

abbrev pub template_requirements : List (String × String)
template_requirements =
    ("bugfix", "references") ∷ ("feature", "consumers") ∷ ("migration", "migration_note") ∷ []

pub record TemplateFields : Type 0 where
  pub references : List String
  pub consumers : List String
  pub migration_note : String

pub record TemplateFailure : Type 0 where
  pub check : String
  pub detail : String

unfoldable pub requirement : String → List (String × String) → Option String
requirement t [] = none
requirement t ((name, field) ∷ m) = if t == name then some field else requirement t m

abbrev pub no_items : List String → Bool
no_items [] = true
no_items (s ∷ ss) = false

unfoldable pub is_required_field_empty : String → TemplateFields → Bool
is_required_field_empty field f =
    if field == "references"
    then no_items f.references
    else if field == "consumers"
    then no_items f.consumers
    else if field == "migration_note"
    then is_empty (trim_space f.migration_note)
    else false

-- %q puts quotes around a text without characters to escape.
check_required : String → Option String → TemplateFields → Option TemplateFailure
check_required t none f = none
check_required t (some field) f =
    if is_required_field_empty field f
    then some (record {
      check = "TEMPLATE_MISSING_FIELDS";
      detail = "template \"" ++ t ++ "\" requires: " ++ field;
    })
    else none

unfoldable pub validate_template : String → TemplateFields → Option TemplateFailure
unfolding requirement check_required is_required_field_empty
validate_template template f =
    let t = trim_space template in
    if is_empty t then none else check_required t (requirement t template_requirements) f
