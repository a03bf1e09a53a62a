-- ===== src/Store/Create.antt =====
-- internal/store/create.go: the request of CreateTask and what is checked of it before the
-- transaction. Negative numbers among parent and blocked_by, which no row has as its id, are left
-- out.
pub mod CrossDb
pub mod Insert
pub mod Pipeline
pub mod Valid
use Prim.Native.String.{◌++◌}
use backlog_server.Prelude.{
  join, ℕ, String, Bool, true, false, not, ◌&&◌, ◌||◌, Option, none, some, List, [], ◌∷◌, map,
  concat, ◌==◌, eqb, if◌then◌else◌, is_empty, mem_text, to_lower, trim_space, equal_fold,
}
use backlog_server.Prelude.Int.{ℤ, pos_part, is_zero}
use backlog_server.Config.Owners.{OwnerRule, TaskFacts, match_rule, suggest_matches}
use backlog_server.Config.Templates.{TemplateFields, TemplateFailure, validate_template}
use backlog_server.Config.Workflows.{
  CustomWorkflow, CustomWorkflowFailure, validate_custom, derive_from_owner_mode,
}
use backlog_server.Ears.{matches_ears}
use backlog_server.Signals.{SignalContext, issue_type_of, is_known}
use backlog_server.Store.Results.{GateFailure}
use backlog_server.Store.Db.{Json, text, other}

pub record CreateTaskRequest : Type 0 where
  pub agent : String
  pub title : String
  pub owner : String
  pub mode : String
  pub business_value : String
  pub why : String
  pub note : String
  pub type : String
  pub session : String
  pub migration_note : String
  pub client : String
  pub project : String
  pub parent : ℤ
  pub priority_override : ℤ
  pub blocked_by : List ℕ
  pub consumers : List String
  pub tags : List String
  pub references : List String
  pub auto_assign : Bool
  pub lightweight : Bool
  pub template : String
  pub workflow : String
  pub custom_workflow : Option CustomWorkflow
  pub signal_context : Option SignalContext

pub record CreateAdvisory : Type 0 where
  pub code : String
  pub message : String

-- The registries that the store was given, behind their reload: the rules, and the names of the
-- workflows.
pub record Registries : Type 0 where
  pub taskowners : Option (List OwnerRule)
  pub workflows : Option (List String)

-- The parent where its number is positive, else 0.
abbrev pub parent_of : CreateTaskRequest → ℕ
parent_of r = pos_part r.parent

abbrev pub Failures : Type 0
Failures = List GateFailure

abbrev pub Advisories : Type 0
Advisories = List CreateAdvisory

-- One failure, unless the check is met.
abbrev pub expect : Bool → String → String → Failures
expect good check detail = if good then [] else record { check = check; detail = detail } ∷ []

abbrev is_blank : String → Bool
is_blank s = is_empty (trim_space s)

abbrev pub of_template : Option TemplateFailure → Failures
of_template none = []
of_template (some f) = record { check = f.check; detail = f.detail } ∷ []

abbrev of_custom : CustomWorkflowFailure → GateFailure
of_custom f = record { check = f.check; detail = f.detail }

-- workflows.Get
abbrev pub names_workflow : Option (List String) → String → Bool
names_workflow none s = true
names_workflow (some names) s = mem_text (to_lower s) names

-- %q puts quotes around a text without characters to escape.
unfoldable pub workflow_failures : Registries → CreateTaskRequest → Failures
workflow_failures reg r =
    if equal_fold r.workflow "custom"
    then map of_custom (validate_custom r.custom_workflow)
    else if is_blank r.workflow
    then []
    else expect (names_workflow reg.workflows r.workflow) "UNKNOWN_WORKFLOW" (
        "unknown workflow \"" ++ r.workflow
        ++ "\" — use one from workflows.yaml or workflow=custom with stages")

abbrev pub template_fields : CreateTaskRequest → TemplateFields
template_fields r = record {
  references = r.references;
  consumers = r.consumers;
  migration_note = r.migration_note;
}

unfoldable pub validate : Registries → CreateTaskRequest → Failures
unfolding workflow_failures
validate reg r = concat (
    expect (not (is_blank r.agent)) "AGENT_REQUIRED" "agent required in request body"
    ∷ expect (not (is_blank r.title)) "TITLE_REQUIRED" "title is required"
    ∷ expect (not (is_blank r.mode)) "MODE_REQUIRED" "mode is required (Code/Think/Integration/...)"
    ∷ expect (not (is_zero r.parent) || not (is_blank r.business_value)) "BUSINESS_VALUE_REQUIRED"
        "business_value is required unless --parent is set"
    ∷ of_template (validate_template r.template (template_fields r))
    ∷ workflow_failures reg r
    ∷ [])

abbrev facts_of : CreateTaskRequest → TaskFacts
facts_of r = record {
  title = r.title;
  owner = r.owner;
  mode = r.mode;
  status = "";
  tags = r.tags;
  consumers = r.consumers;
}

-- The owner and what resolveOwner returns: ownerSource, workflowFromRule, failures, advisories.
pub record Resolved : Type 0 where
  pub owner : String
  pub source : String
  pub rule_workflow : String
  pub failures : Failures
  pub advisories : Advisories

suggestion : List String → Advisories
unfolding join
suggestion [] = []
suggestion (s ∷ ss) =
    record {
      code = "OWNER_SUGGESTION";
      message =
          "no explicit owner + no --auto-assign; TASKOWNERS partial matches suggest: "
          ++ join (s ∷ ss);
    }
    ∷ []

-- MatchRule with a nil load compares no loads.
abbrev no_load : String → ℕ
no_load s = 0

assigned : CreateTaskRequest → Option OwnerRule → Resolved
assigned r none = record {
  owner = r.owner;
  source = "";
  rule_workflow = "";
  failures =
      record {
        check = "NO_MATCHING_OWNER";
        detail = "auto_assign requested but no TASKOWNERS rule matched";
      }
      ∷ [];
  advisories = [];
}
assigned r (some rule) = record {
  owner = rule.owner;
  source = "taskowners";
  rule_workflow = rule.workflow;
  failures = [];
  advisories = [];
}

explicit : CreateTaskRequest → Option OwnerRule → Resolved
explicit r none = record {
  owner = r.owner;
  source = "explicit";
  rule_workflow = "";
  failures = [];
  advisories = [];
}
explicit r (some rule) = record {
  owner = r.owner;
  source = "explicit";
  rule_workflow = rule.workflow;
  failures = [];
  advisories = [];
}

unassigned : CreateTaskRequest → List OwnerRule → Resolved
unfolding suggestion
unassigned r rules = record {
  owner = r.owner;
  source = "";
  rule_workflow = "";
  failures =
      record {
        check = "OWNER_REQUIRED";
        detail = "owner required (use --auto-assign to let TASKOWNERS pick)";
      }
      ∷ [];
  advisories = suggestion (suggest_matches rules (facts_of r) 5);
}

resolve_with : CreateTaskRequest → Option (List OwnerRule) → Resolved
unfolding assigned explicit unassigned
resolve_with r none = explicit r none
resolve_with r (some rules) =
    if is_blank r.owner
    then if not r.auto_assign
      then unassigned r rules
      else assigned r (match_rule no_load rules (facts_of r))
    else explicit r (match_rule no_load rules (facts_of r))

unfoldable pub resolve_owner : Registries → CreateTaskRequest → Resolved
unfolding resolve_with
resolve_owner reg r = resolve_with r reg.taskowners

mode_default : Option (List String) → String → String
mode_default none mode = if equal_fold mode "Think" then "think_task" else "code_task"
mode_default (some names) mode = derive_from_owner_mode mode none

unfoldable pub derive_workflow : Registries → CreateTaskRequest → String → String
unfolding mode_default
derive_workflow reg r from_rule =
    let flag = to_lower (trim_space r.workflow) in
    if flag == "custom"
    then "custom"
    else if not (is_empty flag)
    then flag
    else if not (is_empty from_rule)
    then from_rule
    else mode_default reg.workflows r.mode

-- The EARS advisory and the one on the signal's type.
unfoldable pub ears_advisory : CreateTaskRequest → Advisories
ears_advisory r =
    if is_zero r.parent && not (is_blank r.business_value) && not (matches_ears r.business_value)
    then record {
      code = "EARS_ADVISORY_BV";
      message =
          "business_value does not follow EARS syntax (WHEN/WHILE/WHERE/IF-THEN/ubiquitous SHALL). Advisory only, not a block.";
    }
      ∷ []
    else []

unfoldable pub signal_advisory : Option SignalContext → Advisories
signal_advisory none = []
signal_advisory (some s) =
    if is_known (issue_type_of (some s))
    then []
    else record {
      code = "SIGNAL_CONTEXT_TYPE_UNKNOWN";
      message =
          "signal_context.type \""
          ++ issue_type_of (some s)
          ++ "\" outside known receiver vocabulary — storing as-is (Go owns the truth via cron.go:1180)";
    }
      ∷ []
