-- ===== src/Examples/Choosing.antt =====
-- Owners, templates and custom workflows.
use backlog_server.Prelude.{
  ◌≤◌, String, ◌≡◌, ◌↔◌, List, [], ◌∷◌, none, some, In, Distinct, length, trim_space,
}
use backlog_server.Prelude.Int.{pos}
use backlog_server.Config.Owners.{Value, text, OwnerRule, TaskFacts, match_rule, suggest_matches}
use backlog_server.Config.Owners.Best.{Chosen, match_rule-Chosen}
use backlog_server.Config.Owners.Suggestions.{IsOwner, suggest_matches_lem}
use backlog_server.Config.Templates.{TemplateFields, validate_template}
use backlog_server.Config.Templates.Required.{Fulfilled, validate_template-Fulfilled}
use backlog_server.Config.Workflows.{CustomWorkflow, validate_custom}
use backlog_server.Config.Workflows.Custom.{WellFormed, validate_custom-WellFormed}

abbrev rule : List (String × Value) → String → OwnerRule
rule patterns owner = record {
  patterns = patterns;
  owner = owner;
  priority = pos 0;
  required_agents = [];
  required_reviews = [];
  workflow = "code_task";
}

abbrev rules : List OwnerRule
rules = rule (("mode", text "code") ∷ []) "ann" ∷ rule [] "sam" ∷ []

abbrev facts : TaskFacts
facts = record {
  title = "Fix the crash";
  owner = "";
  mode = "Code";
  status = "BACKLOG";
  tags = [];
  consumers = [];
}

match_rule-Chosen_example : Chosen (λ _. 0) rules facts (match_rule (λ _. 0) rules facts)
match_rule-Chosen_example = match_rule-Chosen (λ _. 0) rules facts

suggest_matches_lem_example :
    (length (suggest_matches rules facts 1) ≤ 1)
    × Distinct (suggest_matches rules facts 1)
    × ((o : String) → In o (suggest_matches rules facts 1) → IsOwner facts rules o)
suggest_matches_lem_example = suggest_matches_lem facts rules 1

abbrev bare : TemplateFields
bare = record { references = []; consumers = "shop" ∷ []; migration_note = " " }

validate_template-Fulfilled_example :
    (validate_template " bugfix" bare ≡ none) ↔ Fulfilled (trim_space " bugfix") bare
validate_template-Fulfilled_example = validate_template-Fulfilled " bugfix" bare

abbrev short : CustomWorkflow
short = record {
  stages = "backlog" ∷ "IN_PROGRESS" ∷ "DONE" ∷ [];
  gates = "in_progress" ∷ "REVIEW" ∷ [];
}

validate_custom-WellFormed_example :
    (validate_custom (some short) ≡ []) ↔ WellFormed short.stages short.gates
validate_custom-WellFormed_example = validate_custom-WellFormed short
