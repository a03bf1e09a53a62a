-- ===== src/Scoring/DetectType.antt =====
-- internal/scoring/type_detect.go. The first list with a keyword in the title wins.
use backlog_server.Prelude.{
  String, Bool, List, [], ◌∷◌, ◌==◌, if◌then◌else◌, to_lower, contains, any_by,
}
use backlog_server.Scoring.Types.{Task}

abbrev pub fix_keywords : List String
fix_keywords = "fix" ∷ "bug" ∷ "broken" ∷ "тест" ∷ "test" ∷ []

abbrev pub ui_keywords : List String
ui_keywords =
    "planning:" ∷ "production:" ∷ "audit:" ∷ "ui" ∷ "ux" ∷ "card" ∷ "layout" ∷ "workspace" ∷ "panel"
    ∷ "modal" ∷ "tab" ∷ "compact" ∷ "redesign" ∷ "visual" ∷ "канбан" ∷ "календар" ∷ []

abbrev pub integration_keywords : List String
integration_keywords =
    "go api" ∷ "api:" ∷ "endpoint" ∷ "rest" ∷ "orchestrator:" ∷ "реальные данные" ∷ "real data"
    ∷ "apify" ∷ "buffer" ∷ "telegram bot" ∷ "dispatcher" ∷ "wordpress" ∷ "cms" ∷ []

abbrev pub infrastructure_keywords : List String
infrastructure_keywords =
    "docker" ∷ "ci/cd" ∷ "deploy" ∷ "backlog-gen" ∷ "doc-health" ∷ "doc-consolidation" ∷ "pager"
    ∷ "server" ∷ "auth" ∷ "scheduler" ∷ "стенд" ∷ "skill" ∷ "hook" ∷ "automation" ∷ "autodetect"
    ∷ "auto-archive" ∷ "автоматизация" ∷ "series detection" ∷ "id collision" ∷ "token budget"
    ∷ "onboarding" ∷ "blocked_by status" ∷ "tracking" ∷ []

abbrev pub refactor_keywords : List String
refactor_keywords = "refactor" ∷ "migrate" ∷ "deprecate" ∷ "tech debt" ∷ "рефакторинг" ∷ []

abbrev pub process_keywords : List String
process_keywords =
    "process" ∷ "enforcement" ∷ "structural" ∷ "deep flow" ∷ "human gate сценарии" ∷ "тикер:"
    ∷ "signal" ∷ []

-- Whether one of the keywords is a part of the text.
unfoldable pub has_keyword : String → List String → Bool
has_keyword title keywords = any_by (λ kw. contains title kw) keywords

-- DetectType, by mode and title in lower case
unfoldable pub type_of : String → String → String
unfolding has_keyword
type_of mode title =
    if has_keyword title fix_keywords
    then "fix"
    else if mode == "think"
    then "spec"
    else if has_keyword title ui_keywords
    then "ui"
    else if has_keyword title integration_keywords
    then "integration"
    else if has_keyword title infrastructure_keywords
    then "infrastructure"
    else if has_keyword title refactor_keywords
    then "refactor"
    else if has_keyword title process_keywords
    then "process"
    else "feature"

unfoldable pub detect_type : Task → String
unfolding type_of
detect_type t = type_of (to_lower t.mode) (to_lower t.title)
