-- ===== src/Config/Workflows.antt =====
-- internal/config/workflows.go. An entry of `stages` is a text, a map with its first key, or
-- anything else; the keys of `gates` come in the order of the map's iteration. The escapes %q
-- writes in a name are left out of the details.
pub mod Custom
use Prim.Native.String.{◌++◌}
use backlog_server.Prelude.{
  ℕ, ◌-◌, String, Bool, true, false, not, ◌&&◌, Option, none, some, List, [], ◌∷◌, map, ◌==◌, leb,
  concat, if◌then◌else◌, is_empty, mem_text, map_code,
}
use backlog_server.Config.Owners.{OwnerRule}

-- `upper`: only the ASCII letters.
upper_ascii : ℕ → ℕ
upper_ascii c = if leb 97 c && leb c 122 then c - 32 else c

unfoldable pub upper : String → String
unfolding upper_ascii
upper s = map_code upper_ascii s

pub data StageEntry : Type 0 where
  name : String → StageEntry
  keyed : String → StageEntry
  other : StageEntry

unfoldable pub extract_stage_names : List StageEntry → List String
unfolding upper
extract_stage_names [] = []
extract_stage_names (name s ∷ es) = upper s ∷ extract_stage_names es
extract_stage_names (keyed k ∷ es) = upper k ∷ extract_stage_names es
extract_stage_names (other ∷ es) = extract_stage_names es

mode_workflow : String → String
mode_workflow m =
    if m == "CODE" then "code_task" else if m == "THINK" then "think_task" else "code_task"

unfoldable pub derive_from_owner_mode : String → Option OwnerRule → String
unfolding upper mode_workflow
derive_from_owner_mode mode none = mode_workflow (upper mode)
derive_from_owner_mode mode (some rule) =
    if is_empty rule.workflow then mode_workflow (upper mode) else rule.workflow

-- `gates` by its keys: the values are not read.
pub record CustomWorkflow : Type 0 where
  pub stages : List String
  pub gates : List String

pub record CustomWorkflowFailure : Type 0 where
  pub check : String
  pub detail : String

abbrev pub valid_task_statuses : List String
valid_task_statuses =
    "BACKLOG" ∷ "READY" ∷ "IN_PROGRESS" ∷ "IN_REVIEW" ∷ "DONE" ∷ "BLOCKED" ∷ "REOPENED"
    ∷ "AWAITING_APPROVAL" ∷ "TODO" ∷ "PLANNING" ∷ "BRIEFING" ∷ "DATA_REVIEW" ∷ "REVIEW" ∷ "MERGED"
    ∷ "SUPERSEDED" ∷ "WONT-DO" ∷ "CANCELLED" ∷ "ASSIGNED" ∷ "INVESTIGATING" ∷ "MITIGATED"
    ∷ "RESOLVED" ∷ "POSTMORTEM" ∷ "REFERENCE_RESEARCH" ∷ "REVISION" ∷ "QA_REVIEW" ∷ "CLASSIFIED"
    ∷ "DISCOVERED" ∷ "INTERROGATED" ∷ "FRAMED" ∷ "DRAFTED" ∷ "LOOP_REVIEWED" ∷ []

abbrev invalid : String → CustomWorkflowFailure
invalid detail = record { check = "INVALID_CUSTOM_WORKFLOW"; detail = detail }

abbrev unless : Bool → String → List CustomWorkflowFailure
unless good detail = if good then [] else invalid detail ∷ []

-- stages[len(stages)-1], of a list that starts with `s`
abbrev pub last_of : String → List String → String
last_of s [] = s
last_of s (r ∷ rs) = last_of r rs

unknown_stages : List String → List CustomWorkflowFailure
unfolding upper
unknown_stages [] = []
unknown_stages (s ∷ ss) = concat (
    unless (mem_text (upper s) valid_task_statuses)
      ("stage \"" ++ s ++ "\" is not a known TaskStatus")
    ∷ unknown_stages ss
    ∷ [])

joined : List String → String
joined [] = ""
joined (s ∷ []) = s
joined (s ∷ r ∷ rs) = s ++ " " ++ joined (r ∷ rs)

stray_gates : List String → List String → List CustomWorkflowFailure
unfolding joined upper
stray_gates stages [] = []
stray_gates stages (k ∷ ks) = concat (
    unless (mem_text (upper k) (map upper stages))
      ("gate stage \"" ++ k ++ "\" not in stages [" ++ joined stages ++ "]")
    ∷ stray_gates stages ks
    ∷ [])

stage_failures : List String → List String → List CustomWorkflowFailure
unfolding unknown_stages stray_gates upper
stage_failures [] gates =
    invalid "stages must not be empty (Python: --stages \"A,B,C\" is required)" ∷ []
stage_failures (s ∷ ss) gates = concat (
    unless (upper s == "BACKLOG") ("first stage must be BACKLOG (got \"" ++ s ++ "\")")
    ∷ unless (upper (last_of s ss) == "DONE")
        ("last stage must be DONE (got \"" ++ last_of s ss ++ "\")")
    ∷ unknown_stages (s ∷ ss)
    ∷ stray_gates (s ∷ ss) gates
    ∷ [])

unfoldable pub validate_custom : Option CustomWorkflow → List CustomWorkflowFailure
unfolding stage_failures
validate_custom none = invalid "workflow=custom requires stages[] and (optionally) gates{}" ∷ []
validate_custom (some cw) = stage_failures cw.stages cw.gates
