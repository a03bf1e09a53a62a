-- ===== src/Lifecycle.antt =====
-- store.go: the advance maps, ComputeAdvanceTarget and defaultReviewers. "" is no target.
pub mod Stages
use backlog_server.Prelude.{
  String, List, [], ◌∷◌, ◌==◌, if◌then◌else◌, to_upper, to_lower, trim_space, ◌||◌,
}

-- A Go map[string]string: a missing key reads "".
unfoldable pub read : String → List (String × String) → String
read k [] = ""
read k ((j, v) ∷ m) = if k == j then v else read k m

abbrev pub code_task_advance_map : List (String × String)
code_task_advance_map =
    ("BACKLOG", "PLANNING")
    ∷ ("PLANNING", "READY")
    ∷ ("READY", "IN_PROGRESS")
    ∷ ("IN_PROGRESS", "IN_REVIEW")
    ∷ ("IN_REVIEW", "AWAITING_APPROVAL")
    ∷ ("AWAITING_APPROVAL", "DONE")
    ∷ []

abbrev pub fix_advance_map : List (String × String)
fix_advance_map =
    ("BACKLOG", "SCOPED")
    ∷ ("SCOPED", "IN_PROGRESS")
    ∷ ("IN_PROGRESS", "IN_REVIEW")
    ∷ ("IN_REVIEW", "AWAITING_APPROVAL")
    ∷ ("AWAITING_APPROVAL", "DONE")
    ∷ []

abbrev pub think_task_advance_map : List (String × String)
think_task_advance_map =
    ("BACKLOG", "PLANNING")
    ∷ ("PLANNING", "READY")
    ∷ ("READY", "IN_PROGRESS")
    ∷ ("IN_PROGRESS", "REVIEW")
    ∷ ("REVIEW", "AWAITING_APPROVAL")
    ∷ ("AWAITING_APPROVAL", "DONE")
    ∷ []

-- The `switch` on the workflow's name in lower case.
unfoldable pub target_of : String → String → String
target_of current wf =
    if wf == "" || wf == "code_task"
    then read current code_task_advance_map
    else if wf == "fix"
    then read current fix_advance_map
    else if wf == "think_task"
    then read current think_task_advance_map
    else ""

unfoldable pub compute_advance_target : String → String → String
compute_advance_target current_status workflow =
    target_of (to_upper current_status) (to_lower (trim_space workflow))

mode_reviewers : String → List String
mode_reviewers m =
    if m == "code"
    then "code-reviewer" ∷ "task-closure-reviewer" ∷ []
    else if m == "think"
    then "content-reviewer" ∷ "task-closure-reviewer" ∷ []
    else "task-closure-reviewer" ∷ []

unfoldable pub default_reviewers : String → String → List String
unfolding mode_reviewers
default_reviewers workflow mode =
    let wf = to_lower (trim_space workflow) in
    if wf == "think_task"
    then "content-reviewer" ∷ "task-closure-reviewer" ∷ []
    else if wf == "fix" || wf == "code_task"
    then "code-reviewer" ∷ "task-closure-reviewer" ∷ []
    else mode_reviewers (to_lower (trim_space mode))
