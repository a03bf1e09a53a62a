-- ===== src/Examples/Methods.antt =====
-- The methods on one task, and the review verdicts.
use backlog_server.Prelude.{ℕ, ◌<◌, ◌≤◌, false, ◌≡◌, ◌≢◌, ap, ◌==◌}
use backlog_server.Lifecycle.{target_of, read}
use backlog_server.Lifecycle.Stages.{stage, stage-target_of, advance_times, advance_times-done}
use backlog_server.Store.Review.{latest_verdict, stored_verdict, normal_verdict}
use backlog_server.Store.Review.Latest as Latest
use backlog_server.Store.Review.Latest.{
  SubmitEnds, submit, submit_review_ends, latest_verdict-filed,
}
use backlog_server.Examples.{all_up, approval_world, approval_db}

submit_review_ends_example :
    SubmitEnds all_up 7 "op" "code-reviewer" "REOPEN" "" false approval_db
      (submit all_up 7 "op" "code-reviewer" "REOPEN" "" false approval_world)
submit_review_ends_example =
    submit_review_ends all_up 7 "op" "code-reviewer" "REOPEN" "" false approval_world

-- A new NEEDS_WORK takes the closure reviewer's PASS back.
latest_verdict-filed_example :
    latest_verdict 7 "task-closure-reviewer" "PASS"
      (Latest.filed all_up 7 "op" "task-closure-reviewer" "REOPEN" "" false "now"
        approval_db).reviews
    ≡ (stored_verdict (normal_verdict "REOPEN") == "PASS")
latest_verdict-filed_example =
    latest_verdict-filed all_up 7 "op" "task-closure-reviewer" "REOPEN" "" false "now" approval_db 7
      "task-closure-reviewer" "PASS"

named : target_of "READY" "think_task" ≢ ""
unfolding target_of read
named e = let p = ap (λ s. s == "") e in cc

stage-target_of_example : stage "READY" < stage (target_of "READY" "think_task")
stage-target_of_example = stage-target_of "READY" "think_task" named

advance_times-done_example : (k : ℕ) × (k ≤ 6) × (advance_times k "think_task" "READY" ≡ "DONE")
advance_times-done_example = advance_times-done "READY" "think_task" named
