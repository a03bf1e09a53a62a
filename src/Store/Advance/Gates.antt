-- ===== src/Store/Advance/Gates.antt =====
-- store.go: getRequiredReviews, and the gates of AdvanceTask.
pub mod Demands
pub mod Passing
use Prim.Native.String.{◌++◌}
use backlog_server.Prelude.{
  ℕ, String, Bool, true, false, not, ◌&&◌, ◌||◌, Option, none, some, List, [], ◌∷◌, ◌==◌, map,
  if◌then◌else◌, filter_by, concat, is_empty, split, trim_space,
}
use backlog_server.Prelude.Decimal.{decimal}
use backlog_server.Exec.{Exec, Outcome, ok, no_rows, failed, pure, ◌>>=◌}
use backlog_server.Lifecycle.{default_reviewers}
use backlog_server.Store.Db.{Json, text, other, Task, Db, find_task}
use backlog_server.Store.Session.{Env, World, tick}
use backlog_server.Store.Review.{has_latest_verdict}
use backlog_server.Store.Results.{GateFailure}

abbrev pub Failures : Type 0
Failures = List GateFailure

-- cf[k].(string)
unfoldable pub text_field : String → List (String × Json) → Option String
text_field k [] = none
text_field k ((j, text v) ∷ m) = if j == k then some v else text_field k m
text_field k ((j, other) ∷ m) = if j == k then none else text_field k m

no_texts : List String → Bool
no_texts [] = true
no_texts (s ∷ ss) = false

listed : Option String → List String
listed none = []
listed (some raw) = filter_by (λ s. not (is_empty s)) (map trim_space (split b',' raw))

custom_text : String → Option (List (String × Json)) → Option String
unfolding text_field
custom_text k none = none
custom_text k (some m) = text_field k m

-- The list of a task's own that it is to be reviewed by, else the defaults.
unfoldable pub required_reviews : Option (List (String × Json)) → String → String → List String
unfolding no_texts listed custom_text
required_reviews cf workflow mode =
    let own = listed (custom_text "required_reviews" cf) in
    if no_texts own then default_reviewers workflow mode else own

custom_fields_of : Option Task → String → String → Outcome (List String)
unfolding required_reviews
custom_fields_of none workflow mode = no_rows
custom_fields_of (some t) workflow mode = ok (required_reviews t.custom_fields workflow mode)

abbrev when : String → String → String → String → {S : Type 0} → Exec S Failures → Exec S Failures
when a b from to m = if from == a && to == b then m else pure []

abbrev unless_passed : String → String → Bool → Failures
unless_passed check detail has_pass =
    if not has_pass then record { check = check; detail = detail } ∷ [] else []

abbrev submit_hint : String → ℕ → String → String
submit_hint reviewer n shown =
    shown
    ++ ". Run @"
    ++ reviewer
    ++ ", then: backlogist review-submit #"
    ++ decimal n
    ++ " --agent "
    ++ reviewer
    ++ " --verdict PASS"

unfoldable pub done_when_gate : String → ℕ → Task → Failures
unfolding no_texts
done_when_gate example n t =
    if no_texts t.done_when
    then record {
      check = "DONE_WHEN";
      detail =
          "done_when is empty. Run: backlogist #"
          ++ decimal n
          ++ " update done_when:\""
          ++ example
          ++ "\"";
    }
      ∷ []
    else []

module _ (env : Env) (n : ℕ) where
  -- getRequiredReviews
  unfoldable pub get_required_reviews : String → String → Exec World (List String)
  unfolding custom_fields_of
  get_required_reviews workflow mode w =
      if env.fails w.calls
      then (failed "load custom_fields", tick w)
      else (custom_fields_of (find_task n w.db.tasks) workflow mode, tick w)

  -- One latest PASS.
  unfoldable pub verdict_gate : String → String → Exec World Failures
  verdict_gate check reviewer = do
    has_pass ← has_latest_verdict env n reviewer "PASS"
    pure (
        unless_passed check (submit_hint reviewer n ("no latest " ++ reviewer ++ " PASS verdict"))
          has_pass)

  -- The loop over the required reviewers.
  unfoldable pub reviewers_gate : List String → Exec World Failures
  reviewers_gate [] = pure []
  reviewers_gate (r ∷ rs) = do
    has_pass ← has_latest_verdict env n r "PASS"
    rest ← reviewers_gate rs
    pure (
        concat (
          unless_passed "REVIEW" (submit_hint r n (r ++ " verdict missing or not PASS")) has_pass
          ∷ rest
          ∷ []))

  unfoldable pub required_gate : Task → Exec World Failures
  unfolding get_required_reviews reviewers_gate
  required_gate t = do required ← get_required_reviews t.workflow t.mode; reviewers_gate required

  -- The failures of all gates, for a move from `from` to `to`.
  unfoldable pub gates : Bool → Task → String → String → Exec World Failures
  unfolding verdict_gate required_gate done_when_gate
  gates approve t from to = do
    a ← when "PLANNING" "READY" from to (do
      fs ← verdict_gate "SPEC_REVIEW" "spec-reviewer"
      pure (concat (done_when_gate "operator sees X, tests pass, …" n t ∷ fs ∷ [])))
    b ← when "BACKLOG" "SCOPED" from to (pure (done_when_gate "…" n t))
    c ← when "IN_PROGRESS" "IN_REVIEW" from to (verdict_gate "CODE_REVIEW" "code-reviewer")
    d ← when "IN_PROGRESS" "REVIEW" from to (verdict_gate "CONTENT_REVIEW" "content-reviewer")
    e ← when "REVIEW" "AWAITING_APPROVAL" from to (required_gate t)
    f ← when "IN_REVIEW" "AWAITING_APPROVAL" from to (required_gate t)
    g ← when "AWAITING_APPROVAL" "DONE" from to (do
      fs ← verdict_gate "CLOSURE_REVIEW" "task-closure-reviewer"
      pure (
          concat (
            unless_passed "APPROVE"
              ("operator --approve required for AWAITING_APPROVAL → DONE (use: backlogist #"
                ++ decimal n
                ++ " advance --approve)")
              approve
            ∷ fs
            ∷ [])))
    pure (concat (a ∷ b ∷ c ∷ d ∷ e ∷ f ∷ g ∷ []))
