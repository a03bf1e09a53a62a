-- ===== src/Store/Review.antt =====
-- store.go: SubmitReview, HasLatestVerdict and IsValidReviewVerdict.
pub mod Coherent
pub mod Latest
use Prim.Native.String.{◌++◌}
use backlog_server.Prelude.{
  ℕ, ◌+◌, String, Bool, true, false, not, ◌&&◌, List, [], ◌∷◌, ◌==◌, eqb, any_by, if◌then◌else◌,
  is_empty, mem_text, to_upper, trim_space,
}
use backlog_server.Exec.{Exec, Outcome, ok, failed, pure, throw, ◌>>=◌, ◌>>◌}
use backlog_server.Store.Db.{Task, Review, Audit, Db, insert_audit, audit_row}
use backlog_server.Store.Session.{Env, World, Conn, tick, exec, query, transact, bump, get_task}

abbrev review_verdict_set : List String
review_verdict_set = "PASS" ∷ "ACCEPT" ∷ "NEEDS_WORK" ∷ "FAIL" ∷ "REOPEN" ∷ []

unfoldable pub normal_verdict : String → String
normal_verdict v = to_upper (trim_space v)

unfoldable pub is_valid_review_verdict : String → Bool
unfolding normal_verdict
is_valid_review_verdict v = mem_text (normal_verdict v) review_verdict_set

pub record ReviewSubmitResult : Type 0 where
  pub task_id : ℕ
  pub caller : String
  pub reviewer : String
  pub verdict : String
  pub is_aggregate : Bool
  pub review_id : ℕ
  pub summary : String

abbrev pub is_row_of : ℕ → String → Review → Bool
is_row_of n reviewer r = eqb r.task_id n && r.reviewer_model == reviewer

-- UPDATE review_results SET is_latest = FALSE WHERE task_id = $1 AND reviewer_model = $2
unfoldable pub retire : ℕ → String → List Review → List Review
retire n reviewer [] = []
retire n reviewer (r ∷ rs) =
    (if is_row_of n reviewer r then record r { is_latest = false } else r) ∷ retire n reviewer rs

-- REOPEN is stored as NEEDS_WORK.
unfoldable pub stored_verdict : String → String
stored_verdict v = if v == "REOPEN" then "NEEDS_WORK" else v

-- INSERT INTO review_results … RETURNING id
abbrev insert_review : ℕ → String → String → String → String → Db → ℕ × Db
insert_review n reviewer verdict summary stamp d = (
  d.next_review,
  record d {
    reviews =
        record {
          id = d.next_review;
          task_id = n;
          reviewer_model = reviewer;
          verdict = verdict;
          summary = summary;
          reviewed_at = stamp;
          is_latest = true;
        }
        ∷ d.reviews;
    next_review = d.next_review + 1;
  },
)

-- SELECT EXISTS(… AND is_latest = true)
unfoldable pub latest_verdict : ℕ → String → String → List Review → Bool
latest_verdict n reviewer verdict rs =
    any_by (λ r. is_row_of n reviewer r && r.verdict == verdict && r.is_latest) rs

module _ (env : Env) where
  -- HasLatestVerdict
  unfoldable pub has_latest_verdict : ℕ → String → String → Exec World Bool
  has_latest_verdict n reviewer verdict w =
      if env.fails w.calls
      then (failed "verdict lookup", tick w)
      else (ok (latest_verdict n reviewer verdict w.db.reviews), tick w)

  module _ (n : ℕ) (caller reviewer verdict summary : String) (is_aggregate : Bool) where
    abbrev the_verdict : String
    the_verdict = normal_verdict verdict

    abbrev the_summary : String
    the_summary = if is_empty summary then reviewer ++ " review: " ++ the_verdict else summary

    unfoldable pub review_audit : String → Audit
    review_audit stamp =
        if is_aggregate
        then audit_row n caller "aggregate_review_verdict" "" the_verdict "review-submit" stamp
        else audit_row n caller "review" "" (reviewer ++ ":" ++ the_verdict) "review-submit" stamp

    unfoldable pub review_body : String → Exec Conn ℕ
    unfolding stored_verdict retire
    review_body stamp = do
      exec env "mark prior not-latest" (λ d. record d { reviews = retire n reviewer d.reviews })
      id ←
          if env.accepts_verdict (stored_verdict the_verdict)
          then query env "insert review"
              (insert_review n reviewer (stored_verdict the_verdict) the_summary stamp)
          else throw "insert review"
      exec env "audit" (insert_audit (review_audit stamp))
      pure id

    abbrev pub review_result : ℕ → ReviewSubmitResult
    review_result id = record {
      task_id = n;
      caller = caller;
      reviewer = reviewer;
      verdict = the_verdict;
      is_aggregate = is_aggregate;
      review_id = id;
      summary = the_summary;
    }

    unfoldable pub submit_review : Exec World ReviewSubmitResult
    submit_review = do
      get_task env n
      id ← transact env review_body
      bump env
      pure (review_result id)
