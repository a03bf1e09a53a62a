-- ===== src/Store/Advance/Gates/Passing.antt =====
-- The gates of AdvanceTask as functions of the tables.
use Prim.Native.String as Text
use backlog_server.Prelude.{
  ℕ, String, Bool, false, ◌&&◌, ◌≡◌, refl, ◌⊎◌, inl, inr, List, [], ◌∷◌, ◌==◌, Option, none, some,
  if◌then◌else◌, concat, arith, Bool-cases,
}
use backlog_server.Prelude.Decimal.{decimal}
use backlog_server.Exec.{Exec, ok}
use backlog_server.Store.Db.{Task, Db, find_task}
use backlog_server.Store.Session.{Env, World, succeeded}
use backlog_server.Store.Session.Reads.{Reads, Reads-pure, Reads-bind}
use backlog_server.Store.Review.{latest_verdict, has_latest_verdict}
use backlog_server.Store.Advance.Gates.{
  Failures, required_reviews, custom_fields_of, when, unless_passed, submit_hint, done_when_gate,
  get_required_reviews, verdict_gate, reviewers_gate, required_gate, gates,
}

-- The reviewers that a task asks for: those of its row in the table.
abbrev pub required_of : Option Task → String → String → List String
required_of none workflow mode = []
required_of (some row) workflow mode = required_reviews row.custom_fields workflow mode

abbrev pub only : String → String → String → String → Failures → Failures
only a b from to fs = if from == a && to == b then fs else []

Reads-when :
    (a b from to : String) (m : Exec World Failures) (v : Db → Failures)
    → Reads m v
    → Reads (when a b from to m) (λ d. only a b from to (v d))
Reads-when a b from to m v h w = elim (Bool-cases (from == a && to == b)) [
  | inl y ↦ rw y (h w)
  | inr z ↦ rw z (refl, refl, inr refl)
]

-- The failures of the gates, as functions of the tables.
module _ (n : ℕ) where
  abbrev pub verdict_failures : String → String → Db → Failures
  verdict_failures check reviewer d =
      unless_passed check
        (submit_hint reviewer n (Text.◌++◌ "no latest " (Text.◌++◌ reviewer " PASS verdict")))
        (latest_verdict n reviewer "PASS" d.reviews)

  abbrev pub reviewers_failures : List String → Db → Failures
  reviewers_failures [] d = []
  reviewers_failures (r ∷ rs) d = concat (
      unless_passed "REVIEW" (submit_hint r n (Text.◌++◌ r " verdict missing or not PASS"))
        (latest_verdict n r "PASS" d.reviews)
      ∷ reviewers_failures rs d
      ∷ [])

  abbrev pub required_failures : Task → Db → Failures
  required_failures t d = reviewers_failures (required_of (find_task n d.tasks) t.workflow t.mode) d

module _ (env : Env) (n : ℕ) where
  Reads-verdict :
      (reviewer : String)
      → Reads
          (has_latest_verdict env n reviewer "PASS")
          (λ d. latest_verdict n reviewer "PASS" d.reviews)
  unfolding has_latest_verdict
  Reads-verdict reviewer w = ground arith

  custom_fields_read :
      (o : Option Task) (workflow mode : String)
      → (succeeded (custom_fields_of o workflow mode) ≡ false)
        ⊎ (custom_fields_of o workflow mode ≡ ok (required_of o workflow mode))
  unfolding custom_fields_of
  custom_fields_read none workflow mode = inl refl
  custom_fields_read (some t) workflow mode = inr refl

  Reads-required :
      (workflow mode : String)
      → Reads
          (get_required_reviews env n workflow mode)
          (λ d. required_of (find_task n d.tasks) workflow mode)
  unfolding get_required_reviews
  Reads-required workflow mode w =
      ground (arith, custom_fields_read (find_task n w.db.tasks) workflow mode)

  Reads-gate :
      (check reviewer : String)
      → Reads (verdict_gate env n check reviewer) (verdict_failures n check reviewer)
  unfolding verdict_gate
  Reads-gate check reviewer = Reads-bind _ _ _ _ (Reads-verdict reviewer) (λ p. Reads-pure _)

  Reads-reviewers : (rs : List String) → Reads (reviewers_gate env n rs) (reviewers_failures n rs)
  unfolding reviewers_gate
  Reads-reviewers [] = Reads-pure []
  Reads-reviewers (r ∷ rs) =
      Reads-bind _ _ _ _ (Reads-verdict r)
        (λ p. Reads-bind _ _ _ _ (Reads-reviewers rs) (λ rest. Reads-pure _))

  Reads-all : (t : Task) → Reads (required_gate env n t) (required_failures n t)
  unfolding required_gate
  Reads-all t = Reads-bind _ _ _ _ (Reads-required t.workflow t.mode) Reads-reviewers

module _ (n : ℕ) (approve : Bool) (t : Task) (from to : String) where
  -- The failures of a move, gate by gate, and all of them.
  abbrev pub failure_lists : Db → List Failures
  failure_lists d =
      only "PLANNING" "READY" from to (
        concat (
          done_when_gate "operator sees X, tests pass, …" n t
          ∷ verdict_failures n "SPEC_REVIEW" "spec-reviewer" d
          ∷ []))
      ∷ only "BACKLOG" "SCOPED" from to (done_when_gate "…" n t)
      ∷ only "IN_PROGRESS" "IN_REVIEW" from to (verdict_failures n "CODE_REVIEW" "code-reviewer" d)
      ∷ only "IN_PROGRESS" "REVIEW" from to
          (verdict_failures n "CONTENT_REVIEW" "content-reviewer" d)
      ∷ only "REVIEW" "AWAITING_APPROVAL" from to (required_failures n t d)
      ∷ only "IN_REVIEW" "AWAITING_APPROVAL" from to (required_failures n t d)
      ∷ only "AWAITING_APPROVAL" "DONE" from to (
          concat (
            unless_passed "APPROVE"
              (Text.◌++◌
                "operator --approve required for AWAITING_APPROVAL → DONE (use: backlogist #"
                (Text.◌++◌ (decimal n) " advance --approve)"))
              approve
            ∷ verdict_failures n "CLOSURE_REVIEW" "task-closure-reviewer" d
            ∷ []))
      ∷ []

  abbrev pub failures_of : Db → Failures
  failures_of d = concat (failure_lists d)

  pub Reads-gates : (env : Env) → Reads (gates env n approve t from to) failures_of
  unfolding gates
  Reads-gates env =
      Reads-bind _ _ _ _
        (Reads-when _ _ from to _ _ (Reads-bind _ _ _ _ (Reads-gate env n _ _) (λ _. Reads-pure _)))
        (λ _. Reads-bind _ _ _ _ (Reads-when _ _ from to _ _ (Reads-pure _)) (λ _.
          Reads-bind _ _ _ _ (Reads-when _ _ from to _ _ (Reads-gate env n _ _)) (λ _.
            Reads-bind _ _ _ _ (Reads-when _ _ from to _ _ (Reads-gate env n _ _)) (λ _.
              Reads-bind _ _ _ _ (Reads-when _ _ from to _ _ (Reads-all env n t)) (λ _.
                Reads-bind _ _ _ _ (Reads-when _ _ from to _ _ (Reads-all env n t)) (λ _.
                  Reads-bind _ _ _ _
                    (Reads-when _ _ from to _ _
                      (Reads-bind _ _ _ _ (Reads-gate env n _ _) (λ _. Reads-pure _)))
                    (λ _. Reads-pure _)))))))
