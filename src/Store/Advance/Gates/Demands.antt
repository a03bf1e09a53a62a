-- ===== src/Store/Advance/Gates/Demands.antt =====
-- What the gates of AdvanceTask demand of a move.
use Prim.Native.String as Text
use backlog_server.Prelude.{
  ℕ, String, Bool, true, false, ◌&&◌, ◌≡◌, ◌≢◌, ◌↔◌, refl, sym, ◌∙◌, List, [], ◌∷◌, ◌==◌,
  if◌then◌else◌, concat, All, eq_iff, eq_of_==_true, inl, inr, arith, Bool-cases,
}
use backlog_server.Store.Db.{Task, Db, find_task}
use backlog_server.Store.Review.{latest_verdict}
use backlog_server.Store.Results.{GateFailure}
use backlog_server.Store.Advance.Gates.{
  Failures, unless_passed, done_when_gate, no_texts, submit_hint, gates,
}
use backlog_server.Store.Advance.Gates.Passing.{
  required_of, only, verdict_failures, reviewers_failures, required_failures, failures_of,
  failure_lists, Reads-gates,
}
use backlog_server.Store.Session.{Env, World}
use backlog_server.Exec.{ok}

-- The latest verdict of a reviewer on task `n` is PASS.
abbrev pub HasPass : ℕ → Db → String → Type 0
HasPass n d reviewer = latest_verdict n reviewer "PASS" d.reviews ≡ true

abbrev pub Required : ℕ → Db → Task → Type 0
Required n d t = All (HasPass n d) (required_of (find_task n d.tasks) t.workflow t.mode)

-- What a move demands, gate by gate.
abbrev pub Passed : ℕ → Bool → Task → String → String → Db → Type 0
Passed n approve t from to d =
    (from ≡ "PLANNING" → to ≡ "READY" → (t.done_when ≢ []) × HasPass n d "spec-reviewer")
    × (from ≡ "BACKLOG" → to ≡ "SCOPED" → t.done_when ≢ [])
    × (from ≡ "IN_PROGRESS" → to ≡ "IN_REVIEW" → HasPass n d "code-reviewer")
    × (from ≡ "IN_PROGRESS" → to ≡ "REVIEW" → HasPass n d "content-reviewer")
    × (from ≡ "REVIEW" → to ≡ "AWAITING_APPROVAL" → Required n d t)
    × (from ≡ "IN_REVIEW" → to ≡ "AWAITING_APPROVAL" → Required n d t)
    × (from ≡ "AWAITING_APPROVAL"
        → to ≡ "DONE"
        → (approve ≡ true) × HasPass n d "task-closure-reviewer")

concat-nil :
    (fs : Failures) (gs : List Failures) → (concat (fs ∷ gs) ≡ []) ↔ ((fs ≡ []) × (concat gs ≡ []))
concat-nil [] gs = (λ e. (refl, e), λ e. e.1)
concat-nil (f ∷ fs) gs = (λ e. absurd (cc), λ e. absurd (cc))

only-nil :
    (a b from to : String) (fs : Failures)
    → (only a b from to fs ≡ []) ↔ (from ≡ a → to ≡ b → fs ≡ [])
only-nil a b from to fs = (
  λ e p q. by_test e ((eq_iff from a).1 p) ((eq_iff to b).1 q),
  λ h. elim (Bool-cases (from == a && to == b)) [
    | inr n ↦ rw n refl
    | inl y ↦ rw y (h (eq_of_==_true from a (ground arith)) (eq_of_==_true to b (ground arith)))
  ],
)
  where
    by_test : only a b from to fs ≡ [] → (from == a) ≡ true → (to == b) ≡ true → fs ≡ []
    by_test e x y = rw (x, y) at e

unless-nil : (check detail : String) (b : Bool) → (unless_passed check detail b ≡ []) ↔ (b ≡ true)
unless-nil check detail true = (λ _. refl, λ _. refl)
unless-nil check detail false = (λ e. absurd (cc), λ e. absurd (cc))

done_when-nil :
    (shown : String) (n : ℕ) (t : Task) → (done_when_gate shown n t ≡ []) ↔ (t.done_when ≢ [])
unfolding done_when_gate
done_when-nil shown n t = go t.done_when _
  where
    go :
        (ss : List String) (f : GateFailure)
        → ((if no_texts ss then f ∷ [] else []) ≡ []) ↔ (ss ≢ [])
    go [] f = (λ e. absurd (cc), λ e. absurd (e refl))
    go (s ∷ ss) f = (λ e p. cc, λ _. refl)

reviewers-nil :
    (n : ℕ) (d : Db) (rs : List String) → (reviewers_failures n rs d ≡ []) ↔ All (HasPass n d) rs
reviewers-nil n d [] = (λ _. tt, λ _. refl)
reviewers-nil n d (r ∷ rs) =
    let both =
      concat-nil
        (unless_passed "REVIEW" (submit_hint r n (Text.◌++◌ r " verdict missing or not PASS"))
          (latest_verdict n r "PASS" d.reviews))
        (reviewers_failures n rs d ∷ []) in
    let one =
      unless-nil "REVIEW" (submit_hint r n (Text.◌++◌ r " verdict missing or not PASS"))
        (latest_verdict n r "PASS" d.reviews) in
    let rest = concat-nil (reviewers_failures n rs d) [] in
    let ih = reviewers-nil n d rs in
    (
      λ e. (one.0 (both.0 e).0, ih.0 (rest.0 (both.0 e).1).0),
      λ h. both.1 (one.1 h.0, rest.1 (ih.1 h.1, refl)),
    )

-- No failure at all exactly when no gate has one.
concat-All : (gs : List Failures) → (concat gs ≡ []) ↔ All (λ fs. fs ≡ []) gs
concat-All [] = (λ _. tt, λ _. refl)
concat-All (fs ∷ gs) =
    let both = concat-nil fs gs in
    let ih = concat-All gs in (λ e. ((both.0 e).0, ih.0 (both.0 e).1), λ h. both.1 (h.0, ih.1 h.1))

gate-nil :
    {P : Type 0} (a b from to : String) (fs : Failures)
    → (fs ≡ []) ↔ P
    → (only a b from to fs ≡ []) ↔ (from ≡ a → to ≡ b → P)
gate-nil a b from to fs p =
    let o = only-nil a b from to fs in (λ e x y. p.0 (o.0 e x y), λ h. o.1 (λ x y. p.1 (h x y)))

pair-nil :
    {P Q : Type 0} (fs gs : Failures)
    → (fs ≡ []) ↔ P
    → (gs ≡ []) ↔ Q
    → (concat (fs ∷ gs ∷ []) ≡ []) ↔ (P × Q)
pair-nil fs gs p q =
    let all = concat-All (fs ∷ gs ∷ []) in
    (λ e. (p.0 (all.0 e).0, q.0 (all.0 e).1.0), λ h. all.1 (p.1 h.0, (q.1 h.1, tt)))

verdict-nil :
    (n : ℕ) (d : Db) (check reviewer : String)
    → (verdict_failures n check reviewer d ≡ []) ↔ HasPass n d reviewer
verdict-nil n d check reviewer = unless-nil check _ (latest_verdict n reviewer "PASS" d.reviews)

Required-nil : (n : ℕ) (d : Db) (t : Task) → (required_failures n t d ≡ []) ↔ Required n d t
Required-nil n d t = reviewers-nil n d (required_of (find_task n d.tasks) t.workflow t.mode)

module _ (n : ℕ) (approve : Bool) (t : Task) (from to : String) (d : Db) where
  -- The gates let through exactly the moves that meet all demands.
  pub failures_of-Passed : (failures_of n approve t from to d ≡ []) ↔ Passed n approve t from to d
  failures_of-Passed =
      let all = concat-All (failure_lists n approve t from to d) in
      let a =
        gate-nil "PLANNING" "READY" from to _
          (pair-nil _ _ (done_when-nil _ n t) (verdict-nil n d "SPEC_REVIEW" "spec-reviewer")) in
      let b = gate-nil "BACKLOG" "SCOPED" from to _ (done_when-nil _ n t) in
      let c =
        gate-nil "IN_PROGRESS" "IN_REVIEW" from to _
          (verdict-nil n d "CODE_REVIEW" "code-reviewer") in
      let e =
        gate-nil "IN_PROGRESS" "REVIEW" from to _
          (verdict-nil n d "CONTENT_REVIEW" "content-reviewer") in
      let f = gate-nil "REVIEW" "AWAITING_APPROVAL" from to _ (Required-nil n d t) in
      let g = gate-nil "IN_REVIEW" "AWAITING_APPROVAL" from to _ (Required-nil n d t) in
      let h = gate-nil "AWAITING_APPROVAL" "DONE" from to _ (
        pair-nil _ _ (unless-nil _ _ approve)
          (verdict-nil n d "CLOSURE_REVIEW" "task-closure-reviewer")) in
      (
        λ x.
            let y = all.0 x in
            (
              a.0 y.0,
              b.0 y.1.0,
              c.0 y.1.1.0,
              e.0 y.1.1.1.0,
              f.0 y.1.1.1.1.0,
              g.0 y.1.1.1.1.1.0,
              h.0 y.1.1.1.1.1.1.0,
            ),
        λ p. all.1 (a.1 p.0, (b.1 p.1, (c.1 p.2, (e.1 p.3, (f.1 p.4, (g.1 p.5, (h.1 p.6, tt))))))),
      )

-- When the gates return, they return no failure exactly when the move meets the demands that are
-- written out per transition, on the verdicts and the custom fields of the tables.
pub gates-Passed :
    (env : Env) (n : ℕ) (approve : Bool) (t : Task) (from to : String) (w : World) (fs : Failures)
    → (gates env n approve t from to w).0 ≡ ok fs
    → (fs ≡ []) ↔ Passed n approve t from to w.db
gates-Passed env n approve t from to w fs e =
    let (_, _, read) = Reads-gates n approve t from to env w in
    let these : failures_of n approve t from to w.db ≡ fs = elim read [
      | inl bad ↦ absurd (cc)
      | inr p ↦ cc
    ] in
    let passed = failures_of-Passed n approve t from to w.db in
    (λ none_failed. passed.0 (these ∙ none_failed), λ p. sym these ∙ passed.1 p)
