-- ===== src/Store/Advance/Closing.antt =====
-- AdvanceTask: what a move needs, where it leads, and what a close does to the other tasks.
use backlog_server.Prelude.{
  ℕ, String, Bool, true, ◌≡◌, ◌<◌, refl, sym, ap, ◌∙◌, inl, inr, List, [], ◌∷◌, ◌==◌, eqb, eqb_iff,
  Bool-cases, In, In-map, arith, to_upper, to_upper_idem, trim_space, to_lower,
}
use backlog_server.Exec.{Outcome, ok}
use backlog_server.Lifecycle.{target_of, compute_advance_target}
use backlog_server.Lifecycle.Stages.{stage, stage-target_of, target_of-done}
use mathlib.Core.Path.{subst}
use backlog_server.Store.Db.{Task, Db, update_where}
use backlog_server.Store.Session.{Env, World, get_task}
use backlog_server.Store.Results.{AdvanceResult, normal_status}
use backlog_server.Store.Take.{moved}
use backlog_server.Store.Rescore.{Scorer, persist, rescored, load_tasks_for_scoring}
use backlog_server.Store.Writes.Keeps.{persist-keeps}
use backlog_server.Store.Advance.Gates.Passing.{failures_of}
use backlog_server.Store.Advance.Gates.Demands.{HasPass, Passed, failures_of-Passed}
use backlog_server.Store.Advance.{advanced, target, workflow_refusal, gate_refusal, advance_task}
use backlog_server.Store.Advance.Ends.{Advances, advanced_db, advance_task_ends}

normal_status_idem : (s : String) → to_upper (normal_status s) ≡ normal_status s
unfolding normal_status
normal_status_idem s = to_upper_idem (trim_space s)

-- The target of a row, by its normal status.
abbrev wf_of : Task → String
wf_of t = to_lower (trim_space t.workflow)

target_lem : (t : Task) → target t ≡ target_of (normal_status t.status) (wf_of t)
unfolding target compute_advance_target
target_lem t = ap (λ s. target_of s (wf_of t)) (normal_status_idem t.status)

In-updated :
    (n : ℕ) (f : Task → Task) (ts : List Task) (u : Task)
    → In u ts
    → u.id ≡ n
    → In (f u) (update_where n f ts)
unfolding update_where
In-updated n f [] u i e = elim i [ ]
In-updated n f (t ∷ ts) u (inl p) e =
    let y : eqb t.id n ≡ true = (eqb_iff t.id n).1 (ap (λ (x : Task). x.id) p ∙ e) in
    rw y (inl (ap f p))
In-updated n f (t ∷ ts) u (inr i) e = inr (In-updated n f ts u i e)

advanced-status : (to stamp : String) (t : Task) → (advanced to stamp t).status ≡ to
unfolding advanced
advanced-status to stamp t = ground arith

advanced-id : (to stamp : String) (t : Task) → (advanced to stamp t).id ≡ t.id
unfolding advanced
advanced-id to stamp t = ground arith

module _ (env : Env) (scorer : Scorer) (n : ℕ) (agent : String) (approve : Bool) (w : World) where
  abbrev pub run : Outcome AdvanceResult × World
  run = advance_task env scorer n agent approve w

  -- The advance went through: a result without failures.
  abbrev pub Moved : AdvanceResult → Type 0
  Moved r = (run.0 ≡ ok r) × (r.failures ≡ [])

  pub Moved-Advances : (r : AdvanceResult) → Moved r → Advances env scorer n agent approve w run
  unfolding workflow_refusal gate_refusal
  Moved-Advances r (e, none_failed) = elim (advance_task_ends env scorer n agent approve w) [
    | inr a ↦ a
    | inl (_, inl bad) ↦ absurd (cc)
    | inl (_, inr (t, got, inl (_, p))) ↦
        let q : workflow_refusal t ≡ r = cc in
        let z = ap (λ (x : AdvanceResult). x.failures) q ∙ none_failed in absurd (cc)
    | inl (_, inr (t, got, inr (some_failed, p))) ↦
        let q : gate_refusal t (failures_of n approve t (normal_status t.status) (target t) w.db)
            ≡ r =
          cc in
        absurd (some_failed (ap (λ (x : AdvanceResult). x.failures) q ∙ none_failed))
  ]

  -- A row of the task has the target as its status behind the move, and behind the rescore.
  moved_row :
      (t u : Task) (stamp : String)
      → In u w.db.tasks
      → u.id ≡ n
      → (v : Task) × In v (advanced_db env scorer n agent approve t stamp w.db).tasks
        × (v.id ≡ n)
        × (v.status ≡ target t)
  unfolding advanced
  moved_row t u stamp i e =
      let f = advanced (target t) stamp in
      let there : In (f u) (update_where n f w.db.tasks) = In-updated n f w.db.tasks u i e in
      let named : (f u).status ≡ target t = advanced-status (target t) stamp u in
      let same : (f u).id ≡ n = advanced-id (target t) stamp u ∙ e in
      elim (Bool-cases (target t == "DONE")) [
        | inr z ↦ rw z (f u, there, same, named)
        | inl y ↦
            let ts = update_where n f w.db.tasks in
            let vs = rescored scorer n (load_tasks_for_scoring n ts) in
            let (p, q, _) = persist-keeps stamp vs (f u) in
            rw y (
              persist stamp vs (f u),
              In-map (persist stamp vs) ts (f u) there,
              p ∙ same,
              q ∙ named,
            )
      ]

  -- An advance that went through met every demand of its gates on the tables that it found, reports
  -- the status of the row that GetTask returned, names a strictly later stage, and left the row of
  -- the task in the status that it names.
  pub advance_task-Passed :
      (r : AdvanceResult)
      → Moved r
      → (t : Task) × ((get_task env n w).0 ≡ ok t)
        × Passed n approve t r.from_status r.to_status w.db
        × (r.from_status ≡ normal_status t.status)
        × (stage r.from_status < stage r.to_status)
        × ((u : Task)
            → In u w.db.tasks
            → u.id ≡ n
            → (v : Task) × In v run.1.db.tasks × (v.id ≡ n) × (v.status ≡ r.to_status))
  advance_task-Passed r m =
      let (t, stamp, got, named, passed, stored, (u, result)) = Moved-Advances r m in
      let q : moved (target t) t u ≡ r = cc in
      let from = ap (λ (x : AdvanceResult). x.from_status) q in
      let to = ap (λ (x : AdvanceResult). x.to_status) q in
      let climbs =
        stage-target_of (normal_status t.status) (wf_of t) (λ e. named (target_lem t ∙ e)) in
      (
        t,
        got,
        rw (sym from, sym to)
            ((failures_of-Passed n approve t (normal_status t.status) (target t) w.db).0 passed),
        sym from,
        rw (sym from, sym to, target_lem t) climbs,
        λ u i e.
            let (v, j, k, s) = moved_row t u stamp i e in
            (v, subst (λ (d : Db). In v d.tasks) (sym stored) j, k, s ∙ to),
      )

  -- An advance that went through to DONE had the caller's approval, found a latest PASS of the
  -- task-closure-reviewer on its task, and started from AWAITING_APPROVAL.
  pub advance_task-done :
      (r : AdvanceResult)
      → Moved r
      → r.to_status ≡ "DONE"
      → (approve ≡ true)
        × HasPass n w.db "task-closure-reviewer"
        × (r.from_status ≡ "AWAITING_APPROVAL")
  advance_task-done r m done =
      let (t, stamp, got, named, passed, stored, (u, result)) = Moved-Advances r m in
      let q : moved (target t) t u ≡ r = cc in
      let to : target t ≡ "DONE" = ap (λ (x : AdvanceResult). x.to_status) q ∙ done in
      let from : normal_status t.status ≡ "AWAITING_APPROVAL" =
        target_of-done (normal_status t.status) (wf_of t) (sym (target_lem t) ∙ to) in
      let demands =
        (failures_of-Passed n approve t (normal_status t.status) (target t) w.db).0 passed in
      let (approved, closed) = demands.6 from to in
      (approved, closed, sym (ap (λ (x : AdvanceResult). x.from_status) q) ∙ from)

  -- An advance that does not go through, for an error of any call, for a status without a target or
  -- for a gate, leaves every table as it was.
  pub advance_task-atomic : ((r : AdvanceResult) → Moved r → ⊥) → run.1.db ≡ w.db
  advance_task-atomic stuck = elim (advance_task_ends env scorer n agent approve w) [
    | inl (same, _) ↦ same
    | inr (t, stamp, got, named, passed, stored, (u, result)) ↦
        absurd (stuck (moved (target t) t u) (result, refl))
  ]
