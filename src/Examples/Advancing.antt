-- ===== src/Examples/Advancing.antt =====
-- AdvanceTask on the task that awaits approval.
use backlog_server.Prelude.{
  ℕ, String, Bool, true, false, ◌≡◌, refl, List, [], ◌∷◌, some, none, to_upper, to_lower,
  trim_space, sym, ap, ◌∙◌, ◌≢◌, ◌↔◌, inl, inr, In, arith, ◌<◌, mem_text,
}
use backlog_server.Prelude.Decimal.{decimal}
use backlog_server.Cache
use backlog_server.Exec.{ok}
use backlog_server.Lifecycle.{compute_advance_target, target_of, read}
use backlog_server.Store.Db.{Task, find_task, update_where}
use backlog_server.Store.Session.{
  exec, query, transact, bump, cache_or_fetch, fetch_task, get_task, refetch, change,
}
use backlog_server.Store.Results.{AdvanceResult, normal_status}
use backlog_server.Store.Review.{has_latest_verdict, latest_verdict}
use backlog_server.Store.Rescore.{rescore_after_done, is_open}
use backlog_server.Store.Advance.{target, advanced, advance_row, advance_task}
use backlog_server.Store.Advance.Gates.{gates, Failures}
use backlog_server.Store.Advance.Closing.{
  Moved, advance_task-done, advance_task-Passed, advance_task-atomic,
}
use backlog_server.Store.Advance.Gates.Demands.{HasPass, Passed, gates-Passed}
use backlog_server.Examples.{
  all_up, toy_scorer, approval_world, approval_db, at_approval, waiting, tenths,
}
use backlog_server.Store.Tables.{KeyedById, id_of}
use backlog_server.Store.Advance.Unblocked.{advance_task-unblocks}
use backlog_server.Lifecycle.Stages.{stage}

abbrev closed_task : Task
closed_task = record at_approval {
  status = "DONE";
  updated_at = "2026-03-20 12:00:00";
  closed_at = some "2026-03-20 12:00:00";
}

abbrev closing : AdvanceResult
closing = record {
  task = closed_task;
  from_status = "AWAITING_APPROVAL";
  to_status = "DONE";
  failures = [];
}

-- Task 8 waited for task 7 alone.
abbrev freed_task : Task
freed_task = record waiting {
  effective_score = tenths 80;
  blocked_by = [];
  updated_at = "2026-03-20 12:00:00";
}

closes : (advance_task all_up toy_scorer 7 "op" true approval_world).0 ≡ ok closing
unfolding advance_task target compute_advance_target target_of read gates get_task cache_or_fetch
    fetch_task find_task update_where change transact bump refetch exec query rescore_after_done
    has_latest_verdict latest_verdict normal_status to_upper to_lower trim_space Cache.get Cache.set
    Cache.bump Cache.find_entry decimal advanced advance_row
    backlog_server.Store.Advance.advance_body backlog_server.Store.Rescore.load_tasks_for_scoring
    backlog_server.Prelude.mem_text backlog_server.Store.Rescore.rescored
    backlog_server.Scoring.Recalculate.recalculate_unblocked
    backlog_server.Scoring.Recalculate.recalculate_all backlog_server.Store.Rescore.persist
closes = refl

closes_table :
    (advance_task all_up toy_scorer 7 "op" true approval_world).1.db.tasks
    ≡ closed_task ∷ freed_task ∷ []
unfolding advance_task target compute_advance_target target_of read gates get_task cache_or_fetch
    fetch_task find_task update_where change transact bump refetch exec query rescore_after_done
    has_latest_verdict latest_verdict normal_status to_upper to_lower trim_space Cache.get Cache.set
    Cache.bump Cache.find_entry decimal advanced advance_row
    backlog_server.Store.Advance.advance_body backlog_server.Store.Rescore.load_tasks_for_scoring
    backlog_server.Prelude.mem_text backlog_server.Store.Rescore.rescored
    backlog_server.Scoring.Recalculate.recalculate_unblocked
    backlog_server.Scoring.Recalculate.recalculate_all backlog_server.Store.Rescore.persist
    backlog_server.Scoring.Base.base_entry backlog_server.Scoring.Base.has_spec
    backlog_server.Scoring.Base.impact_points backlog_server.Scoring.Base.subjective
    backlog_server.Scoring.Base.round_half_even backlog_server.Scoring.Penalty.agent_type_penalty
    backlog_server.Scoring.Base.scored_owner backlog_server.Scoring.DetectType.detect_type
    backlog_server.Prelude.contains backlog_server.Scoring.Base.release_bonus
    backlog_server.Scoring.Base.is_sprint backlog_server.Scoring.Base.text_ge
    backlog_server.Scoring.Base.broken_bonus backlog_server.Scoring.Base.consumers_bonus
closes_table = refl

abbrev refused : AdvanceResult
refused = record {
  task = at_approval;
  from_status = "AWAITING_APPROVAL";
  to_status = "DONE";
  failures =
      record {
        check = "APPROVE";
        detail =
            "operator --approve required for AWAITING_APPROVAL → DONE (use: backlogist #7 advance --approve)";
      }
      ∷ [];
}

refuses : (advance_task all_up toy_scorer 7 "op" false approval_world).0 ≡ ok refused
unfolding advance_task target compute_advance_target target_of read gates get_task cache_or_fetch
    fetch_task find_task update_where change transact bump refetch exec query rescore_after_done
    has_latest_verdict latest_verdict normal_status to_upper to_lower trim_space Cache.get Cache.set
    Cache.bump Cache.find_entry decimal advanced advance_row
    backlog_server.Store.Advance.advance_body backlog_server.Store.Rescore.load_tasks_for_scoring
    backlog_server.Prelude.mem_text backlog_server.Store.Rescore.rescored
    backlog_server.Scoring.Recalculate.recalculate_unblocked
    backlog_server.Scoring.Recalculate.recalculate_all backlog_server.Store.Rescore.persist
    backlog_server.Store.Advance.gate_refusal
refuses = refl

gates_open : (gates all_up 7 true at_approval "AWAITING_APPROVAL" "DONE" approval_world).0 ≡ ok []
unfolding advance_task target compute_advance_target target_of read gates get_task cache_or_fetch
    fetch_task find_task update_where change transact bump refetch exec query rescore_after_done
    has_latest_verdict latest_verdict normal_status to_upper to_lower trim_space Cache.get Cache.set
    Cache.bump Cache.find_entry decimal advanced advance_row
    backlog_server.Store.Advance.advance_body backlog_server.Store.Rescore.load_tasks_for_scoring
    backlog_server.Prelude.mem_text backlog_server.Store.Rescore.rescored
    backlog_server.Scoring.Recalculate.recalculate_unblocked
    backlog_server.Scoring.Recalculate.recalculate_all backlog_server.Store.Rescore.persist
gates_open = refl

freed_is_open : is_open 7 freed_task ≡ true
unfolding is_open mem_text
freed_is_open = refl

keyed : KeyedById approval_db.tasks
keyed t u (inl p) (inl q) e = sym p ∙ q
keyed t u (inr (inl p)) (inr (inl q)) e = sym p ∙ q
keyed t u (inl p) (inr (inl q)) e =
    let d = ap id_of p ∙ e ∙ sym (ap id_of q) in absurd (omega (arith, d))
keyed t u (inr (inl p)) (inl q) e =
    let d = ap id_of p ∙ e ∙ sym (ap id_of q) in absurd (omega (arith, d))
keyed t u (inr (inr i)) j e = elim i [ ]
keyed t u (inl p) (inr (inr j)) e = elim j [ ]
keyed t u (inr (inl p)) (inr (inr j)) e = elim j [ ]

advance_task-done_example :
    (true ≡ true)
    × HasPass 7 approval_db "task-closure-reviewer"
    × (closing.from_status ≡ "AWAITING_APPROVAL")
advance_task-done_example =
    advance_task-done all_up toy_scorer 7 "op" true approval_world closing (closes, refl) refl

advance_task-Passed_example :
    (t : Task) × ((get_task all_up 7 approval_world).0 ≡ ok t)
    × Passed 7 true t "AWAITING_APPROVAL" "DONE" approval_db
    × (closing.from_status ≡ normal_status t.status)
    × (stage "AWAITING_APPROVAL" < stage "DONE")
    × ((u : Task)
        → In u approval_db.tasks
        → u.id ≡ 7
        → (v : Task) × In v (advance_task all_up toy_scorer 7 "op" true approval_world).1.db.tasks
          × (v.id ≡ 7)
          × (v.status ≡ "DONE"))
advance_task-Passed_example =
    advance_task-Passed all_up toy_scorer 7 "op" true approval_world closing (closes, refl)

advance_task-unblocks_example : ¬ (In 7 freed_task.blocked_by)
advance_task-unblocks_example =
    advance_task-unblocks all_up toy_scorer 7 "op" true approval_world closing (closes, refl) refl
      keyed freed_task (rw closes_table (inr (inl refl))) freed_is_open

advance_task-atomic_example :
    (advance_task all_up toy_scorer 7 "op" false approval_world).1.db ≡ approval_db
advance_task-atomic_example =
    advance_task-atomic all_up toy_scorer 7 "op" false approval_world not_moved
  where
    not_moved : (r : AdvanceResult) → Moved all_up toy_scorer 7 "op" false approval_world r → ⊥
    not_moved r (e, f) =
        let q : refused ≡ r = cc (refuses, e) in
        let z = ap (λ (x : AdvanceResult). x.failures) q ∙ f in cc

abbrev no_failures : Failures
no_failures = []

gates-Passed_example :
    (no_failures ≡ []) ↔ Passed 7 true at_approval "AWAITING_APPROVAL" "DONE" approval_db
gates-Passed_example =
    gates-Passed all_up 7 true at_approval "AWAITING_APPROVAL" "DONE" approval_world [] gates_open
