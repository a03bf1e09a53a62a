-- ===== src/Examples/Merging.antt =====
-- Task 7 merged into task 8; task 9 depended on 7.
use backlog_server.Prelude.{
  ℕ, String, Bool, ◌≡◌, ◌≢◌, ◌↔◌, ◌⊎◌, refl, sym, ap, ◌∙◌, inl, inr, some, none, List, [], ◌∷◌, In,
  false, eqb, to_upper, trim_space, arith,
}
use backlog_server.Cache
use backlog_server.Store.Db.{Task, find_task, update_where}
use backlog_server.Store.Tables.{KeyedById}
use backlog_server.Store.Session.{
  World, get_task, cache_or_fetch, fetch_task, change, transact, bump, refetch, exec,
}
use backlog_server.Store.Merge.{
  MergeResult, merge_tasks, merge_checked, merge_open, carry_out, load, select, exec_all,
  statements, absorbing, redirecting, absorbed, merged,
}
use backlog_server.Store.Merge.Planning.{
  merge_int_set_sorted_exclude, insert_int, sorted_ints, merge_string_set_sorted, int_slice_eq,
  append_new, redirected, depends_on, dependent, dependents_of, plan_of,
}
use backlog_server.Store.Merge.Redirects.{Target}
use backlog_server.Store.Merge.Sets.{Ascending, merge_int_set_sorted_exclude_lem}
use backlog_server.Store.Merge.Behind.{Merged, merge_tasks-blockers, merge_tasks-absorbed}
use backlog_server.Examples.{all_up, plain_task, at_approval, waiting, approval_db, approval_world}

abbrev follower : Task
follower = plain_task 9 "ann" "READY" (7 ∷ 5 ∷ 8 ∷ [])

abbrev merge_world : World
merge_world = record approval_world {
  db = record approval_db { tasks = at_approval ∷ waiting ∷ follower ∷ [] };
}

-- Task 8 was blocked by 7, and is so still.
abbrev absorber : Task
absorber = record waiting {
  done_when = "tests pass" ∷ "(from #7) tests pass" ∷ [];
  updated_at = "2026-03-20 12:00:00";
}

abbrev merge_result : MergeResult
merge_result = record {
  task_a = some absorber;
  absorbed_id = 7;
  fields_updated = "done_when" ∷ [];
  redirected_dep_ids = 9 ∷ [];
  b_status = "SUPERSEDED";
  dry_run = false;
  failures = [];
}

merges : Merged all_up 8 7 "op" merge_world merge_result
unfolding merge_tasks merge_checked merge_open carry_out load select exec_all statements absorbing
    redirecting absorbed merged merge_int_set_sorted_exclude insert_int sorted_ints
    merge_string_set_sorted int_slice_eq append_new redirected depends_on dependent dependents_of
    plan_of get_task cache_or_fetch Cache.get Cache.find_entry fetch_task find_task
    backlog_server.Prelude.mem_text change transact exec update_where bump Cache.bump refetch
    Cache.set backlog_server.Prelude.Decimal.decimal backlog_server.Store.Results.normal_status
    to_upper trim_space
merges = (refl, refl)

clash : (m n : ℕ) → eqb m n ≡ false → m ≡ n → ⊥
clash m n p q = ground arith

keyed : KeyedById merge_world.db.tasks
keyed t u (inl p) (inl q) e = sym p ∙ q
keyed t u (inl p) (inr (inl q)) e =
    absurd (clash 7 8 refl (ap (λ (x : Task). x.id) p ∙ e ∙ sym (ap (λ (x : Task). x.id) q)))
keyed t u (inl p) (inr (inr (inl q))) e =
    absurd (clash 7 9 refl (ap (λ (x : Task). x.id) p ∙ e ∙ sym (ap (λ (x : Task). x.id) q)))
keyed t u (inr (inl p)) (inl q) e =
    absurd (clash 8 7 refl (ap (λ (x : Task). x.id) p ∙ e ∙ sym (ap (λ (x : Task). x.id) q)))
keyed t u (inr (inl p)) (inr (inl q)) e = sym p ∙ q
keyed t u (inr (inl p)) (inr (inr (inl q))) e =
    absurd (clash 8 9 refl (ap (λ (x : Task). x.id) p ∙ e ∙ sym (ap (λ (x : Task). x.id) q)))
keyed t u (inr (inr (inl p))) (inl q) e =
    absurd (clash 9 7 refl (ap (λ (x : Task). x.id) p ∙ e ∙ sym (ap (λ (x : Task). x.id) q)))
keyed t u (inr (inr (inl p))) (inr (inl q)) e =
    absurd (clash 9 8 refl (ap (λ (x : Task). x.id) p ∙ e ∙ sym (ap (λ (x : Task). x.id) q)))
keyed t u (inr (inr (inl p))) (inr (inr (inl q))) e = sym p ∙ q
keyed t u (inl p) (inr (inr (inr i))) e = elim i [ ]
keyed t u (inr (inl p)) (inr (inr (inr i))) e = elim i [ ]
keyed t u (inr (inr (inl p))) (inr (inr (inr i))) e = elim i [ ]
keyed t u (inr (inr (inr i))) j e = elim i [ ]

merge_tasks-blockers_example :
    (t : Task) × In t (merge_tasks all_up 8 7 "op" false merge_world).1.db.tasks
    × (t.id ≡ 9)
    × ((x : ℕ) → In x t.blocked_by ↔ Target 8 7 (7 ∷ 5 ∷ 8 ∷ []) x)
merge_tasks-blockers_example =
    merge_tasks-blockers all_up 8 7 "op" merge_world merge_result follower merges keyed
      (inr (inr (inl refl))) (λ e. omega (arith, e)) (λ e. omega (arith, e))

merge_tasks-absorbed_example :
    (t : Task) × In t (merge_tasks all_up 8 7 "op" false merge_world).1.db.tasks
    × (t.id ≡ 7)
    × (t.status ≡ "SUPERSEDED")
    × (t.closed_at ≡ none)
merge_tasks-absorbed_example =
    merge_tasks-absorbed all_up 8 7 "op" merge_world merge_result at_approval merges (inl refl) refl

merge_int_set_sorted_exclude_lem_example :
    Ascending (merge_int_set_sorted_exclude (7 ∷ 3 ∷ []) (8 ∷ 3 ∷ []) 8)
    × ((z : ℕ)
        → In z (merge_int_set_sorted_exclude (7 ∷ 3 ∷ []) (8 ∷ 3 ∷ []) 8)
          ↔ ((In z (7 ∷ 3 ∷ []) ⊎ In z (8 ∷ 3 ∷ [])) × (z ≢ 8)))
merge_int_set_sorted_exclude_lem_example =
    merge_int_set_sorted_exclude_lem (7 ∷ 3 ∷ []) (8 ∷ 3 ∷ []) 8
