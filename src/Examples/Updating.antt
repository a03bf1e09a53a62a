-- ===== src/Examples/Updating.antt =====
-- An update of task 8: a new title, a new owner, and a note that stays.
use backlog_server.Prelude.{
  ℕ, String, ◌≡◌, refl, inl, inr, some, none, List, [], ◌∷◌, In, Distinct, map, ◌==◌, eq_iff, false,
}
use backlog_server.Cache
use backlog_server.Exec.{ok}
use backlog_server.Store.Db.{Task, find_task, update_where}
use backlog_server.Store.Session.{
  get_task, cache_or_fetch, fetch_task, change, transact, bump, refetch, exec,
}
use backlog_server.Store.Update.{
  UpdateResult, update_task_fields, updated, current_text_field, ends_early, diffs_of,
  rejected_fields, set_columns, set_column, apply_text_field, sort_diffs, takes, write_all,
  audit_all, update_body, changed_fields,
}
use backlog_server.Store.Update.Reads.{asked, key_of}
use backlog_server.Store.Update.Answers.{update_task_fields-reads}
use backlog_server.Examples.{all_up, approval_world, approval_db, waiting}
use backlog_server.Examples.Running.{Coherent-one}

abbrev renaming : List (String × String)
renaming = ("title", "renamed") ∷ ("owner", "eve") ∷ ("note", "") ∷ []

abbrev renamed : Task
renamed = record waiting { title = "renamed"; owner = "eve"; updated_at = "2026-03-20 12:00:00" }

abbrev renaming_result : UpdateResult
renaming_result = record {
  task = renamed;
  changes =
      record { field = "title"; old_value = "a task"; new_value = "renamed" }
      ∷ record { field = "owner"; old_value = waiting.owner; new_value = "eve" }
      ∷ [];
  failures = [];
}

renames : (update_task_fields all_up 8 "bob" renaming approval_world).0 ≡ ok renaming_result
unfolding update_task_fields ends_early diffs_of rejected_fields current_text_field get_task
    cache_or_fetch Cache.get Cache.find_entry fetch_task find_task backlog_server.Prelude.mem_text
    change transact exec update_body write_all sort_diffs takes updated set_columns set_column
    apply_text_field update_where audit_all bump Cache.bump refetch Cache.set
    backlog_server.Prelude.Decimal.decimal changed_fields
renames = refl

apart : Distinct (map key_of renaming)
apart = (λ i. title i, (λ i. owner i, (λ i. note i, tt)))
  where
    differ : (s t : String) → (s == t) ≡ false → s ≡ t → ⊥
    differ s t e p = let y = (eq_iff s t).1 p in cc

    title : In {A = String} "title" ("owner" ∷ "note" ∷ []) → ⊥
    title (inl e) = differ "owner" "title" refl e
    title (inr (inl e)) = differ "note" "title" refl e
    title (inr (inr i)) = elim i [ ]

    owner : In {A = String} "owner" ("note" ∷ []) → ⊥
    owner (inl e) = differ "note" "owner" refl e
    owner (inr i) = elim i [ ]

    note : In {A = String} "note" [] → ⊥
    note i = elim i [ ]

update_task_fields-reads_example :
    (u : Task) × (find_task 8 (update_task_fields all_up 8 "bob" renaming approval_world).1.db.tasks
      ≡ some u)
    × (current_text_field u "owner" ≡ asked "owner" renaming (current_text_field waiting "owner"))
unfolding find_task
update_task_fields-reads_example =
    update_task_fields-reads all_up 8 "bob" renaming approval_world waiting renaming_result "owner"
      Coherent-one found apart renames refl (inr (inr (inr (inr (inr (inr (inr (inl refl))))))))
  where
    found : find_task 8 approval_db.tasks ≡ some waiting
    found = refl
