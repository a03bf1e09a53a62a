-- ===== src/Store/Update/Coherent.antt =====
-- UpdateTask keeps the cache coherent.
use backlog_server.Prelude.{ℕ, ◌+◌, String, List}
use backlog_server.Store.Session.{Env, World}
use backlog_server.Store.Session.Coherent.{Coherent, guarded-Coherent}
use backlog_server.Store.Update.{
  ends_early, left_alone, changed_fields, changed_in_memory, update_body, update_task_fields,
}

pub update_task_fields-Coherent :
    (env : Env) (n : ℕ) (agent : String) (updates : List (String × String)) (k : ℕ) (w : World)
    → Coherent (k + 1) w
    → Coherent k (update_task_fields env n agent updates w).1
unfolding update_task_fields
update_task_fields-Coherent env n agent updates =
    guarded-Coherent env n (ends_early updates) (left_alone n updates)
      (changed_fields env n agent updates) (update_body env n agent updates)
      (changed_in_memory env n agent updates)
