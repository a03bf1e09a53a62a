-- ===== src/Store/Update/Effect.antt =====
-- store.go: UpdateTask. What it commits.
use backlog_server.Prelude.{
  ℕ, String, ◌≡◌, sym, ap, ◌∙◌, List, [], ◌∷◌, ◌++◌, all_by, arith, Bool-cases, inl, inr, ◌+◌,
}
use mathlib.Core.List.{append_assoc}
use backlog_server.Exec.{Outcome, ok}
use backlog_server.Store.Db.{Task, Audit, Db, applied, update_task, insert_audit}
use backlog_server.Store.Session.{Env, World, Conn, exec}
use backlog_server.Store.Session.Methods.{Applies, guarded-Applies}
use backlog_server.Store.Update.{
  Diff, diffs_of, sort_diffs, takes, updated, ends_early, left_alone, changed_fields,
  changed_in_memory, update_row, audit_all, write_all, update_body, refuse_update,
  update_task_fields,
}

module _ (env : Env) (n : ℕ) (agent : String) where
  -- The audit rows of the diffs, the latest first.
  unfoldable pub audits : List Diff → String → List Audit
  audits [] stamp = []
  audits (d ∷ ds) stamp = audits ds stamp ++ (update_row env n agent d stamp ∷ [])

  audit_all_effect :
      (ds : List Diff) (stamp : String) (d : Db) (k : ℕ) (c : Conn)
      → audit_all env n agent ds stamp (record { view = d; called = k }) ≡ (ok tt, c)
      → c.view ≡ record d { audit = audits ds stamp ++ d.audit }
  unfolding audit_all audits exec
  audit_all_effect [] stamp d k c h = ground arith
  audit_all_effect (e ∷ ds) stamp d k c h = elim (Bool-cases (env.fails k)) [
    | inl y ↦ let p : Path (Outcome (Unit {0}) × Conn) _ (ok tt, c) = rw y at h in absurd (cc)
    | inr z ↦
        audit_all_effect ds stamp (insert_audit (update_row env n agent e stamp) d) (k + 1) c
          (rw z at h)
        ∙ ap (λ rows. record d { audit = rows })
            (sym (append_assoc (audits ds stamp) (update_row env n agent e stamp ∷ []) d.audit))
  ]

  write_all_effect :
      (ds : List Diff) (stamp : String) (d : Db) (k : ℕ) (c : Conn)
      → write_all env n agent ds stamp (record { view = d; called = k }) ≡ (ok tt, c)
      → c.view ≡ applied n (updated env n agent ds stamp) (audits ds stamp) d
  unfolding write_all exec refuse_update
  write_all_effect ds stamp d k c h = elim (Bool-cases (all_by (takes env) ds)) [
    | inl good ↦ elim (Bool-cases (env.fails k)) [
      | inl y ↦
          let p : Path (Outcome (Unit {0}) × Conn) _ (ok tt, c) = rw (good, y) at h in absurd (cc)
      | inr z ↦
          audit_all_effect ds stamp (update_task n (updated env n agent ds stamp) d) (k + 1) c
            (rw (good, z) at h)
    ]
    | inr bad ↦ let p : Path (Outcome (Unit {0}) × Conn) _ (ok tt, c) = rw bad at h in absurd (cc)
  ]

  module _ (updates : List (String × String)) where
    unfoldable pub update_change : Task → String → Task → Task
    update_change t = updated env n agent (sort_diffs (diffs_of updates t))

    unfoldable pub update_rows : Task → String → List Audit
    unfolding audits
    update_rows t = audits (sort_diffs (diffs_of updates t))

    update_body_effect :
        (t : Task) (stamp : String) (d : Db) (k : ℕ) (c : Conn)
        → update_body env n agent updates t stamp (record { view = d; called = k }) ≡ (ok tt, c)
        → c.view ≡ applied n (update_change t stamp) (update_rows t stamp) d
    unfolding update_body update_change update_rows
    update_body_effect t = write_all_effect (sort_diffs (diffs_of updates t))

    -- UpdateTask either commits nothing, for an error, for a rejected field or because no value
    -- changes, or commits exactly the new values of the changed fields of the row, each with its
    -- audit row.
    pub update_task_fields-Applies :
        (w : World)
        → Applies env n
            (ends_early updates)
            (left_alone n updates)
            (changed_fields env n agent updates)
            update_change
            update_rows
            w
            (update_task_fields env n agent updates w)
    unfolding update_task_fields
    update_task_fields-Applies =
        guarded-Applies env n (ends_early updates) (left_alone n updates)
          (changed_fields env n agent updates) (update_body env n agent updates)
          (changed_in_memory env n agent updates) update_change update_rows update_body_effect
