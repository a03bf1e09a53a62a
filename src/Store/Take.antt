-- ===== src/Store/Take.antt =====
-- store.go: TakeTask and ReleaseTask.
pub mod Coherent
use Prim.Native.String.{◌++◌}
use backlog_server.Prelude.{
  ℕ, String, Bool, true, false, not, ◌≡◌, refl, ap, ◌∙◌, ◌⊎◌, inl, inr, List, [], ◌∷◌, ◌==◌,
  if◌then◌else◌, mem_text, arith,
}
use backlog_server.Exec.{Exec, Outcome, ok, no_rows, failed, pure, ◌>>=◌, ◌>>◌}
use backlog_server.Store.Db.{Task, Audit, Db, update_task, insert_audit, audit_row, applied}
use backlog_server.Store.Session.{Env, World, Conn, exec, get_task, change}
use backlog_server.Store.Session.Methods.{Applies, guarded-Applies}
use backlog_server.Store.Results.{AdvanceResult, normal_status}

abbrev takeable_statuses : List String
takeable_statuses = "BACKLOG" ∷ "PLANNING" ∷ "READY" ∷ "REOPENED" ∷ "IN_PROGRESS" ∷ "TODO" ∷ []

abbrev releaseable_statuses : List String
releaseable_statuses = "IN_PROGRESS" ∷ "REOPENED" ∷ []

unfoldable pub untakeable : Task → Bool
untakeable t = not (mem_text (normal_status t.status) takeable_statuses)

unfoldable pub unreleaseable : Task → Bool
unreleaseable t = not (mem_text (normal_status t.status) releaseable_statuses)

unfoldable pub take_refusal : Task → AdvanceResult
take_refusal t =
    let from = normal_status t.status in
    record {
      task = t;
      from_status = from;
      to_status = "IN_PROGRESS";
      failures =
          record {
            check = "TRANSITION";
            detail =
                "cannot take task in status " ++ from
                ++ " (must be one of BACKLOG/PLANNING/READY/REOPENED/TODO)";
          }
          ∷ [];
    }

unfoldable pub release_refusal : Task → AdvanceResult
release_refusal t =
    let from = normal_status t.status in
    record {
      task = t;
      from_status = from;
      to_status = "READY";
      failures =
          record {
            check = "TRANSITION";
            detail = "cannot release task in status " ++ from ++ " (only IN_PROGRESS/REOPENED)";
          }
          ∷ [];
    }

unfoldable pub taken : String → String → Task → Task
taken agent stamp t = record t { status = "IN_PROGRESS"; owner = agent; updated_at = stamp }

unfoldable pub released : String → Task → Task
released stamp t = record t { status = "READY"; updated_at = stamp }

abbrev pub moved : String → Task → Task → AdvanceResult
moved to t u = record {
  task = u;
  from_status = normal_status t.status;
  to_status = to;
  failures = [];
}

module _ (env : Env) (n : ℕ) (agent : String) where
  unfoldable pub take_body : Task → String → Exec Conn (Unit {0})
  unfolding taken
  take_body t stamp = do
    exec env "update" (update_task n (taken agent stamp))
    exec env "audit status" (
        insert_audit
          (audit_row n agent "status" (normal_status t.status) "IN_PROGRESS" "take" stamp))
    if t.owner == agent
        then pure tt
        else exec env "audit owner"
            (insert_audit (audit_row n agent "owner" t.owner agent "take" stamp))

  unfoldable pub take_task : Exec World AdvanceResult
  take_task = do
    t ← get_task env n
    if untakeable t then pure (take_refusal t) else do
      u ← change env (take_body t) n (record t { status = "IN_PROGRESS"; owner = agent })
      pure (moved "IN_PROGRESS" t u)

  unfoldable pub release_body : Task → String → Exec Conn (Unit {0})
  unfolding released
  release_body t stamp = do
    exec env "update" (update_task n (released stamp))
    exec env "audit"
        (insert_audit (audit_row n agent "status" (normal_status t.status) "READY" "release" stamp))

  unfoldable pub release_task : Exec World AdvanceResult
  release_task = do
    t ← get_task env n
    if unreleaseable t then pure (release_refusal t) else do
      u ← change env (release_body t) n (record t { status = "READY" })
      pure (moved "READY" t u)

  unfoldable pub take_rows : Task → String → List Audit
  take_rows t stamp =
      let moved_row =
        audit_row n agent "status" (normal_status t.status) "IN_PROGRESS" "take" stamp in
      if t.owner == agent
      then moved_row ∷ []
      else audit_row n agent "owner" t.owner agent "take" stamp ∷ moved_row ∷ []

  take_body_effect :
      (t : Task) (stamp : String) (d : Db) (k : ℕ) (c : Conn)
      → take_body t stamp (record { view = d; called = k }) ≡ (ok tt, c)
      → c.view ≡ applied n (taken agent stamp) (take_rows t stamp) d
  unfolding take_body take_rows exec
  take_body_effect t stamp d k c h = ground arith

  -- TakeTask either commits nothing, for an error or because the status of the row that it read is
  -- not takeable, or commits exactly the new status and owner of the row, with its audit rows, and
  -- returns a result without failures.
  pub take_task-Applies :
      (w : World)
      → Applies env n untakeable take_refusal
          (moved "IN_PROGRESS")
          (λ _ stamp. taken agent stamp)
          take_rows
          w
          (take_task w)
  unfolding take_task
  take_task-Applies =
      guarded-Applies env n untakeable take_refusal (moved "IN_PROGRESS") take_body
        (λ t. record t { status = "IN_PROGRESS"; owner = agent }) (λ _ stamp. taken agent stamp)
        take_rows take_body_effect

  unfoldable pub release_rows : Task → String → List Audit
  release_rows t stamp =
      audit_row n agent "status" (normal_status t.status) "READY" "release" stamp ∷ []

  release_body_effect :
      (t : Task) (stamp : String) (d : Db) (k : ℕ) (c : Conn)
      → release_body t stamp (record { view = d; called = k }) ≡ (ok tt, c)
      → c.view ≡ applied n (released stamp) (release_rows t stamp) d
  unfolding release_body release_rows exec
  release_body_effect t stamp d k c h = ground arith

  -- ReleaseTask either commits nothing, for an error or because the row that it read is not in
  -- progress, or commits exactly the status READY of the row with its audit row.
  pub release_task-Applies :
      (w : World)
      → Applies env n unreleaseable release_refusal
          (moved "READY")
          (λ _ stamp. released stamp)
          release_rows
          w
          (release_task w)
  unfolding release_task
  release_task-Applies =
      guarded-Applies env n unreleaseable release_refusal (moved "READY") release_body
        (λ t. record t { status = "READY" }) (λ _ stamp. released stamp) release_rows
        release_body_effect
