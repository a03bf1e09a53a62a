-- ===== src/Store/Incident.antt =====
-- store.go: VerifyTask, SetPostmortem and RequestRevision.
pub mod Coherent
use Prim.Native.String.{◌++◌}
use backlog_server.Prelude.{
  ℕ, String, Bool, true, false, not, ◌≡◌, refl, ap, List, [], ◌∷◌, ◌==◌, eqb, trim, if◌then◌else◌,
  is_empty, arith, some, none, Option,
}
use backlog_server.Exec.{Exec, Outcome, ok, no_rows, failed, pure, ◌>>=◌, ◌>>◌}
use backlog_server.Store.Db.{Task, Audit, Db, update_task, insert_audit, audit_row, applied}
use backlog_server.Store.Session.{Env, World, Conn, exec, get_task, change}
use backlog_server.Store.Session.Methods.{Applies, guarded-Applies}
use backlog_server.Store.Results.{
  VerifyResult, PostmortemResult, RevisionResult, GateFailure, normal_status,
}

abbrev or_empty : Option String → String
or_empty none = ""
or_empty (some s) = s

-- TRIM(BOTH E'\n' FROM COALESCE(progress, '') || E'\n' || $1)
unfoldable pub add_progress : Option String → String → Option String
add_progress old line = some (trim (λ c. eqb c 10) (or_empty old ++ "\n" ++ line))

unfoldable pub investigated : String → String → Task → Task
investigated reason stamp t = record t {
  status = "INVESTIGATING";
  reporter_verified = false;
  reporter_verified_at = none;
  progress = add_progress t.progress ("VERIFY FAILED: " ++ reason);
  updated_at = stamp;
}

unfoldable pub confirmed : String → Task → Task
confirmed stamp t = record t {
  reporter_verified = true;
  reporter_verified_at = some stamp;
  updated_at = stamp;
}

unfoldable pub documented : String → String → Task → Task
documented path stamp t = record t { postmortem_path = path; updated_at = stamp }

unfoldable pub revised : String → String → Task → Task
revised reason stamp t = record t {
  status = "REVISION";
  progress = add_progress t.progress ("REVISION requested: " ++ reason);
  updated_at = stamp;
}

unfoldable pub verified : String → Task → Task → VerifyResult
verified reason t u = record {
  task = u;
  mode = if is_empty reason then "positive" else "failed";
  reason = reason;
  failures = [];
}

unfoldable pub filed : String → Task → Task → PostmortemResult
filed path t u = record { task = u; path = path; failures = [] }

unfoldable pub unrevisable : Task → Bool
unrevisable t = not (normal_status t.status == "AWAITING_APPROVAL")

unfoldable pub revision_refusal : String → Task → RevisionResult
revision_refusal reason t =
    let from = normal_status t.status in
    record {
      task = t;
      from_status = from;
      to_status = "REVISION";
      reason = reason;
      failures =
          record {
            check = "TRANSITION";
            detail = "revision is only available from AWAITING_APPROVAL (current: " ++ from ++ ")";
          }
          ∷ [];
    }

unfoldable pub revision_asked : String → Task → Task → RevisionResult
revision_asked reason t u = record {
  task = u;
  from_status = normal_status t.status;
  to_status = "REVISION";
  reason = reason;
  failures = [];
}

-- VerifyTask and SetPostmortem refuse no row.
abbrev pub never : Task → Bool
never t = false

module _ (env : Env) (n : ℕ) (agent reason : String) where
  unfoldable pub verify_change : String → Task → Task
  verify_change stamp = if is_empty reason then confirmed stamp else investigated reason stamp

  unfoldable pub verify_rows : Task → String → List Audit
  verify_rows t stamp =
      if is_empty reason
      then audit_row n agent "reporter_verified" "False" "True" "verify" stamp ∷ []
      else audit_row n agent "status" (normal_status t.status) "INVESTIGATING" "verify --failed"
          stamp
        ∷ []

  unfoldable pub verify_body : Task → String → Exec Conn (Unit {0})
  verify_body t stamp =
      if is_empty reason
      then (do
        exec env "update" (update_task n (confirmed stamp))
        exec env "audit"
            (insert_audit (audit_row n agent "reporter_verified" "False" "True" "verify" stamp)))
      else (do
        exec env "update" (update_task n (investigated reason stamp))
        exec env "audit" (
            insert_audit (
              audit_row n agent "status" (normal_status t.status) "INVESTIGATING" "verify --failed"
                stamp)))

  unfoldable pub verify_task : Exec World VerifyResult
  verify_task = do
    t ← get_task env n
    u ← change env (verify_body t) n t
    pure (verified reason t u)

  verify_body_effect :
      (t : Task) (stamp : String) (d : Db) (k : ℕ) (c : Conn)
      → verify_body t stamp (record { view = d; called = k }) ≡ (ok tt, c)
      → c.view ≡ applied n (verify_change stamp) (verify_rows t stamp) d
  unfolding verify_body verify_change verify_rows exec
  verify_body_effect t stamp d k c h = ground arith

  -- VerifyTask commits nothing on an error, else exactly the reporter's verification, or with a
  -- reason the status INVESTIGATING and the note of it in the progress, with one audit row.
  pub verify_task-Applies :
      (w : World)
      → Applies env n never
          (λ t. verified reason t t)
          (verified reason)
          (λ _ stamp. verify_change stamp)
          verify_rows
          w
          (verify_task w)
  unfolding verify_task
  verify_task-Applies =
      guarded-Applies env n never (λ t. verified reason t t) (verified reason) verify_body (λ t. t)
        (λ _ stamp. verify_change stamp) verify_rows verify_body_effect

  -- `reason` is the path.
  unfoldable pub postmortem_rows : Task → String → List Audit
  postmortem_rows t stamp = audit_row n agent "postmortem_path" "" reason "postmortem" stamp ∷ []

  unfoldable pub postmortem_body : Task → String → Exec Conn (Unit {0})
  postmortem_body t stamp = do
    exec env "update" (update_task n (documented reason stamp))
    exec env "audit"
        (insert_audit (audit_row n agent "postmortem_path" "" reason "postmortem" stamp))

  unfoldable pub set_postmortem : Exec World PostmortemResult
  set_postmortem = do
    t ← get_task env n
    u ← change env (postmortem_body t) n t
    pure (filed reason t u)

  postmortem_body_effect :
      (t : Task) (stamp : String) (d : Db) (k : ℕ) (c : Conn)
      → postmortem_body t stamp (record { view = d; called = k }) ≡ (ok tt, c)
      → c.view ≡ applied n (documented reason stamp) (postmortem_rows t stamp) d
  unfolding postmortem_body postmortem_rows exec
  postmortem_body_effect t stamp d k c h = ground arith

  -- SetPostmortem commits nothing on an error, else exactly the path of the post-mortem with its
  -- audit row.
  pub set_postmortem-Applies :
      (w : World)
      → Applies env n never
          (λ t. filed reason t t)
          (filed reason)
          (λ _ stamp. documented reason stamp)
          postmortem_rows
          w
          (set_postmortem w)
  unfolding set_postmortem
  set_postmortem-Applies =
      guarded-Applies env n never (λ t. filed reason t t) (filed reason) postmortem_body (λ t. t)
        (λ _ stamp. documented reason stamp) postmortem_rows postmortem_body_effect

  unfoldable pub revision_rows : Task → String → List Audit
  revision_rows t stamp =
      audit_row n agent "status" (normal_status t.status) "REVISION" "revision" stamp ∷ []

  unfoldable pub revision_body : Task → String → Exec Conn (Unit {0})
  revision_body t stamp = do
    exec env "update" (update_task n (revised reason stamp))
    exec env "audit" (
        insert_audit
          (audit_row n agent "status" (normal_status t.status) "REVISION" "revision" stamp))

  unfoldable pub request_revision : Exec World RevisionResult
  request_revision = do
    t ← get_task env n
    if unrevisable t then pure (revision_refusal reason t) else do
      u ← change env (revision_body t) n (record t { status = "REVISION" })
      pure (revision_asked reason t u)

  revision_body_effect :
      (t : Task) (stamp : String) (d : Db) (k : ℕ) (c : Conn)
      → revision_body t stamp (record { view = d; called = k }) ≡ (ok tt, c)
      → c.view ≡ applied n (revised reason stamp) (revision_rows t stamp) d
  unfolding revision_body revision_rows exec
  revision_body_effect t stamp d k c h = ground arith

  -- RequestRevision either commits nothing, for an error or because the row that it read does not
  -- await approval, or commits exactly the status REVISION and the reason in the progress, with its
  -- audit row.
  pub request_revision-Applies :
      (w : World)
      → Applies env n unrevisable
          (revision_refusal reason)
          (revision_asked reason)
          (λ _ stamp. revised reason stamp)
          revision_rows
          w
          (request_revision w)
  unfolding request_revision
  request_revision-Applies =
      guarded-Applies env n unrevisable (revision_refusal reason) (revision_asked reason)
        revision_body (λ t. record t { status = "REVISION" }) (λ _ stamp. revised reason stamp)
        revision_rows revision_body_effect
