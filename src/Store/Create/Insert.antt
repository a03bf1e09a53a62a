-- ===== src/Store/Create/Insert.antt =====
-- internal/store/create.go: the transaction of CreateTask. The schema's defaults of the columns that the INSERT does not
-- name are those of the row `blank`.
pub mod Effect
use Prim.Native.String.{◌++◌}
use backlog_server.Prelude.{
  ℕ, suc, ◌+◌, String, Bool, true, false, not, ◌&&◌, Option, none, some, List, [], ◌∷◌, concat,
  ◌==◌, eqb, leb, any_by, if◌then◌else◌, is_empty, to_lower, trim_space, equal_fold,
}
use backlog_server.Prelude.Int.{ℤ, is_zero}
use backlog_server.Prelude.Decimal.{decimal}
use backlog_server.Exec.{Exec, Outcome, ok, no_rows, failed, pure, throw, ◌>>=◌, ◌>>◌}
use backlog_server.Config.Workflows.{CustomWorkflow}
use backlog_server.Signals.{SignalContext}
use backlog_server.Store.Db.{
  Json, text, other, Task, Audit, Edge, Db, find_task, update_task, insert_audit, audit_row,
}
use backlog_server.Store.Session.{Env, World, Conn, tick, exec, query, bump}
use backlog_server.Store.Create.{
  CreateTaskRequest, parent_of, CreateAdvisory, Registries, Resolved, Failures, Advisories,
  validate, resolve_owner, derive_workflow, ears_advisory, signal_advisory,
}
use backlog_server.Store.Create.CrossDb.{Ping, validate_cross_db_refs}

custom_field : CreateTaskRequest → Option CustomWorkflow → List (String × Json)
custom_field r none = []
custom_field r (some cw) =
    if equal_fold r.workflow "custom" then ("custom_workflow", other) ∷ [] else []

signal_field : Option SignalContext → List (String × Json)
signal_field none = []
signal_field (some s) = ("signal_context", other) ∷ []

unfoldable pub build_custom_fields : CreateTaskRequest → String → List (String × Json)
unfolding custom_field signal_field
build_custom_fields r workflow = concat (
    custom_field r r.custom_workflow
    ∷ signal_field r.signal_context
    ∷ (if not (is_empty r.workflow)
          && not (equal_fold r.workflow "custom")
          && workflow == to_lower (trim_space r.workflow)
        then ("workflow_override", text workflow) ∷ []
        else [])
    ∷ [])

-- setval(…, COALESCE(MAX(id), 1)): the sequence gives the number behind the greatest id, or behind 1.
unfoldable pub greatest_id : List Task → ℕ
greatest_id [] = 1
greatest_id (t ∷ ts) = let rest = greatest_id ts in if leb rest t.id then t.id else rest

abbrev pub next_id : List Task → ℕ
next_id ts = suc (greatest_id ts)

abbrev null_if_empty : String → Option String
null_if_empty s = if is_empty (trim_space s) then none else some s

-- NULLIF(…, '') and NULLIF(…, 0)
abbrev null_if_blank : String → Option String
null_if_blank s = if is_empty s then none else some s

abbrev null_if_zero : ℤ → Option ℤ
null_if_zero n = if is_zero n then none else some n

-- The row of the INSERT.
unfoldable pub new_task : Task → CreateTaskRequest → String → String → String → String → ℕ → Task
new_task blank r owner workflow day stamp id = record blank {
  id = id;
  title = r.title;
  why = r.why;
  owner = owner;
  status = "BACKLOG";
  mode = r.mode;
  type = null_if_empty r.type;
  note = r.note;
  business_value = r.business_value;
  session = r.session;
  migration_note = r.migration_note;
  client_id = null_if_blank r.client;
  project_id = null_if_blank r.project;
  priority_override = r.priority_override;
  blocked_by = r.blocked_by;
  consumers = r.consumers;
  tags = r.tags;
  references = r.references;
  workflow = workflow;
  custom_fields = some (build_custom_fields r workflow);
  parent_task_id = null_if_zero r.parent;
  created = day;
  created_at = stamp;
  updated_at = stamp;
}

unfoldable pub reopened : String → Task → Task
reopened stamp t = record t { status = "REOPENED"; closed_at = none; updated_at = stamp }

abbrev pub reopened_row : ℕ → String → String → Audit
reopened_row n agent stamp =
    audit_row n agent "status" "DONE" "REOPENED" "create: parent reopened (child added)" stamp

unfoldable pub create_command : String → ℕ → String
create_command source parent =
    if source == "taskowners"
    then "create (auto-assigned by TASKOWNERS)"
    else if not (eqb parent 0)
    then "create (child of #" ++ decimal parent ++ ")"
    else "create"

abbrev pub created_row : ℕ → String → String → String → Audit
created_row n agent command stamp = audit_row n agent "status" "" "BACKLOG" command stamp

abbrev same_edge : Edge → Edge → Bool
same_edge e f =
    eqb e.from_task_id f.from_task_id && eqb e.to_task_id f.to_task_id && e.edge_type == f.edge_type

-- INSERT INTO task_edges … ON CONFLICT DO NOTHING
unfoldable pub insert_edge : Edge → List Edge → List Edge
insert_edge e es = if any_by (same_edge e) es then es else e ∷ es

abbrev pub blocking_edge : ℕ → ℕ → Edge
blocking_edge b n = record { from_task_id = b; to_task_id = n; edge_type = "blocks" }

-- INSERT INTO tasks … RETURNING id
abbrev pub add_task : (ℕ → Task) → Db → ℕ × Db
add_task row d = let id = next_id d.tasks in (id, record d { tasks = row id ∷ d.tasks })

-- CreateTask notes a failure of the edges and goes on to the commit, which then fails: the failed
-- statement has ended the transaction.
commit_fails : Outcome (Unit {0}) × Conn → Outcome (Unit {0}) × Conn
commit_fails (ok a, c) = (ok a, c)
commit_fails (no_rows, c) = (failed "commit", c)
commit_fails (failed e, c) = (failed "commit", c)

module _ (env : Env) where
  unfoldable pub sync_blocked_by_to_edges : ℕ → List ℕ → Exec Conn (Unit {0})
  unfolding insert_edge
  sync_blocked_by_to_edges n [] = pure tt
  sync_blocked_by_to_edges n (b ∷ bs) =
      let rest = sync_blocked_by_to_edges n bs in
      if eqb b 0
      then rest
      else exec env "edges" (λ d. record d { edges = insert_edge (blocking_edge b n) d.edges })
        >> rest

  sync_edges : ℕ → List ℕ → Exec Conn (Unit {0})
  unfolding commit_fails
  sync_edges n blockers c = commit_fails (sync_blocked_by_to_edges n blockers c)

  -- SELECT status FROM tasks WHERE id = $1
  parent_row : ℕ → Exec Conn (Option Task)
  parent_row n = query env "check parent" (λ d. (find_task n d.tasks, d))

module _ (env : Env) (blank : Task) (day : String) (r : CreateTaskRequest) (res : Resolved)
    (workflow : String) where
  -- What the transaction makes: the new id, and whether the parent was reopened.
  reopen : String → Task → Exec Conn Bool
  unfolding reopened
  reopen stamp parent =
      if equal_fold parent.status "DONE"
      then (do
        exec env "reopen parent" (update_task (parent_of r) (reopened stamp))
        exec env "audit parent reopen" (insert_audit (reopened_row (parent_of r) r.agent stamp))
        pure true)
      else pure false

  insert : String → Bool → Exec Conn (Option (ℕ × Bool))
  unfolding sync_edges new_task
  insert stamp was_reopened = do
    id ← query env "insert task" (add_task (new_task blank r res.owner workflow day stamp))
    exec env "insert audit"
        (insert_audit (created_row id r.agent (create_command res.source (parent_of r)) stamp))
    sync_edges env id r.blocked_by
    pure (some (id, was_reopened))

  behind_parent : String → Option Task → Exec Conn (Option (ℕ × Bool))
  unfolding reopen insert
  behind_parent stamp none = pure none
  behind_parent stamp (some parent) = do
    was_reopened ← reopen stamp parent
    insert stamp was_reopened

  unfoldable pub create_body : String → Exec Conn (Option (ℕ × Bool))
  unfolding behind_parent parent_row
  create_body stamp = do
    exec env "serial guard" (λ d. d)
    if eqb (parent_of r) 0
        then insert stamp false
        else do parent ← parent_row env (parent_of r); behind_parent stamp parent
