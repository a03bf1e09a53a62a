-- ===== src/Store/Create/Pipeline.antt =====
-- internal/store/create.go: CreateTask. The reload of the registries comes before it.
pub mod Ends
use backlog_server.Prelude.{
  ℕ, ◌+◌, String, Bool, false, Option, none, some, List, [], ◌∷◌, concat, if◌then◌else◌,
}
use Prim.Native.String.{◌++◌}
use backlog_server.Prelude.Decimal.{decimal}
use backlog_server.Exec.{Exec, Outcome, ok, no_rows, failed, pure, ◌>>=◌, ◌>>◌}
use backlog_server.Store.Db.{Task}
use backlog_server.Store.Session.{Env, World, Conn, tick, bump}
use backlog_server.Store.Create.{
  CreateTaskRequest, parent_of, Registries, Resolved, Failures, Advisories, validate, resolve_owner,
  derive_workflow, ears_advisory, signal_advisory,
}
use backlog_server.Store.Create.CrossDb.{Ping, validate_cross_db_refs}
use backlog_server.Store.Create.Insert.{create_body}

pub record CreateTaskResult : Type 0 where
  pub task_id : ℕ
  pub status : String
  pub workflow : String
  pub owner : String
  pub owner_source : String
  pub parent_reopened : Bool
  pub failures : Failures
  pub advisories : Advisories

-- The transaction: it commits behind an insert; a missing parent returns before the commit.
finish_create : {A : Type 0} → Env → World → Outcome (Option A) × Conn → Outcome (Option A) × World
finish_create env w (ok none, c) = (ok none, record w { calls = c.called })
finish_create env w (ok (some a), c) =
    if env.fails c.called
    then (failed "commit", record w { calls = c.called + 1 })
    else (ok (some a), record w { db = c.view; calls = c.called + 1 })
finish_create env w (no_rows, c) = (no_rows, record w { calls = c.called })
finish_create env w (failed e, c) = (failed e, record w { calls = c.called })

unfoldable pub create_tx :
    {A : Type 0} → Env → (String → Exec Conn (Option A)) → Exec World (Option A)
unfolding finish_create
create_tx env body w =
    if env.fails w.calls
    then (failed "begin", tick w)
    else finish_create env w (body (env.now w.calls) (record { view = w.db; called = w.calls + 1 }))

-- What CreateTask finds before the transaction.
pub record Findings : Type 0 where
  pub resolved : Resolved
  pub failures : Failures
  pub advisories : Advisories

module _ (reg : Registries) (network : String → Ping) (ax_api_base : String) where
  cross_checks : CreateTaskRequest → Failures → Failures × Advisories
  cross_checks r [] = validate_cross_db_refs network ax_api_base r.client r.project
  cross_checks r (f ∷ fs) = ([], [])

  unfoldable pub pre_checks : CreateTaskRequest → Findings
  unfolding cross_checks
  pre_checks r =
      let (cross_failures, cross_advisories) = cross_checks r (validate reg r) in
      let res = resolve_owner reg r in
      record {
        resolved = res;
        failures = concat (validate reg r ∷ cross_failures ∷ res.failures ∷ []);
        advisories = concat (ears_advisory r ∷ cross_advisories ∷ res.advisories ∷ []);
      }

unfoldable pub workflow_of : Registries → CreateTaskRequest → Resolved → String
workflow_of reg r res =
    if r.lightweight then "code_quick" else derive_workflow reg r res.rule_workflow

abbrev rejected : Failures → Advisories → CreateTaskResult
rejected fs advs = record {
  task_id = 0;
  status = "";
  workflow = "";
  owner = "";
  owner_source = "";
  parent_reopened = false;
  failures = fs;
  advisories = advs;
}

abbrev parent_missing : ℕ → Failures
parent_missing n =
    record { check = "PARENT_NOT_FOUND"; detail = "parent #" ++ decimal n ++ " not found" } ∷ []

abbrev creation : Resolved → String → Advisories → ℕ × Bool → CreateTaskResult
creation res workflow advs (id, was_reopened) = record {
  task_id = id;
  status = "BACKLOG";
  workflow = workflow;
  owner = res.owner;
  owner_source = res.source;
  parent_reopened = was_reopened;
  failures = [];
  advisories = advs;
}

module _ (env : Env) (blank : Task) (day : String) (r : CreateTaskRequest) where
  settle_create : Resolved → String → Advisories → Option (ℕ × Bool) → Exec World CreateTaskResult
  settle_create res workflow advs none = pure (rejected (parent_missing (parent_of r)) advs)
  settle_create res workflow advs (some made) = do bump env; pure (creation res workflow advs made)

  unfoldable pub create_checked :
      Registries → Resolved → Failures → Advisories → Exec World CreateTaskResult
  unfolding settle_create
  create_checked reg res (f ∷ fs) advs = pure (rejected (f ∷ fs) advs)
  create_checked reg res [] advs =
      let workflow = workflow_of reg r res in
      let all_advs = concat (advs ∷ signal_advisory r.signal_context ∷ []) in
      do
        made ← create_tx env (create_body env blank day r res workflow)
        settle_create res workflow all_advs made

  unfoldable pub create_task : Registries → (String → Ping) → String → Exec World CreateTaskResult
  create_task reg network ax_api_base =
      let found = pre_checks reg network ax_api_base r in
      create_checked reg found.resolved found.failures found.advisories
