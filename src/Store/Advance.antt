-- ===== src/Store/Advance.antt =====
-- store.go: AdvanceTask.
pub mod Coherent
pub mod Closing
pub mod Ends
pub mod Gates
pub mod Unblocked
use Prim.Native.String.{◌++◌}
use backlog_server.Prelude.{ℕ, String, Bool, true, false, List, [], ◌∷◌, ◌==◌, some, if◌then◌else◌}
use backlog_server.Exec.{Exec, Outcome, ok, no_rows, failed, pure, ◌>>=◌, ◌>>◌}
use backlog_server.Lifecycle.{compute_advance_target}
use backlog_server.Store.Db.{Task, Audit, Db, update_task, insert_audit, audit_row}
use backlog_server.Store.Session.{Env, World, Conn, exec, get_task, change}
use backlog_server.Store.Rescore.{Scorer, rescore_after_done}
use backlog_server.Store.Results.{AdvanceResult, GateFailure, normal_status}
use backlog_server.Store.Take.{moved}
use backlog_server.Store.Advance.Gates.{Failures, gates}

-- Where an advance of this row leads.
unfoldable pub target : Task → String
target t = compute_advance_target (normal_status t.status) t.workflow

-- %q puts quotes around a text without characters to escape.
unfoldable pub workflow_refusal : Task → AdvanceResult
workflow_refusal t =
    let from = normal_status t.status in
    record {
      task = t;
      from_status = from;
      to_status = "";
      failures =
          record {
            check = "WORKFLOW";
            detail =
                "no server-side advance defined for status=" ++ from ++ " workflow=\"" ++ t.workflow
                ++ "\" (MVP covers code_task only)";
          }
          ∷ [];
    }

unfoldable pub gate_refusal : Task → Failures → AdvanceResult
unfolding target
gate_refusal t fs = record {
  task = t;
  from_status = normal_status t.status;
  to_status = target t;
  failures = fs;
}

-- The row behind an advance: closed_at is set on DONE.
unfoldable pub advanced : String → String → Task → Task
advanced to stamp t =
    if to == "DONE"
    then record t { status = to; updated_at = stamp; closed_at = some stamp }
    else record t { status = to; updated_at = stamp }

unfoldable pub advance_row : ℕ → String → Task → String → Audit
unfolding target
advance_row n agent t stamp =
    audit_row n agent "status" (normal_status t.status) (target t) "advance" stamp

module _ (env : Env) (scorer : Scorer) (n : ℕ) (agent : String) (approve : Bool) where
  unfoldable pub advance_body : Task → String → Exec Conn (Unit {0})
  unfolding advanced advance_row target
  advance_body t stamp = do
    exec env "update tasks" (update_task n (advanced (target t) stamp))
    exec env "insert audit" (insert_audit (advance_row n agent t stamp))
    if target t == "DONE" then rescore_after_done scorer env stamp n else pure tt

  unfoldable pub advance_passed : Task → Failures → Exec World AdvanceResult
  unfolding target
  advance_passed t [] = do
    u ← change env (advance_body t) n (record t { status = target t })
    pure (moved (target t) t u)
  advance_passed t (f ∷ fs) = pure (gate_refusal t (f ∷ fs))

  unfoldable pub advance_task : Exec World AdvanceResult
  unfolding advance_passed target
  advance_task = do
    t ← get_task env n
    if target t == ""
        then pure (workflow_refusal t)
        else do fs ← gates env n approve t (normal_status t.status) (target t); advance_passed t fs
