-- ===== src/Store/Results.antt =====
-- What the methods return (store.go: AdvanceGateFailure, AdvanceResult, SupersedeResult,
-- VerifyResult, PostmortemResult, RevisionResult), and the spelling of a status.
use backlog_server.Prelude.{ℕ, String, List, to_upper, trim_space}
use backlog_server.Store.Db.{Task}

pub record GateFailure : Type 0 where
  pub check : String
  pub detail : String

pub record AdvanceResult : Type 0 where
  pub task : Task
  pub from_status : String
  pub to_status : String
  pub failures : List GateFailure

pub record SupersedeResult : Type 0 where
  pub task : Task
  pub from_status : String
  pub to_status : String
  pub by_id : ℕ
  pub failures : List GateFailure

pub record VerifyResult : Type 0 where
  pub task : Task
  pub mode : String
  pub reason : String
  pub failures : List GateFailure

pub record PostmortemResult : Type 0 where
  pub task : Task
  pub path : String
  pub failures : List GateFailure

pub record RevisionResult : Type 0 where
  pub task : Task
  pub from_status : String
  pub to_status : String
  pub reason : String
  pub failures : List GateFailure

-- strings.ToUpper(strings.TrimSpace(task.Status))
unfoldable pub normal_status : String → String
normal_status s = to_upper (trim_space s)
