-- ===== src/Store/Db.antt =====
-- The rows that the store reads and writes (store.go: Task; the columns of tasks, review_results,
-- audit_trail and task_edges in its SQL). A JSON column holds its parsed value, and a text column that may be
-- NULL an option.
use backlog_server.Prelude.{
  ℕ, String, Bool, Option, none, some, List, [], ◌∷◌, ◌++◌, eqb, if◌then◌else◌,
}
use backlog_server.Prelude.Int.{ℤ}
use backlog_server.Float.{Float64}

-- A value of custom_fields: only texts are read.
pub data Json : Type 0 where
  text : String → Json
  other : Json

pub record Task : Type 0 where
  pub id : ℕ
  pub title : String
  pub why : String
  pub owner : String
  pub status : String
  pub mode : String
  pub workflow : String
  pub type : Option String
  pub effective_score : Float64
  pub blocked_by : List ℕ
  pub done_when : List String
  pub references : List String
  pub consumers : List String
  pub priority_override : ℤ
  pub task_plan : String
  pub spec : String
  pub business_value : String
  pub note : String
  pub session : String
  pub created : String
  pub parent_task_id : Option ℤ
  pub created_at : String
  pub updated_at : String
  pub closed_at : Option String
  pub custom_fields : Option (List (String × Json))
  pub progress : Option String
  pub reporter_verified : Bool
  pub reporter_verified_at : Option String
  pub postmortem_path : String
  pub migration_note : String
  pub client_id : Option String
  pub project_id : Option String
  pub tags : List String

pub record Review : Type 0 where
  pub id : ℕ
  pub task_id : ℕ
  pub reviewer_model : String
  pub verdict : String
  pub summary : String
  pub reviewed_at : String
  pub is_latest : Bool

pub record Audit : Type 0 where
  pub task_id : ℕ
  pub agent : String
  pub field_changed : String
  pub old_value : String
  pub new_value : String
  pub command : String
  pub timestamp : String

-- A row of task_edges.
pub record Edge : Type 0 where
  pub from_task_id : ℕ
  pub to_task_id : ℕ
  pub edge_type : String

-- `audit` and `reviews` hold the latest row first.
pub record Db : Type 0 where
  pub tasks : List Task
  pub reviews : List Review
  pub audit : List Audit
  pub next_review : ℕ
  pub edges : List Edge

-- SELECT … WHERE id = $1
unfoldable pub find_task : ℕ → List Task → Option Task
find_task n [] = none
find_task n (t ∷ ts) = if eqb t.id n then some t else find_task n ts

-- UPDATE tasks SET … WHERE id = $1
unfoldable pub update_where : ℕ → (Task → Task) → List Task → List Task
update_where n f [] = []
update_where n f (t ∷ ts) = (if eqb t.id n then f t else t) ∷ update_where n f ts

abbrev pub update_task : ℕ → (Task → Task) → Db → Db
update_task n f d = record d { tasks = update_where n f d.tasks }

abbrev pub insert_audit : Audit → Db → Db
insert_audit a d = record d { audit = a ∷ d.audit }

-- The audit row of a change of one field.
abbrev pub audit_row : ℕ → String → String → String → String → String → String → Audit
audit_row n agent field old new command stamp = record {
  task_id = n;
  agent = agent;
  field_changed = field;
  old_value = old;
  new_value = new;
  command = command;
  timestamp = stamp;
}

-- A change of one row with the audit rows that tell of it, `rows` with its latest first.
abbrev pub applied : ℕ → (Task → Task) → List Audit → Db → Db
applied n f rows d = record d { tasks = update_where n f d.tasks; audit = rows ++ d.audit }
