-- ===== src/Store/Writes.antt =====
-- What the operations may do to the tables, as one relation, and what it keeps.
pub mod Trail
pub mod Keeps
use backlog_server.Prelude.{
  ℕ, ◌+◌, ◌≤◌, String, Bool, true, false, not, ◌&&◌, ◌≡◌, ◌≢◌, refl, sym, ap, ◌∙◌, ◌⊎◌, inl, inr,
  Option, none, some, List, [], ◌∷◌, ◌++◌, map, if◌then◌else◌, eqb, eqb_iff, eqb_refl, arith,
  Bool-cases, In, ◌==◌, All,
}
use mathlib.Core.Path.{ap₂, subst}
use backlog_server.Scoring.Types as Types
use backlog_server.Store.Db.{Task, Audit, Db, find_task, update_where, applied}
use backlog_server.Store.Tables.{
  id_of, ids-update_where, find_task-updated, find_task-missing, find_task-other,
}
use backlog_server.Store.Rescore.{Scorer, persist}
use backlog_server.Store.Rescore.Unblocks.{persisted}
use backlog_server.Store.Rescore.Effect.{rescore}
use backlog_server.Store.Review.Latest.{filed, UniqueLatest, filed-UniqueLatest}
use backlog_server.Store.Session.{Env}

-- The status that the audit trail last gave a task.
unfoldable pub last_status : ℕ → List Audit → Option String
last_status n [] = none
last_status n (a ∷ rest) =
    let older = last_status n rest in
    if eqb a.task_id n && a.field_changed == "status" then some a.new_value else older

abbrev pub closing_statuses : List String
closing_statuses = "DONE" ∷ "CANCELLED" ∷ "SUPERSEDED" ∷ []

-- A task that was closed has the time of it.
abbrev pub Timed : Task → Type 0
Timed t = In t.status closing_statuses → t.closed_at ≢ none

-- The audit rows tell the status that the change of a row leaves, or none does and it stays.
abbrev pub Told : ℕ → (Task → Task) → List Audit → Task → Type 0
Told n f rows t =
    (last_status n rows ≡ some (f t).status)
    ⊎ ((last_status n rows ≡ none) × ((f t).status ≡ t.status))

-- A change of one row, told by audit rows of that task.
pub record Tidy (n : ℕ) (f : Task → Task) (rows : List Audit) : Type 0 where
  pub keeps_id : (t : Task) → (f t).id ≡ t.id
  pub keeps_time : (t : Task) → Timed t → Timed (f t)
  pub told : (t : Task) → Told n f rows t
  pub of_task : All (λ (a : Audit). a.task_id ≡ n) rows

-- One operation's effect on the tables.
pub data Write (d : Db) : Db → Type 0 where
  nothing : Write d d
  one_row :
      (n : ℕ) (f : Task → Task) (rows : List Audit) → Tidy n f rows → Write d (applied n f rows d)
  close :
      (n : ℕ) (f : Task → Task) (rows : List Audit) (scorer : Scorer) (stamp : String)
      → Tidy n f rows
      → Write d (rescore scorer stamp n (applied n f rows d))
  review :
      (env : Env) (n : ℕ) (caller reviewer verdict summary : String) (is_aggregate : Bool)
      (stamp : String)
      → Write d (filed env n caller reviewer verdict summary is_aggregate stamp d)
