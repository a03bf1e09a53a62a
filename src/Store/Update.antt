-- ===== src/Store/Update.antt =====
-- store.go: UpdateTask. `updates` are the map's entries in the order in which Go iterates over them.
-- What the database reads as an integer is `to_integer` of the environment.
pub mod Coherent
pub mod Effect
pub mod Reads
pub mod Trail
pub mod Answers
use Prim.Native.String.{◌++◌, compare}
use Prim.Native.Nat.{Ordering}
use backlog_server.Prelude.{
  is_some, join, ℕ, ◌+◌, String, Bool, true, false, not, ◌||◌, Option, none, some, List, [], ◌∷◌,
  map, ◌==◌, if◌then◌else◌, is_empty, is_nil, mem_text, filter_by, all_by,
}
use backlog_server.Prelude.Int.{ℤ, pos, negsuc}
use backlog_server.Prelude.Decimal.{decimal}
use backlog_server.Exec.{Exec, Outcome, failed, pure, ◌>>=◌, ◌>>◌}
use backlog_server.Store.Db.{Task, Audit, Db, update_task, insert_audit, audit_row}
use backlog_server.Store.Session.{Env, World, Conn, exec, get_task, change}
use backlog_server.Store.Results.{GateFailure}

abbrev updatable_text_fields : List String
updatable_text_fields =
    "title" ∷ "why" ∷ "mode" ∷ "note" ∷ "business_value" ∷ "task_plan" ∷ "spec" ∷ "owner"
    ∷ "parent_task_id" ∷ []

-- A field with its old and its new value.
pub record Diff : Type 0 where
  pub field : String
  pub old_value : String
  pub new_value : String

pub record UpdateResult : Type 0 where
  pub task : Task
  pub changes : List Diff
  pub failures : List GateFailure

or_nothing : Option ℤ → String
or_nothing none = ""
or_nothing (some (pos n)) = decimal n
or_nothing (some (negsuc n)) = "-" ++ decimal (n + 1)

unfoldable pub current_text_field : Task → String → String
unfolding or_nothing
current_text_field t f =
    if f == "title"
    then t.title
    else if f == "why"
    then t.why
    else if f == "mode"
    then t.mode
    else if f == "note"
    then t.note
    else if f == "business_value"
    then t.business_value
    else if f == "task_plan"
    then t.task_plan
    else if f == "spec"
    then t.spec
    else if f == "owner"
    then t.owner
    else if f == "parent_task_id"
    then or_nothing t.parent_task_id
    else ""

unfoldable pub apply_text_field : String → String → Task → Task
apply_text_field f v t =
    if f == "title"
    then record t { title = v }
    else if f == "why"
    then record t { why = v }
    else if f == "mode"
    then record t { mode = v }
    else if f == "note"
    then record t { note = v }
    else if f == "business_value"
    then record t { business_value = v }
    else if f == "task_plan"
    then record t { task_plan = v }
    else if f == "spec"
    then record t { spec = v }
    else if f == "owner"
    then record t { owner = v }
    else t

-- Whether the UPDATE takes the value, and what it does to the row.
unfoldable pub takes : Env → Diff → Bool
takes env d =
    if d.field == "parent_task_id"
    then is_empty d.new_value || is_some (env.to_integer d.new_value)
    else true

unfoldable pub set_column : Env → Diff → Task → Task
set_column env d t =
    if d.field == "parent_task_id"
    then (record t {
      parent_task_id = if is_empty d.new_value then none else env.to_integer d.new_value;
    })
    else apply_text_field d.field d.new_value t

unfoldable pub set_columns : Env → List Diff → Task → Task
unfolding set_column
set_columns env [] t = t
set_columns env (d ∷ ds) t = set_columns env ds (set_column env d t)

-- sort.Strings, of the fields
abbrev above : String → String → Bool
above s t = elim (compare s t) [ Ordering.gt ↦ true | _ ↦ false ]

insert_diff : Diff → List Diff → List Diff
insert_diff d [] = d ∷ []
insert_diff d (e ∷ es) =
    let rest = insert_diff d es in if above d.field e.field then e ∷ rest else d ∷ e ∷ es

unfoldable pub sort_diffs : List Diff → List Diff
unfolding insert_diff
sort_diffs [] = []
sort_diffs (d ∷ ds) = insert_diff d (sort_diffs ds)

module _ (updates : List (String × String)) where
  -- The diffs of the fields whose value changes.
  unfoldable pub diffs_of : Task → List Diff
  diffs_of t =
      filter_by (λ (d : Diff). not (d.old_value == d.new_value))
        (map
          (λ (u : String × String). record {
            field = u.0;
            old_value = current_text_field t u.0;
            new_value = u.1;
          })
          updates)

  unfoldable pub rejected_fields : List String
  rejected_fields =
      filter_by (λ f. not (mem_text f updatable_text_fields))
        (map (λ (u : String × String). u.0) updates)

  unfoldable pub ends_early : Task → Bool
  ends_early t = not (is_nil rejected_fields) || is_nil (diffs_of t)

fields_failure : ℕ → List String → List GateFailure
unfolding join
fields_failure n [] = []
fields_failure n (f ∷ fs) =
    record {
      check = "FIELDS";
      detail =
          "fields not supported by native update: "
          ++ join (f ∷ fs)
          ++ ". Use /exec fallback (backlogist #"
          ++ decimal n
          ++ " update "
          ++ f
          ++ ":…) or extend server whitelist.";
    }
    ∷ []

-- The answer that leaves the row as it is, for a rejected field or for want of a change.
unfoldable pub left_alone : ℕ → List (String × String) → Task → UpdateResult
unfolding fields_failure rejected_fields
left_alone n updates t = record {
  task = t;
  changes = [];
  failures = fields_failure n (rejected_fields updates);
}

-- The fallback of the read behind the commit: the columns but parent_task_id.
apply_all : List Diff → Task → Task
apply_all [] t = t
apply_all (d ∷ ds) t = apply_all ds (apply_text_field d.field d.new_value t)

module _ (env : Env) (n : ℕ) (agent : String) where
  unfoldable pub update_row : Diff → String → Audit
  update_row d stamp = audit_row n agent d.field d.old_value d.new_value "update" stamp

  unfoldable pub audit_all : List Diff → String → Exec Conn (Unit {0})
  unfolding update_row
  audit_all [] stamp = pure tt
  audit_all (d ∷ ds) stamp = do
    exec env ("audit " ++ d.field) (insert_audit (update_row d stamp))
    audit_all ds stamp

  refuse_update : Exec Conn (Unit {0})
  refuse_update c = (failed "update", record c { called = c.called + 1 })

  unfoldable pub updated : List Diff → String → Task → Task
  unfolding set_columns
  updated ds stamp t = record (set_columns env ds t) { updated_at = stamp }

  unfoldable pub write_all : List Diff → String → Exec Conn (Unit {0})
  unfolding updated takes refuse_update audit_all
  write_all ds stamp = do
    if all_by (takes env) ds
        then exec env "update" (update_task n (updated ds stamp))
        else refuse_update
    audit_all ds stamp

  module _ (updates : List (String × String)) where
    unfoldable pub update_body : Task → String → Exec Conn (Unit {0})
    unfolding write_all diffs_of sort_diffs
    update_body t = write_all (sort_diffs (diffs_of updates t))

    unfoldable pub changed_fields : Task → Task → UpdateResult
    unfolding diffs_of
    changed_fields t u = record { task = u; changes = diffs_of updates t; failures = [] }

    unfoldable pub changed_in_memory : Task → Task
    unfolding diffs_of apply_all
    changed_in_memory t = apply_all (diffs_of updates t) t

    unfoldable pub update_task_fields : Exec World UpdateResult
    unfolding ends_early
    update_task_fields = do
      t ← get_task env n
      if ends_early updates t
          then pure (left_alone n updates t)
          else do u ← change env (update_body t) n (changed_in_memory t); pure (changed_fields t u)
