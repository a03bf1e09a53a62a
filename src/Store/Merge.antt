-- ===== src/Store/Merge.antt =====
-- store.go: MergeTasks. The rows of a query come in the order of the table.
pub mod Planning
pub mod Redirects
pub mod Sets
pub mod Unions
pub mod Rows
pub mod Ends
pub mod Behind
use Prim.Native.String.{◌++◌}
use backlog_server.Prelude.{
  ℕ, String, Bool, true, false, not, Option, none, some, List, [], ◌∷◌, map, concat, ◌==◌, eqb,
  if◌then◌else◌, mem_text,
}
use backlog_server.Prelude.Decimal.{decimal}
use backlog_server.Exec.{Exec, Outcome, ok, no_rows, failed, pure, ◌>>=◌, ◌>>◌}
use backlog_server.Store.Db.{Task, Audit, Db, find_task, update_task, insert_audit, audit_row}
use backlog_server.Store.Session.{Env, World, Conn, exec, get_task, change, tick, row_or_none}
use backlog_server.Store.Results.{GateFailure, normal_status}
use backlog_server.Store.Merge.Planning.{Plan, Change, Dependent, plan_of, dependents_of}

abbrev pub merge_terminal_statuses : List String
merge_terminal_statuses = "CANCELLED" ∷ "SUPERSEDED" ∷ []

-- `task_a` is none where the source leaves the zero value.
pub record MergeResult : Type 0 where
  pub task_a : Option Task
  pub absorbed_id : ℕ
  pub fields_updated : List String
  pub redirected_dep_ids : List ℕ
  pub b_status : String
  pub dry_run : Bool
  pub failures : List GateFailure

-- A statement of the transaction, with the words for its error.
pub record Statement : Type 0 where
  pub stage : String
  pub effect : Db → Db

module _ (env : Env) where
  unfoldable pub exec_all : List Statement → Exec Conn (Unit {0})
  exec_all [] = pure tt
  exec_all (s ∷ ss) = do exec env s.stage s.effect; exec_all ss

  -- pool.QueryRow and pool.Query
  unfoldable pub select : {A : Type 0} → String → (Db → Outcome A) → Exec World A
  select stage f w = if env.fails w.calls then (failed stage, tick w) else (f w.db, tick w)

-- UPDATE of the absorber
unfoldable pub absorbing : Plan → String → Task → Task
absorbing p stamp t = record t {
  blocked_by = p.blocked_by;
  consumers = p.consumers;
  done_when = p.done_when;
  references = p.references;
  tags = p.tags;
  note = p.note;
  updated_at = stamp;
}

unfoldable pub redirecting : Dependent → String → Task → Task
redirecting d stamp t = record t { blocked_by = d.blocked_by_new; updated_at = stamp }

unfoldable pub absorbed : ℕ → String → Task → Task
absorbed a stamp t = record t {
  status = "SUPERSEDED";
  note = "Merged into #" ++ decimal a;
  updated_at = stamp;
}

module _ (a b : ℕ) (agent : String) where
  unfoldable pub audit_change : String → Change → Statement
  audit_change stamp c = record {
    stage = "audit A " ++ c.field;
    effect = insert_audit (audit_row a agent c.field c.old_value c.new_value "merge" stamp);
  }

  unfoldable pub redirect_statements : String → List Dependent → List Statement
  redirect_statements stamp [] = []
  redirect_statements stamp (d ∷ ds) =
      record {
        stage = "update dep " ++ decimal d.id;
        effect = update_task d.id (redirecting d stamp);
      }
      ∷ record {
        stage = "audit dep " ++ decimal d.id;
        effect =
            insert_audit (audit_row d.id agent "blocked_by" d.shown_old d.shown_new "merge" stamp);
      }
      ∷ redirect_statements stamp ds

  unfoldable pub absorb_statements : String → String → List Statement
  absorb_statements from stamp =
      record { stage = "update B"; effect = update_task b (absorbed a stamp) }
      ∷ record {
        stage = "audit B";
        effect =
            insert_audit
              (audit_row b agent "status" from "SUPERSEDED" ("merge into #" ++ decimal a) stamp);
      }
      ∷ []

  unfoldable pub statements : Plan → String → String → List Statement
  unfolding audit_change redirect_statements absorb_statements absorbing
  statements p from stamp =
      record { stage = "update A"; effect = update_task a (absorbing p stamp) }
      ∷ concat (
          map (audit_change stamp) p.changes
          ∷ redirect_statements stamp p.dependents
          ∷ absorb_statements from stamp
          ∷ [])

module _ (b : ℕ) where
  refusal : Option Task → Bool → String → String → MergeResult
  refusal t d check detail = record {
    task_a = t;
    absorbed_id = b;
    fields_updated = [];
    redirected_dep_ids = [];
    b_status = "";
    dry_run = d;
    failures = record { check = check; detail = detail } ∷ [];
  }

  unfoldable pub merged : Plan → String → Bool → Task → MergeResult
  merged p status d t = record {
    task_a = some t;
    absorbed_id = b;
    fields_updated = map (λ (c : Change). c.field) p.changes;
    redirected_dep_ids = map (λ (d : Dependent). d.id) p.dependents;
    b_status = status;
    dry_run = d;
    failures = [];
  }

-- The absorber as the source fills it in where the read behind the commit fails.
in_memory : Plan → Task → Task
in_memory p t = record t {
  blocked_by = p.blocked_by;
  done_when = p.done_when;
  references = p.references;
  note = p.note;
}

module _ (env : Env) (a b : ℕ) (agent : String) (dry : Bool) where
  unfoldable pub load : String → ℕ → Exec World Task
  unfolding select
  load stage n = select env stage (λ d. row_or_none (find_task n d.tasks))

  unfoldable pub carry_out : Task → Task → Plan → Exec World MergeResult
  unfolding exec_all statements merged in_memory
  carry_out ta tb p = if dry then pure (merged b p (normal_status tb.status) true ta) else do
    u ←
        change env (λ stamp. exec_all env (statements a b agent p (normal_status tb.status) stamp))
          a (in_memory p ta)
    pure (merged b p "SUPERSEDED" false u)

  unfoldable pub merge_open : Task → Task → Exec World MergeResult
  unfolding load select carry_out
  merge_open ta tb = do
    ra ← load "load A consumers/tags" a
    rb ← load "load B consumers/tags" b
    deps ← select env "find dependents" (λ d. ok (dependents_of a b d.tasks))
    carry_out ta tb (plan_of a b ta tb ra rb deps)

  -- Behind the reads of both rows.
  unfoldable pub merge_checked : Task → Task → Exec World MergeResult
  unfolding refusal merge_open
  merge_checked ta tb =
      if mem_text (normal_status ta.status) merge_terminal_statuses
      then pure (
          refusal b (some ta) dry "TARGET_TERMINAL"
            ("cannot merge into #" ++ decimal a ++ ": status is " ++ normal_status ta.status))
      else if mem_text (normal_status tb.status) merge_terminal_statuses
      then pure (
          refusal b (some ta) dry "ABSORBED_TERMINAL" (
            "task #" ++ decimal b ++ " is already " ++ normal_status tb.status ++ ", cannot merge"))
      else merge_open ta tb

  unfoldable pub merge_tasks : Exec World MergeResult
  unfolding refusal merge_checked
  merge_tasks =
      if eqb a b
      then pure (
          refusal b none false "SAME_TASK" ("cannot merge task into itself (#" ++ decimal a ++ ")"))
      else do ta ← get_task env a; tb ← get_task env b; merge_checked ta tb
