-- ===== src/Store/Rescore.antt =====
-- store/rescore.go: the scores and the blocker lists behind a task's close, in its transaction.
pub mod Effect
pub mod Rows
pub mod Unblocks
use backlog_server.Prelude.{
  ℕ, String, Bool, true, false, not, ◌&&◌, ◌||◌, Option, none, some, List, [], ◌∷◌, map, eqb, leb,
  if◌then◌else◌, filter_by, mem_text,
}
use backlog_server.Prelude.Int.{ℤ}
use backlog_server.Prelude.Assoc.{find, put}
use backlog_server.Exec.{Exec, pure, ◌>>=◌}
use backlog_server.Float.{Float64, FloatOps}
use backlog_server.Scoring.Types as Types
use backlog_server.Scoring.Recalculate.{recalculate_unblocked}
use backlog_server.Store.Db.{Task, Db}
use backlog_server.Store.Session.{Env, Conn, exec, query}

-- What a rescore depends on beside the tables: float64, the day, time.Parse, and the order of the
-- map iteration in each round.
pub record Scorer : Type 0 where
  pub ops : FloatOps
  pub today : ℕ
  pub parse_date : String → Option ℕ
  pub order : ℕ → List ℕ

abbrev pub closed_statuses : List String
closed_statuses = "DONE" ∷ "CANCELLED" ∷ "SUPERSEDED" ∷ "WONT-DO" ∷ "MERGED" ∷ []

-- WHERE status NOT IN (…) AND id != $1
unfoldable pub is_open : ℕ → Task → Bool
is_open closed t = not (mem_text t.status closed_statuses) && not (eqb t.id closed)

-- ORDER BY id
unfoldable pub insert_by_id : Task → List Task → List Task
insert_by_id t [] = t ∷ []
insert_by_id t (u ∷ us) =
    let rest = insert_by_id t us in if leb t.id u.id then t ∷ u ∷ us else u ∷ rest

unfoldable pub sort_by_id : List Task → List Task
unfolding insert_by_id
sort_by_id [] = []
sort_by_id (t ∷ ts) = insert_by_id t (sort_by_id ts)

-- The columns that the query selects; the other fields have their zero values.
abbrev pub scoring_task : Task → Types.Task
scoring_task t = record {
  id = t.id;
  title = t.title;
  owner = t.owner;
  mode = t.mode;
  type = "";
  status = t.status;
  created = t.created;
  why = t.why;
  note = t.note;
  session = t.session;
  blocked_by = t.blocked_by;
  consumers = t.consumers;
  priority_override = t.priority_override;
  task_plan = t.task_plan;
  spec = "";
  references = t.references;
  score = none;
  stages = [];
  client_id = none;
  capability_id = none;
  effective_score = t.effective_score;
  breakdown = none;
}

unfoldable pub load_tasks_for_scoring : ℕ → List Task → List Types.Task
unfolding is_open sort_by_id
load_tasks_for_scoring closed ts = map scoring_task (sort_by_id (filter_by (is_open closed) ts))

abbrev pub Priors : Type 0
Priors = List (ℕ × (Float64 × List ℕ))

-- The maps priorScore and priorBlocked.
unfoldable pub priors : List Types.Task → Priors → Priors
priors [] m = m
priors (t ∷ ts) m = priors ts (put t.id (t.effective_score, t.blocked_by) m)

unfoldable pub int_slice_equal : List ℕ → List ℕ → Bool
int_slice_equal [] [] = true
int_slice_equal [] (b ∷ bs) = false
int_slice_equal (a ∷ rest) [] = false
int_slice_equal (a ∷ rest) (b ∷ bs) = eqb a b && int_slice_equal rest bs

-- (SET effective_score, blocked_by, updated_at FROM VALUES …, at one row)
unfoldable pub persist : String → List Types.Task → Task → Task
persist stamp [] t = t
persist stamp (v ∷ vs) t =
    let rest = persist stamp vs t in
    if eqb v.id t.id
    then record t {
      effective_score = v.effective_score;
      blocked_by = v.blocked_by;
      updated_at = stamp;
    }
    else rest

module _ (ops : FloatOps) where
  unfoldable pub float_eq : Float64 → Float64 → Float64 → Bool
  float_eq a b eps =
      let d = ops.sub a b in
      let size = if ops.lt d (ops.decimal 0 0) then ops.neg d else d in ops.le size eps

  -- blockedChanged || scoreChanged; a missing key of priorBlocked reads nil.
  unfoldable pub moved : Option (Float64 × List ℕ) → Types.Task → Bool
  unfolding float_eq int_slice_equal
  moved none t = true
  moved (some (score, blocked)) t =
      not (int_slice_equal t.blocked_by blocked)
      || not (float_eq score t.effective_score (ops.decimal 1 3))

  unfoldable pub changed_tasks : Priors → List Types.Task → List Types.Task
  unfolding moved
  changed_tasks m ts = filter_by (λ (t : Types.Task). moved (find t.id m) t) ts

module _ (scorer : Scorer) where
  -- The tasks that are to be written, of those that were loaded.
  unfoldable pub rescored : ℕ → List Types.Task → List Types.Task
  unfolding changed_tasks priors
  rescored closed loaded =
      changed_tasks scorer.ops (priors loaded [])
        (recalculate_unblocked scorer.ops scorer.today scorer.parse_date "" (λ _. none) scorer.order
          closed loaded).1

  write_scores : Env → String → List Types.Task → Exec Conn (Unit {0})
  write_scores env stamp [] = pure tt
  write_scores env stamp (v ∷ vs) =
      exec env "persist scores" (λ d. record d { tasks = map (persist stamp (v ∷ vs)) d.tasks })

  rescore_loaded : Env → String → ℕ → List Types.Task → Exec Conn (Unit {0})
  unfolding write_scores
  rescore_loaded env stamp closed [] = pure tt
  rescore_loaded env stamp closed (t ∷ ts) = write_scores env stamp (rescored closed (t ∷ ts))

  unfoldable pub rescore_after_done : Env → String → ℕ → Exec Conn (Unit {0})
  unfolding rescore_loaded
  rescore_after_done env stamp closed = do
    loaded ← query env "load active tasks" (λ d. (load_tasks_for_scoring closed d.tasks, d))
    rescore_loaded env stamp closed loaded
