-- ===== src/Examples.antt =====
-- Concrete worlds on which the theorems are applied: a server whose calls succeed, floating point
-- on whole tenths, and two tasks of which one waits for the other.
pub mod Advancing
pub mod Choosing
pub mod Admitting
pub mod Methods
pub mod Rating
pub mod Running
pub mod Serving
pub mod Updating
pub mod Merging
use backlog_server.Prelude.{
  ℕ, zero, suc, ◌+◌, ◌-◌, ◌*◌, ◌/◌, ◌^◌, String, Bool, true, false, Option, none, some, List, [],
  ◌∷◌, ltb, leb,
}
use backlog_server.Prelude.Int.{ℤ, pos, negsuc}
use backlog_server.Prelude.Atoi.{atoi}
use backlog_server.Cache.{Cache}
use backlog_server.Float.{Float64, FloatOps}
use backlog_server.Store.Db.{Task, Review, Db}
use backlog_server.Store.Session.{Env, World}
use backlog_server.Store.Rescore.{Scorer}

abbrev pub tenths : ℕ → Float64
tenths n = record { bits = n }

abbrev of_int_tenths : ℤ → Float64
of_int_tenths (pos n) = tenths (n * 10)
of_int_tenths (negsuc n) = tenths 0

abbrev pub toy_floats : FloatOps
toy_floats = record {
  add = λ a b. tenths (a.bits + b.bits);
  sub = λ a b. tenths (a.bits - b.bits);
  mul = λ a b. tenths (a.bits * b.bits / 10);
  div = λ a b. tenths (a.bits * 10 / b.bits);
  neg = λ a. tenths 0;
  le = λ a b. leb a.bits b.bits;
  lt = λ a b. ltb a.bits b.bits;
  abs = λ a. a;
  round_to_even = λ a. tenths (a.bits / 10 * 10);
  pow10 = λ n. tenths (10 * 10 ^ n);
  of_int = of_int_tenths;
  decimal = λ n k. tenths (n * 10 / 10 ^ k);
}

abbrev pub toy_scorer : Scorer
toy_scorer = record { ops = toy_floats; today = 3; parse_date = λ _. none; order = λ _. 8 ∷ [] }

abbrev pub all_up : Env
all_up = record {
  fails = λ _. false;
  now = λ _. "2026-03-20 12:00:00";
  accepts_verdict = λ _. true;
  to_integer = atoi;
}

abbrev pub plain_task : ℕ → String → String → List ℕ → Task
plain_task n owner status blockers = record {
  id = n;
  title = "a task";
  why = "";
  owner = owner;
  status = status;
  mode = "code";
  workflow = "code_task";
  type = none;
  effective_score = tenths 0;
  blocked_by = blockers;
  done_when = "tests pass" ∷ [];
  references = [];
  consumers = [];
  priority_override = pos 0;
  task_plan = "";
  spec = "";
  business_value = "";
  note = "";
  session = "";
  created = "2026-03-01";
  parent_task_id = none;
  created_at = "";
  updated_at = "";
  closed_at = none;
  custom_fields = none;
  progress = none;
  reporter_verified = false;
  reporter_verified_at = none;
  postmortem_path = "";
  migration_note = "";
  client_id = none;
  project_id = none;
  tags = [];
}

abbrev pub waiting : Task
waiting = plain_task 8 "sam" "BACKLOG" (7 ∷ [])

abbrev pub at_approval : Task
at_approval = plain_task 7 "ann" "AWAITING_APPROVAL" []

abbrev pub closure_pass : Review
closure_pass = record {
  id = 1;
  task_id = 7;
  reviewer_model = "task-closure-reviewer";
  verdict = "PASS";
  summary = "fine";
  reviewed_at = "";
  is_latest = true;
}

abbrev pub approval_db : Db
approval_db = record {
  tasks = at_approval ∷ waiting ∷ [];
  reviews = closure_pass ∷ [];
  audit = [];
  next_review = 2;
  edges = [];
}

abbrev pub approval_world : World
approval_world = record {
  db = approval_db;
  cache = some (record { version = 0; entries = [] });
  calls = 0;
}
