-- ===== src/Examples/Running.antt =====
-- A run of requests: task 8 is taken, task 7 approved.
use backlog_server.Prelude.{
  ℕ, ◌+◌, ◌<◌, ◌^◌, String, Bool, true, false, ◌≡◌, ◌≢◌, refl, sym, ap, ◌∙◌, inl, inr, List, [],
  ◌∷◌, ◌++◌, map, some, none, All, In, arith, eqb, ◌==◌, eqb_iff, eq_iff, trim_space, to_upper,
  to_lower, length, Option,
}
use backlog_server.Exec.{ok}
use backlog_server.Cache
use backlog_server.Cache.{Cache, find_entry, version_of}
use backlog_server.Store.Db.{Task, Audit, Db, find_task}
use backlog_server.Store.Session.{Env, World, get_task, task_suffix}
use backlog_server.Store.Session.Coherent.{Coherent}
use backlog_server.Store.Rescore.{Scorer}
use backlog_server.Store.Review.Latest.{UniqueLatest, latest_rows}
use backlog_server.Store.Writes.{Timed, Write, last_status, closing_statuses}
use backlog_server.Store.Writes.Trail.{Tells}
use backlog_server.Store.Requests.{Request, take, advance, serve, run}
use backlog_server.Store.Requests.Effects.{serve-Write}
use backlog_server.Store.Requests.Runs.{run-audit, run-Tells, run-get_task}
use backlog_server.Examples.{all_up, toy_scorer, approval_world, approval_db, waiting}

abbrev scorers : ℕ → Scorer
scorers n = toy_scorer

abbrev two_requests : List Request
two_requests = take 8 "bob" ∷ advance 7 "op" true ∷ []

pub Coherent-start : Coherent 2 approval_world
unfolding find_entry version_of
Coherent-start = (λ k x e. absurd (cc), λ v k l. refl, omega arith)

pub unique_start : UniqueLatest approval_db.reviews
unfolding latest_rows
unique_start n reviewer = ground arith

pub Timed-start : All Timed approval_db.tasks
Timed-start = (λ i. absurd (never i), (λ i. absurd (never_backlog i), tt))
  where
    never : In "AWAITING_APPROVAL" closing_statuses → ⊥
    never (inl e) = let p = ap (λ s. s == "DONE") e in cc
    never (inr (inl e)) = let p = ap (λ s. s == "CANCELLED") e in cc
    never (inr (inr (inl e))) = let p = ap (λ s. s == "SUPERSEDED") e in cc
    never (inr (inr (inr i))) = elim i [ ]

    never_backlog : In "BACKLOG" closing_statuses → ⊥
    never_backlog (inl e) = let p = ap (λ s. s == "DONE") e in cc
    never_backlog (inr (inl e)) = let p = ap (λ s. s == "CANCELLED") e in cc
    never_backlog (inr (inr (inl e))) = let p = ap (λ s. s == "SUPERSEDED") e in cc
    never_backlog (inr (inr (inr i))) = elim i [ ]

pub Tells-start : Tells approval_db
unfolding last_status
Tells-start n t s here said = absurd (cc)

abbrev left : World
left = run all_up scorers two_requests approval_world

run-audit_example : (rows : List Audit) × (left.db.audit ≡ rows ++ [])
run-audit_example = run-audit all_up scorers two_requests approval_world

run-Tells_example : Tells left.db
run-Tells_example = run-Tells all_up scorers two_requests approval_world Tells-start

serve-Write_example : Write approval_db (serve all_up scorers (take 8 "bob") approval_world).db
serve-Write_example = serve-Write all_up scorers (take 8 "bob") approval_world

abbrev taken_by_bob : Task
taken_by_bob = record waiting {
  status = "IN_PROGRESS";
  owner = "bob";
  updated_at = "2026-03-20 12:00:00";
}

read_back :
    (get_task all_up 8 (run all_up scorers (take 8 "bob" ∷ []) approval_world)).0 ≡ ok taken_by_bob
unfolding run get_task backlog_server.Store.Session.cache_or_fetch Cache.get
    backlog_server.Store.Take.take_task find_entry backlog_server.Store.Session.fetch_task find_task
    backlog_server.Store.Take.untakeable backlog_server.Prelude.mem_text
    backlog_server.Store.Results.normal_status to_upper trim_space
    backlog_server.Store.Session.change backlog_server.Store.Session.transact
    backlog_server.Store.Take.take_body backlog_server.Store.Session.exec
    backlog_server.Store.Session.bump backlog_server.Store.Session.refetch
    backlog_server.Store.Db.update_where backlog_server.Prelude.Decimal.decimal Cache.set Cache.bump
    backlog_server.Store.Take.taken
read_back = refl

pub Coherent-one : Coherent 1 approval_world
unfolding find_entry version_of
Coherent-one = (λ k x e. absurd (cc), λ v k l. refl, omega arith)

run-get_task_example :
    find_task 8 (run all_up scorers (take 8 "bob" ∷ []) approval_world).db.tasks ≡ some taken_by_bob
run-get_task_example =
    run-get_task all_up scorers (take 8 "bob" ∷ []) approval_world Coherent-one 8 taken_by_bob
      read_back
