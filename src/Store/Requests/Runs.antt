-- ===== src/Store/Requests/Runs.antt =====
-- Runs of requests: what holds of the tables and of the cache behind every sequence of them.
use backlog_server.Prelude.{
  ℕ, ◌+◌, ◌≡◌, refl, sym, ap, ◌∙◌, List, [], ◌∷◌, ◌++◌, some, map, length, All, arith,
}
use mathlib.Core.List.{append_assoc}
use backlog_server.Exec.{ok}
use backlog_server.Store.Db.{Task, Audit, Db, find_task}
use backlog_server.Store.Tables.{id_of}
use backlog_server.Store.Session.{Env, World, get_task}
use backlog_server.Store.Session.Coherent.{Coherent, get_task-Coherent, room-Coherent}
use backlog_server.Store.Rescore.{Scorer}
use backlog_server.Store.Review.Latest.{UniqueLatest}
use backlog_server.Store.Writes.{Timed}
use backlog_server.Store.Writes.Keeps.{Write-ids, Write-audit, Write-UniqueLatest, Write-Timed}
use backlog_server.Store.Writes.Trail.{Tells, Write-Tells}
use backlog_server.Store.Requests.{Request, serve, run}
use backlog_server.Store.Requests.Effects.{serve-Write}
use backlog_server.Store.Requests.Coherent.{serve-Coherent}

module _ (env : Env) (scorers : ℕ → Scorer) where
  -- What one request keeps, a run keeps.
  module _ (P : Db → Type 0)
      (kept : (r : Request) (w : World) → P w.db → P (serve env scorers r w).db) where
    run_keeps : (rs : List Request) (w : World) → P w.db → P (run env scorers rs w).db
    unfolding run
    run_keeps [] w p = p
    run_keeps (r ∷ rs) w p = run_keeps rs (serve env scorers r w) (kept r w p)

  -- A run of requests adds, drops, renumbers and reorders no row of tasks.
  pub run-ids :
      (rs : List Request) (w : World)
      → map id_of (run env scorers rs w).db.tasks ≡ map id_of w.db.tasks
  run-ids rs w =
      run_keeps (λ d. map id_of d.tasks ≡ map id_of w.db.tasks)
        (λ r v e. Write-ids v.db _ (serve-Write env scorers r v) ∙ e) rs w refl

  -- A run of requests leaves the audit rows that it found, in their order, behind the rows that it
  -- adds.
  pub run-audit :
      (rs : List Request) (w : World)
      → (rows : List Audit) × ((run env scorers rs w).db.audit ≡ rows ++ w.db.audit)
  run-audit rs w =
      run_keeps (λ d. (rows : List Audit) × (d.audit ≡ rows ++ w.db.audit))
        (λ r v (rows, e).
          let (more, p) = Write-audit v.db _ (serve-Write env scorers r v) in
          (more ++ rows, p ∙ ap (λ a. more ++ a) e ∙ sym (append_assoc more rows w.db.audit)))
        rs w ([], refl)

  -- If at most one review of each task and reviewer is marked latest, this is still so behind any
  -- run of requests.
  pub run-UniqueLatest :
      (rs : List Request) (w : World)
      → UniqueLatest w.db.reviews
      → UniqueLatest (run env scorers rs w).db.reviews
  run-UniqueLatest =
      run_keeps (λ d. UniqueLatest d.reviews)
        (λ r v. Write-UniqueLatest v.db _ (serve-Write env scorers r v))

  -- If every task that is DONE, CANCELLED or SUPERSEDED has a closed_at, this is still so behind
  -- any run of requests.
  pub run-Timed :
      (rs : List Request) (w : World)
      → All Timed w.db.tasks
      → All Timed (run env scorers rs w).db.tasks
  run-Timed =
      run_keeps (λ d. All Timed d.tasks) (λ r v. Write-Timed v.db _ (serve-Write env scorers r v))

  -- If the last status that the audit trail tells of each task is its status in the table, this is
  -- still so behind any run of requests.
  pub run-Tells : (rs : List Request) (w : World) → Tells w.db → Tells (run env scorers rs w).db
  run-Tells = run_keeps Tells (λ r v. Write-Tells v.db _ (serve-Write env scorers r v))

  run-Coherent :
      (k : ℕ) (rs : List Request) (w : World)
      → Coherent (length rs + k) w
      → Coherent k (run env scorers rs w)
  unfolding run
  run-Coherent k [] w c = room-Coherent (0 + k) k w (omega arith) c
  run-Coherent k (r ∷ rs) w c = run-Coherent k rs (serve env scorers r w) (
      serve-Coherent env scorers (length rs + k) r w
        (room-Coherent (length (r ∷ rs) + k) (length rs + k + 1) w (omega arith) c))

  -- Behind any run of requests GetTask returns, whenever it returns a task, the row that the table
  -- has, whether it was cached or not, provided that the cache was coherent before the run and that
  -- the version counter has room for the run without wrapping.
  pub run-get_task :
      (rs : List Request) (w : World)
      → Coherent (length rs) w
      → (n : ℕ) (t : Task) → (get_task env n (run env scorers rs w)).0 ≡ ok t
      → find_task n (run env scorers rs w).db.tasks ≡ some t
  run-get_task rs w c n t e =
      let kept =
        run-Coherent 0 rs w (room-Coherent (length rs) (length rs + 0) w (omega arith) c) in
      (get_task-Coherent env n 0 (run env scorers rs w) kept).1 t e
