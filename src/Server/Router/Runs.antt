-- ===== src/Server/Router/Runs.antt =====
-- Runs of HTTP requests: what holds of the tables and of the cache behind every sequence of them.
use backlog_server.Prelude.{
  ℕ, ◌+◌, ◌≡◌, refl, sym, ap, ◌∙◌, List, [], ◌∷◌, ◌++◌, some, map, length, In, arith,
}
use mathlib.Core.List.{append_assoc}
use backlog_server.Exec.{ok}
use backlog_server.Server.Auth.{HttpRequest}
use backlog_server.Server.Handlers.{Site}
use backlog_server.Server.Router.{serve_http, run_http}
use backlog_server.Server.Router.Effects.{serve_http-Answered}
use backlog_server.Server.Router.Coherent.{serve_http-Coherent}
use backlog_server.Store.Db.{Task, Audit, Db, find_task}
use backlog_server.Store.Tables.{id_of}
use backlog_server.Store.Session.{Env, World, get_task}
use backlog_server.Store.Session.Coherent.{Coherent, get_task-Coherent, room-Coherent}
use backlog_server.Store.Changes.{Change-ids, Change-audit}

module _ (env : Env) (site : Site) (key : List ℕ) where
  -- What one request keeps, a run keeps.
  module _ (P : Db → Type 0)
      (kept : (r : HttpRequest) (w : World) → P w.db → P (serve_http env site key r w).1.db) where
    run_keeps : (rs : List HttpRequest) (w : World) → P w.db → P (run_http env site key rs w).db
    unfolding run_http
    run_keeps [] w p = p
    run_keeps (r ∷ rs) w p = run_keeps rs (serve_http env site key r w).1 (kept r w p)

  -- A sequence of HTTP requests drops and renumbers no row of tasks.
  pub run_http-ids :
      (rs : List HttpRequest) (w : World) (n : ℕ)
      → In n (map id_of w.db.tasks)
      → In n (map id_of (run_http env site key rs w).db.tasks)
  run_http-ids rs w n =
      run_keeps (λ d. In n (map id_of d.tasks))
        (λ r v. Change-ids v.db _ (serve_http-Answered env site key r v).0 n) rs w

  run_http-audit :
      (rs : List HttpRequest) (w : World)
      → (rows : List Audit) × ((run_http env site key rs w).db.audit ≡ rows ++ w.db.audit)
  run_http-audit rs w =
      run_keeps (λ d. (rows : List Audit) × (d.audit ≡ rows ++ w.db.audit))
        (λ r v (rows, e).
          let (more, p) = Change-audit v.db _ (serve_http-Answered env site key r v).0 in
          (more ++ rows, p ∙ ap (λ a. more ++ a) e ∙ sym (append_assoc more rows w.db.audit)))
        rs w ([], refl)

  run_http-Coherent :
      (k : ℕ) (rs : List HttpRequest) (w : World)
      → Coherent (length rs + k) w
      → Coherent k (run_http env site key rs w)
  unfolding run_http
  run_http-Coherent k [] w c = room-Coherent (0 + k) k w (omega arith) c
  run_http-Coherent k (r ∷ rs) w c = run_http-Coherent k rs (serve_http env site key r w).1 (
      serve_http-Coherent env site (length rs + k) key r w
        (room-Coherent (length (r ∷ rs) + k) (length rs + k + 1) w (omega arith) c))

  -- Behind any sequence of HTTP requests GetTask returns, whenever it returns a task, the row that
  -- the table has, whether it was cached or not, provided that the cache was coherent before and
  -- that the version counter has room for the run without wrapping.
  pub run_http-get_task :
      (rs : List HttpRequest) (w : World)
      → Coherent (length rs) w
      → (n : ℕ) (t : Task) → (get_task env n (run_http env site key rs w)).0 ≡ ok t
      → find_task n (run_http env site key rs w).db.tasks ≡ some t
  run_http-get_task rs w c n t e =
      let kept =
        run_http-Coherent 0 rs w (room-Coherent (length rs) (length rs + 0) w (omega arith) c) in
      (get_task-Coherent env n 0 (run_http env site key rs w) kept).1 t e
