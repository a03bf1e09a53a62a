-- ===== src/Store/Requests/Coherent.antt =====
-- Every request keeps the cache coherent.
use backlog_server.Prelude.{ℕ, ◌+◌}
use backlog_server.Store.Session.{Env, World, get_task}
use backlog_server.Store.Session.Coherent.{Coherent, get_task-Coherent, less_room}
use backlog_server.Store.Rescore.{Scorer}
use backlog_server.Store.Take.Coherent.{take_task-Coherent, release_task-Coherent}
use backlog_server.Store.Close.Coherent.{cancel_task-Coherent, supersede_task-Coherent}
use backlog_server.Store.Incident.Coherent.{
  verify_task-Coherent, set_postmortem-Coherent, request_revision-Coherent,
}
use backlog_server.Store.Review.Coherent.{submit_review-Coherent}
use backlog_server.Store.Update.Coherent.{update_task_fields-Coherent}
use backlog_server.Store.Advance.Coherent.{advance_task-Coherent}
use backlog_server.Store.Requests.{
  Request, get, take, release, cancel, supersede, verify, postmortem, revise, submit, advance,
  update, serve,
}

module _ (env : Env) (scorers : ℕ → Scorer) where
  pub serve-Coherent :
      (k : ℕ) (r : Request) (w : World) → Coherent (k + 1) w → Coherent k (serve env scorers r w)
  unfolding serve
  serve-Coherent k (get n) w c =
      less_room k (get_task env n w).1 (get_task-Coherent env n (k + 1) w c).0
  serve-Coherent k (take n agent) w c = take_task-Coherent env n agent k w c
  serve-Coherent k (release n agent) w c = release_task-Coherent env n agent k w c
  serve-Coherent k (cancel n agent reason) w c = cancel_task-Coherent env n agent reason k w c
  serve-Coherent k (supersede n agent by) w c = supersede_task-Coherent env n agent by k w c
  serve-Coherent k (verify n agent reason) w c = verify_task-Coherent env n agent reason k w c
  serve-Coherent k (postmortem n agent path) w c = set_postmortem-Coherent env n agent path k w c
  serve-Coherent k (revise n agent reason) w c = request_revision-Coherent env n agent reason k w c
  serve-Coherent k (submit n caller reviewer verdict summary agg) w c =
      submit_review-Coherent env n caller reviewer verdict summary agg k w c
  serve-Coherent k (advance n agent approve) w c =
      advance_task-Coherent env (scorers w.calls) n agent approve k w c
  serve-Coherent k (update n agent updates) w c =
      update_task_fields-Coherent env n agent updates k w c
