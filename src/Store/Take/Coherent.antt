-- ===== src/Store/Take/Coherent.antt =====
-- TakeTask and ReleaseTask keep the cache coherent.
use backlog_server.Prelude.{ℕ, ◌+◌, String}
use backlog_server.Store.Session.{Env, World}
use backlog_server.Store.Session.Coherent.{Coherent, guarded-Coherent}
use backlog_server.Store.Take.{
  untakeable, unreleaseable, take_refusal, release_refusal, moved, take_body, release_body,
  take_task, release_task,
}

module _ (env : Env) (n : ℕ) (agent : String) where
  pub take_task-Coherent :
      (k : ℕ) (w : World) → Coherent (k + 1) w → Coherent k (take_task env n agent w).1
  unfolding take_task
  take_task-Coherent =
      guarded-Coherent env n untakeable take_refusal (moved "IN_PROGRESS") (take_body env n agent)
        (λ t. record t { status = "IN_PROGRESS"; owner = agent })

  pub release_task-Coherent :
      (k : ℕ) (w : World) → Coherent (k + 1) w → Coherent k (release_task env n agent w).1
  unfolding release_task
  release_task-Coherent =
      guarded-Coherent env n unreleaseable release_refusal (moved "READY")
        (release_body env n agent) (λ t. record t { status = "READY" })
