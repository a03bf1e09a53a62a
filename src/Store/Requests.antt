-- ===== src/Store/Requests.antt =====
-- The requests that the store serves, one at a time, and runs of them.
pub mod Coherent
pub mod Effects
pub mod Runs
use backlog_server.Prelude.{ℕ, String, Bool, List, [], ◌∷◌}
use backlog_server.Store.Session.{Env, World, get_task}
use backlog_server.Store.Rescore.{Scorer}
use backlog_server.Store.Take.{take_task, release_task}
use backlog_server.Store.Close.{cancel_task, supersede_task}
use backlog_server.Store.Incident.{verify_task, set_postmortem, request_revision}
use backlog_server.Store.Review.{submit_review}
use backlog_server.Store.Update.{update_task_fields}
use backlog_server.Store.Advance.{advance_task}

pub data Request : Type 0 where
  get : ℕ → Request
  take : ℕ → String → Request
  release : ℕ → String → Request
  cancel : ℕ → String → String → Request
  supersede : ℕ → String → ℕ → Request
  verify : ℕ → String → String → Request
  postmortem : ℕ → String → String → Request
  revise : ℕ → String → String → Request
  submit : ℕ → String → String → String → String → Bool → Request
  advance : ℕ → String → Bool → Request
  update : ℕ → String → List (String × String) → Request

-- `scorers` is what a rescore finds at the n-th call.
module _ (env : Env) (scorers : ℕ → Scorer) where
  -- What a request leaves, whatever it answers.
  unfoldable pub serve : Request → World → World
  serve (get n) w = (get_task env n w).1
  serve (take n agent) w = (take_task env n agent w).1
  serve (release n agent) w = (release_task env n agent w).1
  serve (cancel n agent reason) w = (cancel_task env n agent reason w).1
  serve (supersede n agent by) w = (supersede_task env n agent by w).1
  serve (verify n agent reason) w = (verify_task env n agent reason w).1
  serve (postmortem n agent path) w = (set_postmortem env n agent path w).1
  serve (revise n agent reason) w = (request_revision env n agent reason w).1
  serve (submit n caller reviewer verdict summary agg) w =
      (submit_review env n caller reviewer verdict summary agg w).1
  serve (advance n agent approve) w = (advance_task env (scorers w.calls) n agent approve w).1
  serve (update n agent updates) w = (update_task_fields env n agent updates w).1

  unfoldable pub run : List Request → World → World
  unfolding serve
  run [] w = w
  run (r ∷ rs) w = run rs (serve r w)
