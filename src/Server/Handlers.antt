-- ===== src/Server/Handlers.antt =====
-- internal/server/handlers.go: the handlers of the methods of one task. The header X-Cache is left out, and an error of the driver is the words that the source
-- wraps it in.
use backlog_server.Prelude.{ℕ, ◌+◌, String, Bool, true, false, List, [], ◌∷◌, if◌then◌else◌}
use Prim.Native.String.{◌++◌}
use backlog_server.Prelude.Int.{ℤ, pos, negsuc}
use backlog_server.Prelude.Decimal.{decimal}
use backlog_server.Exec
use backlog_server.Exec.{Exec, Outcome, ok, no_rows, failed}
use backlog_server.Server.Parsing.{
  Checked, refused, passed, parse_id, parse_create, parse_agent, parse_advance, parse_cancel,
  parse_supersede, parse_review_submit, parse_verify, parse_with, parse_update,
}
use backlog_server.Server.Auth.{HttpRequest}
use backlog_server.Store.Db.{Task}
use backlog_server.Store.Session.{Env, World, tick, cache_or_fetch, get_task}
use backlog_server.Store.Rescore.{Scorer}
use backlog_server.Store.Results.{
  GateFailure, AdvanceResult, SupersedeResult, VerifyResult, PostmortemResult, RevisionResult,
}
use backlog_server.Store.Create.{Registries}
use backlog_server.Store.Create.CrossDb.{Ping}
use backlog_server.Store.Create.Pipeline.{CreateTaskResult, create_task}
use backlog_server.Store.Take.{take_task, release_task}
use backlog_server.Store.Close.{cancel_task, supersede_task}
use backlog_server.Store.Incident.{verify_task, set_postmortem, request_revision}
use backlog_server.Store.Review.{ReviewSubmitResult, submit_review}
use backlog_server.Store.Update.{UpdateResult, update_task_fields}
use backlog_server.Store.Advance.{advance_task}

-- What a handler writes as JSON.
pub data Payload : Type 0 where
  health : Payload
  a_task : Task → Payload
  a_creation : CreateTaskResult → Payload
  an_advance : AdvanceResult → Payload
  a_supersede : SupersedeResult → Payload
  a_review : ReviewSubmitResult → Payload
  a_verify : VerifyResult → Payload
  a_postmortem : PostmortemResult → Payload
  a_revision : RevisionResult → Payload
  an_update : UpdateResult → Payload

-- writeJSON, of a payload, of an error, and of the error that names a missing task.
pub data Reply : Type 0 where
  json : ℕ → Payload → Reply
  error : ℕ → String → Reply
  missing : ℤ → Reply

abbrev pub status : Reply → ℕ
status (json code body) = code
status (error code message) = code
status (missing id) = 404

-- The answer to the store's result: `blocked` tells whether the handler answers it with 422.
unfoldable pub answer_with :
    {R : Type 0} → (R → Payload) → (R → Bool) → ℤ → Outcome R × World → Reply × World
answer_with wrap blocked id (ok a, w) = (json (if blocked a then 422 else 200) (wrap a), w)
answer_with wrap blocked id (no_rows, w) = (missing id, w)
answer_with wrap blocked id (failed e, w) = (error 500 e, w)

unfoldable pub respond :
    {P : Type 0} → Checked P → (P → World → Reply × World) → World → Reply × World
respond (refused e) call w = (error 400 e, w)
respond (passed p) call w = call p w

abbrev pub some_failed : List GateFailure → Bool
some_failed [] = false
some_failed (f ∷ fs) = true

abbrev pub never_blocked : {R : Type 0} → R → Bool
never_blocked a = false

unfoldable pub absent : {A : Type 0} → Exec World A
absent w = (no_rows, w)

unfoldable pub no_row : Env → Exec World Task
no_row env w = if env.fails w.calls then (failed "query", tick w) else (no_rows, tick w)

-- A method on a task reads its row first. No row has a negative id, and so no entry of the cache
-- has one either: behind that read there is nothing to do.
unfoldable pub at_id : {R : Type 0} → Env → ℤ → (ℕ → Exec World R) → Exec World R
unfolding absent no_row
at_id env (pos n) call = call n
at_id env (negsuc n) call =
    Exec.◌>>=◌ (cache_or_fetch env ("task:-" ++ decimal (n + 1)) (no_row env)) (λ _. absent)

-- What the handlers find besides the database: at the n-th call, what a rescore reads, the
-- registries, the other server and the date; AX_API_BASE; and the defaults of the schema.
pub record Site : Type 0 where
  pub scorers : ℕ → Scorer
  pub registries : ℕ → Registries
  pub network : ℕ → String → Ping
  pub ax_api_base : String
  pub blank : Task
  pub today : ℕ → String

unfoldable pub created_reply : Outcome CreateTaskResult × World → Reply × World
created_reply (ok a, w) = (json (if some_failed a.failures then 422 else 200) (a_creation a), w)
created_reply (no_rows, w) = (error 500 "no rows in result set", w)
created_reply (failed e, w) = (error 500 e, w)

module _ (env : Env) (site : Site) where
  unfoldable pub handle_healthz : World → Reply × World
  handle_healthz w = (if env.fails w.calls then error 503 "ping" else json 200 health, tick w)

  unfoldable pub handle_create : HttpRequest → World → Reply × World
  unfolding respond created_reply
  handle_create r = respond (parse_create r) (λ req w. created_reply (
      create_task env site.blank (site.today w.calls) req (site.registries w.calls)
        (site.network w.calls) site.ax_api_base w))

  unfoldable pub handle_get_task : HttpRequest → World → Reply × World
  unfolding answer_with respond at_id
  handle_get_task r =
      respond (parse_id r)
        (λ id. λ w. answer_with a_task never_blocked id (at_id env id (get_task env) w))

  unfoldable pub handle_advance : HttpRequest → World → Reply × World
  unfolding answer_with respond at_id
  handle_advance r = respond (parse_advance r) (λ (id, agent, approve) w.
      answer_with an_advance (λ a. some_failed a.failures) id
        (at_id env id (λ n. advance_task env (site.scorers w.calls) n agent approve) w))

  unfoldable pub handle_take : HttpRequest → World → Reply × World
  unfolding answer_with respond at_id
  handle_take r = respond (parse_agent r) (λ (id, agent) w.
      answer_with an_advance (λ a. some_failed a.failures) id
        (at_id env id (λ n. take_task env n agent) w))

  unfoldable pub handle_release : HttpRequest → World → Reply × World
  unfolding answer_with respond at_id
  handle_release r = respond (parse_agent r) (λ (id, agent) w.
      answer_with an_advance (λ a. some_failed a.failures) id
        (at_id env id (λ n. release_task env n agent) w))

  unfoldable pub handle_cancel : HttpRequest → World → Reply × World
  unfolding answer_with respond at_id
  handle_cancel r = respond (parse_cancel r) (λ (id, agent, reason) w.
      answer_with an_advance (λ a. some_failed a.failures) id
        (at_id env id (λ n. cancel_task env n agent reason) w))

  unfoldable pub handle_supersede : HttpRequest → World → Reply × World
  unfolding answer_with respond at_id
  handle_supersede r = respond (parse_supersede r) (λ (id, agent, by) w.
      answer_with a_supersede (λ a. some_failed a.failures) id
        (at_id env id (λ n. supersede_task env n agent by) w))

  unfoldable pub handle_review_submit : HttpRequest → World → Reply × World
  unfolding answer_with respond at_id
  handle_review_submit r = respond (parse_review_submit r) (λ (id, c) w.
      answer_with a_review never_blocked id (
        at_id env id
          (λ n. submit_review env n c.agent c.reviewer c.verdict c.summary c.is_aggregate) w))

  unfoldable pub handle_verify : HttpRequest → World → Reply × World
  unfolding answer_with respond at_id
  handle_verify r = respond (parse_verify r) (λ (id, agent, reason) w.
      answer_with a_verify never_blocked id (at_id env id (λ n. verify_task env n agent reason) w))

  unfoldable pub handle_postmortem : HttpRequest → World → Reply × World
  unfolding answer_with respond at_id
  handle_postmortem r = respond (parse_with "path" r) (λ (id, agent, path) w.
      answer_with a_postmortem never_blocked id
        (at_id env id (λ n. set_postmortem env n agent path) w))

  unfoldable pub handle_revision : HttpRequest → World → Reply × World
  unfolding answer_with respond at_id
  handle_revision r = respond (parse_with "reason" r) (λ (id, agent, reason) w.
      answer_with a_revision (λ a. some_failed a.failures) id
        (at_id env id (λ n. request_revision env n agent reason) w))

  unfoldable pub handle_update : HttpRequest → World → Reply × World
  unfolding answer_with respond at_id
  handle_update r = respond (parse_update r) (λ (id, agent, updates) w.
      answer_with an_update (λ a. some_failed a.failures) id
        (at_id env id (λ n. update_task_fields env n agent updates) w))
