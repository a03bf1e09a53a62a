-- ===== src/Server/Router.antt =====
-- internal/server/server.go: the router of New, which wraps the handlers in authMiddleware. chi's
-- choice of a route and its {id} are part of the request.
pub mod Fair
pub mod Effects
pub mod Coherent
pub mod Runs
use backlog_server.Prelude.{ℕ, List, [], ◌∷◌}
use backlog_server.Server.Auth.{
  Endpoint, HttpRequest, HttpResponse, served, write_error, auth_middleware,
}
use backlog_server.Server.Handlers.{
  Reply, error, Site, handle_healthz, handle_create, handle_get_task, handle_advance, handle_take,
  handle_release, handle_cancel, handle_supersede, handle_review_submit, handle_verify,
  handle_postmortem, handle_revision, handle_update,
}
use backlog_server.Store.Session.{Env, World}

module _ (env : Env) (site : Site) where
  unfoldable pub dispatch : Endpoint → HttpRequest → World → Reply × World
  dispatch Endpoint.healthz r = handle_healthz env site
  dispatch Endpoint.create r = handle_create env site r
  dispatch Endpoint.task r = handle_get_task env site r
  dispatch Endpoint.advance r = handle_advance env site r
  dispatch Endpoint.take r = handle_take env site r
  dispatch Endpoint.release r = handle_release env site r
  dispatch Endpoint.cancel r = handle_cancel env site r
  dispatch Endpoint.supersede r = handle_supersede env site r
  dispatch Endpoint.review_submit r = handle_review_submit env site r
  dispatch Endpoint.verify r = handle_verify env site r
  dispatch Endpoint.postmortem r = handle_postmortem env site r
  dispatch Endpoint.revision r = handle_revision env site r
  dispatch Endpoint.update r = handle_update env site r

  deliver : HttpResponse (World → Reply × World) → World → Reply × World
  deliver (served handle) w = handle w
  deliver (write_error code message) w = (error code message, w)

  -- The server with `key` as its AgentKey.
  unfoldable pub serve_http : List ℕ → HttpRequest → World → Reply × World
  unfolding deliver dispatch
  serve_http key r = deliver (auth_middleware key (λ q. served (dispatch q.endpoint q)) r)

  unfoldable pub run_http : List ℕ → List HttpRequest → World → World
  unfolding serve_http
  run_http key [] w = w
  run_http key (r ∷ rs) w = run_http key rs (serve_http key r w).1
