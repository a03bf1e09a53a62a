-- ===== src/Examples/Admitting.antt =====
-- The key of a request.
use backlog_server.Prelude.{ℕ, String, ◌≡◌, refl, ◌⊎◌, none, List, [], ◌∷◌}
use backlog_server.Server.Json.{object}
use backlog_server.Server.Auth.{
  Endpoint, HttpRequest, HttpResponse, served, write_error, auth_middleware,
}
use backlog_server.Server.Auth.Admission.{Admitted, auth_middleware-Admitted}

abbrev key : List ℕ
key = b'k' ∷ b'1' ∷ []

abbrev request : HttpRequest
request = record {
  path = "/task/7/take";
  agent_key = b'k' ∷ b'2' ∷ [];
  endpoint = Endpoint.take;
  id_param = "7";
  body = object [];
  task_body = none;
  update_form = none;
}

abbrev answer : HttpRequest → HttpResponse String
answer _ = served "ok"

refused_run : auth_middleware key answer request ≡ write_error 401 "X-Agent-Key required or invalid"
unfolding auth_middleware
refused_run = refl

auth_middleware-Admitted_example :
    (Admitted key request × (auth_middleware key answer request ≡ served "ok"))
    ⊎ ((¬ Admitted key request)
        × (auth_middleware key answer request ≡ write_error 401 "X-Agent-Key required or invalid"))
auth_middleware-Admitted_example = auth_middleware-Admitted key answer request
