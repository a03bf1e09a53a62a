-- ===== src/Examples/Serving.antt =====
-- The server on HTTP requests: task 8 is taken, a child of task 7 is created, and a stranger refused.
use backlog_server.Prelude.{
  ℕ, ◌<◌, ◌^◌, String, Bool, true, false, ◌≡◌, ◌↔◌, ◌⊎◌, refl, sym, ap, List, [], ◌∷◌, map, some,
  none, In, chr, inl, inr, length, arith,
}
use backlog_server.Prelude.Int.{pos}
use backlog_server.Prelude.Decimal.{decimal}
use backlog_server.Exec.{ok}
use backlog_server.Server.Json.{JsonValue, Body, object, text}
use backlog_server.Server.Auth.{Endpoint, HttpRequest}
use backlog_server.Server.Parsing.{passed, parse_id}
use backlog_server.Server.Handlers.{Site, status}
use backlog_server.Server.Router.{serve_http, run_http}
use backlog_server.Server.Router.Effects.{Answered, serve_http-Answered}
use backlog_server.Server.Router.Runs.{run_http-ids, run_http-get_task}
use backlog_server.Store.Db.{Task, find_task}
use backlog_server.Store.Tables.{id_of}
use backlog_server.Store.Session.{Env, World, get_task, task_suffix}
use backlog_server.Store.Session.Coherent.{room-Coherent}
use backlog_server.Store.Create.{CreateTaskRequest, Registries, validate}
use backlog_server.Store.Create.CrossDb.{Ping}
use backlog_server.Store.Create.Valid.{Valid, validate-Valid}
use backlog_server.Examples.{all_up, toy_scorer, plain_task, approval_world, approval_db, waiting}
use backlog_server.Examples.Running.{Coherent-start}

abbrev key : List ℕ
key = b'k' ∷ b'1' ∷ []

abbrev registries : Registries
registries = record { taskowners = some []; workflows = some ("fix" ∷ []) }

abbrev blank : Task
blank = plain_task 0 "" "" []

abbrev site : Site
site = record {
  scorers = λ _. toy_scorer;
  registries = λ _. registries;
  network = λ _ url. Ping.answered 404;
  ax_api_base = "";
  blank = blank;
  today = λ _. "2026-03-20";
}

abbrev child : CreateTaskRequest
child = record {
  agent = "ann";
  title = "A part of it";
  owner = "sam";
  mode = "Code";
  business_value = "";
  why = "";
  note = "";
  type = "";
  session = "";
  migration_note = "";
  client = "";
  project = "";
  parent = pos 7;
  priority_override = pos 0;
  blocked_by = 8 ∷ [];
  consumers = [];
  tags = [];
  references = [];
  auto_assign = false;
  lightweight = false;
  template = "";
  workflow = "fix";
  custom_workflow = none;
  signal_context = none;
}

abbrev take_request : HttpRequest
take_request = record {
  path = "/task/8/take";
  agent_key = key;
  endpoint = Endpoint.take;
  id_param = "8";
  body = object (("agent", text "bob") ∷ []);
  task_body = none;
  update_form = none;
}

abbrev create_request : HttpRequest
create_request = record {
  path = "/tasks";
  agent_key = key;
  endpoint = Endpoint.create;
  id_param = "";
  body = object [];
  task_body = some child;
  update_form = none;
}

abbrev update_request : HttpRequest
update_request = record {
  path = "/task/8/update";
  agent_key = key;
  endpoint = Endpoint.update;
  id_param = "8";
  body = object [];
  task_body = none;
  update_form = some ("bob", ("title", "renamed") ∷ ("owner", "eve") ∷ []);
}

abbrev three_requests : List HttpRequest
three_requests = take_request ∷ create_request ∷ update_request ∷ []

run_http-ids_example :
    In 8 (map id_of (run_http all_up site key three_requests approval_world).db.tasks)
run_http-ids_example = run_http-ids all_up site key three_requests approval_world 8 (inr (inl refl))

serve_http-Answered_example :
    Answered approval_db (serve_http all_up site key create_request approval_world)
serve_http-Answered_example = serve_http-Answered all_up site key create_request approval_world

validate-Valid_example : (validate registries child ≡ []) ↔ Valid registries child
validate-Valid_example = validate-Valid registries child

abbrev taken_row : Task
taken_row = record waiting {
  status = "IN_PROGRESS";
  owner = "bob";
  updated_at = "2026-03-20 12:00:00";
}

read_back :
    (get_task all_up 8 (run_http all_up site key (take_request ∷ []) approval_world)).0
    ≡ ok taken_row
unfolding run_http get_task backlog_server.Store.Session.cache_or_fetch backlog_server.Cache.get
    backlog_server.Server.Auth.auth_middleware backlog_server.Server.Handlers.handle_take
    backlog_server.Server.Parsing.parse_agent backlog_server.Prelude.Atoi.atoi
    backlog_server.Server.Json.text_of backlog_server.Prelude.equal_fold
    backlog_server.Prelude.trim_space backlog_server.Store.Take.take_task
    backlog_server.Cache.find_entry backlog_server.Store.Session.fetch_task find_task
    backlog_server.Store.Take.untakeable backlog_server.Prelude.mem_text
    backlog_server.Store.Results.normal_status backlog_server.Prelude.to_upper
    backlog_server.Store.Session.change backlog_server.Store.Session.transact
    backlog_server.Store.Take.take_body backlog_server.Store.Session.exec
    backlog_server.Store.Session.bump backlog_server.Store.Session.refetch
    backlog_server.Store.Db.update_where decimal backlog_server.Cache.set backlog_server.Cache.bump
    backlog_server.Store.Take.taken
read_back = refl

run_http-get_task_example :
    find_task 8 (run_http all_up site key (take_request ∷ []) approval_world).db.tasks
    ≡ some taken_row
run_http-get_task_example =
    run_http-get_task all_up site key (take_request ∷ []) approval_world
      (room-Coherent 2 1 approval_world (omega arith) Coherent-start) 8 taken_row read_back
