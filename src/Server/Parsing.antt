-- ===== src/Server/Parsing.antt =====
-- internal/server/handlers.go: what the handlers check before they call the store.
use backlog_server.Prelude.{
  ℕ, String, Bool, not, List, Option, none, some, if◌then◌else◌, is_empty, is_nil, trim_space,
}
use Prim.Native.String.{◌++◌}
use backlog_server.Prelude.Int.{ℤ, pos, pos_part, ltb_ℤ}
use backlog_server.Prelude.Atoi.{atoi}
use backlog_server.Server.Json.{text_of, number_of, flag_of}
use backlog_server.Server.Auth.{HttpRequest}
use backlog_server.Store.Create.{CreateTaskRequest}
use backlog_server.Store.Review.{is_valid_review_verdict}

-- What a handler finds before it calls the store: an answer of 400, or the arguments of the call.
pub data Checked (A : Type 0) : Type 0 where
  refused : String → Checked A
  passed : A → Checked A

infixl 10 ◌>>=◌ ◌>>◌
abbrev ◌>>=◌ : {A B : Type 0} → Checked A → (A → Checked B) → Checked B
refused e >>= f = refused e
passed a >>= f = f a

abbrev ◌>>◌ : {A B : Type 0} → Checked A → Checked B → Checked B
m >> n = m >>= λ _. n

abbrev or_refuse : {A : Type 0} → String → Option A → Checked A
or_refuse e none = refused e
or_refuse e (some a) = passed a

-- strconv.Atoi(chi.URLParam(r, "id"))
abbrev path_id : HttpRequest → Checked ℤ
path_id r = or_refuse "id must be integer" (atoi r.id_param)

abbrev decoded : {A : Type 0} → Option A → Checked A
decoded = or_refuse "invalid JSON"

abbrev require : Bool → String → Checked (Unit {0})
require good e = if good then passed tt else refused e

abbrev filled : String → String → Checked (Unit {0})
filled s e = require (not (is_empty s)) e

abbrev required : String → String → Checked String
required s e = filled (trim_space s) e >>= λ _. passed (trim_space s)

unfoldable pub parse_id : HttpRequest → Checked ℤ
parse_id = path_id

unfoldable pub parse_agent : HttpRequest → Checked (ℤ × String)
parse_agent r = do
  id ← path_id r
  agent ← decoded (text_of "agent" r.body)
  agent ← required agent "agent required"
  passed (id, agent)

unfoldable pub parse_advance : HttpRequest → Checked (ℤ × String × Bool)
parse_advance r = do
  id ← path_id r
  agent ← decoded (text_of "agent" r.body)
  approve ← decoded (flag_of "approve" r.body)
  agent ← required agent "agent required"
  passed (id, agent, approve)

unfoldable pub parse_cancel : HttpRequest → Checked (ℤ × String × String)
parse_cancel r = do
  id ← path_id r
  agent ← decoded (text_of "agent" r.body)
  reason ← decoded (text_of "reason" r.body)
  agent ← required agent "agent required"
  passed (id, agent, reason)

-- by_id is positive behind its check.
unfoldable pub parse_supersede : HttpRequest → Checked (ℤ × String × ℕ)
parse_supersede r = do
  id ← path_id r
  agent ← decoded (text_of "agent" r.body)
  by ← decoded (number_of "by_id" r.body)
  agent ← required agent "agent required"
  require (ltb_ℤ (pos 0) by) "by_id required (positive integer)"
  passed (id, agent, pos_part by)

pub record ReviewCall : Type 0 where
  pub agent : String
  pub reviewer : String
  pub verdict : String
  pub summary : String
  pub is_aggregate : Bool

unfoldable pub parse_review_submit : HttpRequest → Checked (ℤ × ReviewCall)
parse_review_submit r = do
  id ← path_id r
  agent ← decoded (text_of "agent" r.body)
  reviewer ← decoded (text_of "reviewer" r.body)
  verdict ← decoded (text_of "verdict" r.body)
  summary ← decoded (text_of "summary" r.body)
  is_aggregate ← decoded (flag_of "is_aggregate" r.body)
  agent ← required agent "agent required (caller / audit_trail.agent)"
  reviewer ← required reviewer "reviewer required (reviewer_model — e.g. code-reviewer)"
  verdict ← required verdict "verdict required (PASS/ACCEPT/NEEDS_WORK/FAIL/REOPEN)"
  require (is_valid_review_verdict verdict)
      ("invalid verdict '" ++ verdict ++ "' — use PASS/ACCEPT/NEEDS_WORK/FAIL/REOPEN")
  passed (
    id,
    record {
      agent = agent;
      reviewer = reviewer;
      verdict = verdict;
      summary = summary;
      is_aggregate = is_aggregate;
    },
  )

unfoldable pub parse_verify : HttpRequest → Checked (ℤ × String × String)
parse_verify r = do
  id ← path_id r
  agent ← decoded (text_of "agent" r.body)
  reason ← decoded (text_of "failed" r.body)
  agent ← required agent "agent required"
  passed (id, agent, trim_space reason)

-- The body of handlePostmortem and of handleRevision: a second text that must not be empty.
unfoldable pub parse_with : String → HttpRequest → Checked (ℤ × String × String)
parse_with name r = do
  id ← path_id r
  agent ← decoded (text_of "agent" r.body)
  other ← decoded (text_of name r.body)
  agent ← required agent "agent required"
  other ← required other (name ++ " required")
  passed (id, agent, other)

unfoldable pub parse_update : HttpRequest → Checked (ℤ × String × List (String × String))
parse_update r = do
  id ← path_id r
  form ← decoded r.update_form
  agent ← required form.0 "agent required"
  require (not (is_nil form.1)) "updates map required"
  passed (id, agent, form.1)

-- handleCreate: the request with its agent trimmed.
unfoldable pub parse_create : HttpRequest → Checked CreateTaskRequest
parse_create r = do
  req ← decoded r.task_body
  agent ← required req.agent "agent required"
  passed (record req { agent = agent })
