-- ===== src/Server/Auth.antt =====
-- internal/server/auth.go: the check of X-Agent-Key. A header is its bytes, empty where the request
-- has none; the next handler is a function of the request.
pub mod Admission
use Prim.Native.Nat.{bit_or, bit_xor}
use backlog_server.Server.Json.{Body}
use backlog_server.Store.Create.{CreateTaskRequest}
use backlog_server.Prelude.{
  ℕ, String, Bool, true, false, not, ◌&&◌, ◌||◌, Option, List, [], ◌∷◌, ◌==◌, eqb, length, any_by,
  if◌then◌else◌,
}

-- The route of New that chi matched, of those whose handlers are modelled.
pub data Endpoint : Type 0 where
  healthz create task advance take release cancel supersede review_submit verify postmortem revision
        update :
      Endpoint

-- `id_param` is chi's {id}, "" where the route has none; `task_body` is what encoding/json makes of the
-- body of POST /tasks, none on an error; `update_form` likewise of the agent and the updates of an update, of a
-- map the entries in the order of Go's iteration.
pub record HttpRequest : Type 0 where
  pub path : String
  pub agent_key : List ℕ
  pub endpoint : Endpoint
  pub id_param : String
  pub body : Body
  pub task_body : Option CreateTaskRequest
  pub update_form : Option (String × List (String × String))

-- A response: what the next handler writes, or writeJSON with a status and an error.
pub data HttpResponse (A : Type 0) : Type 0 where
  served : A → HttpResponse A
  write_error : ℕ → String → HttpResponse A

-- The loop of constantTimeEq: `v` gathers the bits in which the two differ.
unfoldable pub diff_bits : ℕ → List ℕ → List ℕ → ℕ
diff_bits v (x ∷ xs) (y ∷ ys) = diff_bits (bit_or v (bit_xor x y)) xs ys
diff_bits v [] ys = v
diff_bits v (x ∷ xs) [] = v

unfoldable pub constant_time_eq : List ℕ → List ℕ → Bool
unfolding diff_bits
constant_time_eq xs ys =
    if not (eqb (length xs) (length ys))
    then false
    else eqb (diff_bits 0 xs ys) 0 && not (any_by (eqb 0) xs)

unfoldable pub auth_middleware :
    {A : Type 0} → List ℕ → (HttpRequest → HttpResponse A) → HttpRequest → HttpResponse A
unfolding constant_time_eq
auth_middleware expected next r =
    if r.path == "/healthz"
    then next r
    else if eqb (length r.agent_key) 0 || not (constant_time_eq r.agent_key expected)
    then write_error 401 "X-Agent-Key required or invalid"
    else next r
