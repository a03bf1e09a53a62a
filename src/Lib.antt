-- ===== src/Lib.antt =====
-- backlog-server: a task tracker's server in Go. HTTP handlers (internal/server) call methods of the
-- store (internal/store), which read and write PostgreSQL in transactions and keep rows in Redis
-- under keys that carry a version (internal/cache); a task that is closed makes the store rescore
-- the open ones (internal/scoring).
--
-- The parts and their files:
-- - Lifecycle: the advance maps, ComputeAdvanceTarget and defaultReviewers of
--   internal/store/store.go; Lifecycle/Stages orders the statuses.
-- - Cache: internal/cache/cache.go, Get, Set, Bump, Version as get, set, bump, version_of.
-- - Store/Db: the columns of tasks, review_results and audit_trail that are read or written, and
--   single statements on them. Store/Session: the pool, transactions and cacheOrFetch; an operation
--   is a function from a World (what is committed, the cache, a count of calls) to an outcome and a
--   World, the body of a transaction one on a Conn (the transaction's own view of the tables).
-- - Store/Take, Store/Close, Store/Incident, Store/Review, Store/Advance, Store/Rescore: TakeTask and
--   ReleaseTask; CancelTask and SupersedeTask; VerifyTask, SetPostmortem and RequestRevision;
--   SubmitReview and HasLatestVerdict; AdvanceTask with getRequiredReviews; and rescoreAfterDone of
--   internal/store/rescore.go. A method's name is spelled in lower case (take_task).
-- - Store/Update: UpdateTask, its differences and its UPDATE; what the row reads behind it.
-- - Store/Merge: MergeTasks, what it computes (Planning), its transaction as a list of statements,
--   and the rows behind it.
-- - Store/Writes: what an operation may do to the tables, as one abstract relation, and what it
--   keeps. Store/Requests: the operations as requests, served one after the other.
-- - Scoring: internal/scoring (RecalculateAll, RecalculateUnblocked, blocksReachability,
--   AgentTypePenalty, DetectType).
-- - Config: internal/config/taskowners.go (MatchRule, SuggestMatches), templates.go, and
--   workflows.go (DeriveFromOwnerMode, ValidateCustom).
-- - Store/Create: internal/store/create.go, with Ears (internal/ears) and Signals
--   (internal/signals): CreateTask, its checks (Create, CrossDb), its transaction (Insert), and the
--   whole (Pipeline). Store/Changes: what requests and creations keep of the tables.
-- - Server/Auth: authMiddleware and constantTimeEq of internal/server/auth.go. Server/Json,
--   Server/Parsing, Server/Handlers: the handlers of internal/server/handlers.go for these
--   operations. Server/Router: the router of internal/server/server.go; an HTTP request is a
--   function from a World to a reply and a World.
-- - Prelude and Exec are shared; Float stands for float64; Examples applies the theorems.
--
-- Parameters: which calls of the database and of Redis fail, NOW(), which verdicts the table's CHECK
-- accepts, and what the database reads as an integer (Env); float64 arithmetic (FloatOps); the day,
-- time.Parse, the lookup of capabilities and the order in which Go iterates over a map, round by
-- round (Scorer and the arguments of Scoring); chi's choice of a route, the words of encoding/json,
-- the answers of the other server that CreateTask asks, and the defaults of the schema (HttpRequest,
-- Site). A transaction that does not commit leaves the tables as they were, and nothing else writes
-- between the calls of one operation.
--
-- Fuel: the search of blocksReachability takes one round for each entry of the stack, and an edge is
-- pushed at most once; the ten rounds of RecalculateAll are the source's own bound.
--
-- The ids of tasks, those in blocked_by included, are natural numbers; a parent is an integer.
--
-- Letters: ToUpper and ToLower change ASCII and the basic Cyrillic letters. A JSON column holds its
-- parsed value. An expired entry of the cache counts as a call that failed. The version counter wraps
-- at 2^64.
--
-- Not modelled: the loading of configuration files, the reports by SQL,
-- sprints, aggregate reviews, the other HTTP handlers (handleMerge among them: MergeTasks stands by
-- itself), the notify listener, the client and main.
pub mod Prelude
pub mod Exec
pub mod Cache
pub mod Float
pub mod Scoring
pub mod Lifecycle
pub mod Store
pub mod Config
pub mod Ears
pub mod Signals
pub mod Server
pub mod Examples
