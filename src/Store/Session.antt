-- ===== src/Store/Session.antt =====
-- Sessions with PostgreSQL through pgxpool, and reads through the cache.
-- `Env` is what the program does not decide: which calls fail, and what NOW() says. The driver's
-- documented contract is built in: a statement that fails ends the transaction, a transaction that
-- does not commit leaves the tables as they were, and NOW() is one time within a transaction. No
-- other client writes between the calls of one operation.
pub mod Coherent
pub mod Endings
pub mod Methods
pub mod Reads
use backlog_server.Prelude.{
  ℕ, ◌+◌, String, Bool, true, false, not, Option, none, some, List, [], ◌∷◌, if◌then◌else◌,
}
use Prim.Native.String.{◌++◌}
use backlog_server.Prelude.Int.{ℤ}
use backlog_server.Prelude.Decimal.{decimal}
use backlog_server.Exec.{Exec, Outcome, ok, no_rows, failed, ◌>>=◌, ◌>>◌}
use backlog_server.Cache
use backlog_server.Cache.{Cache}
use backlog_server.Store.Db.{Task, Db, find_task}

pub record Env : Type 0 where
  pub fails : ℕ → Bool  -- whether the n-th call of the database or of Redis fails
  pub now : ℕ → String  -- NOW()::text at the n-th call
  pub accepts_verdict : String → Bool  -- the CHECK of review_results.verdict
  pub to_integer : String → Option ℤ  -- what PostgreSQL's ::integer makes of a text

pub record World : Type 0 where
  pub db : Db  -- what is committed
  pub cache : Option (Cache Task)
  pub calls : ℕ

-- An open transaction: its own view of the tables.
pub record Conn : Type 0 where
  pub view : Db
  pub called : ℕ

abbrev pub tick : World → World
tick w = record w { calls = w.calls + 1 }

abbrev pub task_suffix : ℕ → String
task_suffix n = "task:" ++ decimal n

abbrev pub row_or_none : Option Task → Outcome Task
row_or_none none = no_rows
row_or_none (some t) = ok t

or_else : Task → Outcome Task × World → Outcome Task × World
or_else t (ok u, w) = (ok u, w)
or_else t (no_rows, w) = (ok t, w)
or_else t (failed e, w) = (ok t, w)

module _ (env : Env) where
  -- tx.Exec of one statement
  unfoldable pub exec : String → (Db → Db) → Exec Conn (Unit {0})
  exec stage f c =
      if env.fails c.called
      then (failed stage, record c { called = c.called + 1 })
      else (ok tt, record { view = f c.view; called = c.called + 1 })

  -- tx.QueryRow of a statement that returns a value
  unfoldable pub query : {A : Type 0} → String → (Db → A × Db) → Exec Conn A
  query stage f c =
      if env.fails c.called
      then (failed stage, record c { called = c.called + 1 })
      else (let (a, d) = f c.view in (ok a, record { view = d; called = c.called + 1 }))

  finish : {A : Type 0} → World → Outcome A × Conn → Outcome A × World
  finish w (ok a, c) =
      if env.fails c.called
      then (failed "commit", record w { calls = c.called + 1 })
      else (ok a, record w { db = c.view; calls = c.called + 1 })
  finish w (no_rows, c) = (no_rows, record w { calls = c.called })
  finish w (failed e, c) = (failed e, record w { calls = c.called })

  -- pool.Begin, the body, tx.Commit; `defer tx.Rollback` drops the view of a body that failed. The
  -- body is given the transaction's NOW().
  unfoldable pub transact : {A : Type 0} → (String → Exec Conn A) → Exec World A
  unfolding finish
  transact body w =
      if env.fails w.calls
      then (failed "begin", tick w)
      else finish w (body (env.now w.calls) (record { view = w.db; called = w.calls + 1 }))

  -- s.cache.Bump()
  unfoldable pub bump : Exec World (Unit {0})
  bump w = (ok tt, record w { cache = Cache.bump w.cache })

  fill : String → Outcome Task × World → Outcome Task × World
  fill suffix (ok t, w) =
      (ok t, tick (record w { cache = Cache.set (not (env.fails w.calls)) w.cache suffix t }))
  fill suffix (no_rows, w) = (no_rows, w)
  fill suffix (failed e, w) = (failed e, w)

  read_through : Option Task → String → Exec World Task → Exec World Task
  read_through (some t) suffix fetch w = (ok t, w)
  read_through none suffix fetch w = fill suffix (fetch w)

  -- cacheOrFetch, at tasks
  unfoldable pub cache_or_fetch : String → Exec World Task → Exec World Task
  unfolding fill read_through
  cache_or_fetch suffix fetch w =
      read_through (Cache.get (not (env.fails w.calls)) w.cache suffix) suffix fetch (tick w)

  unfoldable pub fetch_task : ℕ → Exec World Task
  fetch_task n w =
      if env.fails w.calls
      then (failed "query", tick w)
      else (row_or_none (find_task n w.db.tasks), tick w)

  -- GetTask, without the flag that tells a hit of the cache
  unfoldable pub get_task : ℕ → Exec World Task
  get_task n = cache_or_fetch (task_suffix n) (fetch_task n)

  -- The read behind a commit: on an error the row as the method changed it in memory.
  unfoldable pub refetch : ℕ → Task → Exec World Task
  unfolding or_else
  refetch n fallback w = or_else fallback (get_task n w)

  -- How the methods end once their checks passed: the transaction, the bump, the read behind it.
  unfoldable pub change : (String → Exec Conn (Unit {0})) → ℕ → Task → Exec World Task
  change body n fallback = do transact body; bump; refetch n fallback

abbrev pub succeeded : {A : Type 0} → Outcome A → Bool
succeeded (ok a) = true
succeeded no_rows = false
succeeded (failed e) = false
