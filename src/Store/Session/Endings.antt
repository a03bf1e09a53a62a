-- ===== src/Store/Session/Endings.antt =====
-- What a transaction may do: all of its body, or nothing.
use backlog_server.Prelude.{
  ℕ, ◌+◌, String, false, ◌≡◌, ◌≢◌, refl, ap, ◌⊎◌, inl, inr, arith, Bool-cases,
}
use backlog_server.Exec.{Exec, Outcome, ok, no_rows, failed, continue, ◌>>=◌}
use backlog_server.Cache
use backlog_server.Store.Db.{Task}
use backlog_server.Store.Session.{
  Env, World, Conn, tick, task_suffix, transact, finish, bump, get_task, fetch_task, cache_or_fetch,
  fill, refetch, or_else, change, succeeded,
}

-- The connection that a transaction of `w` begins with.
abbrev pub opened : World → Conn
opened w = record { view = w.db; called = w.calls + 1 }

module _ (env : Env) {A : Type 0} where
  -- The two ends of a transaction: committed with the body's view of the tables, or not, with the
  -- tables and the cache as they were.
  abbrev pub Ending : (String → Exec Conn A) → World → Outcome A × World → Type 0
  Ending body w r =
      ((a : A) × (c : Conn) × (n : ℕ) × (body (env.now w.calls) (opened w) ≡ (ok a, c))
        × (r ≡ (ok a, record w { db = c.view; calls = n })))
      ⊎ ((o : Outcome A) × (n : ℕ) × (succeeded o ≡ false) × (r ≡ (o, record w { calls = n })))

  finish-Ending :
      (body : String → Exec Conn A) (w : World) (r : Outcome A × Conn)
      → body (env.now w.calls) (opened w) ≡ r
      → Ending body w (finish env w r)
  unfolding finish
  finish-Ending body w (ok a, c) e = elim (Bool-cases (env.fails c.called)) [
    | inl f ↦ inr (failed "commit", c.called + 1, refl, rw f)
    | inr f ↦ inl (a, c, c.called + 1, e, rw f)
  ]
  finish-Ending body w (no_rows, c) e = inr (no_rows, c.called, refl, refl)
  finish-Ending body w (failed x, c) e = inr (failed x, c.called, refl, refl)

  pub transact-Ending :
      (body : String → Exec Conn A) (w : World) → Ending body w (transact env body w)
  unfolding transact
  transact-Ending body w = elim (Bool-cases (env.fails w.calls)) [
    | inl f ↦ inr (failed "begin", w.calls + 1, refl, rw f)
    | inr f ↦ rw f (finish-Ending body w (body (env.now w.calls) (opened w)) refl)
  ]

-- Reads leave the tables as they are.
module _ (env : Env) where
  db-fill : (k : String) (r : Outcome Task × World) → (fill env k r).1.db ≡ r.1.db
  unfolding fill
  db-fill k (ok t, w) = refl
  db-fill k (no_rows, w) = refl
  db-fill k (failed e, w) = refl

  db-fetch_task : (n : ℕ) (w : World) → (fetch_task env n w).1.db ≡ w.db
  unfolding fetch_task
  db-fetch_task n w = ground arith

  pub db-cache_or_fetch :
      (k : String) (fetch : Exec World Task)
      → ((v : World) → (fetch v).1.db ≡ v.db)
      → (w : World) → (cache_or_fetch env k fetch w).1.db ≡ w.db
  unfolding cache_or_fetch
  db-cache_or_fetch k fetch same w = ground (arith, db-fill k (fetch (tick w)), same (tick w))

  cache-fill :
      (k : String) (r : Outcome Task × World)
      → ((t : Task) → r.0 ≢ ok t)
      → (fill env k r).1.cache ≡ r.1.cache
  unfolding fill
  cache-fill k (ok t, w) never = absurd (never t refl)
  cache-fill k (no_rows, w) never = refl
  cache-fill k (failed e, w) never = refl

  -- A read that finds no row stores nothing.
  pub cache-cache_or_fetch :
      (k : String) (fetch : Exec World Task)
      → ((v : World) → (fetch v).1.cache ≡ v.cache)
      → ((v : World) (t : Task) → (fetch v).0 ≢ ok t)
      → (w : World) → (cache_or_fetch env k fetch w).1.cache ≡ w.cache
  unfolding cache_or_fetch
  cache-cache_or_fetch k fetch same never w =
      ground (arith, cache-fill k (fetch (tick w)) (never (tick w)), same (tick w))

  pub db-get_task : (n : ℕ) (w : World) → (get_task env n w).1.db ≡ w.db
  unfolding get_task
  db-get_task n = db-cache_or_fetch (task_suffix n) (fetch_task env n) (db-fetch_task n)

  db-or_else : (t : Task) (r : Outcome Task × World) → (or_else t r).1 ≡ r.1
  unfolding or_else
  db-or_else t (ok u, w) = refl
  db-or_else t (no_rows, w) = refl
  db-or_else t (failed e, w) = refl

  ok-or_else : (t : Task) (r : Outcome Task × World) → (u : Task) × ((or_else t r).0 ≡ ok u)
  unfolding or_else
  ok-or_else t (ok u, w) = (u, refl)
  ok-or_else t (no_rows, w) = (t, refl)
  ok-or_else t (failed e, w) = (t, refl)

  pub refetch-ok : (n : ℕ) (t : Task) (w : World) → (u : Task) × ((refetch env n t w).0 ≡ ok u)
  unfolding refetch or_else
  refetch-ok n t w = ok-or_else t (get_task env n w)

  pub db-refetch : (n : ℕ) (t : Task) (w : World) → (refetch env n t w).1.db ≡ w.db
  unfolding refetch
  db-refetch n t w = ground (arith, db-or_else t (get_task env n w), db-get_task n w)

-- A method's last part, when it returns a task: its body's view of the tables is committed, the
-- cache has a new version, and the task was read behind it.
module _ (env : Env) (body : String → Exec Conn (Unit {0})) (n : ℕ) (t : Task) (w : World) where
  abbrev pub Changed : Outcome Task × World → Type 0
  Changed r =
      (c : Conn) × (m : ℕ) × (body (env.now w.calls) (opened w) ≡ (ok tt, c))
      × (r ≡ refetch env n t (record { db = c.view; cache = Cache.bump w.cache; calls = m }))

  abbrev pub Kept : Outcome Task × World → Type 0
  Kept r = (o : Outcome Task) × (m : ℕ) × (succeeded o ≡ false) × (r ≡ (o, record w { calls = m }))

  pub change-cases : Changed (change env body n t w) ⊎ Kept (change env body n t w)
  unfolding change bump
  change-cases = go (transact env body w) (transact-Ending env body w)
    where
      go :
          (r : Outcome (Unit {0}) × World)
          → Ending env body w r
          → Changed (continue r (λ _. bump env >>= λ _. refetch env n t))
            ⊎ Kept (continue r (λ _. bump env >>= λ _. refetch env n t))
      go r (inl (a, c, m, e, p)) =
          inl (c, m, e, ap (λ q. continue q (λ _. bump env >>= λ _. refetch env n t)) p)
      go (ok a, v) (inr (o, m, f, p)) = absurd (cc)
      go (no_rows, v) (inr (o, m, f, p)) = inr (no_rows, m, refl, cc)
      go (failed e, v) (inr (o, m, f, p)) = inr (failed e, m, refl, cc)
