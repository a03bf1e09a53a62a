-- ===== src/Store/Session/Methods.antt =====
-- The shape that the methods on one task share: read the row, refuse by a test of it, else change.
use backlog_server.Prelude.{
  ℕ, String, Bool, true, false, ◌≡◌, refl, ap, ◌∙◌, ◌⊎◌, inl, inr, if◌then◌else◌, Bool-cases, List,
}
use mathlib.Core.Path.{subst}
use backlog_server.Exec.{Exec, Outcome, ok, no_rows, failed, pure, continue, ◌>>=◌}
use backlog_server.Cache
use backlog_server.Store.Db.{Task, Audit, Db, applied}
use backlog_server.Store.Session.{Env, World, Conn, get_task, change, succeeded}
use backlog_server.Store.Session.Endings.{
  opened, db-get_task, db-refetch, refetch-ok, Changed, Kept, change-cases,
}

-- Whether `o` is an error of the database or a missing row.
abbrev pub IsError : {A : Type 0} → Outcome A → Type 0
IsError o = succeeded o ≡ false

module _ (env : Env) {R : Type 0} (n : ℕ) (bad : Task → Bool) (reject : Task → R)
    (done : Task → Task → R) where
  -- Nothing was committed: an error, or the refusal of the row that was read.
  abbrev pub Refused : World → Outcome R × World → Type 0
  Refused w r =
      (r.1.db ≡ w.db)
      × (IsError r.0
          ⊎ ((t : Task) × ((get_task env n w).0 ≡ ok t) × (bad t ≡ true) × (r.0 ≡ ok (reject t))))

  -- Exactly the change `f` of row `n` was committed, with the audit rows `rows`, after the row that
  -- was read passed the test.
  abbrev pub Committed :
      (Task → String → Task → Task)
      → (Task → String → List Audit)
      → World
      → Outcome R × World
      → Type 0
  Committed f rows w r =
      (t : Task) × (stamp : String) × ((get_task env n w).0 ≡ ok t)
      × (bad t ≡ false)
      × (r.1.db ≡ applied n (f t stamp) (rows t stamp) w.db)
      × ((u : Task) × (r.0 ≡ ok (done t u)))

  -- What a method promises: it refuses, or it commits its change.
  abbrev pub Applies :
      (Task → String → Task → Task)
      → (Task → String → List Audit)
      → World
      → Outcome R × World
      → Type 0
  Applies f rows w r = Refused w r ⊎ Committed f rows w r

module _ (env : Env) {R : Type 0} (n : ℕ) (bad : Task → Bool) (reject : Task → R)
    (done : Task → Task → R) (body : Task → String → Exec Conn (Unit {0}))
    (fallback : Task → Task) where
  abbrev pub guarded : Exec World R
  guarded = do
    t ← get_task env n
    if bad t then pure (reject t) else do u ← change env (body t) n (fallback t); pure (done t u)

  -- The body's view was committed, after the row that was read passed the test.
  abbrev pub Done : World → Outcome R × World → Type 0
  Done w r =
      (t : Task) × (c : Conn) × (stamp : String) × (k : ℕ) × ((get_task env n w).0 ≡ ok t)
      × (bad t ≡ false)
      × (body t stamp (record { view = w.db; called = k }) ≡ (ok tt, c))
      × (r.1.db ≡ c.view)
      × ((u : Task) × (r.0 ≡ ok (done t u)))

  unfoldable pub settle : (t : Task) → Outcome Task × World → Outcome R × World
  settle t r = continue r (λ u. pure (done t u))

  settle-db : (t : Task) (r : Outcome Task × World) → (settle t r).1 ≡ r.1
  unfolding settle
  settle-db t (ok u, w) = refl
  settle-db t (no_rows, w) = refl
  settle-db t (failed e, w) = refl

  settle-ok : (t u : Task) (r : Outcome Task × World) → r.0 ≡ ok u → (settle t r).0 ≡ ok (done t u)
  unfolding settle
  settle-ok t u (ok v, w) e = cc
  settle-ok t u (no_rows, w) e = absurd (cc)
  settle-ok t u (failed x, w) e = absurd (cc)

  settle-IsError :
      (t : Task) (r : Outcome Task × World) → succeeded r.0 ≡ false → IsError (settle t r).0
  unfolding settle
  settle-IsError t (ok v, w) e = cc
  settle-IsError t (no_rows, w) e = refl
  settle-IsError t (failed x, w) e = refl

  pub settle-cases :
      (w v : World) (t : Task)
      → (get_task env n w).0 ≡ ok t
      → v.db ≡ w.db
      → bad t ≡ false
      → (r : Outcome Task × World)
      → Changed env (body t) n (fallback t) v r ⊎ Kept env (body t) n (fallback t) v r
      → Refused env n bad reject done w (settle t r) ⊎ Done w (settle t r)
  settle-cases w v t got same good r (inr (o, m, f, p)) = inl (
    ap (λ x. x.db) (settle-db t r) ∙ ap (λ q. q.1.db) p ∙ same,
    inl (settle-IsError t r (ap (λ q. succeeded q.0) p ∙ f)),
  )
  settle-cases w v t got same good r (inl (c, m, e, p)) =
      let after : World = record { db = c.view; cache = Cache.bump v.cache; calls = m } in
      let (u, q) = refetch-ok env n (fallback t) after in
      inr (
        t,
        c,
        env.now v.calls,
        (opened v).called,
        got,
        good,
        subst
            (λ d.
              body t (env.now v.calls) (record { view = d; called = (opened v).called })
              ≡ (ok tt, c))
            same e,
        ap (λ x. x.db) (settle-db t r) ∙ ap (λ x. x.1.db) p ∙ db-refetch env n (fallback t) after,
        (u, settle-ok t u r (ap (λ x. x.0) p ∙ q)),
      )

  -- Every run of such a method is one or the other.
  pub guarded-cases : (w : World) → Refused env n bad reject done w (guarded w) ⊎ Done w (guarded w)
  unfolding settle
  guarded-cases w = go (get_task env n w) refl (db-get_task env n w)
    where
      next : Task → Exec World R
      next t =
          if bad t
          then pure (reject t)
          else (change env (body t) n (fallback t) >>= λ u. pure (done t u))

      go :
          (r : Outcome Task × World)
          → (get_task env n w).0 ≡ r.0
          → r.1.db ≡ w.db
          → Refused env n bad reject done w (continue r next) ⊎ Done w (continue r next)
      go (no_rows, v) got same = inl (same, inl refl)
      go (failed e, v) got same = inl (same, inl refl)
      go (ok t, v) got same = elim (Bool-cases (bad t)) [
        | inl b ↦ rw b (inl (same, inr (t, got, b, refl)))
        | inr g ↦ rw g (
            settle-cases w v t got same g (change env (body t) n (fallback t) v)
              (change-cases env (body t) n (fallback t) v))
      ]

  pub guarded-Applies :
      (f : Task → String → Task → Task) (rows : Task → String → List Audit)
      → ((t : Task) (stamp : String) (d : Db) (k : ℕ) (c : Conn)
          → body t stamp (record { view = d; called = k }) ≡ (ok tt, c)
          → c.view ≡ applied n (f t stamp) (rows t stamp) d)
      → (w : World) → Applies env n bad reject done f rows w (guarded w)
  guarded-Applies f rows effect w = elim (guarded-cases w) [
    | inl refused ↦ inl refused
    | inr (t, c, stamp, k, got, good, ran, stored, result) ↦
        inr (t, stamp, got, good, stored ∙ effect t stamp w.db k c ran, result)
  ]
