-- ===== src/Store/Create/Pipeline/Ends.antt =====
-- The ways in which CreateTask ends.
use backlog_server.Prelude.{
  ℕ, ◌+◌, String, Bool, false, not, ◌&&◌, ◌≡◌, ◌≢◌, refl, sym, ap, ◌⊎◌, inl, inr, Option, none,
  some, [], ◌∷◌, concat, eqb, Bool-cases,
}
use mathlib.Core.Path.{subst}
use backlog_server.Exec.{Exec, Outcome, ok, no_rows, failed, continue}
use backlog_server.Cache
use backlog_server.Store.Db.{Task, find_task}
use backlog_server.Store.Session.{Env, World, Conn, succeeded, bump}
use backlog_server.Store.Session.Endings.{opened}
use backlog_server.Store.Session.Methods.{IsError}
use backlog_server.Store.Create.{
  CreateTaskRequest, parent_of, Registries, Resolved, Failures, Advisories, signal_advisory,
}
use backlog_server.Store.Create.CrossDb.{Ping}
use backlog_server.Store.Create.Insert.{next_id, create_body}
use backlog_server.Store.Create.Insert.Effect.{
  cascaded, inserted, is_done, BodyEnds, create_body_effect,
}
use backlog_server.Store.Create.Pipeline.{
  CreateTaskResult, finish_create, create_tx, pre_checks, workflow_of, rejected, parent_missing,
  creation, settle_create, create_checked, create_task,
}

module _ {A : Type 0} (env : Env) where
  -- Committed with the body's view, ended with nothing made, or failed.
  abbrev TxEnds : (String → Exec Conn (Option A)) → World → Outcome (Option A) × World → Type 0
  TxEnds body w r =
      ((a : A) × (c : Conn) × (n : ℕ) × (body (env.now w.calls) (opened w) ≡ (ok (some a), c))
        × (r ≡ (ok (some a), record w { db = c.view; calls = n })))
      ⊎ ((n : ℕ) × (r.1 ≡ record w { calls = n }) × ((r.0 ≡ ok none) ⊎ (succeeded r.0 ≡ false)))

  finish_create-TxEnds :
      (body : String → Exec Conn (Option A)) (w : World) (r : Outcome (Option A) × Conn)
      → body (env.now w.calls) (opened w) ≡ r
      → TxEnds body w (finish_create env w r)
  unfolding finish_create
  finish_create-TxEnds body w (ok none, c) e = inr (c.called, refl, inl refl)
  finish_create-TxEnds body w (ok (some a), c) e = elim (Bool-cases (env.fails c.called)) [
    | inl f ↦ inr (rw f (c.called + 1, refl, inr refl))
    | inr f ↦ inl (a, c, c.called + 1, e, rw f refl)
  ]
  finish_create-TxEnds body w (no_rows, c) e = inr (c.called, refl, inr refl)
  finish_create-TxEnds body w (failed x, c) e = inr (c.called, refl, inr refl)

  create_tx-TxEnds :
      (body : String → Exec Conn (Option A)) (w : World) → TxEnds body w (create_tx env body w)
  unfolding create_tx
  create_tx-TxEnds body w = elim (Bool-cases (env.fails w.calls)) [
    | inl f ↦ inr (rw f (w.calls + 1, refl, inr refl))
    | inr f ↦ rw f (finish_create-TxEnds body w (body (env.now w.calls) (opened w)) refl)
  ]

module _ (env : Env) (blank : Task) (day : String) (r : CreateTaskRequest) (reg : Registries)
    (network : String → Ping) (ax_api_base : String) where
  abbrev resolved : Resolved
  resolved = (pre_checks reg network ax_api_base r).resolved

  abbrev workflow : String
  workflow = workflow_of reg r resolved

  -- Nothing was written: an error, or a result with failures.
  abbrev pub Unmade : World → Outcome CreateTaskResult × World → Type 0
  Unmade w z =
      (z.1.db ≡ w.db)
      × (z.1.cache ≡ w.cache)
      × (IsError z.0
          ⊎ ((x : CreateTaskResult) × (z.0 ≡ ok x) × (x.failures ≢ []) × (x.task_id ≡ 0)))

  -- The new row was committed behind the checks, with the cascade to a parent that was DONE.
  abbrev pub Made : World → Outcome CreateTaskResult × World → Type 0
  Made w z =
      (stamp : String) × (advs : Advisories) × ((pre_checks reg network ax_api_base r).failures
        ≡ [])
      × (let was_done = not (eqb (parent_of r) 0) && is_done (find_task (parent_of r) w.db.tasks) in
          let d = cascaded env blank day r resolved workflow stamp was_done w.db in
          (z.0 ≡ ok (creation resolved workflow advs (next_id d.tasks, was_done)))
          × (z.1.db ≡ inserted env blank day r resolved workflow stamp d)
          × (z.1.cache ≡ Cache.bump w.cache))

  abbrev pub CreateEnds : World → Outcome CreateTaskResult × World → Type 0
  CreateEnds w z = Unmade w z ⊎ Made w z

  none_made :
      (w : World) (n : ℕ) (advs : Advisories) (q : Outcome (Option (ℕ × Bool)) × World)
      → q.1 ≡ record w { calls = n }
      → (q.0 ≡ ok none) ⊎ (succeeded q.0 ≡ false)
      → CreateEnds w (continue q (settle_create env blank day r resolved workflow advs))
  unfolding settle_create
  none_made w n advs (ok none, v) e o = inl (
    ap (λ (x : World). x.db) e,
    ap (λ (x : World). x.cache) e,
    inr (rejected (parent_missing (parent_of r)) advs, refl, (λ p. absurd (cc)), refl),
  )
  none_made w n advs (ok (some a), v) e (inl o) = absurd (cc)
  none_made w n advs (ok (some a), v) e (inr o) = absurd (cc)
  none_made w n advs (no_rows, v) e o =
      inl (ap (λ (x : World). x.db) e, ap (λ (x : World). x.cache) e, inl refl)
  none_made w n advs (failed x, v) e o =
      inl (ap (λ (x : World). x.db) e, ap (λ (x : World). x.cache) e, inl refl)

  abbrev body : String → Exec Conn (Option (ℕ × Bool))
  body = create_body env blank day r resolved workflow

  abbrev settle : Advisories → Option (ℕ × Bool) → Exec World CreateTaskResult
  settle = settle_create env blank day r resolved workflow

  one_made :
      (w : World) (advs : Advisories) (a : ℕ × Bool) (c : Conn) (n : ℕ)
      → (pre_checks reg network ax_api_base r).failures ≡ []
      → BodyEnds env blank day r resolved workflow (env.now w.calls) w.db (some a) c
      → CreateEnds w (continue (ok (some a), record w { db = c.view; calls = n }) (settle advs))
  unfolding settle_create bump
  one_made w advs a c n good (inl (e, _, _)) = absurd (cc)
  one_made w advs a c n good (inr (e, stored)) = inr (
    env.now w.calls,
    advs,
    good,
    (ap (λ b. ok (creation resolved workflow advs b)) (pair a _ e), stored, refl),
  )
    where
      pair : (x y : ℕ × Bool) → some x ≡ some y → x ≡ y
      pair x y p = cc

  checked_ends :
      (w : World) (fs : Failures) (advs : Advisories)
      → (pre_checks reg network ax_api_base r).failures ≡ fs
      → CreateEnds w (create_checked env blank day r reg resolved fs advs w)
  unfolding create_checked
  checked_ends w (f ∷ fs) advs e =
      inl (refl, refl, inr (rejected (f ∷ fs) advs, refl, (λ p. absurd (cc)), refl))
  checked_ends w [] advs e =
      let all_advs = concat (advs ∷ signal_advisory r.signal_context ∷ []) in
      elim (create_tx-TxEnds env body w) [
        | inl (a, c, n, ran, p) ↦
            subst (λ q. CreateEnds w (continue q (settle all_advs))) (sym p)
              (one_made w all_advs a c n e (
                create_body_effect env blank day r resolved workflow (env.now w.calls) w.db
                  (w.calls + 1) (some a) c ran))
        | inr (n, p, o) ↦ none_made w n all_advs (create_tx env body w) p o
      ]

  pub create_task_ends :
      (w : World) → CreateEnds w (create_task env blank day r reg network ax_api_base w)
  unfolding create_task
  create_task_ends w =
      checked_ends w (pre_checks reg network ax_api_base r).failures
        (pre_checks reg network ax_api_base r).advisories refl
