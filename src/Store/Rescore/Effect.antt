-- ===== src/Store/Rescore/Effect.antt =====
-- rescoreAfterDone as a step of a transaction: it fails, or it rewrites the rows.
use backlog_server.Prelude.{
  ℕ, String, ◌≡◌, refl, sym, ap, ◌∙◌, List, [], ◌∷◌, map, arith, Bool-cases, inl, inr, ◌+◌,
}
use mathlib.Core.Path.{ap₂}
use backlog_server.Exec.{Outcome, ok}
use backlog_server.Scoring.Types as Types
use backlog_server.Scoring.Recalculate.{recalculate_unblocked}
use backlog_server.Store.Db.{Task, Db}
use backlog_server.Store.Session.{Env, Conn, exec, query}
use backlog_server.Store.Rescore.{
  Scorer, persist, changed_tasks, rescored, write_scores, rescore_loaded, rescore_after_done,
  load_tasks_for_scoring,
}
use backlog_server.Store.Rescore.Unblocks.{persisted}

map_id : (ts : List Task) (f : Task → Task) → ((t : Task) → f t ≡ t) → ts ≡ map f ts
map_id [] f h = refl
map_id (t ∷ ts) f h = ap₂ ◌∷◌ (sym (h t)) (map_id ts f h)

-- The tables behind a rescore.
abbrev pub rescore : Scorer → String → ℕ → Db → Db
rescore scorer stamp closed d = record d {
  tasks = map (persisted scorer closed d.tasks stamp) d.tasks;
}

module _ (scorer : Scorer) (env : Env) (stamp : String) (closed : ℕ) where
  write_scores_effect :
      (vs : List Types.Task) (d : Db) (k : ℕ) (c : Conn)
      → write_scores scorer env stamp vs (record { view = d; called = k }) ≡ (ok tt, c)
      → c.view ≡ record d { tasks = map (persist stamp vs) d.tasks }
  unfolding write_scores exec persist
  write_scores_effect [] d k c h =
      sym (ap (λ q. q.1.view) h) ∙ ap (λ ts. record d { tasks = ts }) (map_id d.tasks _ (λ t. refl))
  write_scores_effect (v ∷ vs) d k c h = ground arith

  rescore_loaded_effect :
      (loaded : List Types.Task) (d : Db) (k : ℕ) (c : Conn)
      → rescore_loaded scorer env stamp closed loaded (record { view = d; called = k }) ≡ (ok tt, c)
      → c.view ≡ record d { tasks = map (persist stamp (rescored scorer closed loaded)) d.tasks }
  unfolding rescore_loaded rescored changed_tasks recalculate_unblocked write_scores
  rescore_loaded_effect [] d k c h = write_scores_effect [] d k c h
  rescore_loaded_effect (t ∷ ts) d k c h =
      write_scores_effect (rescored scorer closed (t ∷ ts)) d k c h

  pub rescore_after_done_effect :
      (d : Db) (k : ℕ) (c : Conn)
      → rescore_after_done scorer env stamp closed (record { view = d; called = k }) ≡ (ok tt, c)
      → c.view ≡ rescore scorer stamp closed d
  unfolding rescore_after_done query
  rescore_after_done_effect d k c h = elim (Bool-cases (env.fails k)) [
    | inl f ↦ let e : Path (Outcome (Unit {0}) × Conn) _ _ = rw f at h in absurd (cc)
    | inr n ↦ rescore_loaded_effect (load_tasks_for_scoring closed d.tasks) d (k + 1) c (rw n at h)
  ]
