-- ===== src/Store/Close/Coherent.antt =====
-- CancelTask and SupersedeTask keep the cache coherent.
use backlog_server.Prelude.{ℕ, ◌+◌, String, inl, inr, Bool-cases, if◌then◌else◌}
use backlog_server.Exec.{Outcome, ok, no_rows, failed, pure, continue, ◌>>=◌}
use backlog_server.Store.Db.{Task}
use backlog_server.Store.Session.{Env, World, get_task, change}
use backlog_server.Store.Session.Coherent.{
  Coherent, guarded-Coherent, get_task-Coherent, change-Coherent, less_room, settled,
}
use backlog_server.Store.Close.{
  uncancellable, cancel_refusal, cancel_body, cancel_task, unsupersedable, supersede_refusal,
  supersede_body, supersede_fallback, supersede_found, supersede_task, found, replaced,
}
use backlog_server.Store.Take.{moved}

module _ (env : Env) (n : ℕ) (agent reason : String) where
  pub cancel_task-Coherent :
      (k : ℕ) (w : World) → Coherent (k + 1) w → Coherent k (cancel_task env n agent reason w).1
  unfolding cancel_task
  cancel_task-Coherent =
      guarded-Coherent env n uncancellable cancel_refusal (moved "CANCELLED")
        (cancel_body env n agent reason) (λ t. record t { status = "CANCELLED" })

module _ (env : Env) (n : ℕ) (agent : String) (by k : ℕ) where
  found-Coherent :
      (t : Task) (r : Outcome Task × World)
      → Coherent (k + 1) r.1
      → Coherent k (continue (found env n agent by r) (supersede_found env n agent by t)).1
  unfolding found supersede_found
  found-Coherent t (no_rows, x) c = less_room k x c
  found-Coherent t (failed e, x) c = less_room k x c
  found-Coherent t (ok u, x) c =
      settled (replaced by) k t
        (change env (supersede_body env n agent by t) n (supersede_fallback env n agent by t) x)
        (change-Coherent env n k (supersede_body env n agent by t)
          (supersede_fallback env n agent by t) x c)

  pub supersede_task-Coherent :
      (w : World) → Coherent (k + 1) w → Coherent k (supersede_task env n agent by w).1
  unfolding supersede_task found
  supersede_task-Coherent w c = go (get_task env n w) (get_task-Coherent env n (k + 1) w c).0
    where
      go :
          (r : Outcome Task × World)
          → Coherent (k + 1) r.1
          → Coherent k
              (continue r (λ t. if unsupersedable t then pure (supersede_refusal by t) else do
                there ← λ v. found env n agent by (get_task env by v)
                supersede_found env n agent by t there)).1
      go (no_rows, x) h = less_room k x h
      go (failed e, x) h = less_room k x h
      go (ok t, x) h = elim (Bool-cases (unsupersedable t)) [
        | inl y ↦ rw y (less_room k x h)
        | inr z ↦
            rw z (found-Coherent t (get_task env by x) (get_task-Coherent env by (k + 1) x h).0)
      ]
