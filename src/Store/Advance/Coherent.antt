-- ===== src/Store/Advance/Coherent.antt =====
-- AdvanceTask keeps the cache coherent.
use backlog_server.Prelude.{
  ℕ, ◌+◌, String, Bool, inl, inr, Bool-cases, if◌then◌else◌, ◌==◌, [], ◌∷◌,
}
use backlog_server.Exec.{Outcome, ok, no_rows, failed, pure, continue, ◌>>=◌}
use backlog_server.Store.Db.{Task}
use backlog_server.Store.Session.{Env, World, get_task, change}
use backlog_server.Store.Session.Coherent.{
  Coherent, get_task-Coherent, change-Coherent, less_room, settled, same-Coherent,
}
use backlog_server.Store.Session.Reads.{ReadsAt}
use backlog_server.Store.Results.{normal_status}
use backlog_server.Store.Rescore.{Scorer}
use backlog_server.Store.Take.{moved}
use backlog_server.Store.Advance.Gates.{Failures, gates}
use backlog_server.Store.Advance.Gates.Passing.{failures_of, Reads-gates}
use backlog_server.Store.Advance.{
  target, workflow_refusal, advance_body, advance_passed, advance_task,
}

module _ (env : Env) (scorer : Scorer) (n : ℕ) (agent : String) (approve : Bool) (k : ℕ) where
  passed-Coherent :
      (t : Task) (fs : Failures) (w : World)
      → Coherent (k + 1) w
      → Coherent k (advance_passed env scorer n agent approve t fs w).1
  unfolding advance_passed
  passed-Coherent t (f ∷ fs) w c = less_room k w c
  passed-Coherent t [] w c =
      settled (λ x u. moved (target x) x u) k t
        (change env (advance_body env scorer n agent approve t) n (record t { status = target t })
          w)
        (change-Coherent env n k (advance_body env scorer n agent approve t)
          (record t { status = target t }) w c)

  gated-Coherent :
      (t : Task) (w : World) (r : Outcome Failures × World)
      → Coherent (k + 1) w
      → ReadsAt (failures_of n approve t (normal_status t.status) (target t)) w r
      → Coherent k (continue r (advance_passed env scorer n agent approve t)).1
  gated-Coherent t w (no_rows, x) c (p, q, _) = less_room k x (same-Coherent (k + 1) w x p q c)
  gated-Coherent t w (failed e, x) c (p, q, _) = less_room k x (same-Coherent (k + 1) w x p q c)
  gated-Coherent t w (ok fs, x) c (p, q, _) =
      passed-Coherent t fs x (same-Coherent (k + 1) w x p q c)

  pub advance_task-Coherent :
      (w : World) → Coherent (k + 1) w → Coherent k (advance_task env scorer n agent approve w).1
  unfolding advance_task
  advance_task-Coherent w c = go (get_task env n w) (get_task-Coherent env n (k + 1) w c).0
    where
      go :
          (r : Outcome Task × World)
          → Coherent (k + 1) r.1
          → Coherent k
              (continue r (λ t. if target t == "" then pure (workflow_refusal t) else do
                fs ← gates env n approve t (normal_status t.status) (target t)
                advance_passed env scorer n agent approve t fs)).1
      go (no_rows, x) h = less_room k x h
      go (failed e, x) h = less_room k x h
      go (ok t, x) h = elim (Bool-cases (target t == "")) [
        | inl y ↦ rw y (less_room k x h)
        | inr z ↦ rw z (
            gated-Coherent t x (gates env n approve t (normal_status t.status) (target t) x) h
              (Reads-gates n approve t (normal_status t.status) (target t) env x))
      ]
