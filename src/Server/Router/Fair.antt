-- ===== src/Server/Router/Fair.antt =====
-- What each method of the store does to the tables, seen from its handler.
use backlog_server.Prelude.{
  ℕ, ◌+◌, String, Bool, true, false, ◌≡◌, refl, sym, ◌⊎◌, inl, inr, List, arith,
}
use mathlib.Core.Path.{subst}
use backlog_server.Prelude.Int.{ℤ, pos, negsuc}
use backlog_server.Prelude.Decimal.{decimal}
use Prim.Native.String.{◌++◌}
use backlog_server.Exec.{Exec, Outcome, ok, no_rows, failed, continue}
use backlog_server.Server.Handlers.{at_id, absent, no_row, never_blocked, some_failed}
use backlog_server.Store.Db.{Task, Db, Audit}
use backlog_server.Store.Session.{Env, World, succeeded, get_task, cache_or_fetch}
use backlog_server.Store.Session.Endings.{db-get_task, db-cache_or_fetch}
use backlog_server.Store.Take.{
  moved, take_task, take_task-Applies, release_task, release_task-Applies,
}
use backlog_server.Store.Close.{
  replaced, cancel_task, cancel_task-Applies, supersede_task, supersede_task_ends,
}
use backlog_server.Store.Incident.{
  revision_asked, verify_task, verify_task-Applies, set_postmortem, set_postmortem-Applies,
  request_revision, request_revision-Applies,
}
use backlog_server.Store.Review.{submit_review}
use backlog_server.Store.Review.Latest.{submit_review_ends}
use backlog_server.Store.Update.{changed_fields, update_task_fields}
use backlog_server.Store.Update.Effect.{update_task_fields-Applies}
use backlog_server.Store.Advance.{target, advance_task}
use backlog_server.Store.Advance.Ends.{advance_task_ends}
use backlog_server.Store.Requests.{Request, serve}
use backlog_server.Store.Session.Methods.{Applies}
use backlog_server.Store.Rescore.{Scorer}
use backlog_server.Store.Writes.{Write, nothing}
use backlog_server.Store.Requests.Effects.{serve-Write}

-- One write, and none where the method returned an error or a result that `blocked` marks.
abbrev pub Fair : {R : Type 0} → (R → Bool) → Db → Outcome R × World → Type 0
Fair {R = R} blocked d r =
    Write d r.1.db × (((a : R) × (r.0 ≡ ok a) × (blocked a ≡ false)) ⊎ (r.1.db ≡ d))

Applies-Fair :
    (env : Env) {R : Type 0} (n : ℕ) (bad : Task → Bool) (reject : Task → R)
    (done : Task → Task → R) (f : Task → String → Task → Task) (rows : Task → String → List Audit)
    (blocked : R → Bool)
    → ((t u : Task) → blocked (done t u) ≡ false)
    → (w : World) (r : Outcome R × World) → Applies env n bad reject done f rows w r
    → Write w.db r.1.db
    → Fair blocked w.db r
Applies-Fair env n bad reject done f rows blocked good w r (inl (same, _)) write = (write, inr same)
Applies-Fair env n bad reject done f rows blocked good w r
      (inr (t, stamp, got, passes, stored, (u, e))) write =
    (write, inl (done t u, e, good t u))

-- Behind the read of an id that no row has.
module _ (env : Env) where
  db-no_row : (w : World) → (no_row env w).1.db ≡ w.db
  unfolding no_row
  db-no_row w = ground arith

  pub at_id-Fair :
      {R : Type 0} (blocked : R → Bool) (id : ℤ) (call : ℕ → Exec World R) (w : World)
      → ((n : ℕ) → Fair blocked w.db (call n w))
      → Fair blocked w.db (at_id env id call w)
  unfolding at_id absent
  at_id-Fair blocked (pos n) call w h = h n
  at_id-Fair {R = R} blocked (negsuc n) call w h =
      go (cache_or_fetch env ("task:-" ++ decimal (n + 1)) (no_row env) w)
        (db-cache_or_fetch env ("task:-" ++ decimal (n + 1)) (no_row env) db-no_row w)
    where
      go : (r : Outcome Task × World) → r.1.db ≡ w.db → Fair blocked w.db (continue r (λ _. absent))
      go (ok t, v) same = (subst (Write w.db) (sym same) nothing, inr same)
      go (no_rows, v) same = (subst (Write w.db) (sym same) nothing, inr same)
      go (failed e, v) same = (subst (Write w.db) (sym same) nothing, inr same)

module _ (env : Env) (scorers : ℕ → Scorer) where
  pub get_task-Fair : (n : ℕ) (w : World) → Fair never_blocked w.db (get_task env n w)
  get_task-Fair n w =
      let same = db-get_task env n w in (subst (Write w.db) (sym same) nothing, inr same)

  pub take_task-Fair :
      (n : ℕ) (agent : String) (w : World)
      → Fair (λ a. some_failed a.failures) w.db (take_task env n agent w)
  unfolding serve
  take_task-Fair n agent w =
      Applies-Fair env n _ _ _ _ _ _ (λ t u. refl) w (take_task env n agent w)
        (take_task-Applies env n agent w) (serve-Write env scorers (Request.take n agent) w)

  pub release_task-Fair :
      (n : ℕ) (agent : String) (w : World)
      → Fair (λ a. some_failed a.failures) w.db (release_task env n agent w)
  unfolding serve
  release_task-Fair n agent w =
      Applies-Fair env n _ _ _ _ _ _ (λ t u. refl) w (release_task env n agent w)
        (release_task-Applies env n agent w) (serve-Write env scorers (Request.release n agent) w)

  pub cancel_task-Fair :
      (n : ℕ) (agent reason : String) (w : World)
      → Fair (λ a. some_failed a.failures) w.db (cancel_task env n agent reason w)
  unfolding serve
  cancel_task-Fair n agent reason w =
      Applies-Fair env n _ _ _ _ _ _ (λ t u. refl) w (cancel_task env n agent reason w)
        (cancel_task-Applies env n agent reason w)
        (serve-Write env scorers (Request.cancel n agent reason) w)

  pub supersede_task-Fair :
      (n : ℕ) (agent : String) (by : ℕ) (w : World)
      → Fair (λ a. some_failed a.failures) w.db (supersede_task env n agent by w)
  unfolding serve replaced
  supersede_task-Fair n agent by w =
      let write = serve-Write env scorers (Request.supersede n agent by) w in
      elim (supersede_task_ends env n agent by w) [
        | inl (same, _) ↦ (write, inr same)
        | inr applies ↦
            Applies-Fair env n _ _ _ _ _ _ (λ t u. refl) w (supersede_task env n agent by w) applies
              write
      ]

  pub verify_task-Fair :
      (n : ℕ) (agent reason : String) (w : World)
      → Fair never_blocked w.db (verify_task env n agent reason w)
  unfolding serve
  verify_task-Fair n agent reason w =
      Applies-Fair env n _ _ _ _ _ _ (λ t u. refl) w (verify_task env n agent reason w)
        (verify_task-Applies env n agent reason w)
        (serve-Write env scorers (Request.verify n agent reason) w)

  pub set_postmortem-Fair :
      (n : ℕ) (agent path : String) (w : World)
      → Fair never_blocked w.db (set_postmortem env n agent path w)
  unfolding serve
  set_postmortem-Fair n agent path w =
      Applies-Fair env n _ _ _ _ _ _ (λ t u. refl) w (set_postmortem env n agent path w)
        (set_postmortem-Applies env n agent path w)
        (serve-Write env scorers (Request.postmortem n agent path) w)

  pub request_revision-Fair :
      (n : ℕ) (agent reason : String) (w : World)
      → Fair (λ a. some_failed a.failures) w.db (request_revision env n agent reason w)
  unfolding serve revision_asked
  request_revision-Fair n agent reason w =
      Applies-Fair env n _ _ _ _ _ _ (λ t u. refl) w (request_revision env n agent reason w)
        (request_revision-Applies env n agent reason w)
        (serve-Write env scorers (Request.revise n agent reason) w)

  pub update_task_fields-Fair :
      (n : ℕ) (agent : String) (updates : List (String × String)) (w : World)
      → Fair (λ a. some_failed a.failures) w.db (update_task_fields env n agent updates w)
  unfolding serve changed_fields
  update_task_fields-Fair n agent updates w =
      Applies-Fair env n _ _ _ _ _ _ (λ t u. refl) w (update_task_fields env n agent updates w)
        (update_task_fields-Applies env n agent updates w)
        (serve-Write env scorers (Request.update n agent updates) w)

  pub submit_review-Fair :
      (n : ℕ) (caller reviewer verdict summary : String) (agg : Bool) (w : World)
      → Fair never_blocked w.db (submit_review env n caller reviewer verdict summary agg w)
  unfolding serve
  submit_review-Fair n caller reviewer verdict summary agg w =
      let write =
        serve-Write env scorers (Request.submit n caller reviewer verdict summary agg) w in
      elim (submit_review_ends env n caller reviewer verdict summary agg w) [
        | inl (_, same) ↦ (write, inr same)
        | inr (stamp, good, _) ↦ (write, inl (unblocked _ good))
      ]
    where
      unblocked :
          {R : Type 0} (o : Outcome R)
          → succeeded o ≡ true
          → (a : R) × (o ≡ ok a) × (never_blocked a ≡ false)
      unblocked (ok a) e = (a, refl, refl)
      unblocked no_rows e = absurd (cc)
      unblocked (failed x) e = absurd (cc)

  pub advance_task-Fair :
      (n : ℕ) (agent : String) (approve : Bool) (w : World)
      → Fair
          (λ a. some_failed a.failures)
          w.db
          (advance_task env (scorers w.calls) n agent approve w)
  unfolding serve
  advance_task-Fair n agent approve w =
      let write = serve-Write env scorers (Request.advance n agent approve) w in
      elim (advance_task_ends env (scorers w.calls) n agent approve w) [
        | inl (same, _) ↦ (write, inr same)
        | inr (t, stamp, got, way, passes, stored, (u, e)) ↦
            (write, inl (moved (target t) t u, e, refl))
      ]
