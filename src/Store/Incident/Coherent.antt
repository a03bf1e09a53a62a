-- ===== src/Store/Incident/Coherent.antt =====
-- VerifyTask, SetPostmortem and RequestRevision keep the cache coherent.
use backlog_server.Prelude.{ℕ, ◌+◌, String}
use backlog_server.Store.Session.{Env, World}
use backlog_server.Store.Session.Coherent.{Coherent, guarded-Coherent}
use backlog_server.Store.Incident.{
  never, verified, filed, unrevisable, revision_refusal, revision_asked, verify_body,
  postmortem_body, revision_body, verify_task, set_postmortem, request_revision,
}

module _ (env : Env) (n : ℕ) (agent reason : String) where
  pub verify_task-Coherent :
      (k : ℕ) (w : World) → Coherent (k + 1) w → Coherent k (verify_task env n agent reason w).1
  unfolding verify_task
  verify_task-Coherent =
      guarded-Coherent env n never (λ t. verified reason t t) (verified reason)
        (verify_body env n agent reason) (λ t. t)

  pub set_postmortem-Coherent :
      (k : ℕ) (w : World) → Coherent (k + 1) w → Coherent k (set_postmortem env n agent reason w).1
  unfolding set_postmortem
  set_postmortem-Coherent =
      guarded-Coherent env n never (λ t. filed reason t t) (filed reason)
        (postmortem_body env n agent reason) (λ t. t)

  pub request_revision-Coherent :
      (k : ℕ) (w : World)
      → Coherent (k + 1) w
      → Coherent k (request_revision env n agent reason w).1
  unfolding request_revision
  request_revision-Coherent =
      guarded-Coherent env n unrevisable (revision_refusal reason) (revision_asked reason)
        (revision_body env n agent reason) (λ t. record t { status = "REVISION" })
