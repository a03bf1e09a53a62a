-- ===== src/Server/Router/Effects.antt =====
-- What one HTTP request does to the tables.
use backlog_server.Prelude.{
  ℕ, Bool, ◌≡◌, refl, sym, ap, ◌∙◌, ◌⊎◌, inl, inr, List, [], if◌then◌else◌,
}
use mathlib.Core.Path.{subst}
use backlog_server.Prelude.Int.{ℤ}
use backlog_server.Exec.{Exec, Outcome, ok, no_rows, failed}
use backlog_server.Server.Auth.{Endpoint, HttpRequest, HttpResponse, served, write_error}
use backlog_server.Server.Auth.Admission.{auth_middleware-Admitted}
use backlog_server.Server.Parsing.{
  Checked, refused, passed, ReviewCall, parse_id, parse_create, parse_agent, parse_advance,
  parse_cancel, parse_supersede, parse_review_submit, parse_verify, parse_with, parse_update,
}
use backlog_server.Server.Handlers.{
  Payload, a_task, an_advance, a_supersede, a_review, a_verify, a_postmortem, a_revision, an_update,
  Reply, status, answer_with, respond, at_id, never_blocked, some_failed, Site, created_reply,
  handle_healthz, handle_create, handle_get_task, handle_advance, handle_take, handle_release,
  handle_cancel, handle_supersede, handle_review_submit, handle_verify, handle_postmortem,
  handle_revision, handle_update,
}
use backlog_server.Server.Router.{dispatch, deliver, serve_http}
use backlog_server.Store.Db.{Db}
use backlog_server.Store.Session.{Env, World, get_task}
use backlog_server.Store.Take.{take_task, release_task}
use backlog_server.Store.Close.{cancel_task, supersede_task}
use backlog_server.Store.Incident.{verify_task, set_postmortem, request_revision}
use backlog_server.Store.Review.{submit_review}
use backlog_server.Store.Update.{update_task_fields}
use backlog_server.Store.Advance.{advance_task}
use backlog_server.Store.Changes.{Change, wrote, made}
use backlog_server.Store.Create.{CreateTaskRequest}
use backlog_server.Store.Create.Pipeline.{CreateTaskResult, create_task}
use backlog_server.Store.Create.Pipeline.Ends.{CreateEnds, create_task_ends}
use backlog_server.Store.Writes.{nothing}
use backlog_server.Server.Router.Fair.{
  at_id-Fair, get_task-Fair, take_task-Fair, release_task-Fair, cancel_task-Fair,
  supersede_task-Fair, verify_task-Fair, set_postmortem-Fair, request_revision-Fair,
  update_task_fields-Fair, submit_review-Fair, advance_task-Fair, Fair,
}

-- One write, and none where the status of the answer is not 200.
abbrev pub Answered : Db → Reply × World → Type 0
Answered d r = Change d r.1.db × ((status r.0 ≡ 200) ⊎ (r.1.db ≡ d))

answer_with-Fair :
    {R : Type 0} (wrap : R → Payload) (blocked : R → Bool) (id : ℤ) (d : Db) (r : Outcome R × World)
    → Fair blocked d r
    → Answered d (answer_with wrap blocked id r)
unfolding answer_with
answer_with-Fair wrap blocked id d (ok a, w) (write, inl (b, e, good)) =
    let same : a ≡ b = cc in let g = ap blocked same ∙ good in (wrote w.db write, inl (rw g refl))
answer_with-Fair wrap blocked id d (ok a, w) (write, inr same) = (wrote w.db write, inr same)
answer_with-Fair wrap blocked id d (no_rows, w) (write, inl (b, e, good)) = absurd (cc)
answer_with-Fair wrap blocked id d (no_rows, w) (write, inr same) = (wrote w.db write, inr same)
answer_with-Fair wrap blocked id d (failed e, w) (write, inl (b, p, good)) = absurd (cc)
answer_with-Fair wrap blocked id d (failed e, w) (write, inr same) = (wrote w.db write, inr same)

respond-Answered :
    {P : Type 0} (c : Checked P) (call : P → World → Reply × World) (w : World)
    → ((p : P) → Answered w.db (call p w))
    → Answered w.db (respond c call w)
unfolding respond
respond-Answered (refused e) call w h = (wrote w.db nothing, inr refl)
respond-Answered (passed p) call w h = h p

module _ (env : Env) (site : Site) where
  -- A handler that calls a method behind its checks.
  called-Answered :
      {P R : Type 0} (c : Checked P) (wrap : R → Payload) (blocked : R → Bool) (id : P → ℤ)
      (call : P → World → ℕ → Exec World R) (w : World)
      → ((p : P) (n : ℕ) → Fair blocked w.db (call p w n w))
      → Answered w.db
          (respond c (λ p v. answer_with wrap blocked (id p) (at_id env (id p) (call p v) v)) w)
  called-Answered c wrap blocked id call w h =
      respond-Answered c (λ p v. answer_with wrap blocked (id p) (at_id env (id p) (call p v) v)) w
        (λ p.
          answer_with-Fair wrap blocked (id p) w.db (at_id env (id p) (call p w) w)
            (at_id-Fair env blocked (id p) (call p w) w (h p)))

  healthz-Answered : (w : World) → Answered w.db (handle_healthz env site w)
  unfolding handle_healthz
  healthz-Answered w = (wrote w.db nothing, inr refl)

  created_reply-Answered :
      (req : CreateTaskRequest) (w : World) (z : Outcome CreateTaskResult × World)
      → CreateEnds env site.blank
          (site.today w.calls)
          req
          (site.registries w.calls)
          (site.network w.calls)
          site.ax_api_base
          w
          z
      → Answered w.db (created_reply z)
  unfolding created_reply
  created_reply-Answered req w (ok a, v) (inl (same, _, _)) =
      (subst (Change w.db) (sym same) (wrote w.db nothing), inr same)
  created_reply-Answered req w (no_rows, v) (inl (same, _, _)) =
      (subst (Change w.db) (sym same) (wrote w.db nothing), inr same)
  created_reply-Answered req w (failed e, v) (inl (same, _, _)) =
      (subst (Change w.db) (sym same) (wrote w.db nothing), inr same)
  created_reply-Answered req w (no_rows, v) (inr (stamp, advs, good, (e, _, _))) = absurd (cc)
  created_reply-Answered req w (failed x, v) (inr (stamp, advs, good, (e, _, _))) = absurd (cc)
  created_reply-Answered req w (ok a, v) (inr (stamp, advs, good, (e, stored, _))) = (
    subst (Change w.db) (sym stored) (made env site.blank (site.today w.calls) req _ _ stamp _),
    inl (passes a _ e refl),
  )
    where
      passes :
          (x y : CreateTaskResult)
          → Path (Outcome CreateTaskResult) (ok x) (ok y)
          → y.failures ≡ []
          → Path ℕ (if some_failed x.failures then 422 else 200) 200
      passes x y p q =
          let same : x ≡ y = cc in
          let none_failed : x.failures ≡ [] = ap (λ (z : CreateTaskResult). z.failures) same ∙ q in
          rw none_failed refl

  create-Answered :
      (req : CreateTaskRequest) (w : World)
      → Answered w.db (
          created_reply (
            create_task env site.blank
              (site.today w.calls)
              req
              (site.registries w.calls)
              (site.network w.calls)
              site.ax_api_base
              w))
  create-Answered req w = created_reply-Answered req w _ (
      create_task_ends env site.blank (site.today w.calls) req (site.registries w.calls)
        (site.network w.calls) site.ax_api_base w)

  dispatch-Answered :
      (e : Endpoint) (r : HttpRequest) (w : World) → Answered w.db (dispatch env site e r w)
  unfolding dispatch handle_create handle_get_task handle_advance handle_take handle_release
      handle_cancel handle_supersede handle_review_submit handle_verify handle_postmortem
      handle_revision handle_update
  dispatch-Answered Endpoint.healthz r w = healthz-Answered w
  dispatch-Answered Endpoint.create r w =
      respond-Answered (parse_create r) _ w (λ req. create-Answered req w)
  dispatch-Answered Endpoint.task r w =
      called-Answered (parse_id r) a_task never_blocked (λ id. id) (λ _ _. get_task env) w
        (λ _ n. get_task-Fair env site.scorers n w)
  dispatch-Answered Endpoint.advance r w =
      called-Answered (parse_advance r) an_advance (λ a. some_failed a.failures) (λ p. p.0)
        (λ p v n. advance_task env (site.scorers v.calls) n p.1 p.2) w
        (λ p n. advance_task-Fair env site.scorers n p.1 p.2 w)
  dispatch-Answered Endpoint.take r w =
      called-Answered (parse_agent r) an_advance (λ a. some_failed a.failures) (λ p. p.0)
        (λ p _ n. take_task env n p.1) w (λ p n. take_task-Fair env site.scorers n p.1 w)
  dispatch-Answered Endpoint.release r w =
      called-Answered (parse_agent r) an_advance (λ a. some_failed a.failures) (λ p. p.0)
        (λ p _ n. release_task env n p.1) w (λ p n. release_task-Fair env site.scorers n p.1 w)
  dispatch-Answered Endpoint.cancel r w =
      called-Answered (parse_cancel r) an_advance (λ a. some_failed a.failures) (λ p. p.0)
        (λ p _ n. cancel_task env n p.1 p.2) w
        (λ p n. cancel_task-Fair env site.scorers n p.1 p.2 w)
  dispatch-Answered Endpoint.supersede r w =
      called-Answered (parse_supersede r) a_supersede (λ a. some_failed a.failures) (λ p. p.0)
        (λ p _ n. supersede_task env n p.1 p.2) w
        (λ p n. supersede_task-Fair env site.scorers n p.1 p.2 w)
  dispatch-Answered Endpoint.review_submit r w =
      called-Answered (parse_review_submit r) a_review never_blocked (λ p. p.0)
        (λ (p : ℤ × ReviewCall) _ n.
          submit_review env n p.1.agent p.1.reviewer p.1.verdict p.1.summary p.1.is_aggregate)
        w
        (λ p n.
          submit_review-Fair env site.scorers n p.1.agent p.1.reviewer p.1.verdict p.1.summary
            p.1.is_aggregate w)
  dispatch-Answered Endpoint.verify r w =
      called-Answered (parse_verify r) a_verify never_blocked (λ p. p.0)
        (λ p _ n. verify_task env n p.1 p.2) w
        (λ p n. verify_task-Fair env site.scorers n p.1 p.2 w)
  dispatch-Answered Endpoint.postmortem r w =
      called-Answered (parse_with "path" r) a_postmortem never_blocked (λ p. p.0)
        (λ p _ n. set_postmortem env n p.1 p.2) w
        (λ p n. set_postmortem-Fair env site.scorers n p.1 p.2 w)
  dispatch-Answered Endpoint.revision r w =
      called-Answered (parse_with "reason" r) a_revision (λ a. some_failed a.failures) (λ p. p.0)
        (λ p _ n. request_revision env n p.1 p.2) w
        (λ p n. request_revision-Fair env site.scorers n p.1 p.2 w)
  dispatch-Answered Endpoint.update r w =
      called-Answered (parse_update r) an_update (λ a. some_failed a.failures) (λ p. p.0)
        (λ p _ n. update_task_fields env n p.1 p.2) w
        (λ p n. update_task_fields-Fair env site.scorers n p.1 p.2 w)

  deliver-Answered :
      (key : List ℕ) (r : HttpRequest) (w : World) (a : HttpResponse (World → Reply × World))
      → (a ≡ served (dispatch env site r.endpoint r))
        ⊎ (a ≡ write_error 401 "X-Agent-Key required or invalid")
      → Answered w.db (deliver env site a w)
  unfolding deliver
  deliver-Answered key r w (served h) (inl e) =
      let same : h ≡ dispatch env site r.endpoint r = cc in
      subst (λ f. Answered w.db (f w)) (sym same) (dispatch-Answered r.endpoint r w)
  deliver-Answered key r w (served h) (inr e) = absurd (cc)
  deliver-Answered key r w (write_error code message) e = (wrote w.db nothing, inr refl)

  -- Whatever a request asks and whatever fails, its effect on the tables is one write or the making
  -- of one task, and the tables are as they were whenever the status of the answer is not 200.
  pub serve_http-Answered :
      (key : List ℕ) (r : HttpRequest) (w : World) → Answered w.db (serve_http env site key r w)
  unfolding serve_http
  serve_http-Answered key r w =
      deliver-Answered key r w _
        (elim (auth_middleware-Admitted key (λ q. served (dispatch env site q.endpoint q)) r) [
          | inl (_, e) ↦ inl e
          | inr (_, e) ↦ inr e
        ])
