-- ===== src/Server/Router/Coherent.antt =====
-- Every HTTP request keeps the cache coherent.
use backlog_server.Prelude.{
  ℕ, ◌+◌, String, Bool, ◌≡◌, ◌≢◌, Bool-cases, refl, sym, ◌⊎◌, inl, inr, List, arith,
}
use mathlib.Core.Path.{subst}
use Prim.Native.String.{◌++◌}
use backlog_server.Prelude.Int.{ℤ, pos, negsuc}
use backlog_server.Prelude.Decimal.{decimal}
use backlog_server.Cache
use backlog_server.Exec.{Exec, Outcome, ok, no_rows, failed, continue}
use backlog_server.Server.Auth.{Endpoint, HttpRequest, HttpResponse, served, write_error}
use backlog_server.Server.Auth.Admission.{auth_middleware-Admitted}
use backlog_server.Server.Parsing.{
  Checked, refused, passed, ReviewCall, parse_id, parse_create, parse_agent, parse_advance,
  parse_cancel, parse_supersede, parse_review_submit, parse_verify, parse_with, parse_update,
}
use backlog_server.Server.Handlers.{
  Payload, a_task, an_advance, a_supersede, a_review, a_verify, a_postmortem, a_revision, an_update,
  Reply, answer_with, respond, at_id, absent, no_row, never_blocked, some_failed, Site,
  created_reply, handle_healthz, handle_create, handle_get_task, handle_advance, handle_take,
  handle_release, handle_cancel, handle_supersede, handle_review_submit, handle_verify,
  handle_postmortem, handle_revision, handle_update,
}
use backlog_server.Server.Router.{dispatch, deliver, serve_http}
use backlog_server.Store.Db.{Task}
use backlog_server.Store.Session.{Env, World, get_task, cache_or_fetch}
use backlog_server.Store.Session.Endings.{db-cache_or_fetch, cache-cache_or_fetch}
use backlog_server.Store.Session.Coherent.{
  Coherent, get_task-Coherent, less_room, same-Coherent, bumped-Coherent,
}
use backlog_server.Store.Create.{CreateTaskRequest, Registries}
use backlog_server.Store.Create.CrossDb.{Ping}
use backlog_server.Store.Create.Pipeline.{CreateTaskResult, create_task}
use backlog_server.Store.Create.Pipeline.Ends.{create_task_ends}
use backlog_server.Store.Take.{take_task, release_task}
use backlog_server.Store.Close.{cancel_task, supersede_task}
use backlog_server.Store.Incident.{verify_task, set_postmortem, request_revision}
use backlog_server.Store.Review.{submit_review}
use backlog_server.Store.Update.{update_task_fields}
use backlog_server.Store.Update.Coherent.{update_task_fields-Coherent}
use backlog_server.Store.Advance.{advance_task}
use backlog_server.Store.Take.Coherent.{take_task-Coherent, release_task-Coherent}
use backlog_server.Store.Close.Coherent.{cancel_task-Coherent, supersede_task-Coherent}
use backlog_server.Store.Incident.Coherent.{
  verify_task-Coherent, set_postmortem-Coherent, request_revision-Coherent,
}
use backlog_server.Store.Review.Coherent.{submit_review-Coherent}
use backlog_server.Store.Advance.Coherent.{advance_task-Coherent}

kept-answer_with :
    {R : Type 0} (wrap : R → Payload) (blocked : R → Bool) (id : ℤ) (r : Outcome R × World)
    → (answer_with wrap blocked id r).1 ≡ r.1
unfolding answer_with
kept-answer_with wrap blocked id (ok a, w) = refl
kept-answer_with wrap blocked id (no_rows, w) = refl
kept-answer_with wrap blocked id (failed e, w) = refl

kept-created_reply : (r : Outcome CreateTaskResult × World) → (created_reply r).1 ≡ r.1
unfolding created_reply
kept-created_reply (ok a, w) = refl
kept-created_reply (no_rows, w) = refl
kept-created_reply (failed e, w) = refl

module _ (env : Env) (k : ℕ) where
  respond-Coherent :
      {P : Type 0} (c : Checked P) (call : P → World → Reply × World) (w : World)
      → Coherent (k + 1) w
      → ((p : P) → Coherent k (call p w).1)
      → Coherent k (respond c call w).1
  unfolding respond
  respond-Coherent (refused e) call w c h = less_room k w c
  respond-Coherent (passed p) call w c h = h p

  db-no_row : (w : World) → (no_row env w).1.db ≡ w.db
  unfolding no_row
  db-no_row w = ground arith

  cache-no_row : (w : World) → (no_row env w).1.cache ≡ w.cache
  unfolding no_row
  cache-no_row w = ground arith

  no_row-missing : (w : World) (t : Task) → (no_row env w).0 ≢ ok t
  unfolding no_row
  no_row-missing w t e = elim (Bool-cases (env.fails w.calls)) [
    | inl y ↦ let p : Path (Outcome Task) _ (ok t) = rw y at e in absurd (cc)
    | inr n ↦ let p : Path (Outcome Task) _ (ok t) = rw n at e in absurd (cc)
  ]

  at_id-Coherent :
      {R : Type 0} (id : ℤ) (call : ℕ → Exec World R) (w : World)
      → Coherent (k + 1) w
      → ((n : ℕ) → Coherent k (call n w).1)
      → Coherent k (at_id env id call w).1
  unfolding at_id absent
  at_id-Coherent (pos n) call w c h = h n
  at_id-Coherent {R = R} (negsuc n) call w c h =
      let s = "task:-" ++ decimal (n + 1) in
      go (cache_or_fetch env s (no_row env) w) (db-cache_or_fetch env s (no_row env) db-no_row w)
        (cache-cache_or_fetch env s (no_row env) cache-no_row no_row-missing w)
    where
      go :
          (r : Outcome Task × World)
          → r.1.db ≡ w.db
          → r.1.cache ≡ w.cache
          → Coherent k (continue r (λ _. absent {A = R})).1
      go (ok t, v) p q = less_room k v (same-Coherent (k + 1) w v p q c)
      go (no_rows, v) p q = less_room k v (same-Coherent (k + 1) w v p q c)
      go (failed e, v) p q = less_room k v (same-Coherent (k + 1) w v p q c)

  called-Coherent :
      {P R : Type 0} (c : Checked P) (wrap : R → Payload) (blocked : R → Bool) (id : P → ℤ)
      (call : P → World → ℕ → Exec World R) (w : World)
      → Coherent (k + 1) w
      → ((p : P) (n : ℕ) → Coherent k (call p w n w).1)
      → Coherent k
          (respond c (λ p v. answer_with wrap blocked (id p) (at_id env (id p) (call p v) v)) w).1
  called-Coherent c wrap blocked id call w here h =
      respond-Coherent c (λ p v. answer_with wrap blocked (id p) (at_id env (id p) (call p v) v)) w
        here
        (λ p.
          subst (Coherent k)
            (sym (kept-answer_with wrap blocked (id p) (at_id env (id p) (call p w) w)))
            (at_id-Coherent (id p) (call p w) w here (h p)))

  create_task-Coherent :
      (blank : Task) (day : String) (r : CreateTaskRequest) (reg : Registries)
      (network : String → Ping) (base : String) (w : World)
      → Coherent (k + 1) w
      → Coherent k (create_task env blank day r reg network base w).1
  create_task-Coherent blank day r reg network base w c =
      let v = (create_task env blank day r reg network base w).1 in
      elim (create_task_ends env blank day r reg network base w) [
        | inl (p, q, _) ↦ less_room k v (same-Coherent (k + 1) w v p q c)
        | inr (stamp, advs, good, (e, stored, bumped)) ↦
            same-Coherent k (record { db = v.db; cache = Cache.bump w.cache; calls = 0 }) v refl
              bumped (bumped-Coherent k w v.db 0 c)
      ]

module _ (env : Env) (site : Site) (k : ℕ) where
  healthz-Coherent : (w : World) → Coherent (k + 1) w → Coherent k (handle_healthz env site w).1
  unfolding handle_healthz
  healthz-Coherent w c = same-Coherent k w (handle_healthz env site w).1 refl refl (less_room k w c)

  dispatch-Coherent :
      (e : Endpoint) (r : HttpRequest) (w : World)
      → Coherent (k + 1) w
      → Coherent k (dispatch env site e r w).1
  unfolding dispatch handle_create handle_get_task handle_advance handle_take handle_release
      handle_cancel handle_supersede handle_review_submit handle_verify handle_postmortem
      handle_revision handle_update
  dispatch-Coherent Endpoint.healthz r w c = healthz-Coherent w c
  dispatch-Coherent Endpoint.create r w c = respond-Coherent env k (parse_create r) _ w c (λ req.
      subst (Coherent k)
        (sym (
          kept-created_reply (
            create_task env site.blank (site.today w.calls) req (site.registries w.calls)
              (site.network w.calls) site.ax_api_base w)))
        (create_task-Coherent env k site.blank (site.today w.calls) req (site.registries w.calls)
          (site.network w.calls) site.ax_api_base w c))
  dispatch-Coherent Endpoint.task r w c =
      called-Coherent env k (parse_id r) a_task never_blocked (λ id. id) (λ _ _. get_task env) w c
        (λ _ n. less_room k (get_task env n w).1 (get_task-Coherent env n (k + 1) w c).0)
  dispatch-Coherent Endpoint.advance r w c =
      called-Coherent env k (parse_advance r) an_advance (λ a. some_failed a.failures) (λ p. p.0)
        (λ p v n. advance_task env (site.scorers v.calls) n p.1 p.2) w c
        (λ p n. advance_task-Coherent env (site.scorers w.calls) n p.1 p.2 k w c)
  dispatch-Coherent Endpoint.take r w c =
      called-Coherent env k (parse_agent r) an_advance (λ a. some_failed a.failures) (λ p. p.0)
        (λ p _ n. take_task env n p.1) w c (λ p n. take_task-Coherent env n p.1 k w c)
  dispatch-Coherent Endpoint.release r w c =
      called-Coherent env k (parse_agent r) an_advance (λ a. some_failed a.failures) (λ p. p.0)
        (λ p _ n. release_task env n p.1) w c (λ p n. release_task-Coherent env n p.1 k w c)
  dispatch-Coherent Endpoint.cancel r w c =
      called-Coherent env k (parse_cancel r) an_advance (λ a. some_failed a.failures) (λ p. p.0)
        (λ p _ n. cancel_task env n p.1 p.2) w c (λ p n. cancel_task-Coherent env n p.1 p.2 k w c)
  dispatch-Coherent Endpoint.supersede r w c =
      called-Coherent env k (parse_supersede r) a_supersede (λ a. some_failed a.failures) (λ p. p.0)
        (λ p _ n. supersede_task env n p.1 p.2) w c
        (λ p n. supersede_task-Coherent env n p.1 p.2 k w c)
  dispatch-Coherent Endpoint.review_submit r w c =
      called-Coherent env k (parse_review_submit r) a_review never_blocked (λ p. p.0)
        (λ (p : ℤ × ReviewCall) _ n.
          submit_review env n p.1.agent p.1.reviewer p.1.verdict p.1.summary p.1.is_aggregate)
        w c
        (λ p n.
          submit_review-Coherent env n p.1.agent p.1.reviewer p.1.verdict p.1.summary
            p.1.is_aggregate k w c)
  dispatch-Coherent Endpoint.verify r w c =
      called-Coherent env k (parse_verify r) a_verify never_blocked (λ p. p.0)
        (λ p _ n. verify_task env n p.1 p.2) w c (λ p n. verify_task-Coherent env n p.1 p.2 k w c)
  dispatch-Coherent Endpoint.postmortem r w c =
      called-Coherent env k (parse_with "path" r) a_postmortem never_blocked (λ p. p.0)
        (λ p _ n. set_postmortem env n p.1 p.2) w c
        (λ p n. set_postmortem-Coherent env n p.1 p.2 k w c)
  dispatch-Coherent Endpoint.revision r w c =
      called-Coherent env k (parse_with "reason" r) a_revision (λ a. some_failed a.failures)
        (λ p. p.0) (λ p _ n. request_revision env n p.1 p.2) w c
        (λ p n. request_revision-Coherent env n p.1 p.2 k w c)
  dispatch-Coherent Endpoint.update r w c =
      called-Coherent env k (parse_update r) an_update (λ a. some_failed a.failures) (λ p. p.0)
        (λ p _ n. update_task_fields env n p.1 p.2) w c
        (λ p n. update_task_fields-Coherent env n p.1 p.2 k w c)

  deliver-Coherent :
      (r : HttpRequest) (w : World) (a : HttpResponse (World → Reply × World))
      → (a ≡ served (dispatch env site r.endpoint r))
        ⊎ (a ≡ write_error 401 "X-Agent-Key required or invalid")
      → Coherent (k + 1) w
      → Coherent k (deliver env site a w).1
  unfolding deliver
  deliver-Coherent r w (served h) (inl e) c =
      let same : h ≡ dispatch env site r.endpoint r = cc in
      subst (λ f. Coherent k (f w).1) (sym same) (dispatch-Coherent r.endpoint r w c)
  deliver-Coherent r w (served h) (inr e) c = absurd (cc)
  deliver-Coherent r w (write_error code message) e c = less_room k w c

  pub serve_http-Coherent :
      (key : List ℕ) (r : HttpRequest) (w : World)
      → Coherent (k + 1) w
      → Coherent k (serve_http env site key r w).1
  unfolding serve_http
  serve_http-Coherent key r w =
      deliver-Coherent r w _
        (elim (auth_middleware-Admitted key (λ q. served (dispatch env site q.endpoint q)) r) [
          | inl (_, e) ↦ inl e
          | inr (_, e) ↦ inr e
        ])
